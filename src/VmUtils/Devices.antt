-- ===== src/VmUtils/Devices.antt =====
-- The devices of a machine's XML after the changes of `configureNewVM`.
use mathlib.Core.List.{append_assoc, append-nil}
use idsproject.Base.{
  Text, codes, text_eq, text_eq_iff, text_eq_refl, Bool, true, false, ◌||◌, any, any-append, Option,
  none, some, ◌↔◌, List, [], ◌∷◌, ◌++◌, ◌≡◌, ◌≢◌, refl, sym, ◌∙◌, arith, Bool-cases, inl, inr,
  if◌then◌else◌,
}
use idsproject.Host.{Tinyxml}
use idsproject.VmUtils.Kinds.{
  Any, any_iff, IsDefaultNetwork, IsBridge, IsChannel, KeptOthers, without_nat-KeptOthers,
  is_bridge_iff, is_channel_iff, is_default_nat_iff,
}
use idsproject.VmUtils.{
  is_text, is_device, is_bridge, is_channel, is_default_nat, detect, without_nat, insert_end_child,
  new_bridge, new_channel, add_unless, delete_nat, edit_devices,
}

-- The first element of that name.
abbrev pub first_named : {Doc El : Type 0} → Tinyxml Doc El → Text → List El → Option El
first_named xml tag [] = none
first_named xml tag (e ∷ rest) =
    if text_eq (xml.name e) tag then some e else first_named xml tag rest

-- The element, unless there was one already.
abbrev pub added : {El : Type 0} → Bool → El → List El
added has c = if has then [] else c ∷ []

-- What tinyxml2 documents of these calls.
pub record IsTree {Doc El : Type 0} (xml : Tinyxml Doc El) : Type 0 where
  pub first-children :
      (e : El) (tag : Text) → xml.first_child_element e tag ≡ first_named xml tag (xml.children e)
  pub children-with : (es : List El) (e : El) → xml.children (xml.with_children es e) ≡ es
  pub name-with : (es : List El) (e : El) → xml.name (xml.with_children es e) ≡ xml.name e
  pub attribute-with :
      (k : Text) (es : List El) (e : El)
      → xml.attribute k (xml.with_children es e) ≡ xml.attribute k e
  pub attribute-set : (k v : Text) (e : El) → xml.attribute k (xml.set_attribute k v e) ≡ some v
  pub name-set : (k v : Text) (e : El) → xml.name (xml.set_attribute k v e) ≡ xml.name e
  pub children-set : (k v : Text) (e : El) → xml.children (xml.set_attribute k v e) ≡ xml.children e
  pub name-new : (tag : Text) → xml.name (xml.new_element tag) ≡ tag
  pub children-new : (tag : Text) → xml.children (xml.new_element tag) ≡ []

module _ {Doc El : Type 0} (xml : Tinyxml Doc El) where
  -- The loop's answer is whether there is one of each kind among all children: it stops early only
  -- when both answers are known.
  pub detect-any :
      (es : List El) (b c : Bool)
      → detect xml (b, c) es ≡ (b || any (is_bridge xml) es, c || any (is_channel xml) es)
  unfolding detect
  detect-any [] b c = ground arith
  detect-any (e ∷ es) b c =
      let later = detect-any es (b || is_bridge xml e) (c || is_channel xml e) in
      ground (arith, later)

  without_nat-none : (es : List El) → any (is_default_nat xml) (without_nat xml es) ≡ false
  unfolding without_nat
  without_nat-none [] = refl
  without_nat-none (e ∷ es) = ground (arith, without_nat-none es)

  -- An element of another tag or type is kept.
  without_nat-any :
      (p : El → Bool) (es : List El)
      → ((e : El) → p e ≡ true → is_default_nat xml e ≡ false)
      → any p (without_nat xml es) ≡ any p es
  unfolding without_nat
  without_nat-any p [] other = refl
  without_nat-any p (e ∷ es) other =
      let o = other e in
      let later = without_nat-any p es other in
      elim (Bool-cases (is_default_nat xml e)) [
        | inl n ↦ elim (Bool-cases (p e)) [
          | inl yes_p ↦ absurd (cc (n, o yes_p))
          | inr not_p ↦ rw (n, not_p) later
        ]
        | inr k ↦ rw (k, later)
      ]

  is_text-same : (o : Option Text) (t u : Text) → is_text o t ≡ true → is_text o u ≡ true → t ≡ u
  unfolding is_text
  is_text-same none t u ht hu = absurd (cc)
  is_text-same (some v) t u ht hu = cc ((text_eq_iff v t).0 ht, (text_eq_iff v u).0 hu)

  -- A device of one type is none of another.
  is_device-other :
      (tag type inner key value tag' type' inner' key' value' : Text) (e : El)
      → type ≢ type'
      → is_device xml tag type inner key value e ≡ true
      → is_device xml tag' type' inner' key' value' e ≡ false
  unfolding is_device
  is_device-other tag type inner key value tag' type' inner' key' value' e ne h =
      elim (Bool-cases (is_text (xml.attribute (codes "type") e) type')) [
        | inr not_theirs ↦ ground arith
        | inl theirs ↦
            let mine : is_text (xml.attribute (codes "type") e) type ≡ true = ground arith in
            absurd (ne (is_text-same (xml.attribute (codes "type") e) type type' mine theirs))
      ]

  bridge-other : (e : El) → is_bridge xml e ≡ true → is_default_nat xml e ≡ false
  unfolding is_bridge is_default_nat
  bridge-other e h = is_device-other _ _ _ _ _ _ _ _ _ _ e (λ x. cc x) h

  channel-other : (e : El) → is_channel xml e ≡ true → is_default_nat xml e ≡ false
  unfolding is_channel is_default_nat
  channel-other e h = is_device-other _ _ _ _ _ _ _ _ _ _ e (λ x. cc x) h

module _ {Doc El : Type 0} (xml : Tinyxml Doc El) (T : IsTree xml) where
  children-insert_end_child :
      (p c : El) → xml.children (insert_end_child xml p c) ≡ xml.children p ++ c ∷ []
  unfolding insert_end_child
  children-insert_end_child p c = T.children-with (xml.children p ++ c ∷ []) p

  -- An element with the tag, the type and one child of the name and the attribute is the device.
  is_device-insert_end_child :
      (tag type inner key value : Text) (i : El)
      → xml.name i ≡ inner
      → xml.attribute key i ≡ some value
      → is_device xml tag type inner key value
          (insert_end_child xml (xml.set_attribute (codes "type") type (xml.new_element tag)) i)
        ≡ true
  unfolding is_device insert_end_child is_text
  is_device-insert_end_child tag type inner key value i named has =
      let e = xml.set_attribute (codes "type") type (xml.new_element tag) in
      let no_children : xml.children e ≡ [] = T.children-set _ _ _ ∙ T.children-new tag in
      let tagged : xml.name e ≡ tag = T.name-set _ _ _ ∙ T.name-new tag in
      rw (
        T.name-with _ e,
        tagged,
        text_eq_refl tag,
        T.attribute-with (codes "type") (xml.children e ++ i ∷ []) e,
        T.attribute-set (codes "type") type (xml.new_element tag),
        text_eq_refl type,
        T.first-children _ inner,
        T.children-with _ e,
        no_children,
        named,
        text_eq_refl inner,
        has,
        text_eq_refl value,
      )

  new_bridge-is_bridge : is_bridge xml (new_bridge xml) ≡ true
  unfolding is_bridge new_bridge
  new_bridge-is_bridge =
      is_device-insert_end_child _ _ _ _ _ _ (T.name-set _ _ _ ∙ T.name-new _)
        (T.attribute-set _ _ _)

  new_channel-is_channel : is_channel xml (new_channel xml) ≡ true
  unfolding is_channel new_channel
  new_channel-is_channel =
      is_device-insert_end_child _ _ _ _ _ _ (T.name-set _ _ _ ∙ (T.name-set _ _ _ ∙ T.name-new _))
        (T.attribute-set _ _ _)

  children-add_unless :
      (has : Bool) (c d : El)
      → xml.children (add_unless xml has c d) ≡ xml.children d ++ (if has then [] else c ∷ [])
  unfolding add_unless
  children-add_unless true c d = sym (append-nil _)
  children-add_unless false c d = children-insert_end_child d c

  children-edit_devices :
      (b c : Bool) (d : El)
      → xml.children (edit_devices xml (b, c) d)
        ≡ without_nat xml (xml.children d)
          ++ (added b (new_bridge xml) ++ added c (new_channel xml))
  unfolding edit_devices delete_nat
  children-edit_devices b c d =
      rw
        (
          children-add_unless c (new_channel xml),
          children-add_unless b (new_bridge xml),
          T.children-with,
        )
        (append_assoc (without_nat xml (xml.children d)) (added b (new_bridge xml))
          (added c (new_channel xml)))

  any-added :
      (p : El → Bool) (has : Bool) (c : El) → p c ≡ true → (has || any p (added has c)) ≡ true
  any-added p has c h = ground arith

  any-added_none : (p : El → Bool) (has : Bool) (c : El) → p c ≡ false → any p (added has c) ≡ false
  any-added_none p has c h = ground arith

  -- The same by the tests of the code.
  edited :
      (d : El)
      → (any
            (is_bridge xml)
            (xml.children (edit_devices xml (detect xml (false, false) (xml.children d)) d))
          ≡ true)
        × (any
              (is_channel xml)
              (xml.children (edit_devices xml (detect xml (false, false) (xml.children d)) d))
            ≡ true)
        × (any
              (is_default_nat xml)
              (xml.children (edit_devices xml (detect xml (false, false) (xml.children d)) d))
            ≡ false)
        × ((others : List El) × KeptOthers xml (xml.children d) others
            × (xml.children (edit_devices xml (detect xml (false, false) (xml.children d)) d)
                ≡ others
                  ++ (added (any (is_bridge xml) (xml.children d)) (new_bridge xml)
                      ++ added (any (is_channel xml) (xml.children d)) (new_channel xml))))
  edited d =
      let es = xml.children d in
      let b = any (is_bridge xml) es in
      let c = any (is_channel xml) es in
      let found : detect xml (false, false) es ≡ (b, c) = detect-any xml es false false in
      let layout = children-edit_devices b c d in
      let parts : (p : El → Bool)
          → any p (xml.children (edit_devices xml (b, c) d)) ≡ (
              any p (without_nat xml es)
              || (any p (added b (new_bridge xml)) || any p (added c (new_channel xml)))) =
        λ p. rw (layout, any-append p, any-append p) refl in
      let nb = new_bridge-is_bridge in
      let nc = new_channel-is_channel in
      let kb = without_nat-any xml (is_bridge xml) es (bridge-other xml) in
      let kc = without_nat-any xml (is_channel xml) es (channel-other xml) in
      let ab = any-added (is_bridge xml) b (new_bridge xml) nb in
      let ac = any-added (is_channel xml) c (new_channel xml) nc in
      let pb = parts (is_bridge xml) in
      let pc = parts (is_channel xml) in
      let pn = parts (is_default_nat xml) in
      let nn = without_nat-none xml es in
      let xb =
        any-added_none (is_default_nat xml) b (new_bridge xml)
          (bridge-other xml (new_bridge xml) nb) in
      let xc =
        any-added_none (is_default_nat xml) c (new_channel xml)
          (channel-other xml (new_channel xml) nc) in
      rw found (
        ground (arith, pb, kb, ab),
        ground (arith, pc, kc, ac),
        ground (arith, pn, nn, xb, xc),
        (without_nat xml es, without_nat-KeptOthers xml es, layout),
      )

  -- Behind the changes that `configureNewVM` makes, the devices have a bridge interface to
  -- `red-central`, a channel of the guest agent and no interface of the default network; they are all
  -- the devices of before but the interfaces of the default network, in their order, and at most these
  -- two behind them, each only where it was missing.
  pub edit_devices-Prepared :
      (d : El)
      → (others : List El) × (has_bridge : Bool) × (has_channel : Bool) × KeptOthers xml
          (xml.children d)
          others
        × ((has_bridge ≡ true) ↔ Any (IsBridge xml) (xml.children d))
        × ((has_channel ≡ true) ↔ Any (IsChannel xml) (xml.children d))
        × (xml.children (edit_devices xml (detect xml (false, false) (xml.children d)) d)
            ≡ others ++ (added has_bridge (new_bridge xml) ++ added has_channel (new_channel xml)))
        × Any
            (IsBridge xml)
            (xml.children (edit_devices xml (detect xml (false, false) (xml.children d)) d))
        × Any
            (IsChannel xml)
            (xml.children (edit_devices xml (detect xml (false, false) (xml.children d)) d))
        × (Any
              (IsDefaultNetwork xml)
              (xml.children (edit_devices xml (detect xml (false, false) (xml.children d)) d))
            → ⊥)
  edit_devices-Prepared d =
      let (b, c, n, rest) = edited d in
      let (others, kept, layout) = rest in
      let bridges = any_iff (is_bridge xml) (IsBridge xml) (is_bridge_iff xml) in
      let channels = any_iff (is_channel xml) (IsChannel xml) (is_channel_iff xml) in
      let nats = any_iff (is_default_nat xml) (IsDefaultNetwork xml) (is_default_nat_iff xml) in
      (
        others,
        any (is_bridge xml) (xml.children d),
        any (is_channel xml) (xml.children d),
        kept,
        bridges (xml.children d),
        channels (xml.children d),
        layout,
        (bridges _).0 b,
        (channels _).0 c,
        λ h. absurd (cc (n, (nats _).1 h)),
      )
