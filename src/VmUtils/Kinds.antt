-- ===== src/VmUtils/Kinds.antt =====
-- The kinds of devices that `configureNewVM` looks for, and what the tests of the code say of them.
use idsproject.Base.{
  Text, codes, text_eq_iff, Bool, true, any, ◌⊎◌, Option, none, some, Option-cases, subst, ap, ◌↔◌,
  List, [], ◌∷◌, ◌≡◌, refl, arith, Bool-cases, inl, inr,
}
use idsproject.Host.{Tinyxml}
use idsproject.VmUtils.{is_text, is_device, is_bridge, is_channel, is_default_nat, without_nat}

-- One of the elements is such.
abbrev pub Any : {El : Type 0} → (El → Type 0) → List El → Type 0
Any P [] = ⊥
Any P (e ∷ es) = P e ⊎ Any P es

pub any_iff :
    {El : Type 0} (p : El → Bool) (P : El → Type 0)
    → ((e : El) → (p e ≡ true) ↔ P e)
    → (es : List El) → (any p es ≡ true) ↔ Any P es
any_iff p P same [] = (λ h. absurd (cc), λ h. absurd h)
any_iff p P same (e ∷ es) =
    let later = any_iff p P same es in
    elim (Bool-cases (p e)) [
      | inl here ↦ (λ _. inl ((same e).0 here), λ _. ground (arith, here))
      | inr other ↦ (
        λ h. inr (later.0 (ground (arith, other, h))),
        λ h. elim h [
          | inl d ↦ absurd (cc (other, (same e).1 d))
          | inr ds ↦ ground (arith, other, later.1 ds)
        ],
      )
    ]

module _ {Doc El : Type 0} (xml : Tinyxml Doc El) where
  -- A device by its tag, its type, and an attribute of its first child with some name.
  pub record IsDevice (tag type inner key value : Text) (e : El) : Type 0 where
    pub tagged : xml.name e ≡ tag
    pub typed : xml.attribute (codes "type") e ≡ some type
    pub child :
        (i : El) × (xml.first_child_element e inner ≡ some i) × (xml.attribute key i ≡ some value)

  -- An interface of the network `default`.
  abbrev pub IsDefaultNetwork : El → Type 0
  IsDefaultNetwork =
      IsDevice (codes "interface") (codes "network") (codes "source") (codes "network")
        (codes "default")

  -- An interface to the bridge `red-central`.
  abbrev pub IsBridge : El → Type 0
  IsBridge =
      IsDevice (codes "interface") (codes "bridge") (codes "source") (codes "bridge")
        (codes "red-central")

  -- A channel of the guest agent.
  abbrev pub IsChannel : El → Type 0
  IsChannel =
      IsDevice (codes "channel") (codes "unix") (codes "target") (codes "name")
        (codes "org.qemu.guest_agent.0")

  -- The second list is the first without its interfaces of that network, and without nothing else.
  pub data KeptOthers : List El → List El → Type 0 where
    none_left : KeptOthers [] []
    deletes :
        {e : El} {before after : List El}
        → IsDefaultNetwork e
        → KeptOthers before after
        → KeptOthers (e ∷ before) after
    keeps :
        {e : El} {before after : List El}
        → (IsDefaultNetwork e → ⊥)
        → KeptOthers before after
        → KeptOthers (e ∷ before) (e ∷ after)

  is_text-some : (o : Option Text) (t : Text) → (is_text o t ≡ true) ↔ (o ≡ some t)
  unfolding is_text
  is_text-some none t = (λ h. absurd (cc), λ h. absurd (cc))
  is_text-some (some u) t = (λ h. ap some ((text_eq_iff u t).0 h), λ h. (text_eq_iff u t).1 (cc h))

  is_device_iff :
      (tag type inner key value : Text) (e : El)
      → (is_device xml tag type inner key value e ≡ true) ↔ IsDevice tag type inner key value e
  unfolding is_device
  is_device_iff tag type inner key value e =
      let named = text_eq_iff (xml.name e) tag in
      let typed = is_text-some (xml.attribute (codes "type") e) type in
      elim (Option-cases (xml.first_child_element e inner)) [
        | inl lacks ↦
            (λ h. absurd (ground arith), λ d. let (i, has, _) = d.child in absurd (cc (has, lacks)))
        | inr (i, has) ↦
            let valued = is_text-some (xml.attribute key i) value in
            (
              λ h. record {
                tagged = named.0 (ground arith);
                typed = typed.0 (ground arith);
                child = (i, has, valued.0 (ground arith));
              },
              λ d.
                  let (j, had, of_child) = d.child in
                  let same : j ≡ i = cc (had, has) in
                  let a = named.1 d.tagged in
                  let b = typed.1 d.typed in
                  let c = valued.1 (subst (λ k. xml.attribute key k ≡ some value) same of_child) in
                  rw (a, b, has, c) refl,
            )
      ]

  pub is_default_nat_iff : (e : El) → (is_default_nat xml e ≡ true) ↔ IsDefaultNetwork e
  unfolding is_default_nat
  is_default_nat_iff e = is_device_iff _ _ _ _ _ e

  pub is_bridge_iff : (e : El) → (is_bridge xml e ≡ true) ↔ IsBridge e
  unfolding is_bridge
  is_bridge_iff e = is_device_iff _ _ _ _ _ e

  pub is_channel_iff : (e : El) → (is_channel xml e ≡ true) ↔ IsChannel e
  unfolding is_channel
  is_channel_iff e = is_device_iff _ _ _ _ _ e

  pub without_nat-KeptOthers : (es : List El) → KeptOthers es (without_nat xml es)
  unfolding without_nat
  without_nat-KeptOthers [] = none_left
  without_nat-KeptOthers (e ∷ es) =
      let nat = is_default_nat_iff e in
      elim (Bool-cases (is_default_nat xml e)) [
        | inl default ↦ rw default (deletes (nat.0 default) (without_nat-KeptOthers es))
        | inr other ↦
            rw other (keeps (λ d. absurd (cc (other, nat.1 d))) (without_nat-KeptOthers es))
      ]
