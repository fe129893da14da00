-- ===== src/Network/Rules.antt =====
-- What a filter of the configuration means to the code, and which filter an alert names.
use idsproject.Base.{
  Text, ℕ, ◌≤◌, ◌<◌, ◌++◌, codes, ℤ, pos, is_empty, text_eq_iff, starts_with, starts_with_iff,
  has_sub, Bool, true, false, ◌&&◌, ◌||◌, any, eqb_ℤ, none, some, List, [], ◌∷◌, ◌≡◌, ◌↔◌, ◌⊎◌, inl,
  inr, refl, arith, All, or_iff, iff_trans, sum_iff, Bool-cases, if◌then◌else◌,
}
use idsproject.Config.{NetworkFilter}
use idsproject.Network.{
  protocol_passes, is_port, list_passes, ports_pass, range_passes, net_part, ip_passes, passes,
  match_filters,
}
use idsproject.Network.Pattern.{Packet}

abbrev pub IsIn : ℕ → List ℤ → Type 0
IsIn p [] = ⊥
IsIn p (q ∷ qs) = (pos p ≡ q) ⊎ IsIn p qs

abbrev pub StartsWith : Text → Text → Type 0
StartsWith pre s = (rest : Text) × (s ≡ pre ++ rest)

-- The line and the packet meet the rule: a protocol by its mark in the line, the destination's port
-- in the list if there is one and in the range if its first end is below its second, and the source's
-- or the destination's address by a textual prefix.
pub record Matches (f : NetworkFilter) (line : Text) (p : Packet) : Type 0 where
  pub tcp : f.protocol ≡ codes "tcp" → has_sub (codes "Flags [") line ≡ true
  pub udp : f.protocol ≡ codes "udp" → has_sub (codes ": UDP,") line ≡ true
  pub ports : (f.ports ≡ []) ⊎ IsIn p.dst_port f.ports
  pub range :
      f.range_first < f.range_second → (f.range_first ≤ p.dst_port) × (p.dst_port ≤ f.range_second)
  pub ip : (f.ip ≡ []) ⊎ (StartsWith (net_part f.ip) p.src_ip ⊎ StartsWith (net_part f.ip) p.dst_ip)

protocol_passes_iff :
    (f : NetworkFilter) (line : Text)
    → (protocol_passes f line ≡ true) ↔ (
        (f.protocol ≡ codes "tcp" → has_sub (codes "Flags [") line ≡ true)
        × (f.protocol ≡ codes "udp" → has_sub (codes ": UDP,") line ≡ true))
unfolding protocol_passes
protocol_passes_iff f line = (there, back)
  where
    there :
        protocol_passes f line ≡ true
        → (f.protocol ≡ codes "tcp" → has_sub (codes "Flags [") line ≡ true)
          × (f.protocol ≡ codes "udp" → has_sub (codes ": UDP,") line ≡ true)
    there h = (
      λ e. ground (arith, text_eq_iff f.protocol (codes "tcp")),
      λ e. ground (arith, text_eq_iff f.protocol (codes "udp")),
    )

    back :
        (f.protocol ≡ codes "tcp" → has_sub (codes "Flags [") line ≡ true)
          × (f.protocol ≡ codes "udp" → has_sub (codes ": UDP,") line ≡ true)
        → protocol_passes f line ≡ true
    back (t, u) =
        ground (arith, text_eq_iff f.protocol (codes "tcp"), text_eq_iff f.protocol (codes "udp"))

eqb_iff : (p : ℕ) (q : ℤ) → (eqb_ℤ (pos p) q ≡ true) ↔ (pos p ≡ q)
eqb_iff p q = ground arith

any-is_port_iff : (p : ℕ) (qs : List ℤ) → (any (is_port p) qs ≡ true) ↔ IsIn p qs
unfolding is_port
any-is_port_iff p [] = (λ h. cc, λ h. elim h [ ])
any-is_port_iff p (q ∷ qs) =
    iff_trans (or_iff (is_port p q) (any (is_port p) qs))
      (sum_iff (eqb_iff p q) (any-is_port_iff p qs))

list_passes_iff : (qs : List ℤ) (p : ℕ) → (list_passes qs p ≡ true) ↔ ((qs ≡ []) ⊎ IsIn p qs)
unfolding list_passes
list_passes_iff [] p = (λ _. inl refl, λ _. refl)
list_passes_iff (q ∷ qs) p = (λ h. inr ((any-is_port_iff p (q ∷ qs)).0 h), back)
  where
    back : (q ∷ qs ≡ []) ⊎ IsIn p (q ∷ qs) → list_passes (q ∷ qs) p ≡ true
    back (inl e) = cc
    back (inr i) = (any-is_port_iff p (q ∷ qs)).1 i

ports_pass_iff :
    (f : NetworkFilter) (p : ℕ) → (ports_pass f p ≡ true) ↔ ((f.ports ≡ []) ⊎ IsIn p f.ports)
unfolding ports_pass
ports_pass_iff f p = list_passes_iff f.ports p

range_passes_iff :
    (f : NetworkFilter) (p : ℕ)
    → (range_passes f p ≡ true)
      ↔ (f.range_first < f.range_second → (f.range_first ≤ p) × (p ≤ f.range_second))
unfolding range_passes
range_passes_iff f p = ground arith

ip_test_iff :
    (ip net src dst : Text)
    → ((if is_empty ip then true else starts_with net src || starts_with net dst) ≡ true)
      ↔ ((ip ≡ []) ⊎ (StartsWith net src ⊎ StartsWith net dst))
ip_test_iff [] net src dst = (λ _. inl refl, λ _. refl)
ip_test_iff (c ∷ ip) net src dst =
    let e =
      iff_trans (or_iff (starts_with net src) (starts_with net dst))
        (sum_iff (starts_with_iff net src) (starts_with_iff net dst)) in
    (λ h. inr (e.0 h), λ h. e.1 (only_right h))
  where
    only_right : {A : Type 0} → (c ∷ ip ≡ []) ⊎ A → A
    only_right (inl e) = absurd (cc)
    only_right (inr a) = a

ip_passes_iff :
    (f : NetworkFilter) (src dst : Text)
    → (ip_passes f src dst ≡ true)
      ↔ ((f.ip ≡ []) ⊎ (StartsWith (net_part f.ip) src ⊎ StartsWith (net_part f.ip) dst))
unfolding ip_passes
ip_passes_iff f src dst = ip_test_iff f.ip (net_part f.ip) src dst

and_iff : (a b : Bool) → ((a && b) ≡ true) ↔ ((a ≡ true) × (b ≡ true))
and_iff a b = ground arith

-- A filter passes exactly when the packet and its line meet the rule.
pub passes_iff :
    (f : NetworkFilter) (line : Text) (p : Packet) → (passes f line p ≡ true) ↔ Matches f line p
unfolding passes
passes_iff f line p = (
  λ h.
      let (a, h1) = (and_iff _ _).0 h in
      let (b, h2) = (and_iff _ _).0 h1 in
      let (c, d) = (and_iff _ _).0 h2 in
      let (t, u) = (protocol_passes_iff f line).0 a in
      record {
        tcp = t;
        udp = u;
        ports = (ports_pass_iff f p.dst_port).0 b;
        range = (range_passes_iff f p.dst_port).0 c;
        ip = (ip_passes_iff f p.src_ip p.dst_ip).0 d;
      },
  λ m. (and_iff _ _).1 (
    (protocol_passes_iff f line).1 (m.tcp, m.udp),
    (and_iff _ _).1 (
      (ports_pass_iff f p.dst_port).1 m.ports,
      (and_iff _ _).1
          ((range_passes_iff f p.dst_port).1 m.range, (ip_passes_iff f p.src_ip p.dst_ip).1 m.ip),
    ),
  ),
)

-- The filters before this one do not match.
abbrev pub NoneMatch : List NetworkFilter → Text → Packet → Type 0
NoneMatch fs line p = All (λ f. ¬ Matches f line p) fs

not_passes :
    (f : NetworkFilter) (line : Text) (p : Packet) → passes f line p ≡ false → ¬ Matches f line p
not_passes f line p h m = cc ((passes_iff f line p).1 m)

-- At most one alert is given for a packet: it names the first filter that the packet meets, with the
-- packet itself, and there is none exactly when no filter is met.
pub match_filters-first :
    (fs : List NetworkFilter) (line : Text) (p : Packet)
    → ((match_filters fs line p ≡ none) × NoneMatch fs line p)
      ⊎ ((before : List NetworkFilter) × (rule : NetworkFilter) × (after : List NetworkFilter) × (fs
            ≡ before ++ rule ∷ after)
          × NoneMatch before line p
          × Matches rule line p
          × (match_filters fs line p ≡ some (record { rule = rule; packet = p })))
unfolding match_filters
match_filters-first [] line p = inl (refl, tt)
match_filters-first (f ∷ fs) line p = elim (Bool-cases (passes f line p)) [
  | inl yes_f ↦ inr ([], f, fs, refl, tt, (passes_iff f line p).0 yes_f, rw yes_f)
  | inr not_f ↦ elim (match_filters-first fs line p) [
    | inl (e, n) ↦ inl (rw not_f e, (not_passes f line p not_f, n))
    | inr (before, rule, after, e, n, m, r) ↦
        inr (f ∷ before, rule, after, rw e, (not_passes f line p not_f, n), m, rw not_f r)
  ]
]
