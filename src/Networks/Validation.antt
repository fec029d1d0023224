-- ===== src/Networks/Validation.antt =====
-- `ValidateNetworks`: it accepts exactly the lists within the limits, and returns what `Merge` does.
use netflix_pbrd.Base.{
  ℕ, ◌≡◌, refl, sym, ap, ◌∙◌, ◌≤◌, true, false, Bool, not, ◌&&◌, List, [], ◌∷◌, Option, none, some,
  Text, length, All, arith, ltb, Option-cases, inl, inr, ok, is_ok, is_err, Result-cases,
}
use netflix_pbrd.Text.{set_add, sort_strings, has_suffix}
use netflix_pbrd.Text.Sets.{length-sort_strings}
use netflix_pbrd.Networks.Merging.{IsForm, IsNetworkSet, merge-IsNetworkSet, merge_one}
use netflix_pbrd.Networks.{
  canonical_network, add_canonical, add_groups, merge, validate_loop, validate_networks,
  effective_max, host_suffix,
}

-- What `ValidateNetworks` asks of one text.
abbrev pub is_valid : Bool → Option Text → Bool
is_valid hosts_only none = false
is_valid hosts_only (some value) = not (hosts_only && not (has_suffix value host_suffix))

abbrev pub IsAccepted : Bool → Text → Type 0
IsAccepted hosts_only raw = is_valid hosts_only (canonical_network raw) ≡ true

length-set_add : (x : Text) (set : List Text) → length set ≤ length (set_add x set)
unfolding set_add
length-set_add x set = ground arith

length-add_canonical : (group set : List Text) → length set ≤ length (add_canonical group set)
unfolding add_canonical
length-add_canonical [] set = omega arith
length-add_canonical (raw ∷ group) set = elim (Option-cases (canonical_network raw)) [
  | inl bad ↦ rw bad (length-add_canonical group set)
  | inr (value, form) ↦
      rw form
        (omega (arith, length-add_canonical group (set_add value set), length-set_add value set))
]

-- A run of the loop that succeeds has accepted each text and kept the limit.
validate_loop-ok :
    (values : List Text) (hosts_only : Bool) (max : ℕ) (set : List Text) {out : List Text}
    → length set ≤ max
    → validate_loop values hosts_only max set ≡ ok out
    → (out ≡ add_canonical values set) × All (IsAccepted hosts_only) values × (length out ≤ max)
unfolding validate_loop add_canonical
validate_loop-ok [] hosts_only max set {out} h e =
    let same : out ≡ set = ground arith in (same, tt, rw same h)
validate_loop-ok (raw ∷ values) hosts_only max set {out} h e =
    elim (Option-cases (canonical_network raw)) [
      | inl bad ↦ absurd (ground arith)
      | inr (value, form) ↦
          let fits : length (set_add value set) ≤ max = ground arith in
          let host : (hosts_only && not (has_suffix value host_suffix)) ≡ false = ground arith in
          let later : validate_loop values hosts_only max (set_add value set) ≡ ok out =
            ground arith in
          let (same, valid, bound) =
            validate_loop-ok values hosts_only max (set_add value set) fits later in
          (rw form same, (rw (form, host) refl, valid), bound)
    ]

-- The other way: if each text is accepted and the set stays within the limit, the loop succeeds.
validate_loop-accepts :
    (values : List Text) (hosts_only : Bool) (max : ℕ) (set : List Text)
    → All (IsAccepted hosts_only) values
    → length (add_canonical values set) ≤ max
    → validate_loop values hosts_only max set ≡ ok (add_canonical values set)
unfolding validate_loop add_canonical
validate_loop-accepts [] hosts_only max set valid h = refl
validate_loop-accepts (raw ∷ values) hosts_only max set valid h =
    elim (Option-cases (canonical_network raw)) [
      | inl bad ↦ absurd (ground (arith, valid.0))
      | inr (value, form) ↦
          let host : not (hosts_only && not (has_suffix value host_suffix)) ≡ true =
            rw form at valid.0 in
          let bound : length (add_canonical values (set_add value set)) ≤ max = rw form at h in
          let fits : ltb max (length (set_add value set)) ≡ false =
            ground (arith, length-add_canonical values (set_add value set)) in
          let later =
            validate_loop-accepts values hosts_only max (set_add value set) valid.1 bound in
          let admitted = host_false _ host in ground (arith, later)
    ]
  where
    host_false : (b : Bool) → not b ≡ true → b ≡ false
    host_false b h = ground arith

add_canonical-merge :
    (values : List Text) → sort_strings (add_canonical values []) ≡ merge (values ∷ [])
unfolding merge add_groups
add_canonical-merge values = refl

length-merge_one :
    (values : List Text) → length (merge (values ∷ [])) ≡ length (add_canonical values [])
length-merge_one values =
    ap length (sym (add_canonical-merge values)) ∙ length-sort_strings (add_canonical values [])

-- What an accepted list satisfies.
pub record IsValidated (values : List Text) (hosts_only : Bool) (max : ℕ) (out : List Text)
    : Type 0 where
  pub merged : out ≡ merge (values ∷ [])
  pub accepted : All (IsAccepted hosts_only) values
  pub bounded : length out ≤ effective_max max

-- If `ValidateNetworks` returns a set, every text is a public network (a host if only hosts are
-- allowed), the set is what `Merge` makes of the texts, and its size is within the limit.
pub validate_networks-ok :
    (values : List Text) (hosts_only : Bool) (max : ℕ) {out : List Text}
    → validate_networks values hosts_only max ≡ ok out
    → IsValidated values hosts_only max out
unfolding validate_networks
validate_networks-ok values hosts_only max {out} e =
    elim (Result-cases (validate_loop values hosts_only (effective_max max) [])) [
      | is_err bad q ↦ absurd (ground arith)
      | is_ok set q ↦
          let (same, valid, bound) =
            validate_loop-ok values hosts_only (effective_max max) [] (omega arith) q in
          let sorted : sort_strings set ≡ out = ground arith in
          let merged : out ≡ merge (values ∷ []) =
            sym sorted ∙ ap sort_strings same ∙ add_canonical-merge values in
          record {
            merged = merged;
            accepted = valid;
            bounded = omega (arith, ap length sorted, length-sort_strings set);
          }
    ]

-- The other way: a list whose texts are all accepted and whose merged set is within the limit is
-- never refused.
pub validate_networks-accepts :
    (values : List Text) (hosts_only : Bool) (max : ℕ)
    → All (IsAccepted hosts_only) values
    → length (merge (values ∷ [])) ≤ effective_max max
    → validate_networks values hosts_only max ≡ ok (merge (values ∷ []))
unfolding validate_networks
validate_networks-accepts values hosts_only max valid h =
    rw
      (validate_loop-accepts values hosts_only (effective_max max) [] valid
        (rw length-merge_one at h))
      (ap ok (add_canonical-merge values))

All-IsAccepted : (set : List Text) → All IsForm set → All (IsAccepted false) set
All-IsAccepted [] h = tt
All-IsAccepted (x ∷ set) h = (rw h.0 refl, All-IsAccepted set h.1)

-- A set of networks within the limit is returned as it is.
pub validate_networks_of_set :
    (set : List Text) (max : ℕ)
    → IsNetworkSet set
    → length set ≤ effective_max max
    → validate_networks set false max ≡ ok set
validate_networks_of_set set max h bound =
    validate_networks-accepts set false max (All-IsAccepted set h.forms)
      (rw (merge_one set h) bound)
    ∙ ap ok (merge_one set h)

-- A merged list that is accepted is returned as it is.
pub validate_networks-merge :
    (groups : List (List Text)) (hosts_only : Bool) (max : ℕ) {out : List Text}
    → validate_networks (merge groups) hosts_only max ≡ ok out
    → (out ≡ merge groups) × (length out ≤ effective_max max)
validate_networks-merge groups hosts_only max e =
    let v = validate_networks-ok (merge groups) hosts_only max e in
    (v.merged ∙ merge_one (merge groups) (merge-IsNetworkSet groups), v.bounded)

abbrev pub IsHost : Text → Type 0
IsHost w = has_suffix w host_suffix ≡ true

All-IsHost : (set : List Text) → All IsForm set → All (IsAccepted true) set → All IsHost set
All-IsHost [] h k = tt
All-IsHost (x ∷ set) h k = (plain _ (rw h.0 at k.0), All-IsHost set h.1 k.1)
  where
    plain : (b : Bool) → not (true && not b) ≡ true → b ≡ true
    plain b e = ground arith

-- Where only hosts are allowed, a merged list that is accepted holds only hosts.
pub validate_networks-hosts :
    (groups : List (List Text)) (max : ℕ) {out : List Text}
    → validate_networks (merge groups) true max ≡ ok out
    → All IsHost out
validate_networks-hosts groups max e =
    let v = validate_networks-ok (merge groups) true max e in
    rw (validate_networks-merge groups true max e).0
      (All-IsHost (merge groups) (merge-IsNetworkSet groups).forms v.accepted)

-- The returned set consists of canonical forms in strictly ascending order.
pub validate_networks-IsNetworkSet :
    (values : List Text) (hosts_only : Bool) (max : ℕ) {out : List Text}
    → validate_networks values hosts_only max ≡ ok out
    → IsNetworkSet out
validate_networks-IsNetworkSet values hosts_only max e =
    rw (validate_networks-ok values hosts_only max e).merged (merge-IsNetworkSet (values ∷ []))
