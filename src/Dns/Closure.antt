-- ===== src/Dns/Closure.antt =====
-- The loop of `inspect` in internal/pbr/dns_proxy.go: which names it comes to trust, and why it ends.
use netflix_pbrd.Base.{
  ℕ, suc, ◌≤◌, ◌≡◌, refl, Bool, true, false, not, ◌&&◌, ◌||◌, List, [], ◌∷◌, Text, length, arith,
  Bool-cases, inl, inr, if◌then◌else◌,
}
use netflix_pbrd.Text.{text_eq, contains}
use netflix_pbrd.Text.Laws.{text_eq→eq, text_eq_refl}
use netflix_pbrd.Dns.{Rr, cname, a, other, Trusted, follow, pass, canonical_dns_name}

module _ (unicode_lower : Text → Text) where
  -- Whether a record makes the second name an alias target of the first, in canonical form.
  unfoldable pub has_alias : List Rr → Text → Text → Bool
  has_alias [] owner target = false
  has_alias (cname o t ∷ records) owner target =
      (text_eq (canonical_dns_name unicode_lower o) owner
        && text_eq (canonical_dns_name unicode_lower t) target)
      || has_alias records owner target
  has_alias (a o address ∷ records) owner target = has_alias records owner target
  has_alias (other o ∷ records) owner target = has_alias records owner target

  -- The names that a chain of aliases leads to from a name of `start`.
  pub data Linked (records : List Rr) (start : List Text) : Text → Type 0 where
    root : (y : Text) → contains start y ≡ true → Linked records start y
    link :
        (x y : Text)
        → Linked records start x
        → has_alias records x y ≡ true
        → Linked records start y

  pub pass-grows :
      (records : List Rr) (t : Trusted) (y : Text)
      → contains t.names y ≡ true
      → contains (pass unicode_lower records t).names y ≡ true
  unfolding pass follow contains
  pass-grows [] t y h = h
  pass-grows (cname o g ∷ records) t y h =
      pass-grows records
        (follow unicode_lower (canonical_dns_name unicode_lower o)
          (canonical_dns_name unicode_lower g) t)
        y (ground arith)
  pass-grows (a o g ∷ records) t y h = pass-grows records t y h
  pass-grows (other o ∷ records) t y h = pass-grows records t y h

  pub pass-changed :
      (records : List Rr) (t : Trusted)
      → t.changed ≡ true
      → (pass unicode_lower records t).changed ≡ true
  unfolding pass follow
  pass-changed [] t h = h
  pass-changed (cname o g ∷ records) t h =
      pass-changed records
        (follow unicode_lower (canonical_dns_name unicode_lower o)
          (canonical_dns_name unicode_lower g) t)
        (ground arith)
  pass-changed (a o g ∷ records) t h = pass-changed records t h
  pass-changed (other o ∷ records) t h = pass-changed records t h

  -- A pass that changes nothing has found the names closed under the aliases.
  pub pass-closed :
      (records : List Rr) (t : Trusted) (x y : Text)
      → (pass unicode_lower records t).changed ≡ false
      → has_alias records x y ≡ true
      → contains t.names x ≡ true
      → contains t.names y ≡ true
  unfolding pass follow has_alias
  pass-closed [] t x y e h k = absurd (ground arith)
  pass-closed (cname o g ∷ records) t x y e h k =
      let owner = canonical_dns_name unicode_lower o in
      let target = canonical_dns_name unicode_lower g in
      elim (Bool-cases (contains t.names owner && not (contains t.names target))) [
        | inl grown ↦ absurd (
            ground
              (arith, pass-changed records (follow unicode_lower owner target t) (ground arith)))
        | inr stays ↦
            let rest : (pass unicode_lower records t).changed ≡ false = ground arith in
            elim (Bool-cases (text_eq owner x && text_eq target y)) [
              | inl this ↦
                  ground
                    (arith, text_eq→eq owner x (ground arith), text_eq→eq target y (ground arith))
              | inr elsewhere ↦ pass-closed records t x y rest (ground arith) k
            ]
      ]
  pass-closed (a o g ∷ records) t x y e h k = pass-closed records t x y e h k
  pass-closed (other o ∷ records) t x y e h k = pass-closed records t x y e h k

  pub pass-same :
      (records : List Rr) (t : Trusted)
      → (pass unicode_lower records t).changed ≡ false
      → (pass unicode_lower records t).names ≡ t.names
  unfolding pass follow
  pass-same [] t e = refl
  pass-same (cname o g ∷ records) t e =
      let owner = canonical_dns_name unicode_lower o in
      let target = canonical_dns_name unicode_lower g in
      elim (Bool-cases (contains t.names owner && not (contains t.names target))) [
        | inl grown ↦ absurd (
            ground
              (arith, pass-changed records (follow unicode_lower owner target t) (ground arith)))
        | inr stays ↦ ground (arith, pass-same records t (ground arith))
      ]
  pass-same (a o g ∷ records) t e = pass-same records t e
  pass-same (other o ∷ records) t e = pass-same records t e

  -- The alias targets that are not trusted yet.
  unfoldable pub missing_targets : List Rr → List Text → ℕ
  missing_targets [] names = 0
  missing_targets (cname o g ∷ records) names =
      let rest = missing_targets records names in
      if contains names (canonical_dns_name unicode_lower g) then rest else suc rest
  missing_targets (a o g ∷ records) names = missing_targets records names
  missing_targets (other o ∷ records) names = missing_targets records names

  pub missing_targets-bound :
      (records : List Rr) (names : List Text) → missing_targets records names ≤ length records
  unfolding missing_targets
  missing_targets-bound [] names = omega arith
  missing_targets-bound (cname o g ∷ records) names =
      ground (arith, missing_targets-bound records names)
  missing_targets-bound (a o g ∷ records) names =
      ground (arith, missing_targets-bound records names)
  missing_targets-bound (other o ∷ records) names =
      ground (arith, missing_targets-bound records names)

  abbrev Grown : List Text → List Text → Type 0
  Grown names more = (y : Text) → contains names y ≡ true → contains more y ≡ true

  missing_targets-Grown :
      (records : List Rr) (names more : List Text)
      → Grown names more
      → missing_targets records more ≤ missing_targets records names
  unfolding missing_targets
  missing_targets-Grown [] names more h = omega arith
  missing_targets-Grown (cname o g ∷ records) names more h =
      ground
        (arith, missing_targets-Grown records names more h, h (canonical_dns_name unicode_lower g))
  missing_targets-Grown (a o g ∷ records) names more h = missing_targets-Grown records names more h
  missing_targets-Grown (other o ∷ records) names more h =
      missing_targets-Grown records names more h

  -- A pass that changes something trusts the target of one more record.
  pub missing_targets-pass :
      (records : List Rr) (t : Trusted)
      → t.changed ≡ false
      → (pass unicode_lower records t).changed ≡ true
      → suc (missing_targets records (pass unicode_lower records t).names)
        ≤ missing_targets records t.names
  unfolding pass follow missing_targets contains
  missing_targets-pass [] t e h = absurd (ground arith)
  missing_targets-pass (cname o g ∷ records) t e h =
      let owner = canonical_dns_name unicode_lower o in
      let target = canonical_dns_name unicode_lower g in
      elim (Bool-cases (contains t.names owner && not (contains t.names target))) [
        | inl grown ↦
            let u = follow unicode_lower owner target t in
            let kept : contains (pass unicode_lower records u).names target ≡ true =
              pass-grows records u target (ground (arith, text_eq_refl target)) in
            let fewer =
              missing_targets-Grown records t.names (pass unicode_lower records u).names
                (λ y k. pass-grows records u y (ground arith)) in
            ground arith
        | inr stays ↦
            let rest = missing_targets-pass records t e (ground arith) in
            let grow = pass-grows records t target in ground arith
      ]
  missing_targets-pass (a o g ∷ records) t e h = missing_targets-pass records t e h
  missing_targets-pass (other o ∷ records) t e h = missing_targets-pass records t e h
