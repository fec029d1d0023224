-- ===== src/Dns/Trust.antt =====
-- `inspect` of internal/pbr/dns_proxy.go against its description by chains of aliases.
use netflix_pbrd.Base.{
  ℕ, zero, suc, ◌≤◌, ◌≡◌, refl, ◌∙◌, Bool, true, false, not, ◌&&◌, ◌||◌, List, [], ◌∷◌, ◌++◌, Text,
  arith, Bool-cases, inl, inr,
}
use netflix_pbrd.Text.{text_eq, contains, set_add}
use netflix_pbrd.Text.Laws.{text_eq→eq, text_eq_refl}
use netflix_pbrd.Text.Sets.{contains-set_add}
use netflix_pbrd.Config.{DnsProxyConfig}
use netflix_pbrd.Dns.{
  Rr, Msg, cname, a, other, Trusted, follow, pass, passes, canonical_dns_name, trust_questions,
  is_netflix_name,
}
use netflix_pbrd.Dns.Closure.{
  has_alias, Linked, link, pass-closed, pass-same, missing_targets, missing_targets-pass,
}

abbrev pub records_of : Msg → List Rr
records_of message = message.answer ++ message.extra

module _ (unicode_lower : Text → Text) where
  abbrev canon : Text → Text
  canon = canonical_dns_name unicode_lower

  -- A predicate that each step of a pass keeps, kept by the passes.
  pass-Keeps :
      (all records : List Rr) (P : Trusted → Type 0)
      → ((o g : Text) (t : Trusted)
          → has_alias unicode_lower all (canon o) (canon g) ≡ true
          → P t
          → P (follow unicode_lower (canon o) (canon g) t))
      → ((x y : Text)
          → has_alias unicode_lower records x y ≡ true
          → has_alias unicode_lower all x y ≡ true)
      → (t : Trusted) → P t
      → P (pass unicode_lower records t)
  unfolding pass has_alias
  pass-Keeps all [] P h sub t p = p
  pass-Keeps all (cname o g ∷ records) P h sub t p =
      pass-Keeps all records P h (λ x y k. sub x y (ground arith)) _
        (h o g t
          (sub (canon o) (canon g) (rw (text_eq_refl (canon o), text_eq_refl (canon g)) refl)) p)
  pass-Keeps all (a o g ∷ records) P h sub t p = pass-Keeps all records P h sub t p
  pass-Keeps all (other o ∷ records) P h sub t p = pass-Keeps all records P h sub t p

  pub passes-Keeps :
      (fuel : ℕ) (records : List Rr) (P : Trusted → Type 0)
      → ((o g : Text) (t : Trusted)
          → has_alias unicode_lower records (canon o) (canon g) ≡ true
          → P t
          → P (follow unicode_lower (canon o) (canon g) t))
      → ((t : Trusted) → P t → P (record t { changed = false }))
      → (t : Trusted) → P t
      → P (passes unicode_lower fuel records t)
  unfolding passes pass
  passes-Keeps zero records P h reset t p = p
  passes-Keeps (suc fuel) records P h reset t p =
      let next = pass unicode_lower records (record t { changed = false }) in
      let q : P next = pass-Keeps records records P h (λ x y k. k) _ (reset t p) in
      elim (Bool-cases next.changed) [
        | inl again ↦ rw again (passes-Keeps fuel records P h reset next q)
        | inr done ↦ rw done q
      ]

  -- With more fuel than alias targets still to trust, the last pass changes nothing, and the names
  -- are closed under the aliases.
  pub passes-done :
      (fuel : ℕ) (records : List Rr) (t : Trusted)
      → suc (missing_targets unicode_lower records t.names) ≤ fuel
      → ((passes unicode_lower fuel records t).changed ≡ false)
        × ((x y : Text)
            → has_alias unicode_lower records x y ≡ true
            → contains (passes unicode_lower fuel records t).names x ≡ true
            → contains (passes unicode_lower fuel records t).names y ≡ true)
  unfolding passes pass
  passes-done zero records t h = absurd (omega arith)
  passes-done (suc fuel) records t h =
      let start = record t { changed = false } in
      let next = pass unicode_lower records start in
      elim (Bool-cases next.changed) [
        | inl again ↦
            let fewer = missing_targets-pass unicode_lower records start refl again in
            rw again (passes-done fuel records next (omega arith))
        | inr done ↦
            let same = pass-same unicode_lower records start done in
            rw done (
              done,
              λ x y k m.
                  rw same (pass-closed unicode_lower records start x y done k (rw (← same) m)),
            )
      ]

  -- What every step keeps: each name is linked, the start is trusted, and the aliases are the old
  -- ones and the names that are not in the start.
  pub record Followed (records : List Rr) (start aliases : List Text) (t : Trusted) : Type 0 where
    pub sound : (y : Text) → contains t.names y ≡ true → Linked unicode_lower records start y
    pub started : (y : Text) → contains start y ≡ true → contains t.names y ≡ true
    pub noted :
        (y : Text)
        → contains t.aliases y
          ≡ (contains aliases y || (contains t.names y && not (contains start y)))

  pub follow-Followed :
      (records : List Rr) (start aliases : List Text) (o g : Text) (t : Trusted)
      → has_alias unicode_lower records (canon o) (canon g) ≡ true
      → Followed records start aliases t
      → Followed records start aliases (follow unicode_lower (canon o) (canon g) t)
  unfolding follow contains
  follow-Followed records start aliases o g t h f =
      elim (Bool-cases (contains t.names (canon o) && not (contains t.names (canon g)))) [
        | inr stays ↦ rw stays f
        | inl grown ↦ rw grown (record {
          sound = λ y k. elim (Bool-cases (text_eq (canon g) y)) [
            | inl this ↦
                rw (← text_eq→eq (canon g) y this)
                  (link (canon o) (canon g) (f.sound (canon o) (ground arith)) h)
            | inr differ ↦ f.sound y (ground arith)
          ];
          started = λ y k. ground (arith, f.started y k);
          noted = λ y. elim (Bool-cases (text_eq (canon g) y)) [
            | inl this ↦ ground (
              arith,
              contains-set_add (canon g) t.aliases y,
              text_eq→eq (canon g) y this,
              f.started (canon g),
              f.noted (canon g),
            )
            | inr differ ↦ ground (arith, contains-set_add (canon g) t.aliases y, f.noted y)
          ];
        })
      ]

  -- Whether a question is a Netflix name with the canonical form `y`.
  unfoldable pub asks : DnsProxyConfig → List Text → Text → Bool
  asks c [] y = false
  asks c (question ∷ questions) y =
      (is_netflix_name unicode_lower c (canon question) && text_eq (canon question) y)
      || asks c questions y

  pub trust_questions-contains :
      (c : DnsProxyConfig) (questions trusted : List Text) (y : Text)
      → contains (trust_questions unicode_lower c questions trusted) y
        ≡ (contains trusted y || asks c questions y)
  unfolding trust_questions asks
  trust_questions-contains c [] trusted y = ground arith
  trust_questions-contains c (question ∷ questions) trusted y =
      elim (Bool-cases (is_netflix_name unicode_lower c (canon question))) [
        | inl good ↦ rw good (
            trust_questions-contains c questions (set_add (canon question) trusted) y
            ∙ ground (arith, contains-set_add (canon question) trusted y))
        | inr bad ↦ rw bad (trust_questions-contains c questions trusted y)
      ]
