-- ===== src/Drivers/RuleScan.antt =====
-- What the scans of the rules find.
use netflix_pbrd.Base.{
  ℕ, suc, ◌≡◌, refl, ap, Bool, true, false, not, ◌&&◌, ◌||◌, List, [], ◌∷◌, ok, err, if◌then◌else◌,
  arith, Bool-cases, inl, inr,
}
use netflix_pbrd.Drivers.Rules.{
  RuleKey, JsonRule, RuleParsers, at_json_priority, is_neutral_rule, has_mark, scan_rules, counted,
  owned_error,
}

module _ (parsers : RuleParsers) (k : RuleKey) where
  -- The rules at the priority: the one that the driver owns, and any other.
  abbrev pub is_owned : JsonRule → Bool
  is_owned rule = is_neutral_rule parsers rule && has_mark parsers k rule

  unfoldable pub is_foreign : JsonRule → Bool
  is_foreign rule = at_json_priority parsers k rule && not (is_owned rule)

  unfoldable pub is_ours : JsonRule → Bool
  is_ours rule = at_json_priority parsers k rule && is_owned rule

  unfoldable pub count_ours : List JsonRule → ℕ
  count_ours [] = 0
  count_ours (rule ∷ rules) = let rest = count_ours rules in if is_ours rule then suc rest else rest

  unfoldable pub some_foreign : List JsonRule → Bool
  some_foreign [] = false
  some_foreign (rule ∷ rules) = is_foreign rule || some_foreign rules

  -- Without a foreign rule at the priority the scan counts the owned rules.
  pub scan_rules_count :
      (rules : List JsonRule)
      → some_foreign rules ≡ false
      → scan_rules parsers k rules ≡ ok (count_ours rules)
  unfolding scan_rules count_ours some_foreign is_foreign is_ours
  scan_rules_count [] h = refl
  scan_rules_count (rule ∷ rules) h = elim (Bool-cases (at_json_priority parsers k rule)) [
    | inr elsewhere ↦ rw elsewhere (scan_rules_count rules (rw elsewhere at h))
    | inl here ↦ elim (Bool-cases (is_neutral_rule parsers rule)) [
      | inr selective ↦ absurd (ground arith)
      | inl neutral ↦ elim (Bool-cases (has_mark parsers k rule)) [
        | inr other ↦ absurd (ground arith)
        | inl marked ↦
            rw (here, neutral, marked)
              (ap counted (scan_rules_count rules (rw (here, neutral, marked) at h)))
      ]
    ]
  ]

  -- With one, it fails, and the error names the priority.
  pub scan_rules_foreign :
      (rules : List JsonRule)
      → some_foreign rules ≡ true
      → scan_rules parsers k rules ≡ err (owned_error k.priority)
  unfolding scan_rules some_foreign is_foreign is_ours
  scan_rules_foreign [] h = absurd (ground arith)
  scan_rules_foreign (rule ∷ rules) h = elim (Bool-cases (at_json_priority parsers k rule)) [
    | inr elsewhere ↦ rw elsewhere (scan_rules_foreign rules (rw elsewhere at h))
    | inl here ↦ elim (Bool-cases (is_neutral_rule parsers rule)) [
      | inr selective ↦ rw (here, selective) refl
      | inl neutral ↦ elim (Bool-cases (has_mark parsers k rule)) [
        | inr other ↦ rw (here, neutral, other) refl
        | inl marked ↦
            rw (here, neutral, marked)
              (ap counted (scan_rules_foreign rules (rw (here, neutral, marked) at h)))
      ]
    ]
  ]
