-- ===== src/Drivers/RuleTable.antt =====
-- The kernel's rules as the driver relies on them, and what one more rule changes.
use netflix_pbrd.Base.{
  suc, ◌≡◌, refl, true, false, ◌||◌, List, [], ◌∷◌, Text, ok, codes, if◌then◌else◌, arith,
  Bool-cases, inl, inr,
}
use netflix_pbrd.Text.Words.{words}
use netflix_pbrd.Runner.{Runner}
use netflix_pbrd.Drivers.Rules.{RuleKey, JsonRule, RuleParsers, at_json_priority, rule_args}
use netflix_pbrd.Drivers.RuleScan.{is_foreign, is_ours, count_ours, some_foreign}

-- A list with one more element somewhere.
pub data Inserted (r : JsonRule) : List JsonRule → List JsonRule → Type 0 where
  first : (xs : List JsonRule) → Inserted r xs (r ∷ xs)
  later : (x : JsonRule) (xs ys : List JsonRule) → Inserted r xs ys → Inserted r (x ∷ xs) (x ∷ ys)

-- The kernel's rules, as `ip` is documented to show and to change them: `ip -j rule show` prints them
-- as JSON and changes nothing, `ip rule add` puts the rule in, and `ip rule del` takes a rule of
-- the priority out. What a command that fails does is left open.
pub record RuleTable {W : Type 0} (parsers : RuleParsers) (runner : Runner W) (k : RuleKey)
    : Type 0 where
  pub rules : W → List JsonRule
  pub shown :
      (w : W)
      → (out : Text) × (runner.output (codes "ip") (words "-j rule show") w ≡ (w, ok out))
        × (parsers.parse_rules out ≡ ok (rules w))
  pub added :
      (w w' : W)
      → runner.run (codes "ip") (rule_args parsers runner (codes "add") k) w ≡ (w', ok tt)
      → (r : JsonRule) × (is_ours parsers k r ≡ true) × Inserted r (rules w) (rules w')
  pub deleted :
      (w w' : W)
      → runner.run (codes "ip") (rule_args parsers runner (codes "del") k) w ≡ (w', ok tt)
      → (r : JsonRule) × (at_json_priority parsers k r ≡ true) × Inserted r (rules w') (rules w)

module _ (parsers : RuleParsers) (k : RuleKey) where
  -- The rules of all other priorities.
  unfoldable pub elsewhere : List JsonRule → List JsonRule
  elsewhere [] = []
  elsewhere (rule ∷ rules) =
      let rest = elsewhere rules in if at_json_priority parsers k rule then rest else rule ∷ rest

  pub Inserted-count_ours :
      (r : JsonRule) (xs ys : List JsonRule)
      → Inserted r xs ys
      → is_ours parsers k r ≡ true
      → count_ours parsers k ys ≡ suc (count_ours parsers k xs)
  unfolding count_ours
  Inserted-count_ours r _ _ (first xs) h = ground arith
  Inserted-count_ours r _ _ (later x xs ys i) h = ground (arith, Inserted-count_ours r xs ys i h)

  pub Inserted-some_foreign :
      (r : JsonRule) (xs ys : List JsonRule)
      → Inserted r xs ys
      → some_foreign parsers k ys ≡ (is_foreign parsers k r || some_foreign parsers k xs)
  unfolding some_foreign
  Inserted-some_foreign r _ _ (first xs) = refl
  Inserted-some_foreign r _ _ (later x xs ys i) = ground (arith, Inserted-some_foreign r xs ys i)

  pub Inserted-elsewhere :
      (r : JsonRule) (xs ys : List JsonRule)
      → Inserted r xs ys
      → at_json_priority parsers k r ≡ true
      → elsewhere ys ≡ elsewhere xs
  unfolding elsewhere
  Inserted-elsewhere r _ _ (first xs) h = rw h
  Inserted-elsewhere r _ _ (later x xs ys i) h = rw (Inserted-elsewhere r xs ys i h)

  pub ours-at_json_priority :
      (r : JsonRule)
      → is_ours parsers k r ≡ true
      → (at_json_priority parsers k r ≡ true) × (is_foreign parsers k r ≡ false)
  unfolding is_ours is_foreign
  ours-at_json_priority r h = elim (Bool-cases (at_json_priority parsers k r)) [
    | inl here ↦ (here, ground arith)
    | inr there ↦ absurd (ground arith)
  ]

  pub native-is_ours :
      (r : JsonRule)
      → at_json_priority parsers k r ≡ true
      → is_foreign parsers k r ≡ false
      → is_ours parsers k r ≡ true
  unfolding is_ours is_foreign
  native-is_ours r h f = ground arith
