-- ===== src/Drivers/RuleOwner.antt =====
-- `ensureIPRule` and `deleteOwnedIPRule` against what they promise of the kernel's rules.
use netflix_pbrd.Base.{
  ℕ, zero, suc, ◌+◌, ◌≡◌, refl, ap, sym, ◌∙◌, true, false, ◌>>◌, >>=-eq-ok, ok, err, codes, arith,
  Bool-cases, inl, inr,
}
use netflix_pbrd.Text.{has_prefix}
use netflix_pbrd.Runner.{Runner}
use netflix_pbrd.Drivers.Rules.{
  RuleKey, RuleParsers, rule_args, owned_error, scan_ip_rule_json, inspect_ip_rule, delete_times,
  ensure_ip_rule_count, ensure_ip_rule, delete_owned_ip_rule,
}
use netflix_pbrd.Drivers.RuleScan.{count_ours, some_foreign, scan_rules_count, scan_rules_foreign}
use netflix_pbrd.Drivers.RuleTable.{
  RuleTable, elsewhere, Inserted-count_ours, Inserted-some_foreign, Inserted-elsewhere,
  ours-at_json_priority, native-is_ours,
}

module _ {W : Type 0} (parsers : RuleParsers) (runner : Runner W) (k : RuleKey)
    (table : RuleTable parsers runner k) where
  open table use {rules}

  -- The scan of what `ip` shows leaves the world alone.
  inspect_ip_rule-rules :
      (w : W)
      → some_foreign parsers k (rules w) ≡ false
      → inspect_ip_rule parsers runner k w ≡ (w, ok (count_ours parsers k (rules w)))
  unfolding inspect_ip_rule scan_ip_rule_json
  inspect_ip_rule-rules w clean =
      let (out, show, parse) = table.shown w in
      rw (show, parse, scan_rules_count parsers k (rules w) clean) refl

  -- What a change at the priority keeps and counts.
  record Owned (w w' : W) (n : ℕ) : Type 0 where
    counted : count_ours parsers k (rules w) ≡ n + count_ours parsers k (rules w')
    clean : some_foreign parsers k (rules w') ≡ false
    same : elsewhere parsers k (rules w') ≡ elsewhere parsers k (rules w)

  deleted-Owned :
      (w w' : W)
      → some_foreign parsers k (rules w) ≡ false
      → runner.run (codes "ip") (rule_args parsers runner (codes "del") k) w ≡ (w', ok tt)
      → Owned w w' 1
  deleted-Owned w w' clean e =
      let (r, here, taken) = table.deleted w w' e in
      let split = Inserted-some_foreign parsers k r (rules w') (rules w) taken in
      let ours = native-is_ours parsers k r here (ground arith) in
      record {
        counted = omega (arith, Inserted-count_ours parsers k r (rules w') (rules w) taken ours);
        clean = ground arith;
        same = sym (Inserted-elsewhere parsers k r (rules w') (rules w) taken here);
      }

  delete_times-Owned :
      (n : ℕ) (w w' : W)
      → some_foreign parsers k (rules w) ≡ false
      → delete_times parsers runner n k w ≡ (w', ok tt)
      → Owned w w' n
  unfolding delete_times
  delete_times-Owned zero w w' clean e =
      let same : w ≡ w' = ap (λ p. p.0) e in
      rw (← same) (record { counted = omega arith; clean = clean; same = refl })
  delete_times-Owned (suc n) w w' clean e =
      let (_, v, d, rest) =
        >>=-eq-ok (runner.run (codes "ip") (rule_args parsers runner (codes "del") k))
          (λ _. delete_times parsers runner n k) w e in
      let one = deleted-Owned w v clean d in
      let more = delete_times-Owned n v w' one.clean rest in
      record {
        counted = omega (arith, one.counted, more.counted);
        clean = more.clean;
        same = more.same ∙ one.same;
      }

  -- What the driver promises: one rule of its own, nothing else at the priority, and every other
  -- rule where it was.
  pub record OwnsOne (w w' : W) : Type 0 where
    pub one : count_ours parsers k (rules w') ≡ 1
    pub clean : some_foreign parsers k (rules w') ≡ false
    pub same : elsewhere parsers k (rules w') ≡ elsewhere parsers k (rules w)

  add-OwnsOne :
      (w v w' : W) (n : ℕ)
      → Owned w v n
      → n ≡ count_ours parsers k (rules w)
      → runner.run (codes "ip") (rule_args parsers runner (codes "add") k) v ≡ (w', ok tt)
      → OwnsOne w w'
  add-OwnsOne w v w' n o m e =
      let (r, ours, put) = table.added v w' e in
      let (here, home) = ours-at_json_priority parsers k r ours in
      record {
        one =
            omega (arith, Inserted-count_ours parsers k r (rules v) (rules w') put ours, o.counted);
        clean = ground (arith, Inserted-some_foreign parsers k r (rules v) (rules w') put, o.clean);
        same = Inserted-elsewhere parsers k r (rules v) (rules w') put here ∙ o.same;
      }

  replace-OwnsOne :
      (n : ℕ) (w w' : W)
      → some_foreign parsers k (rules w) ≡ false
      → n ≡ count_ours parsers k (rules w)
      → (delete_times parsers runner n k
            >> runner.run (codes "ip") (rule_args parsers runner (codes "add") k))
          w
        ≡ (w', ok tt)
      → OwnsOne w w'
  replace-OwnsOne n w w' clean m e =
      let (_, v, d, a) =
        >>=-eq-ok (delete_times parsers runner n k)
          (λ _. runner.run (codes "ip") (rule_args parsers runner (codes "add") k)) w e in
      add-OwnsOne w v w' n (delete_times-Owned n w v clean d) m a

  ensure_ip_rule_count-OwnsOne :
      (n : ℕ) (w w' : W)
      → some_foreign parsers k (rules w) ≡ false
      → n ≡ count_ours parsers k (rules w)
      → ensure_ip_rule_count parsers runner n k w ≡ (w', ok tt)
      → OwnsOne w w'
  unfolding ensure_ip_rule_count
  ensure_ip_rule_count-OwnsOne (suc zero) w w' clean m e =
      let same : w ≡ w' = ap (λ p. p.0) e in
      rw (← same) (record { one = sym m; clean = clean; same = refl })
  ensure_ip_rule_count-OwnsOne zero w w' clean m e = replace-OwnsOne zero w w' clean m e
  ensure_ip_rule_count-OwnsOne (suc (suc n)) w w' clean m e =
      replace-OwnsOne (suc (suc n)) w w' clean m e

  inspect_ip_rule-foreign :
      (w : W)
      → some_foreign parsers k (rules w) ≡ true
      → inspect_ip_rule parsers runner k w ≡ (w, err (owned_error k.priority))
  unfolding inspect_ip_rule scan_ip_rule_json has_prefix
  inspect_ip_rule-foreign w h =
      let (out, show, parse) = table.shown w in
      rw (show, parse, scan_rules_foreign parsers k (rules w) h) refl

  -- With a rule of another owner at the priority, or one with a further selector, `ensureIPRule` and
  -- `deleteOwnedIPRule` fail and leave the world as it was: no command is run that changes a rule.
  pub ensure_ip_rule_foreign :
      (w : W)
      → some_foreign parsers k (rules w) ≡ true
      → (ensure_ip_rule parsers runner k w ≡ (w, err (owned_error k.priority)))
        × (delete_owned_ip_rule parsers runner k w ≡ (w, err (owned_error k.priority)))
  unfolding ensure_ip_rule delete_owned_ip_rule
  ensure_ip_rule_foreign w h =
      (rw (inspect_ip_rule-foreign w h) refl, rw (inspect_ip_rule-foreign w h) refl)

  -- When `ensureIPRule` succeeds, the kernel has exactly one rule of the driver, no other rule at
  -- the priority, and the rules of all other priorities as before.
  pub ensure_ip_rule-OwnsOne :
      (w w' : W) → ensure_ip_rule parsers runner k w ≡ (w', ok tt) → OwnsOne w w'
  unfolding ensure_ip_rule
  ensure_ip_rule-OwnsOne w w' e = elim (Bool-cases (some_foreign parsers k (rules w))) [
    | inl foreign ↦ let (failed, _) = ensure_ip_rule_foreign w foreign in absurd (ground arith)
    | inr clean ↦
        ensure_ip_rule_count-OwnsOne (count_ours parsers k (rules w)) w w' clean refl
          (rw (inspect_ip_rule-rules w clean) at e)
  ]

  -- When `deleteOwnedIPRule` succeeds, no rule of the driver is left, and the rules of all other
  -- priorities are as before.
  pub delete_owned_ip_rule-gone :
      (w w' : W)
      → delete_owned_ip_rule parsers runner k w ≡ (w', ok tt)
      → (count_ours parsers k (rules w') ≡ 0)
        × (some_foreign parsers k (rules w') ≡ false)
        × (elsewhere parsers k (rules w') ≡ elsewhere parsers k (rules w))
  unfolding delete_owned_ip_rule
  delete_owned_ip_rule-gone w w' e = elim (Bool-cases (some_foreign parsers k (rules w))) [
    | inl foreign ↦ let (_, failed) = ensure_ip_rule_foreign w foreign in absurd (ground arith)
    | inr clean ↦
        let run = rw (inspect_ip_rule-rules w clean) at e in
        let gone = delete_times-Owned (count_ours parsers k (rules w)) w w' clean run in
        (omega (arith, gone.counted), gone.clean, gone.same)
  ]

  -- Commands that succeed where they can: a rule can be added at any time, and one of the driver
  -- deleted as long as there is one.
  pub record RulesWork : Type 0 where
    pub adds :
        (v : W)
        → (v' : W) × (runner.run (codes "ip") (rule_args parsers runner (codes "add") k) v
            ≡ (v', ok tt))
    pub deletes :
        (v : W)
        → (n : ℕ) → count_ours parsers k (rules v) ≡ suc n
        → (v' : W) × (runner.run (codes "ip") (rule_args parsers runner (codes "del") k) v
            ≡ (v', ok tt))

  delete_times_succeeds :
      RulesWork
      → (n : ℕ) (v : W) → some_foreign parsers k (rules v) ≡ false
      → count_ours parsers k (rules v) ≡ n
      → (v' : W) × (delete_times parsers runner n k v ≡ (v', ok tt))
  unfolding delete_times
  delete_times_succeeds works zero v clean m = (v, refl)
  delete_times_succeeds works (suc n) v clean m =
      let (u, e) = works.deletes v n m in
      let one = deleted-Owned v u clean e in
      let (v', rest) = delete_times_succeeds works n u one.clean (omega (arith, one.counted, m)) in
      (v', rw e rest)

  replace_succeeds :
      RulesWork
      → (n : ℕ) (v : W) → some_foreign parsers k (rules v) ≡ false
      → count_ours parsers k (rules v) ≡ n
      → (v' : W) × ((delete_times parsers runner n k
              >> runner.run (codes "ip") (rule_args parsers runner (codes "add") k))
            v
          ≡ (v', ok tt))
  replace_succeeds works n v clean m =
      let (u, gone) = delete_times_succeeds works n v clean m in
      let (v', put) = works.adds u in (v', rw gone put)

  ensure_ip_rule_count_succeeds :
      RulesWork
      → (n : ℕ) (v : W) → some_foreign parsers k (rules v) ≡ false
      → count_ours parsers k (rules v) ≡ n
      → (v' : W) × (ensure_ip_rule_count parsers runner n k v ≡ (v', ok tt))
  unfolding ensure_ip_rule_count
  ensure_ip_rule_count_succeeds works zero v clean m = replace_succeeds works zero v clean m
  ensure_ip_rule_count_succeeds works (suc zero) v clean m = (v, refl)
  ensure_ip_rule_count_succeeds works (suc (suc n)) v clean m =
      replace_succeeds works (suc (suc n)) v clean m

  -- When the command that adds the rule always succeeds, the one that deletes it succeeds as long as
  -- the driver has a rule, and no rule of another owner is at the priority, `ensureIPRule` succeeds,
  -- and the driver owns exactly one rule.
  pub ensure_ip_rule_succeeds :
      (w : W)
      → RulesWork
      → some_foreign parsers k (rules w) ≡ false
      → (w' : W) × (ensure_ip_rule parsers runner k w ≡ (w', ok tt)) × OwnsOne w w'
  unfolding ensure_ip_rule
  ensure_ip_rule_succeeds w works clean =
      let (w', e) =
        ensure_ip_rule_count_succeeds works (count_ours parsers k (rules w)) w clean refl in
      let done : ensure_ip_rule parsers runner k w ≡ (w', ok tt) =
        rw (inspect_ip_rule-rules w clean) e in
      (w', done, ensure_ip_rule-OwnsOne w w' done)
