-- ===== src/Drivers/RuleKept.antt =====
-- What the owned `ip rule` keeps: a predicate that commands keep.
use netflix_pbrd.Base.{
  ℕ, zero, suc, List, Text, ◌>>◌, fail, lift, Result, ok, err, Keeps, Keeps->>=, Keeps->>, Keeps-if,
  Keeps-catch, codes,
}
use netflix_pbrd.Text.Words.{words, split_lines}
use netflix_pbrd.Runner.{Runner}
use netflix_pbrd.Drivers.Rules.{
  RuleKey, RuleParsers, rule_args, scan_ip_rule_text, scan_ip_rule_json, scan_lines_text, decided,
  inspected, inspect_ip_rule, delete_times, ensure_ip_rule_count, ensure_ip_rule,
  delete_owned_ip_rule, is_parse_error,
}

module _ {W : Type 0} (runner : Runner W) (P : W → Type 0)
    (runs : (name : Text) (args : List Text) → Keeps P (runner.run name args))
    (outputs : (name : Text) (args : List Text) → Keeps P (runner.output name args))
    (parsers : RuleParsers) where
  scan_ip_rule_text-Keeps : (k : RuleKey) → Keeps P (scan_ip_rule_text parsers runner k)
  unfolding scan_ip_rule_text
  scan_ip_rule_text-Keeps k =
      Keeps->>= P (runner.output (codes "ip") (words "rule show"))
        (λ out. lift (scan_lines_text k (split_lines out)))
        (outputs (codes "ip") (words "rule show")) (λ out w p. p)

  inspected-Keeps : (k : RuleKey) (r : Result Text) → Keeps P (inspected parsers runner k r)
  inspected-Keeps k (err e) = scan_ip_rule_text-Keeps k
  inspected-Keeps k (ok out) = decided-Keeps (scan_ip_rule_json parsers out k)
    where
      decided-Keeps : (r : Result ℕ) → Keeps P (decided parsers runner k r)
      decided-Keeps (ok exact) w p = p
      decided-Keeps (err e) w p =
          Keeps-if P (is_parse_error e) (scan_ip_rule_text parsers runner k) (fail e)
            (scan_ip_rule_text-Keeps k) (λ w p. p) w p

  inspect_ip_rule-Keeps : (k : RuleKey) → Keeps P (inspect_ip_rule parsers runner k)
  unfolding inspect_ip_rule
  inspect_ip_rule-Keeps k =
      Keeps-catch P (runner.output (codes "ip") (words "-j rule show")) (inspected parsers runner k)
        (outputs (codes "ip") (words "-j rule show")) (inspected-Keeps k)

  delete_times-Keeps : (n : ℕ) (k : RuleKey) → Keeps P (delete_times parsers runner n k)
  unfolding delete_times
  delete_times-Keeps zero k w p = p
  delete_times-Keeps (suc n) k w p =
      Keeps->> P (runner.run (codes "ip") (rule_args parsers runner (codes "del") k))
        (delete_times parsers runner n k) (runs (codes "ip") _) (delete_times-Keeps n k) w p

  pub delete_owned_ip_rule-Keeps : (k : RuleKey) → Keeps P (delete_owned_ip_rule parsers runner k)
  unfolding delete_owned_ip_rule
  delete_owned_ip_rule-Keeps k =
      Keeps->>= P (inspect_ip_rule parsers runner k) (λ exact. delete_times parsers runner exact k)
        (inspect_ip_rule-Keeps k) (λ exact. delete_times-Keeps exact k)

  replace-Keeps :
      (n : ℕ) (k : RuleKey)
      → Keeps P (
          delete_times parsers runner n k
          >> runner.run (codes "ip") (rule_args parsers runner (codes "add") k))
  replace-Keeps n k =
      Keeps->> P (delete_times parsers runner n k)
        (runner.run (codes "ip") (rule_args parsers runner (codes "add") k))
        (delete_times-Keeps n k) (runs (codes "ip") _)

  pub ensure_ip_rule-Keeps : (k : RuleKey) → Keeps P (ensure_ip_rule parsers runner k)
  unfolding ensure_ip_rule ensure_ip_rule_count
  ensure_ip_rule-Keeps k =
      Keeps->>= P (inspect_ip_rule parsers runner k)
        (λ exact. ensure_ip_rule_count parsers runner exact k) (inspect_ip_rule-Keeps k) counting
    where
      counting : (n : ℕ) → Keeps P (ensure_ip_rule_count parsers runner n k)
      counting zero w p = replace-Keeps zero k w p
      counting (suc zero) w p = p
      counting (suc (suc n)) w p = replace-Keeps (suc (suc n)) k w p
