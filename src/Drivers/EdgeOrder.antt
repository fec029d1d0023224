-- ===== src/Drivers/EdgeOrder.antt =====
-- The order in which the edge driver acts.
use netflix_pbrd.Base.{
  ℕ, zero, suc, refl, Bool, true, false, List, [], ◌∷◌, Text, Io, Result, ok, err, codes, lift,
  catch, ◌>>◌, if◌then◌else◌,
}
use netflix_pbrd.Text.{text_eq}
use netflix_pbrd.Text.Laws.{text_eq_refl}
use netflix_pbrd.Text.Words.{words, split_lines}
use netflix_pbrd.Networks.{equal}
use netflix_pbrd.Config.{ApplyConfig}
use netflix_pbrd.Runner.{Runner}
use netflix_pbrd.Drivers.Commands.{restore_iptables, ensure_chain, route_batch}
use netflix_pbrd.Drivers.Rules.{
  RuleKey, RuleParsers, rule_args, scan_ip_rule_text, decided, inspected, inspect_ip_rule,
  delete_times, ensure_ip_rule_count, ensure_ip_rule, scan_ip_rule_json, is_parse_error,
  scan_lines_text,
}
use netflix_pbrd.Drivers.Edge.{
  apply_edge, apply_edge_with, with_edge_defaults, rule_key, edge_restore, default_route, edge_hook,
  edge_insert, hook_edge,
}
use netflix_pbrd.Drivers.Journal.{Entry, Journal, journaled, Outcome, Leads, Leads->>=, Leads->>}
use netflix_pbrd.Drivers.Ordering.{
  Ordered, Prepared, IsOrderly, Outcome-IsOrderly, is_restore, run-Ordered, run_input-Ordered,
  output-Ordered, ensure_chain-Ordered, restore_iptables-Prepared, hook-Prepared,
}

abbrev pub is_edge_hook : ApplyConfig → Entry → Bool
is_edge_hook c e = equal e.args (edge_insert c)

module _ {W : Type 0} (runner : Runner W) (parsers : RuleParsers) (c : ApplyConfig)
    (nets : List Text) where
  abbrev restored : Entry → Bool
  restored = is_restore (edge_restore c nets)

  abbrev O : Journal → Type 0
  O = Ordered (is_edge_hook c) restored

  abbrev P : Journal → Type 0
  P = Prepared (is_edge_hook c) restored

  abbrev runs : Runner (Journal × W)
  runs = journaled runner

  catch-Ordered : {A : Type 0} (m : Io (Journal × W) A) → Leads O O O m → Leads O O O (catch m)
  catch-Ordered {A} m h journal w p = split (m (journal, w)) (h journal w p)
    where
      split :
          (r : (Journal × W) × Result A)
          → Outcome O O r
          → Outcome O O (catch (λ (s : Journal × W). r) (journal, w))
      split ((j, v), ok a) q = q
      split ((j, v), err e) q = q

  lift-Ordered : {A : Type 0} (r : Result A) → Leads {W = W} O O O (lift r)
  lift-Ordered (ok a) journal w p = p
  lift-Ordered (err e) journal w p = p

  scan_text-Ordered : (k : RuleKey) → Leads O O O (scan_ip_rule_text parsers runs k)
  unfolding scan_ip_rule_text equal text_eq words edge_insert
  scan_text-Ordered k =
      Leads->>= O O O O (runs.output (codes "ip") (words "rule show"))
        (λ out. lift (scan_lines_text k (split_lines out)))
        (output-Ordered runner (is_edge_hook c) restored (codes "ip") (words "rule show")
          (λ b. refl))
        (λ out. lift-Ordered (scan_lines_text k (split_lines out)))

  inspected-Ordered :
      (k : RuleKey) (shown : Result Text) → Leads O O O (inspected parsers runs k shown)
  inspected-Ordered k (err e) = scan_text-Ordered k
  inspected-Ordered k (ok out) = decides (scan_ip_rule_json parsers out k)
    where
      either :
          (b : Bool) (r : Result ℕ)
          → Leads O O O (if b then scan_ip_rule_text parsers runs k else lift r)
      either true r = scan_text-Ordered k
      either false r = lift-Ordered r

      decides : (r : Result ℕ) → Leads O O O (decided parsers runs k r)
      decides (ok n) journal w p = p
      decides (err e) journal w p = either (is_parse_error e) (err e) journal w p

  inspect_ip_rule-Ordered : (k : RuleKey) → Leads O O O (inspect_ip_rule parsers runs k)
  unfolding inspect_ip_rule equal text_eq words edge_insert
  inspect_ip_rule-Ordered k =
      Leads->>= O O O O (catch (runs.output (codes "ip") (words "-j rule show")))
        (inspected parsers runs k)
        (catch-Ordered (runs.output (codes "ip") (words "-j rule show")) (
          output-Ordered runner (is_edge_hook c) restored (codes "ip") (words "-j rule show")
            (λ b. refl)))
        (inspected-Ordered k)

  change-Ordered :
      (action : Text) (k : RuleKey)
      → Leads O O O (runs.run (codes "ip") (rule_args parsers runs action k))
  unfolding equal text_eq words edge_insert
  change-Ordered action k =
      run-Ordered runner (is_edge_hook c) restored (codes "ip") (rule_args parsers runs action k)
        (λ b. refl)

  delete_times-Ordered : (n : ℕ) (k : RuleKey) → Leads O O O (delete_times parsers runs n k)
  unfolding delete_times
  delete_times-Ordered zero k journal w p = p
  delete_times-Ordered (suc n) k journal w p =
      Leads->> O O O O (runs.run (codes "ip") (rule_args parsers runs (codes "del") k))
        (delete_times parsers runs n k) (change-Ordered (codes "del") k) (delete_times-Ordered n k)
        journal w p

  replace-Ordered :
      (n : ℕ) (k : RuleKey)
      → Leads O O O (
          delete_times parsers runs n k
          >> runs.run (codes "ip") (rule_args parsers runs (codes "add") k))
  replace-Ordered n k =
      Leads->> O O O O (delete_times parsers runs n k)
        (runs.run (codes "ip") (rule_args parsers runs (codes "add") k)) (delete_times-Ordered n k)
        (change-Ordered (codes "add") k)

  ensure_ip_rule_count-Ordered :
      (n : ℕ) (k : RuleKey) → Leads O O O (ensure_ip_rule_count parsers runs n k)
  unfolding ensure_ip_rule_count
  ensure_ip_rule_count-Ordered zero k journal w p = replace-Ordered zero k journal w p
  ensure_ip_rule_count-Ordered (suc zero) k journal w p = p
  ensure_ip_rule_count-Ordered (suc (suc n)) k journal w p =
      replace-Ordered (suc (suc n)) k journal w p

  ensure_ip_rule-Ordered : (k : RuleKey) → Leads O O O (ensure_ip_rule parsers runs k)
  unfolding ensure_ip_rule
  ensure_ip_rule-Ordered k =
      Leads->>= O O O O (inspect_ip_rule parsers runs k)
        (λ n. ensure_ip_rule_count parsers runs n k) (inspect_ip_rule-Ordered k)
        (λ n. ensure_ip_rule_count-Ordered n k)

  route_batch-Ordered : (line : Text) → Leads O O O (route_batch runs (line ∷ []))
  unfolding route_batch equal text_eq words edge_insert
  route_batch-Ordered line =
      run_input-Ordered runner (is_edge_hook c) restored _ (codes "ip") (words "-force -batch -")
        (λ b. refl)

  chain-Ordered : Leads O O O (ensure_chain runs (codes "mangle") c.chain)
  unfolding equal text_eq words edge_insert
  chain-Ordered =
      ensure_chain-Ordered runner (is_edge_hook c) restored (codes "mangle") c.chain (λ b. refl)
        (λ b. refl)

  restore-Prepared : Leads O P O (restore_iptables runs (edge_restore c nets))
  unfolding equal text_eq words edge_insert
  restore-Prepared =
      restore_iptables-Prepared runner (is_edge_hook c) restored (edge_restore c nets)
        (λ name b. refl) (λ name b. refl) (λ name args. text_eq_refl (edge_restore c nets))

  hook_edge-Prepared : Leads P P O (hook_edge runs c)
  unfolding hook_edge
  hook_edge-Prepared = hook-Prepared runner (is_edge_hook c) restored (edge_hook c) (edge_insert c)

  apply_edge_with-Prepared : Leads O P O (apply_edge_with runs parsers c nets)
  unfolding apply_edge_with
  apply_edge_with-Prepared =
      Leads->> O O P O (route_batch runs (default_route c ∷ [])) behind_route
        (route_batch-Ordered (default_route c))
        (Leads->> O O P O (ensure_ip_rule parsers runs (rule_key c)) behind_rule
          (ensure_ip_rule-Ordered (rule_key c))
          (Leads->> O O P O (ensure_chain runs (codes "mangle") c.chain) behind_chain chain-Ordered
            (Leads->> O P P O (restore_iptables runs (edge_restore c nets)) (hook_edge runs c)
              restore-Prepared hook_edge-Prepared)))
    where
      behind_chain : Journal × W → (Journal × W) × Result (Unit {0})
      behind_chain = restore_iptables runs (edge_restore c nets) >> hook_edge runs c

      behind_rule : Journal × W → (Journal × W) × Result (Unit {0})
      behind_rule = ensure_chain runs (codes "mangle") c.chain >> behind_chain

      behind_route : Journal × W → (Journal × W) × Result (Unit {0})
      behind_route = ensure_ip_rule parsers runs (rule_key c) >> behind_rule

-- Whatever the commands answer, and whether the driver succeeds or fails, linux-edge inserts its hook
-- into PREROUTING only behind a successful restore of the rules of its chain, and it succeeds only
-- with such a restore.
pub apply_edge-IsOrderly :
    {W : Type 0} (runner : Runner W) (parsers : RuleParsers) (c : ApplyConfig) (nets : List Text)
    (w : W)
    → IsOrderly
        (is_edge_hook (with_edge_defaults c))
        (is_restore (edge_restore (with_edge_defaults c) nets))
        (apply_edge (journaled runner) parsers c nets ([], w))
unfolding apply_edge
apply_edge-IsOrderly runner parsers c nets w =
    let d = with_edge_defaults c in
    Outcome-IsOrderly (is_edge_hook d) (restored runner parsers d nets)
      (apply_edge_with (journaled runner) parsers d nets ([], w))
      (apply_edge_with-Prepared runner parsers d nets [] w refl)
