-- ===== src/Drivers/ExitOrder.antt =====
-- The order in which the exit driver acts.
use netflix_pbrd.Base.{refl, Bool, List, [], ◌∷◌, ◌++◌, Text, Result, codes, when, ◌>>◌}
use netflix_pbrd.Text.{text_eq}
use netflix_pbrd.Text.Laws.{text_eq_refl}
use netflix_pbrd.Text.Words.{words}
use netflix_pbrd.Networks.{equal}
use netflix_pbrd.Config.{ApplyConfig}
use netflix_pbrd.Runner.{Runner}
use netflix_pbrd.Drivers.Commands.{succeeds, restore_iptables, ensure_chain}
use netflix_pbrd.Drivers.Exit.{
  apply_exit, apply_exit_with, exit_restore, nat_chain_of, remove_legacy, legacy_rule, hook_filter,
  hook_nat, with_chain,
}
use netflix_pbrd.Drivers.Journal.{Entry, Journal, journaled, Leads, Leads->>=, Leads->>, Leads-when}
use netflix_pbrd.Drivers.Ordering.{
  Ordered, Prepared, IsOrderly, Outcome-IsOrderly, is_restore, is_exit_hook, run-Ordered,
  succeeds-Ordered, ensure_chain-Ordered, restore_iptables-Prepared, hook-Prepared,
}

module _ {W : Type 0} (runner : Runner W) (c : ApplyConfig) (nets : List Text) where
  abbrev restored : Entry → Bool
  restored = is_restore (exit_restore c (nat_chain_of c.chain) nets)

  abbrev O : Journal → Type 0
  O = Ordered (is_exit_hook c) restored

  abbrev P : Journal → Type 0
  P = Prepared (is_exit_hook c) restored

  abbrev runs : Runner (Journal × W)
  runs = journaled runner

  chains-Ordered : Leads O O O (ensure_chain runs (codes "filter") c.chain)
  unfolding equal text_eq words
  chains-Ordered =
      ensure_chain-Ordered runner (is_exit_hook c) restored (codes "filter") c.chain (λ b. refl)
        (λ b. refl)

  nat_chain-Ordered : Leads O O O (ensure_chain runs (codes "nat") (nat_chain_of c.chain))
  unfolding equal text_eq words
  nat_chain-Ordered =
      ensure_chain-Ordered runner (is_exit_hook c) restored (codes "nat") (nat_chain_of c.chain)
        (λ b. refl) (λ b. refl)

  remove_legacy-Ordered : Leads O O O (remove_legacy runs c)
  unfolding remove_legacy legacy_rule equal text_eq words
  remove_legacy-Ordered =
      Leads->>= O O O O (succeeds runs (codes "iptables") (legacy_rule (codes "-C") c))
        (λ legacy. when legacy (runs.run (codes "iptables") (legacy_rule (codes "-D") c)))
        (succeeds-Ordered runner (is_exit_hook c) restored (codes "iptables")
          (legacy_rule (codes "-C") c) (λ b. refl))
        (λ legacy. Leads-when O O legacy _ (
          run-Ordered runner (is_exit_hook c) restored (codes "iptables")
            (legacy_rule (codes "-D") c) (λ b. refl)))

  restore-Prepared :
      Leads O P O (restore_iptables runs (exit_restore c (nat_chain_of c.chain) nets))
  unfolding equal text_eq words
  restore-Prepared =
      restore_iptables-Prepared runner (is_exit_hook c) restored
        (exit_restore c (nat_chain_of c.chain) nets) (λ name b. refl) (λ name b. refl)
        (λ name args. text_eq_refl (exit_restore c (nat_chain_of c.chain) nets))

  hooks-Prepared : Leads P P O (hook_filter runs c.chain >> hook_nat runs (nat_chain_of c.chain))
  unfolding hook_filter hook_nat
  hooks-Prepared =
      Leads->> P P P O (hook_filter runs c.chain) (hook_nat runs (nat_chain_of c.chain))
        (hook-Prepared runner (is_exit_hook c) restored (words "-C FORWARD -j" ++ (c.chain ∷ []))
          (words "-I FORWARD 1 -j" ++ (c.chain ∷ [])))
        (hook-Prepared runner (is_exit_hook c) restored
          (words "-t nat -C POSTROUTING -j" ++ (nat_chain_of c.chain ∷ []))
          (words "-t nat -I POSTROUTING 1 -j" ++ (nat_chain_of c.chain ∷ [])))

  apply_exit_with-Prepared : Leads O P O (apply_exit_with runs c nets)
  unfolding apply_exit_with
  apply_exit_with-Prepared =
      Leads->> O O P O (ensure_chain runs (codes "filter") c.chain) behind_filter chains-Ordered (
        Leads->> O O P O (ensure_chain runs (codes "nat") (nat_chain_of c.chain)) behind_nat
          nat_chain-Ordered
          (Leads->> O O P O (remove_legacy runs c) behind_legacy remove_legacy-Ordered (
            Leads->> O P P O restoring
              (hook_filter runs c.chain >> hook_nat runs (nat_chain_of c.chain)) restore-Prepared
              hooks-Prepared)))
    where
      restoring : Journal × W → (Journal × W) × Result (Unit {0})
      restoring = restore_iptables runs (exit_restore c (nat_chain_of c.chain) nets)

      behind_legacy : Journal × W → (Journal × W) × Result (Unit {0})
      behind_legacy =
          restoring >> (hook_filter runs c.chain >> hook_nat runs (nat_chain_of c.chain))

      behind_nat : Journal × W → (Journal × W) × Result (Unit {0})
      behind_nat = remove_legacy runs c >> behind_legacy

      behind_filter : Journal × W → (Journal × W) × Result (Unit {0})
      behind_filter = ensure_chain runs (codes "nat") (nat_chain_of c.chain) >> behind_nat

-- Whatever the commands answer, and whether the driver succeeds or fails, linux-exit inserts its
-- hooks into FORWARD and POSTROUTING only behind a successful restore of the rules of its chains,
-- and it succeeds only with such a restore.
pub apply_exit-IsOrderly :
    {W : Type 0} (runner : Runner W) (c : ApplyConfig) (nets : List Text) (w : W)
    → IsOrderly
        (is_exit_hook (with_chain (codes "STREAM_EXIT") c))
        (is_restore (
          exit_restore
            (with_chain (codes "STREAM_EXIT") c)
            (nat_chain_of (with_chain (codes "STREAM_EXIT") c).chain)
            nets))
        (apply_exit (journaled runner) c nets ([], w))
unfolding apply_exit
apply_exit-IsOrderly runner c nets w =
    let d = with_chain (codes "STREAM_EXIT") c in
    Outcome-IsOrderly (is_exit_hook d) (restored runner d nets)
      (apply_exit_with (journaled runner) d nets ([], w))
      (apply_exit_with-Prepared runner d nets [] w refl)
