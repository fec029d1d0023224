-- ===== src/Drivers/Kept.antt =====
-- What every driver keeps: a predicate that the commands keep.
use netflix_pbrd.Base.{
  Bool, true, false, not, List, [], ◌∷◌, ◌++◌, Text, Io, ◌>>=◌, ◌>>◌, pure, fail, when, Result, ok,
  err, Keeps, Keeps->>=, Keeps->>, Keeps-when, Keeps-catch, if◌then◌else◌, codes, text,
}
use netflix_pbrd.Text.Words.{words}
use netflix_pbrd.Config.{ApplyConfig}
use netflix_pbrd.Runner.{Runner}
use netflix_pbrd.Drivers.Commands.{
  succeeds, route_batch, restore_with, restore_iptables, ensure_chain, table_args, is_success,
}
use netflix_pbrd.Drivers.Exit.{
  nat_chain_of, exit_restore, remove_legacy, legacy_rule, hook_filter, hook_nat, apply_exit_with,
}

module _ {W : Type 0} (runner : Runner W) (P : W → Type 0) where
  pub record CommandsKeep : Type 0 where
    pub runs : (name : Text) (args : List Text) → Keeps P (runner.run name args)
    pub inputs : (input name : Text) (args : List Text) → Keeps P (runner.run_input input name args)
    pub outputs : (name : Text) (args : List Text) → Keeps P (runner.output name args)
    pub finds : (name : Text) → Keeps P (runner.look_path name)

  module _ (keep : CommandsKeep) where
    pub succeeds-Keeps : (name : Text) (args : List Text) → Keeps P (succeeds runner name args)
    unfolding succeeds
    succeeds-Keeps name args =
        Keeps-catch P (runner.run name args) (λ r. pure (is_success r)) (keep.runs name args)
          (λ r w p. p)

    -- A probe, and a command for one of its answers.
    pub probing-Keeps :
        (name : Text) (probe : List Text) (test : Bool → Bool) (act : Io W (Unit {0}))
        → Keeps P act
        → Keeps P (succeeds runner name probe >>= λ b. when (test b) act)
    probing-Keeps name probe test act h =
        Keeps->>= P (succeeds runner name probe) (λ b. when (test b) act)
          (succeeds-Keeps name probe) (λ b. Keeps-when P (test b) act h)

    pub route_batch-Keeps : (lines : List Text) → Keeps P (route_batch runner lines)
    unfolding route_batch
    route_batch-Keeps [] w p = p
    route_batch-Keeps (line ∷ lines) w p = keep.inputs _ (codes "ip") (words "-force -batch -") w p

    pub restore_iptables-Keeps : (input : Text) → Keeps P (restore_iptables runner input)
    unfolding restore_iptables
    restore_iptables-Keeps input =
        Keeps-catch P (runner.look_path (codes "iptables-restore")) (restore_with runner input)
          (keep.finds (codes "iptables-restore")) restoring
      where
        falling :
            (b : Bool) (w : W)
            → P w
            → P
                (if b
                  then runner.run_input input
                      (codes "/system/bin/xtables-multi")
                      (codes "iptables-restore" ∷ codes "--noflush" ∷ [])
                      w
                  else fail (text (codes "iptables-restore not found")) w).0
        falling true w p = keep.inputs input (codes "/system/bin/xtables-multi") _ w p
        falling false w p = p

        restoring : (r : Result Text) → Keeps P (restore_with runner input r)
        restoring (ok path) w p = keep.inputs input path _ w p
        restoring (err e) w p = falling (runner.exists (codes "/system/bin/xtables-multi") w) w p

    pub ensure_chain-Keeps : (table chain : Text) → Keeps P (ensure_chain runner table chain)
    unfolding ensure_chain
    ensure_chain-Keeps table chain =
        probing-Keeps (codes "iptables") (table_args table ++ (codes "-S" ∷ chain ∷ [])) not _
          (keep.runs (codes "iptables") _)

    pub hooks-Keeps :
        (chain nat_chain : Text) → Keeps P (hook_filter runner chain >> hook_nat runner nat_chain)
    unfolding hook_filter hook_nat
    hooks-Keeps chain nat_chain =
        Keeps->> P (hook_filter runner chain) (hook_nat runner nat_chain)
          (probing-Keeps (codes "iptables") (words "-C FORWARD -j" ++ (chain ∷ [])) not _
            (keep.runs (codes "iptables") _))
          (probing-Keeps (codes "iptables") (words "-t nat -C POSTROUTING -j" ++ (nat_chain ∷ []))
            not _ (keep.runs (codes "iptables") _))

    pub apply_exit_with-Keeps :
        (c : ApplyConfig) (nets : List Text) → Keeps P (apply_exit_with runner c nets)
    unfolding apply_exit_with remove_legacy
    apply_exit_with-Keeps c nets =
        Keeps->> P (ensure_chain runner (codes "filter") c.chain) behind_filter
          (ensure_chain-Keeps (codes "filter") c.chain)
          (Keeps->> P (ensure_chain runner (codes "nat") (nat_chain_of c.chain)) behind_nat
            (ensure_chain-Keeps (codes "nat") (nat_chain_of c.chain))
            (Keeps->> P (remove_legacy runner c) behind_legacy
              (probing-Keeps (codes "iptables") (legacy_rule (codes "-C") c) (λ b. b) _
                (keep.runs (codes "iptables") _))
              (Keeps->> P (restore_iptables runner rules) hooks (restore_iptables-Keeps rules)
                (hooks-Keeps c.chain (nat_chain_of c.chain)))))
      where
        rules : Text
        rules = exit_restore c (nat_chain_of c.chain) nets

        hooks : W → W × Result (Unit {0})
        hooks = hook_filter runner c.chain >> hook_nat runner (nat_chain_of c.chain)

        behind_legacy : W → W × Result (Unit {0})
        behind_legacy = restore_iptables runner rules >> hooks

        behind_nat : W → W × Result (Unit {0})
        behind_nat = remove_legacy runner c >> behind_legacy

        behind_filter : W → W × Result (Unit {0})
        behind_filter = ensure_chain runner (codes "nat") (nat_chain_of c.chain) >> behind_nat
