-- ===== src/Drivers/Enforced.antt =====
-- The daemon with its drivers: what a reconciliation has handed to the firewall.
use netflix_pbrd.Base.{
  ◌≡◌, refl, ap, sym, ◌∙◌, Bool, true, false, not, List, [], ◌∷◌, ◌++◌, Text, Io, ◌>>◌, >>=-eq-ok,
  Keeps, Keeps->>, wrap_error, Result, ok, err, codes, arith,
}
use netflix_pbrd.Text.{text_eq}
use netflix_pbrd.Text.Laws.{text_eq→eq, text_eq_refl}
use netflix_pbrd.Config.{ApplyConfig}
use netflix_pbrd.Runner.{Runner}
use netflix_pbrd.Runtime.Daemon.{
  Host, Runtime, State, apply_all, apply_desired, reconcile_locked, is_changed, in_world,
  modify_now,
}
use netflix_pbrd.Runtime.Inversion.{reporting, set_applied}
use netflix_pbrd.Drivers.Commands.{restore_iptables, ensure_chain, route_batch}
use netflix_pbrd.Drivers.Rules.{RuleParsers, ensure_ip_rule}
use netflix_pbrd.Drivers.Edge.{
  with_edge_defaults, edge_restore, apply_edge, apply_edge_with, hook_edge, rule_key, default_route,
  edge_hook, edge_insert,
}
use netflix_pbrd.Drivers.Exit.{
  with_chain, nat_chain_of, exit_restore, apply_exit, apply_exit_with, remove_legacy, hook_filter,
  hook_nat,
}
use netflix_pbrd.Drivers.Dispatch.{apply_networks, command_applier}
use netflix_pbrd.Drivers.Journal.{Entry, Journal, journaled}
use netflix_pbrd.Drivers.Ordering.{is_ordered, some_entry, is_restore, restore_iptables-Prepared}
use netflix_pbrd.Drivers.Kept.{CommandsKeep, hooks-Keeps, probing-Keeps}
use netflix_pbrd.Drivers.Dispatched.{apply_networks-Keeps}

abbrev never : Entry → Bool
never e = false

never-Ordered : (first : Entry → Bool) (j : Journal) → is_ordered never first j ≡ true
never-Ordered first [] = refl
never-Ordered first (e ∷ j) = never-Ordered first j

not_named :
    (s name other : Text)
    → text_eq s name ≡ true
    → text_eq name other ≡ false
    → text_eq s other ≡ false
not_named s name other h k = rw (text_eq→eq s name h) k

module _ {W : Type 0} (runner : Runner W) where
  abbrev runs : Runner (Journal × W)
  runs = journaled runner

  -- The journal has an entry of a kind.
  abbrev Has : (Entry → Bool) → Journal × W → Type 0
  Has test s = some_entry test s.0 ≡ true

  -- Commands only add to the journal.
  journal_grows : (test : Entry → Bool) → CommandsKeep runs (Has test)
  journal_grows test = record {
    runs = λ name args s p. ground arith;
    inputs = λ input name args s p. ground arith;
    outputs = λ name args s p. ground arith;
    finds = λ name s p. p;
  }

  restore_iptables-Has :
      (input : Text) (s s' : Journal × W)
      → restore_iptables runs input s ≡ (s', ok tt)
      → Has (is_restore input) s'
  restore_iptables-Has input (j, w) (j', w') e =
      let led =
        restore_iptables-Prepared runner never (is_restore input) input (λ name b. refl)
          (λ name b. refl) (λ name args. text_eq_refl input) j w
          (never-Ordered (is_restore input) j) in
      (rw e at led).1

  -- The rules that linux-exit and linux-edge restore.
  abbrev pub exit_rules : ApplyConfig → List Text → Text
  exit_rules c nets =
      exit_restore (with_chain (codes "STREAM_EXIT") c)
        (nat_chain_of (with_chain (codes "STREAM_EXIT") c).chain) nets

  abbrev pub edge_rules : ApplyConfig → List Text → Text
  edge_rules c nets = edge_restore (with_edge_defaults c) nets

  apply_exit-Has :
      (c : ApplyConfig) (nets : List Text) (s s' : Journal × W)
      → apply_exit runs c nets s ≡ (s', ok tt)
      → Has (is_restore (exit_rules c nets)) s'
  unfolding apply_exit apply_exit_with
  apply_exit-Has c nets s s' e =
      let d = with_chain (codes "STREAM_EXIT") c in
      let nat = nat_chain_of d.chain in
      let hooks = hook_filter runs d.chain >> hook_nat runs nat in
      let (_, a, _, more) =
        >>=-eq-ok (ensure_chain runs (codes "filter") d.chain)
          (λ _.
            ensure_chain runs (codes "nat") nat
            >> (remove_legacy runs d >> (restore_iptables runs (exit_rules c nets) >> hooks)))
          s e in
      let (_, b, _, rest) =
        >>=-eq-ok (ensure_chain runs (codes "nat") nat)
          (λ _. remove_legacy runs d >> (restore_iptables runs (exit_rules c nets) >> hooks)) a
          more in
      let (_, u, _, last) =
        >>=-eq-ok (remove_legacy runs d) (λ _. restore_iptables runs (exit_rules c nets) >> hooks) b
          rest in
      let (_, v, restored, hooked) =
        >>=-eq-ok (restore_iptables runs (exit_rules c nets)) (λ _. hooks) u last in
      rw (ap (λ p. p.0) hooked) at (
        hooks-Keeps runs (Has (is_restore (exit_rules c nets)))
          (journal_grows (is_restore (exit_rules c nets))) d.chain nat v
          (restore_iptables-Has (exit_rules c nets) u v restored))

  apply_edge-Has :
      (parsers : RuleParsers) (c : ApplyConfig) (nets : List Text) (s s' : Journal × W)
      → apply_edge runs parsers c nets s ≡ (s', ok tt)
      → Has (is_restore (edge_rules c nets)) s'
  unfolding apply_edge apply_edge_with hook_edge
  apply_edge-Has parsers c nets s s' e =
      let d = with_edge_defaults c in
      let restoring = restore_iptables runs (edge_rules c nets) >> hook_edge runs d in
      let (_, a, _, more) =
        >>=-eq-ok (route_batch runs (default_route d ∷ []))
          (λ _.
            ensure_ip_rule parsers runs (rule_key d)
            >> (ensure_chain runs (codes "mangle") d.chain >> restoring))
          s e in
      let (_, b, _, rest) =
        >>=-eq-ok (ensure_ip_rule parsers runs (rule_key d))
          (λ _. ensure_chain runs (codes "mangle") d.chain >> restoring) a more in
      let (_, u, _, last) =
        >>=-eq-ok (ensure_chain runs (codes "mangle") d.chain) (λ _. restoring) b rest in
      let (_, v, restored, hooked) =
        >>=-eq-ok (restore_iptables runs (edge_rules c nets)) (λ _. hook_edge runs d) u last in
      rw (ap (λ p. p.0) hooked) at (
        probing-Keeps runs (Has (is_restore (edge_rules c nets)))
          (journal_grows (is_restore (edge_rules c nets))) (codes "iptables") (edge_hook d) not
          (runs.run (codes "iptables") (edge_insert d))
          ((journal_grows (is_restore (edge_rules c nets))).runs (codes "iptables") (edge_insert d))
          v (restore_iptables-Has (edge_rules c nets) u v restored))

  -- What the journal has for one driver of the configuration, and for all of them.
  pub record IsEnforced (c : ApplyConfig) (nets : List Text) (s : Journal × W) : Type 0 where
    pub exit :
        text_eq c.driver (codes "linux-exit") ≡ true
        → some_entry (is_restore (exit_rules c nets)) s.0 ≡ true
    pub edge :
        text_eq c.driver (codes "linux-edge") ≡ true
        → some_entry (is_restore (edge_rules c nets)) s.0 ≡ true

  abbrev pub AreEnforced : List ApplyConfig → List Text → Journal × W → Type 0
  AreEnforced [] nets s = Unit
  AreEnforced (c ∷ cs) nets s = IsEnforced c nets s × AreEnforced cs nets s

  module _ (parsers : RuleParsers) where
    exit_chosen :
        (c : ApplyConfig) (nets : List Text) (s : Journal × W)
        → text_eq c.driver (codes "linux-exit") ≡ true
        → apply_networks parsers runs c nets s ≡ apply_exit runs c nets s
    unfolding apply_networks
    exit_chosen c nets s h =
        rw
          (
            not_named c.driver (codes "linux-exit") (codes "wg-route") h (unfold text_eq in refl),
            not_named c.driver (codes "linux-exit") (codes "linux-edge") h (unfold text_eq in refl),
            not_named c.driver (codes "linux-exit") (codes "openwrt-pbr") h
                (unfold text_eq in refl),
            h,
          )
          refl

    edge_chosen :
        (c : ApplyConfig) (nets : List Text) (s : Journal × W)
        → text_eq c.driver (codes "linux-edge") ≡ true
        → apply_networks parsers runs c nets s ≡ apply_edge runs parsers c nets s
    unfolding apply_networks
    edge_chosen c nets s h =
        rw
          (not_named c.driver (codes "linux-edge") (codes "wg-route") h (unfold text_eq in refl), h)
          refl

    apply_networks-IsEnforced :
        (c : ApplyConfig) (nets : List Text) (s s' : Journal × W)
        → apply_networks parsers runs c nets s ≡ (s', ok tt)
        → IsEnforced c nets s'
    apply_networks-IsEnforced c nets s s' e = record {
      exit = λ h. apply_exit-Has c nets s s' (sym (exit_chosen c nets s h) ∙ e);
      edge = λ h. apply_edge-Has parsers c nets s s' (sym (edge_chosen c nets s h) ∙ e);
    }

    wrap_error-world :
        {A : Type 0} (prefix : Text) (act : Io (Journal × W) A) (s : Journal × W)
        → (wrap_error prefix act s).0 ≡ (act s).0
    wrap_error-world {A} prefix act s = split (act s)
      where
        split :
            (r : (Journal × W) × Result A) → (wrap_error prefix (λ (s : Journal × W). r) s).0 ≡ r.0
        split (v, ok a) = refl
        split (v, err e) = refl

    wrap_error-eq-ok :
        (prefix : Text) (act : Io (Journal × W) (Unit {0})) (s s' : Journal × W)
        → wrap_error prefix act s ≡ (s', ok tt)
        → act s ≡ (s', ok tt)
    wrap_error-eq-ok prefix act s s' e = split (act s) e
      where
        split :
            (r : (Journal × W) × Result (Unit {0}))
            → wrap_error prefix (λ (s : Journal × W). r) s ≡ (s', ok tt)
            → r ≡ (s', ok tt)
        split (v, ok a) k = k
        split (v, err x) k = absurd (ground arith)

    -- The daemon's host, with the drivers behind the journal.
    abbrev pub with_commands : Host (Journal × W) → Host (Journal × W)
    with_commands host = record host { drivers = command_applier parsers runs }

    module _ (host : Host (Journal × W)) (nets : List Text) where
      apply_all-Has :
          (test : Entry → Bool) (cs : List ApplyConfig)
          → Keeps (Has test) (apply_all (with_commands host) false cs nets)
      unfolding apply_all
      apply_all-Has test [] s p = p
      apply_all-Has test (c ∷ cs) s p =
          Keeps->> (Has test) applied (apply_all (with_commands host) false cs nets)
            (λ s p.
              rw
                (wrap_error-world (codes "apply " ++ c.driver) (apply_networks parsers runs c nets)
                  s)
                (apply_networks-Keeps runs (Has test) (journal_grows test) parsers c nets s p))
            (apply_all-Has test cs) s p
        where
          applied : Journal × W → (Journal × W) × Result (Unit {0})
          applied = wrap_error (codes "apply " ++ c.driver) (apply_networks parsers runs c nets)

      apply_all-AreEnforced :
          (cs : List ApplyConfig) (s s' : Journal × W)
          → apply_all (with_commands host) false cs nets s ≡ (s', ok tt)
          → AreEnforced cs nets s'
      unfolding apply_all
      apply_all-AreEnforced [] s s' e = tt
      apply_all-AreEnforced (c ∷ cs) s s' e =
          let (_, v, one, more) =
            >>=-eq-ok (wrap_error (codes "apply " ++ c.driver) (apply_networks parsers runs c nets))
              (λ _. apply_all (with_commands host) false cs nets) s e in
          let first = apply_networks-IsEnforced c nets s v (
            wrap_error-eq-ok (codes "apply " ++ c.driver) (apply_networks parsers runs c nets) s v
              one) in
          (
            record {
              exit = λ h.
                  rw (ap (λ p. p.0) more) at
                    (apply_all-Has (is_restore (exit_rules c nets)) cs v (first.exit h));
              edge = λ h.
                  rw (ap (λ p. p.0) more) at
                    (apply_all-Has (is_restore (edge_rules c nets)) cs v (first.edge h));
            },
            apply_all-AreEnforced cs v s' more,
          )

    in_world-eq-ok :
        (host : Host (Journal × W)) (act : Io (Journal × W) (Unit {0})) (r : Runtime)
        (s : Journal × W) (t : State host)
        → in_world host act (r, s) ≡ (t, ok tt)
        → act s ≡ (t.1, ok tt)
    in_world-eq-ok host act r s t e = split (act s) e
      where
        split :
            (x : (Journal × W) × Result (Unit {0}))
            → in_world host (λ (s : Journal × W). x) (r, s) ≡ (t, ok tt)
            → x ≡ (t.1, ok tt)
        split (v, ok u) k = rw (← ap (λ p. p.0) k) refl
        split (v, err x) k = absurd (ground arith)

    -- When a reconciliation succeeds and the applied networks were not known to be the desired ones,
    -- every driver of the configuration was run on exactly the desired networks, and for each
    -- linux-exit and each linux-edge there is a successful restore of its rules for them.
    pub reconcile_locked-AreEnforced :
        (host : Host (Journal × W)) (r : Runtime) (s : Journal × W) (t : State (with_commands host))
        → reconcile_locked (with_commands host) (r, s) ≡ (t, ok tt)
        → is_changed (with_commands host) r ≡ true
        → (s' : Journal × W) × (apply_all (with_commands host) false r.config.apply r.desired s
            ≡ (s', ok tt))
          × AreEnforced r.config.apply r.desired s'
    unfolding reconcile_locked apply_desired
    reconcile_locked-AreEnforced host r s t e changed =
        let full = with_commands host in
        let acting = in_world full (apply_all full false r.config.apply r.desired) in
        let (_, u, applied, _) =
          >>=-eq-ok (apply_desired full true false r) (λ _. reporting full r) (r, s)
            (rw changed at e) in
        let (_, v, done, _) =
          >>=-eq-ok acting (λ _. modify_now full (set_applied full r)) (r, s) applied in
        let run = in_world-eq-ok full (apply_all full false r.config.apply r.desired) r s v done in
        (v.1, run, apply_all-AreEnforced host r.desired r.config.apply s v.1 run)
