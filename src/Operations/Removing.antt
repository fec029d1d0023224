-- ===== src/Operations/Removing.antt =====
-- Which files `Uninstall` removes, and behind what.
use netflix_pbrd.Base.{
  ℕ, zero, suc, ◌+◌, ◌*◌, ◌≡◌, refl, ◌∙◌, ◌⊎◌, inl, inr, Bool, false, List, [], ◌∷◌, Text, ◌>>◌,
  >>=-cases, pure, fail, when, Result, ok, err, Result-cases, is_ok, is_err, Keeps, Keeps->>,
  Keeps-if, Keeps-when, codes, ◌==◌, leb, ltb, ◌||◌, Bool-cases, arith,
}
use netflix_pbrd.Config.{Config, second}
use netflix_pbrd.Status.{OperationalStatus, load_operational_status, runtime_status_file}
use netflix_pbrd.Operations.Machine.{
  Machine, load_config_file, Signal, sent, no_process, refused, Removal, removed, absent, kept,
}
use netflix_pbrd.Operations.Install.{Platform, openwrt, entware, systemd, InstallLayout}
use netflix_pbrd.Operations.Cleanup.{cleanup}
use netflix_pbrd.Operations.Kept.{IsSteady}
use netflix_pbrd.Operations.Undone.{cleanup-Keeps}
use netflix_pbrd.Operations.Uninstall.{
  wait_gone, poll_again, terminated, verify_process_executable, wait_from, rounds_of_wait, sigterm,
  stop_process, stop_by_status, stop_on, stop_service, removal, remove_if_present, remove_files,
  uninstall_as, is_systemd, unidentified,
}

module _ {W : Type 0} (m : Machine W) (P : W → Type 0) (steady : IsSteady m P) where
  poll_again-Keeps :
      (next : W → W × Result (Unit {0}))
      → Keeps P next
      → (r : W × Signal) → P r.0
      → P (poll_again m next r).0
  poll_again-Keeps next h (w, sent) p = h (m.sleep 100000000 w) (steady.sleeps 100000000 w p)
  poll_again-Keeps next h (w, no_process) p = p
  poll_again-Keeps next h (w, refused e) p = h (m.sleep 100000000 w) (steady.sleeps 100000000 w p)

  wait_gone-Keeps : (rounds pid deadline : ℕ) → Keeps P (wait_gone m rounds pid deadline)
  unfolding wait_gone
  wait_gone-Keeps zero pid deadline w p = p
  wait_gone-Keeps (suc rounds) pid deadline w p =
      elim (Bool-cases (ltb (m.system.now w).1 deadline)) [
        | inr late ↦ rw late (steady.nows w p)
        | inl early ↦
            let next = wait_gone m rounds pid deadline in
            let sent_to = m.kill pid 0 (m.system.now w).0 in
            rw early (
              poll_again-Keeps next (wait_gone-Keeps rounds pid deadline) sent_to
                (steady.kills pid 0 (m.system.now w).0 (steady.nows w p)))
      ]

  terminated-Keeps : (r : W × Signal) → P r.0 → P (terminated m r).0
  terminated-Keeps (w, sent) p = p
  terminated-Keeps (w, no_process) p = p
  terminated-Keeps (w, refused e) p = p

  stop_process-Keeps : (pid : ℕ) (binary : Text) → Keeps P (stop_process m pid binary)
  unfolding stop_process
  stop_process-Keeps pid binary =
      Keeps->> P (λ w. (w, verify_process_executable m pid binary w)) (terminate >> wait) (λ w p. p)
        (Keeps->> P terminate wait
          (λ w p. terminated-Keeps (m.kill pid sigterm w) (steady.kills pid sigterm w p))
          (λ w p.
            wait_gone-Keeps (rounds_of_wait m) pid ((m.system.now w).1 + 5 * second)
              (m.system.now w).0 (steady.nows w p)))
    where
      terminate : W → W × Result (Unit {0})
      terminate w = terminated m (m.kill pid sigterm w)

      wait : W → W × Result (Unit {0})
      wait w = wait_from m pid (m.system.now w)

  two_runs :
      (name other : Text) (args more : List Text)
      → Keeps P (m.runner.run name args >> m.runner.run other more)
  two_runs name other args more =
      Keeps->> P (m.runner.run name args) (m.runner.run other more) (steady.runs name args)
        (steady.runs other more)

  stop_by_status-Keeps :
      (layout : InstallLayout) (r : Result OperationalStatus) → Keeps P (stop_by_status m layout r)
  stop_by_status-Keeps layout (err e) w p = p
  stop_by_status-Keeps layout (ok status) w p =
      Keeps-if P (leb status.pid 1 || status.pid == m.system.pid)
        (fail (unidentified m layout.service)) (stop_process m status.pid layout.binary) (λ w p. p)
        (stop_process-Keeps status.pid layout.binary) w p

  stop_on-Keeps :
      (platform : Platform) (layout : InstallLayout) (c : Config)
      → Keeps P (stop_on m platform layout c)
  stop_on-Keeps systemd layout c w p = two_runs (codes "systemctl") (codes "systemctl") _ _ w p
  stop_on-Keeps openwrt layout c w p = two_runs layout.service layout.service _ _ w p
  stop_on-Keeps entware layout c w p =
      stop_by_status-Keeps layout
        (load_operational_status m.system m.decode_status (runtime_status_file c.state_file) w) w p

  stop_service-Keeps : (layout : InstallLayout) (c : Config) → Keeps P (stop_service m layout c)
  unfolding stop_service
  stop_service-Keeps layout c = stop_on-Keeps layout.platform layout c

  module _ (layout : InstallLayout) (config_path : Text) (purge : Bool) where
    -- What comes before the removal of files.
    pub record IsBehind (w : W) : Type 0 where
      pub config : Config
      pub stopped_at : W
      pub cleaned_at : W
      pub root : m.user ≡ 0
      pub loaded : load_config_file m config_path w ≡ ok config
      pub stopped : stop_service m layout config w ≡ (stopped_at, ok tt)
      pub cleaned : cleanup m config stopped_at ≡ (cleaned_at, ok tt)
      pub before : P cleaned_at
      pub removing :
          uninstall_as m layout config_path purge w ≡ remove_files m layout purge config cleaned_at

    behind_stop : Config → W → W × Result (Unit {0})
    behind_stop c = cleanup m c >> remove_files m layout purge c

    -- From the loaded configuration on.
    steps-IsBehind :
        (w : W) (c : Config)
        → P w
        → m.user ≡ 0
        → load_config_file m config_path w ≡ ok c
        → uninstall_as m layout config_path purge w ≡ (stop_service m layout c >> behind_stop c) w
        → P (uninstall_as m layout config_path purge w).0 ⊎ IsBehind w
    unfolding behind_stop
    steps-IsBehind w c p root loaded run =
        elim (>>=-cases (stop_service m layout c) (λ _. behind_stop c) w) [
          | inr (e, v, stopped, end) ↦
              let held : P v = rw stopped at (stop_service-Keeps layout c w p) in
              inl (rw (run, end) held)
          | inl (_, v, stopped, go) ↦
              let held : P v = rw stopped at (stop_service-Keeps layout c w p) in
              elim (>>=-cases (cleanup m c) (λ _. remove_files m layout purge c) v) [
                | inr (e, u, cleaned, end) ↦
                    let still : P u = rw cleaned at (cleanup-Keeps m P steady c v held) in
                    inl (rw (run, go, end) still)
                | inl (_, u, cleaned, removing) ↦ inr (record {
                  config = c;
                  stopped_at = v;
                  cleaned_at = u;
                  root = root;
                  loaded = loaded;
                  stopped = stopped;
                  cleaned = cleaned;
                  before = rw cleaned at (cleanup-Keeps m P steady c v held);
                  removing = run ∙ go ∙ removing;
                })
              ]
        ]

    -- A predicate that commands, signals, sleeps and the clock keep, such as that the files are as they
    -- were, holds behind `Uninstall` too, whatever it fails at, unless it ran as root, loaded its
    -- configuration, stopped the service and cleaned up, all without an error, and went on to remove
    -- files only then.
    pub uninstall_as-IsBehind :
        (w : W) → P w → P (uninstall_as m layout config_path purge w).0 ⊎ IsBehind w
    unfolding uninstall_as behind_stop
    uninstall_as-IsBehind w p = elim (Bool-cases (m.user == 0)) [
      | inr other ↦ inl (rw other p)
      | inl root ↦ elim (Result-cases (load_config_file m config_path w)) [
        | is_err e l ↦ inl (rw (root, l) p)
        | is_ok c l ↦ steps-IsBehind w c p (ground arith) l (rw (root, l) refl)
      ]
    ]

  removal-Keeps : (r : W × Removal) → P r.0 → P (removal m r).0
  removal-Keeps (w, removed) p = p
  removal-Keeps (w, absent) p = p
  removal-Keeps (w, kept e) p = p

  remove_files-Keeps :
      (layout : InstallLayout) (c : Config)
      → ((w : W) → P w → P (m.remove layout.service w).0)
      → ((w : W) → P w → P (m.remove layout.binary w).0)
      → Keeps P (remove_files m layout false c)
  unfolding remove_files remove_if_present
  remove_files-Keeps layout c hs hb =
      Keeps->> P (remove_if_present m layout.service) behind_service
        (λ w p. removal-Keeps (m.remove layout.service w) (hs w p))
        (Keeps->> P (remove_if_present m layout.binary) behind_binary
          (λ w p. removal-Keeps (m.remove layout.binary w) (hb w p))
          (Keeps->> P reloading (pure tt)
            (Keeps-when P (is_systemd layout.platform) _ (steady.runs (codes "systemctl") _))
            (λ w p. p)))
    where
      reloading : W → W × Result (Unit {0})
      reloading =
          when (is_systemd layout.platform)
            (m.runner.run (codes "systemctl") (codes "daemon-reload" ∷ []))

      behind_binary : W → W × Result (Unit {0})
      behind_binary = reloading >> pure tt

      behind_service : W → W × Result (Unit {0})
      behind_service = remove_if_present m layout.binary >> behind_binary

  -- Without the purge, `Uninstall` keeps, whether it succeeds or fails, every predicate that commands,
  -- signals, sleeps, the clock and the removal of the service file and of the binary keep, such as
  -- that the configuration and the state files are there.
  pub uninstall_as-Keeps :
      (layout : InstallLayout) (config_path : Text) (w : W)
      → ((w : W) → P w → P (m.remove layout.service w).0)
      → ((w : W) → P w → P (m.remove layout.binary w).0)
      → P w
      → P (uninstall_as m layout config_path false w).0
  uninstall_as-Keeps layout config_path w hs hb p =
      elim (uninstall_as-IsBehind layout config_path false w p) [
        | inl untouched ↦ untouched
        | inr behind ↦
            rw (behind.removing)
              (remove_files-Keeps layout behind.config hs hb behind.cleaned_at behind.before)
      ]
