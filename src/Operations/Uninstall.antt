-- ===== src/Operations/Uninstall.antt =====
-- `Uninstall` of internal/pbr/operations.go: the service is stopped, its traces are cleaned up, and
-- only then files go.
use netflix_pbrd.Base.{
  ℕ, zero, suc, ◌+◌, ◌*◌, Bool, true, false, ◌||◌, List, [], ◌∷◌, ◌++◌, Text, Io, ◌>>=◌, ◌>>◌, pure,
  fail, when, Result, ok, err, Error, text, wrapped, codes, ltb, leb, ◌==◌, if◌then◌else◌,
}
use netflix_pbrd.Text.{text_eq}
use netflix_pbrd.Text.Words.{text_of}
use netflix_pbrd.Config.{Config, second}
use netflix_pbrd.Status.{OperationalStatus, runtime_status_file, load_operational_status}
use netflix_pbrd.Runtime.Daemon.{learned_state_file}
use netflix_pbrd.Operations.Machine.{
  Machine, load_config_file, Removal, removed, absent, kept, Signal, sent, no_process, refused,
}
use netflix_pbrd.Operations.Cleanup.{cleanup}
use netflix_pbrd.Operations.Install.{
  Platform, openwrt, entware, systemd, InstallLayout, detect_install_layout,
}

abbrev pub sigterm : ℕ
sigterm = 15

abbrev pub is_systemd : Platform → Bool
is_systemd systemd = true
is_systemd openwrt = false
is_systemd entware = false

module _ {W : Type 0} (m : Machine W) where
  open m use {system, runner, user, number_text, quote}

  abbrev pub removal : W × Removal → W × Result (Unit {0})
  removal (w, removed) = (w, ok tt)
  removal (w, absent) = (w, ok tt)
  removal (w, kept e) = (w, err e)

  unfoldable pub remove_if_present : Text → Io W (Unit {0})
  remove_if_present path w = removal (m.remove path w)

  unfoldable pub remove_each : List Text → Io W (Unit {0})
  remove_each [] = pure tt
  remove_each (path ∷ paths) = do remove_if_present path; remove_each paths

  abbrev pub cannot_verify : ℕ → Error → Error
  cannot_verify pid e =
      wrapped (text_of (codes "cannot verify Entware daemon PID " ∷ number_text pid ∷ [])) e

  abbrev pub cannot_resolve : Text → Error → Error
  cannot_resolve expected e = wrapped (codes "cannot verify daemon executable " ++ quote expected) e

  abbrev pub foreign_process : ℕ → Text → Text → Error
  foreign_process pid got want = text (
      text_of (
        codes "PID "
        ∷ number_text pid
        ∷ codes " belongs to "
        ∷ quote got
        ∷ codes ", expected "
        ∷ quote want
        ∷ []))

  abbrev pub same_executable : ℕ → Text → Text → Result (Unit {0})
  same_executable pid got want =
      if text_eq got want then ok tt else err (foreign_process pid got want)

  abbrev pub compare_resolved : ℕ → Text → Text → Result Text → Result Text → Result (Unit {0})
  compare_resolved pid expected actual (err e) got = err (cannot_resolve expected e)
  compare_resolved pid expected actual (ok want) (err e) = err (cannot_resolve actual e)
  compare_resolved pid expected actual (ok want) (ok got) = same_executable pid got want

  abbrev pub verify_link : ℕ → Text → Result Text → W → Result (Unit {0})
  verify_link pid expected (err e) w = err (cannot_verify pid e)
  verify_link pid expected (ok actual) w =
      compare_resolved pid expected actual (m.eval_symlinks expected w) (m.eval_symlinks actual w)

  unfoldable pub verify_process_executable : ℕ → Text → W → Result (Unit {0})
  verify_process_executable pid expected w =
      verify_link pid expected
        (m.read_link (text_of (codes "/proc/" ∷ number_text pid ∷ codes "/exe" ∷ [])) w) w

  abbrev pub did_not_stop : ℕ → Error
  did_not_stop pid =
      text (text_of (codes "Entware daemon PID " ∷ number_text pid ∷ codes " did not stop" ∷ []))

  -- `SIGTERM`: a process that is gone already is not an error.
  abbrev pub terminated : W × Signal → W × Result (Unit {0})
  terminated (w, sent) = (w, ok tt)
  terminated (w, no_process) = (w, ok tt)
  terminated (w, refused e) = (w, err e)

  -- The loop of the wait, its rounds counted by the fuel: whether the deadline has come, whether the
  -- process is gone, and the sleep between.
  abbrev pub gone : Signal → Bool
  gone sent = false
  gone no_process = true
  gone (refused e) = false

  abbrev pub poll_again : (W → W × Result (Unit {0})) → W × Signal → W × Result (Unit {0})
  poll_again next (w, signal) = if gone signal then (w, ok tt) else next (m.sleep 100000000 w)

  abbrev pub poll_in_time : ℕ → ℕ → (W → W × Result (Unit {0})) → W × ℕ → W × Result (Unit {0})
  poll_in_time pid deadline next (w, now) =
      if ltb now deadline then poll_again next (m.kill pid 0 w) else (w, err (did_not_stop pid))

  unfoldable pub wait_gone : ℕ → ℕ → ℕ → Io W (Unit {0})
  wait_gone zero pid deadline w = (w, err (did_not_stop pid))
  wait_gone (suc rounds) pid deadline w =
      poll_in_time pid deadline (wait_gone rounds pid deadline) (system.now w)

  -- Five seconds are fifty sleeps.
  abbrev pub rounds_of_wait : ℕ
  rounds_of_wait = 51

  abbrev pub wait_from : ℕ → W × ℕ → W × Result (Unit {0})
  wait_from pid (w, now) = wait_gone rounds_of_wait pid (now + 5 * second) w

  unfoldable pub stop_process : ℕ → Text → Io W (Unit {0})
  stop_process pid binary = do
    λ w. (w, verify_process_executable pid binary w)
    λ w. terminated (m.kill pid sigterm w)
    λ w. wait_from pid (system.now w)

  abbrev pub unidentified : Text → Error
  unidentified service = text (
      text_of (
        codes "cannot identify Entware daemon PID safely; run "
        ∷ service
        ∷ codes " stop first"
        ∷ []))

  abbrev pub stop_by_status : InstallLayout → Result OperationalStatus → Io W (Unit {0})
  stop_by_status layout (err e) = fail (unidentified layout.service)
  stop_by_status layout (ok status) =
      if leb status.pid 1 || status.pid == system.pid
      then fail (unidentified layout.service)
      else stop_process status.pid layout.binary

  abbrev pub stop_on : Platform → InstallLayout → Config → Io W (Unit {0})
  stop_on systemd layout c w =
      (runner.run (codes "systemctl") (codes "disable" ∷ codes "--now" ∷ codes "netflix-pbrd" ∷ [])
          >> runner.run (codes "systemctl") (codes "daemon-reload" ∷ []))
        w
  stop_on openwrt layout c w =
      (runner.run layout.service (codes "disable" ∷ [])
          >> runner.run layout.service (codes "stop" ∷ []))
        w
  stop_on entware layout c w =
      stop_by_status layout
        (load_operational_status system m.decode_status (runtime_status_file c.state_file) w) w

  unfoldable pub stop_service : InstallLayout → Config → Io W (Unit {0})
  stop_service layout c = stop_on layout.platform layout c

  abbrev pub purged : InstallLayout → Config → List Text
  purged layout c =
      layout.config
      ∷ c.state_file
      ∷ learned_state_file c.state_file
      ∷ runtime_status_file c.state_file
      ∷ []

  -- The files go.
  unfoldable pub remove_files : InstallLayout → Bool → Config → Io W (Unit {0})
  remove_files layout purge c = do
    remove_if_present layout.service
    remove_if_present layout.binary
    when (is_systemd layout.platform) (runner.run (codes "systemctl") (codes "daemon-reload" ∷ []))
    when purge (remove_each (purged layout c))

  unfoldable pub uninstall_as : InstallLayout → Text → Bool → Io W (Unit {0})
  uninstall_as layout config_path purge = do
    if user == 0 then pure tt else fail (text (codes "uninstall must run as root"))
    c ← λ w. (w, load_config_file m config_path w)
    stop_service layout c
    cleanup m c
    remove_files layout purge c

  unfoldable pub uninstall : Text → Bool → W → InstallLayout × (W × Result (Unit {0}))
  uninstall config_path purge w =
      let layout = detect_install_layout m w in (layout, uninstall_as layout config_path purge w)
