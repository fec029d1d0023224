-- ===== src/Tests/EnforcedExamples.antt =====
-- The daemon with its drivers, and the cleanup of one, at concrete inputs: a controller with
-- linux-exit.
use netflix_pbrd.Base.{err, text, ◌≡◌, refl, false, [], ◌∷◌, none, ok, codes}
use netflix_pbrd.Text.{text_eq}
use netflix_pbrd.Networks.{equal}
use netflix_pbrd.System.{System, Applier, missing}
use netflix_pbrd.Runner.{Runner}
use netflix_pbrd.Runtime.Daemon.{
  Runtime, Host, State, reconcile_locked, apply_desired, apply_all, report_learned, record_status,
  publish_status,
}
use netflix_pbrd.Drivers.Commands.{succeeds, restore_iptables, ensure_chain}
use netflix_pbrd.Drivers.Exit.{apply_exit, apply_exit_with, remove_legacy, hook_filter, hook_nat}
use netflix_pbrd.Drivers.Dispatch.{apply_networks}
use netflix_pbrd.Drivers.Journal.{Journal}
use netflix_pbrd.Drivers.Enforced.{with_commands, AreEnforced, reconcile_locked-AreEnforced}
use netflix_pbrd.Operations.Machine.{Machine, absent, no_process}
use netflix_pbrd.Operations.Cleanup.{cleanup_linux_exit}
use netflix_pbrd.Operations.CleanupOrder.{
  is_chain_removal, is_unhooked, with_answers, Answers, answering, cleanup_linux_exit-IsOrderly,
}
use netflix_pbrd.Drivers.Exit.{with_chain}
use netflix_pbrd.Drivers.Ordering.{IsOrderly}
use netflix_pbrd.Tests.Fixtures.{no_parsers, World, test_config, test_runtime, no_networks}
use netflix_pbrd.Tests.DriverExamples.{toy_parsers, exit_config}

abbrev Logged : Type 0
Logged = Journal × World

abbrev logged_system : {J : Type 0} → System (J × World)
logged_system = record {
  now = λ w. (w, 7);
  pid = 1;
  read_file = λ path w. missing;
  make_parent = λ path w. (w, ok tt);
  write_file = λ path bytes w. (w, ok tt);
  rename = λ from to w. (w, ok tt);
  send = λ request w. (
    w,
    ok (record { status = 204; status_line = codes "204 No Content"; payload = ok no_networks }),
  );
}

abbrev no_drivers : Applier Logged
no_drivers = record {
  apply_networks = λ c networks w. (w, ok tt);
  reapply_networks = λ c networks w. (w, ok tt);
}

abbrev logged_host : Host Logged
logged_host = record {
  system = logged_system;
  drivers = no_drivers;
  encode = λ status. ok [];
  parse_duration = λ s. none;
  error_text = λ e. codes "failed";
}

abbrev willing_runner : Runner World
willing_runner = record {
  run = λ name args w. (w, ok tt);
  run_input = λ input name args w. (w, ok tt);
  output = λ name args w. (w, ok []);
  look_path = λ name w. (w, ok (codes "/usr/sbin/iptables-restore"));
  exists = λ path w. false;
}

abbrev exit_runtime : Runtime
exit_runtime = record test_runtime {
  config = record test_config { apply = exit_config ∷ [] };
  desired = codes "8.8.8.8/32" ∷ [];
}

abbrev full_host : Host Logged
full_host = with_commands willing_runner toy_parsers logged_host

abbrev reconciled : State full_host
reconciled = (reconcile_locked full_host (exit_runtime, ([], tt))).0

reconciles : reconcile_locked full_host (exit_runtime, ([], tt)) ≡ (reconciled, ok tt)
unfolding reconcile_locked apply_desired apply_all report_learned record_status publish_status
    apply_networks apply_exit apply_exit_with ensure_chain succeeds remove_legacy restore_iptables
    hook_filter hook_nat text_eq equal
reconciles = refl

reconcile_locked-AreEnforced_example :
    (s' : Logged) × (apply_all full_host false exit_runtime.config.apply exit_runtime.desired
        ([], tt)
      ≡ (s', ok tt))
    × AreEnforced willing_runner exit_runtime.config.apply exit_runtime.desired s'
reconcile_locked-AreEnforced_example =
    reconcile_locked-AreEnforced willing_runner toy_parsers logged_host exit_runtime ([], tt)
      reconciled reconciles refl

abbrev answers_machine : Machine (Answers × World)
answers_machine = record {
  system = logged_system;
  runner = answering willing_runner;
  user = 0;
  path_exists = λ path w. false;
  remove = λ path w. (w, absent);
  kill = λ pid signal w. (w, no_process);
  sleep = λ d w. w;
  read_link = λ path w. ok path;
  eval_symlinks = λ path w. ok path;
  executable = ok (codes "/tmp/netflix-pbrd");
  open_file = λ path w. (w, ok 3);
  create_file = λ path mode w. (w, ok 4);
  copy_bytes = λ from to w. (w, ok tt);
  close_file = λ fd w. (w, ok tt);
  chmod = λ path mode w. (w, ok tt);
  stamp = λ w. (w, codes "20060102T150405Z");
  rule_parsers = toy_parsers;
  parsers = no_parsers;
  decode_config = λ bytes. ok (codes "controller", test_config);
  decode_status = λ bytes. err (text (codes "no status"));
  error_text = λ e. codes "no chain";
  number_text = λ n. codes "1";
  quote = λ s. s;
  unicode_lower = λ s. s;
}

cleanup_linux_exit-IsOrderly_example :
    IsOrderly
      (is_chain_removal (with_chain (codes "STREAM_EXIT") exit_config).chain)
      (is_unhooked answers_machine willing_runner
        (with_chain (codes "STREAM_EXIT") exit_config).chain)
      (cleanup_linux_exit (with_answers answers_machine willing_runner) exit_config ([], tt))
cleanup_linux_exit-IsOrderly_example =
    cleanup_linux_exit-IsOrderly answers_machine willing_runner exit_config tt
