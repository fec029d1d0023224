-- ===== src/Tests/DaemonExamples.antt =====
-- The theorems on the daemon and the DNS proxy at concrete inputs.
use netflix_pbrd.Base.{
  Result, ◌≡◌, refl, ◌⊎◌, true, false, List, [], ◌∷◌, Text, ok, err, codes, arith, Io, wrapped,
}
use netflix_pbrd.Text.{contains, text_eq, has_prefix, trim_prefix, has_suffix}
use netflix_pbrd.Networks.{
  state_content, invalid_network, run_canonical, run_merge, run_validate, equal,
}
use netflix_pbrd.Networks.Merging.{names, IsNetworkSet}
use netflix_pbrd.Config.{is_agent, poll_interval, reapply_every}
use netflix_pbrd.System.{ApiResponse, content, replace_file}
use netflix_pbrd.Runtime.Daemon.{
  Runtime, new_runtime, load_state, Host, learn_body, accept_report, reconcile_locked,
  apply_desired, apply_all, report_learned, record_status, publish_status, save_state, initial_sets,
}
use netflix_pbrd.Runtime.Server.{
  handle, handle_post, is_valid_report, status_written, is_post, is_authorized,
}
use netflix_pbrd.Runtime.Invariant.{AreSound}
use netflix_pbrd.Runtime.Learning.{SoundAt}
use netflix_pbrd.Runtime.Reports.{here, next, learns, notes, Reach-SoundAt}
use netflix_pbrd.Runtime.Running.{run, run-SoundAt}
use netflix_pbrd.Runtime.Accepting.{accept_report-ok, handle-changes, handle-204}
use netflix_pbrd.Runtime.Restart.{initial_sets-recovers, initial_sets-refuses_empty, written}
use netflix_pbrd.Dns.{Msg}
use netflix_pbrd.Tests.Fixtures.{
  World, test_host, test_config, test_runtime, test_state, one_host, aliased_answer, report_call,
  quiet_system,
}

no_set : IsNetworkSet []
no_set = record { sorted = tt; forms = tt }

empty_sound : AreSound test_config [] []
empty_sound = record {
  desired_set = no_set;
  desired_bound = omega arith;
  learned_set = no_set;
  learned_hosts = tt;
  learned_bound = omega arith;
  learned_desired = λ y h. h;
  seeds_desired = λ y h. absurd (ground arith);
}

Reach-SoundAt_example :
    SoundAt test_host test_config
      (record_status test_host (codes "failed") (learn_body test_host one_host test_state).0)
Reach-SoundAt_example =
    Reach-SoundAt test_host test_config
      (next (next here (learns one_host)) (notes (codes "failed"))) (refl, empty_sound)

abbrev eight : List Text
eight = codes "8.8.8.8/32" ∷ []

abbrev saved_host : Host World
saved_host = record test_host {
  system = record quiet_system { read_file = λ path w. content (state_content eight) };
}

eight_set : IsNetworkSet eight
unfolding run_canonical
eight_set = record { sorted = (tt, tt); forms = (refl, tt) }

eight_sound : AreSound test_config eight eight
unfolding has_suffix text_eq
eight_sound = record {
  desired_set = eight_set;
  desired_bound = omega arith;
  learned_set = eight_set;
  learned_hosts = (refl, tt);
  learned_bound = omega arith;
  learned_desired = λ y h. h;
  seeds_desired = λ y h. absurd (ground arith);
}

initial_sets-recovers_example : initial_sets saved_host test_config tt ≡ (tt, ok (eight, eight))
initial_sets-recovers_example =
    initial_sets-recovers saved_host test_config tt eight eight eight_sound
      (written (codes "8.8.8.8/32") []) (written (codes "8.8.8.8/32") [])

abbrev emptied_host : Host World
emptied_host = record test_host {
  system = record quiet_system { read_file = λ path w. content (state_content []) };
}

initial_sets-refuses_empty_example :
    initial_sets emptied_host test_config tt
    ≡ (tt, err (wrapped (codes "state") (invalid_network [])))
initial_sets-refuses_empty_example = initial_sets-refuses_empty emptied_host test_config tt refl

one_accepted_report :
    accept_report test_host one_host test_state
    ≡ ((accept_report test_host one_host test_state).0, ok tt)
unfolding accept_report reconcile_locked apply_desired apply_all report_learned record_status
    publish_status save_state replace_file run_validate run_merge equal
one_accepted_report = refl

accept_report-ok_example :
    ((accept_report test_host one_host test_state).0.0.applied_known ≡ true)
    × ((accept_report test_host one_host test_state).0.0.applied
        ≡ (accept_report test_host one_host test_state).0.0.desired)
    × ((y : Text)
        → names one_host y ≡ true
        → contains (accept_report test_host one_host test_state).0.0.applied y ≡ true)
    × ((y : Text)
        → names [] y ≡ true
        → contains (accept_report test_host one_host test_state).0.0.applied y ≡ true)
accept_report-ok_example =
    accept_report-ok test_host one_host test_state (accept_report test_host one_host test_state).0
      one_accepted_report

report_handled :
    handle test_host report_call test_state
    ≡ ((handle test_host report_call test_state).0, status_written 204)
unfolding handle handle_post is_valid_report text_eq trim_prefix has_prefix accept_report
    reconcile_locked apply_desired apply_all report_learned record_status publish_status save_state
    replace_file run_validate run_merge equal
report_handled = refl

handle-204_example :
    (report : ApiResponse) × (report_call.payload ≡ ok report)
    × ((handle test_host report_call test_state).0.0.applied
        ≡ (handle test_host report_call test_state).0.0.desired)
    × ((y : Text)
        → names report.networks y ≡ true
        → contains (handle test_host report_call test_state).0.0.applied y ≡ true)
handle-204_example =
    handle-204 test_host report_call test_state (handle test_host report_call test_state).0
      report_handled

handle-changes_example :
    ((handle test_host report_call test_state).0 ≡ test_state)
    ⊎ ((report : ApiResponse) × (is_post report_call.method ≡ true)
        × (is_authorized test_config report_call ≡ true)
        × (is_agent test_config.role ≡ false)
        × (report_call.payload ≡ ok report)
        × (is_valid_report test_runtime report ≡ true)
        × ((handle test_host report_call test_state).0
            ≡ (accept_report test_host report.networks test_state).0))
handle-changes_example = handle-changes test_host report_call test_state

abbrev answering : Msg → Io World Msg
answering request w = (w, ok aliased_answer)

abbrev fresh : Runtime
fresh = record test_runtime { updated = 7 }

fresh_started : new_runtime test_host test_config tt ≡ (tt, ok fresh)
unfolding new_runtime initial_sets load_state poll_interval reapply_every run_validate run_merge
    text_eq
fresh_started = refl

abbrev proxy_starts : World → World × Result (Unit {0})
proxy_starts w = (w, ok tt)

run-SoundAt_example : SoundAt test_host test_config (run test_host proxy_starts 2 (fresh, tt)).0
run-SoundAt_example = run-SoundAt test_host proxy_starts test_config 2 tt tt fresh fresh_started
