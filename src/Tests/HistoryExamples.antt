-- ===== src/Tests/HistoryExamples.antt =====
-- Runs of an agent behind a history: a driver runs, and the controller answers.
use netflix_pbrd.Base.{Result, ◌≡◌, refl, true, List, [], ◌∷◌, Text, some, ok, codes}
use netflix_pbrd.Text.{contains, text_eq, has_suffix, trim_suffix, set_add}
use netflix_pbrd.Networks.{canonical_network, run_canonical, run_merge, run_validate, equal}
use netflix_pbrd.Networks.Merging.{names}
use netflix_pbrd.Config.{Config, agent, is_agent, poll_interval, reapply_every}
use netflix_pbrd.System.{replace_file}
use netflix_pbrd.Runtime.Daemon.{
  Runtime, Host, State, learn, learn_body, learn_sets, reconcile_locked, apply_desired, apply_all,
  report_learned, record_status, publish_status, save_state, report, no_status, new_runtime,
  initial_sets, load_state,
}
use netflix_pbrd.Runtime.History.{History, AllRan, logged, starts, IsAcknowledged, learn-ok}
use netflix_pbrd.Tests.DriverExamples.{exit_config}
use netflix_pbrd.Dns.{
  Msg, Reply, answered, inspect, trust, trust_questions, is_netflix_name, under_suffix,
  canonical_dns_name, to_lower, passes, pass, follow, addresses,
}
use netflix_pbrd.Dns.Trust.{records_of, asks}
use netflix_pbrd.Dns.Closure.{has_alias}
use netflix_pbrd.Dns.Inspect.{IsTrusted, asked, alias, has_address}
use netflix_pbrd.Dns.Serving.{
  serve_with_daemon, serve_dns, query_upstream, IsInForce, serve_dns-answered,
}
use netflix_pbrd.Tests.Fixtures.{
  World, test_host, test_config, test_runtime, one_host, aliased_answer, same_text,
}

abbrev agent_host : Host (History × World)
agent_host = logged test_host

abbrev agent_config : Config
agent_config = record test_config { role = agent; apply = exit_config ∷ [] }

abbrev agent_runtime : Runtime
agent_runtime = record test_runtime {
  config = agent_config;
  last_status = no_status agent_host agent_config;
  updated = 7;
}

abbrev agent_state : State agent_host
agent_state = (agent_runtime, ([], tt))

abbrev taught : State agent_host
taught = (learn agent_host one_host agent_state).0

one_learned : learn agent_host one_host agent_state ≡ (taught, ok tt)
unfolding learn learn_body learn_sets reconcile_locked apply_desired apply_all report_learned report
    record_status publish_status save_state replace_file run_validate run_merge equal
one_learned = refl

agent_started : new_runtime agent_host agent_config ([], tt) ≡ (([], tt), ok agent_runtime)
unfolding new_runtime initial_sets load_state poll_interval reapply_every run_validate run_merge
    text_eq
agent_started = refl

learn-ok_example :
    (taught.0.applied ≡ taught.0.desired)
    × ((y : Text) → names one_host y ≡ true → contains taught.0.applied y ≡ true)
    × AllRan agent_config.apply taught.0.applied taught.1.0
    × (is_agent agent_config.role ≡ true
        → (y : Text) → names one_host y ≡ true
        → (contains taught.0.learned y ≡ true)
          × IsAcknowledged test_host agent_config taught.0.learned taught.1.0)
learn-ok_example =
    learn-ok test_host agent_config one_host ([], tt) agent_state agent_state taught agent_started
      starts one_learned

abbrev answering : Msg → World → World × Result Msg
answering request w = (w, ok aliased_answer)

abbrev served : (List Text × State agent_host) × Reply
served =
    serve_with_daemon agent_host same_text (query_upstream test_host same_text answering)
      test_config.dns_proxy aliased_answer ([], agent_state)

one_served :
    serve_with_daemon agent_host same_text
      (query_upstream test_host same_text answering)
      test_config.dns_proxy
      aliased_answer
      ([], agent_state)
    ≡ ((served.0.0, served.0.1), answered aliased_answer)
unfolding serve_dns inspect trust trust_questions is_netflix_name under_suffix canonical_dns_name
    to_lower passes pass follow addresses trim_suffix has_suffix text_eq contains set_add learn
    learn_body learn_sets reconcile_locked apply_desired apply_all report_learned report
    record_status publish_status save_state replace_file run_validate run_merge equal
one_served = refl

edge-IsTrusted : IsTrusted same_text test_config.dns_proxy [] aliased_answer (codes "edge.example")
unfolding asks has_alias is_netflix_name under_suffix canonical_dns_name to_lower trim_suffix
    has_suffix text_eq run_canonical
edge-IsTrusted =
    alias (codes "netflix.com") (codes "edge.example") (asked (codes "netflix.com") refl) refl

edge_addressed :
    has_address same_text (records_of aliased_answer) (codes "edge.example") (codes "8.8.8.8")
    ≡ true
unfolding has_address canonical_dns_name to_lower trim_suffix has_suffix text_eq run_canonical
edge_addressed = refl

eight_form : canonical_network (codes "8.8.8.8") ≡ some (codes "8.8.8.8/32")
unfolding run_canonical
eight_form = refl

serve_dns-answered_example :
    IsInForce test_host same_text answering agent_config served.0.1 (codes "8.8.8.8/32")
serve_dns-answered_example =
    serve_dns-answered test_host same_text answering agent_config ([], tt) test_config.dns_proxy
      aliased_answer aliased_answer [] served.0.0 agent_state agent_state served.0.1 agent_started
      starts one_served (codes "edge.example") (codes "8.8.8.8") (codes "8.8.8.8/32") edge_addressed
      edge-IsTrusted eight_form
