-- ===== src/Tests/Fixtures.antt =====
-- A controller on a machine without state files, and a DNS answer, for runs of the model.
use netflix_pbrd.Base.{false, List, [], ◌∷◌, Text, none, Result, ok, codes}
use netflix_pbrd.Config.{controller, Config}
use netflix_pbrd.Config.Load.{Parsers}
use netflix_pbrd.System.{System, missing, ApiResponse, Applier}
use netflix_pbrd.Runtime.Daemon.{Runtime, Host, State, no_status}
use netflix_pbrd.Runtime.Server.{Call}
use netflix_pbrd.Dns.{Msg, cname, a}

abbrev pub World : Type 0
World = Unit {0}

abbrev done : World → World × Result (Unit {0})
done w = (w, ok tt)

abbrev pub no_networks : ApiResponse
no_networks = record { version = 1; updated = 0; networks = [] }

abbrev pub quiet_system : System World
quiet_system = record {
  now = λ w. (w, 7);
  pid = 1;
  read_file = λ path w. missing;
  make_parent = λ path. done;
  write_file = λ path bytes. done;
  rename = λ from to. done;
  send = λ request w. (
    w,
    ok (record { status = 204; status_line = codes "204 No Content"; payload = ok no_networks }),
  );
}

abbrev pub quiet_drivers : Applier World
quiet_drivers = record {
  apply_networks = λ c networks. done;
  reapply_networks = λ c networks. done;
}

abbrev pub test_host : Host World
test_host = record {
  system = quiet_system;
  drivers = quiet_drivers;
  encode = λ status. ok [];
  parse_duration = λ s. none;
  error_text = λ e. codes "failed";
}

abbrev pub token : Text
token = codes "0123456789abcdef0123456789abcdef"

abbrev pub report_token : Text
report_token = codes "fedcba9876543210fedcba9876543210"

abbrev pub test_config : Config
test_config = record {
  role = controller;
  interval = [];
  reapply_interval = [];
  state_file = codes "/var/lib/pbr/state";
  seed_networks = [];
  api = record {
    listen = codes "127.0.0.1:8443";
    source_url = [];
    token = token;
    report_token = report_token;
    tls_cert = codes "/etc/pbr/cert.pem";
    tls_key = codes "/etc/pbr/key.pem";
    allow_insecure_http = false;
  };
  dns_proxy = record {
    listen = [];
    upstream = [];
    doh_url = [];
    doh_ca_file = [];
    trusted_suffixes = codes "netflix.com" ∷ [];
    service_prefixes = [];
  };
  apply = [];
  max_networks = 16;
}

abbrev pub test_runtime : Runtime
test_runtime = record {
  config = test_config;
  interval = 30000000000;
  reapply_interval = 300000000000;
  desired = [];
  learned = [];
  applied = [];
  applied_known = false;
  applied_at = 0;
  reported_at = 0;
  last_reported = [];
  last_error = [];
  last_error_at = 0;
  last_status = no_status test_host test_config;
  status_known = false;
  updated = 0;
}

abbrev pub test_state : State test_host
test_state = (test_runtime, tt)

abbrev pub one_host : List Text
one_host = codes "8.8.8.8" ∷ []

abbrev pub aliased_answer : Msg
aliased_answer = record {
  questions = codes "Netflix.com." ∷ [];
  answer =
      a (codes "edge.example.") (codes "8.8.8.8")
      ∷ cname (codes "netflix.com.") (codes "edge.example.")
      ∷ [];
  extra = [];
}

abbrev pub same_text : Text → Text
same_text s = s

abbrev pub report_call : Call
report_call = record {
  method = codes "POST";
  authorization = codes "Bearer fedcba9876543210fedcba9876543210";
  payload = ok (record { version = 1; updated = 0; networks = one_host });
}

abbrev pub no_parsers : Parsers
no_parsers = record {
  parse_url = λ s. none;
  split_host_port = λ s. none;
  atoi = λ s. none;
  parse_duration = λ s. none;
}
