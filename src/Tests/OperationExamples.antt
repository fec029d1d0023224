-- ===== src/Tests/OperationExamples.antt =====
-- The theorems on the operations at concrete inputs: a machine of a clock and a set of files.
use netflix_pbrd.Base.{
  ℕ, ◌+◌, ◌*◌, ◌≡◌, refl, ◌⊎◌, Bool, true, false, [], ◌∷◌, Text, ok, err, text, codes,
  if◌then◌else◌, arith,
}
use netflix_pbrd.Text.{text_eq, contains_text, trim_space}
use netflix_pbrd.Text.Words.{words}
use netflix_pbrd.Config.{Config, controller, second}
use netflix_pbrd.Status.{OperationalStatus, load_operational_status}
use netflix_pbrd.System.{System, content}
use netflix_pbrd.Runner.{Runner}
use netflix_pbrd.Operations.Machine.{Machine, removed, sent}
use netflix_pbrd.Operations.Install.{systemd_layout}
use netflix_pbrd.Operations.Uninstall.{uninstall_as, wait_gone}
use netflix_pbrd.Operations.Kept.{IsSteady}
use netflix_pbrd.Operations.Removing.{IsBehind, uninstall_as-IsBehind, uninstall_as-Keeps}
use netflix_pbrd.Operations.Waiting.{Clock, Ends, wait_gone-Ends}
use netflix_pbrd.Operations.Doctor.{DnsClient}
use netflix_pbrd.Operations.Smoke.{SmokeResult, new_smoke, smoke_test, probe_routes}
use netflix_pbrd.Operations.Tested.{Seen, smoke_test-Seen}
use netflix_pbrd.Tests.Fixtures.{test_config, no_parsers, no_networks, one_host}
use netflix_pbrd.Tests.DriverExamples.{toy_parsers, exit_config}

abbrev pub Disk : Type 0
Disk = ℕ × (Text → Bool)

abbrev disk_system : System Disk
disk_system = record {
  now = λ w. (w, w.0);
  pid = 7;
  read_file = λ path w. content [];
  make_parent = λ path w. (w, ok tt);
  write_file = λ path bytes w. (w, ok tt);
  rename = λ from to w. (w, ok tt);
  send = λ request w.
      (w, ok (record { status = 200; status_line = codes "200 OK"; payload = ok no_networks }));
}

abbrev disk_runner : Runner Disk
disk_runner = record {
  run = λ name args w. (w, ok tt);
  run_input = λ input name args w. (w, ok tt);
  output = λ name args w. (w, ok (codes "8.8.8.8 dev wg0"));
  look_path = λ name w. (w, err (text (codes "not found")));
  exists = λ path w. false;
}

abbrev without : Text → Disk → Disk
without path (t, files) = (t, λ name. if text_eq name path then false else files name)

abbrev toy_status : OperationalStatus
toy_status = record {
  version = 1;
  role = controller;
  pid = 9;
  updated = 0;
  desired = 1;
  learned = 1;
  applied = 1;
  reported = 0;
  applied_known = true;
  last_apply = 0;
  last_report = 0;
  last_error = [];
  last_error_at = 0;
}

abbrev pub machine : Machine Disk
machine = record {
  system = disk_system;
  runner = disk_runner;
  user = 0;
  path_exists = λ path w. w.1 path;
  remove = λ path w. (without path w, removed);
  kill = λ pid signal w. (w, sent);
  sleep = λ d w. (w.0 + d, w.1);
  read_link = λ path w. ok path;
  eval_symlinks = λ path w. ok path;
  executable = ok (codes "/tmp/netflix-pbrd");
  open_file = λ path w. (w, ok 3);
  create_file = λ path mode w. (w, ok 4);
  copy_bytes = λ from to w. (w, ok tt);
  close_file = λ fd w. (w, ok tt);
  chmod = λ path mode w. (w, ok tt);
  stamp = λ w. (w, codes "20060102T150405Z");
  rule_parsers = toy_parsers;
  parsers = no_parsers;
  decode_config = λ bytes. ok (codes "controller", test_config);
  decode_status = λ bytes. ok toy_status;
  error_text = λ e. codes "no such file";
  number_text = λ n. codes "1";
  quote = λ s. s;
  unicode_lower = λ s. s;
}

abbrev pub all_there : Disk
all_there = (5, λ path. true)

-- The configuration is on the disk.
abbrev HasConfig : Disk → Type 0
HasConfig w = w.1 systemd_layout.config ≡ true

steady : IsSteady machine HasConfig
steady = record {
  runs = λ name args w p. p;
  outputs = λ name args w p. p;
  nows = λ w p. p;
  kills = λ pid signal w p. p;
  sleeps = λ d w p. p;
}

uninstall_as-IsBehind_example :
    HasConfig
      (uninstall_as machine systemd_layout (codes "/etc/netflix-pbrd.json") true all_there).0
    ⊎ IsBehind machine HasConfig steady systemd_layout
        (codes "/etc/netflix-pbrd.json")
        true
        all_there
uninstall_as-IsBehind_example =
    uninstall_as-IsBehind machine HasConfig steady systemd_layout (codes "/etc/netflix-pbrd.json")
      true all_there refl

removes_service : (w : Disk) → HasConfig w → HasConfig (without systemd_layout.service w)
unfolding text_eq
removes_service w p = p

removes_binary : (w : Disk) → HasConfig w → HasConfig (without systemd_layout.binary w)
unfolding text_eq
removes_binary w p = p

uninstall_as-Keeps_example :
    HasConfig
      (uninstall_as machine systemd_layout (codes "/etc/netflix-pbrd.json") false all_there).0
uninstall_as-Keeps_example =
    uninstall_as-Keeps machine HasConfig steady systemd_layout (codes "/etc/netflix-pbrd.json")
      all_there removes_service removes_binary refl

clock : Clock machine
clock = record {
  time = λ w. w.0;
  reads = λ w. (omega arith, omega arith);
  kills = λ pid signal w. omega arith;
  sleeps = λ d w. omega arith;
}

-- Fifty sleeps are five seconds.
wait_gone-Ends_example :
    (wait_gone machine 1001 9 (5 + 5 * second) all_there
      ≡ wait_gone machine 51 9 (5 + 5 * second) all_there)
    × Ends machine clock 9 (5 + 5 * second) (wait_gone machine 51 9 (5 + 5 * second) all_there)
unfolding clock
wait_gone-Ends_example =
    wait_gone-Ends machine clock 9 (5 + 5 * second) 50 1000 all_there (omega arith) (omega arith)

abbrev toy_dns : DnsClient Disk
toy_dns = record {
  query = λ network address name w. (w, ok (record { rcode = 0; addresses = one_host }));
  query_large = λ address name w. (w, ok (record { rcode = 0; addresses = one_host }));
  rcode_text = λ n. codes "SERVFAIL";
  fqdn = λ s. s;
  upper = λ s. s;
}

abbrev proxy_config : Config
proxy_config = record test_config {
  dns_proxy = record (test_config.dns_proxy) { listen = codes "127.0.0.1:53" };
  apply = record exit_config { driver = codes "wg-route" } ∷ [];
}

abbrev tested : SmokeResult × Disk
tested = (smoke_test machine toy_dns proxy_config [] (new_smoke proxy_config [], all_there)).0

test_passes :
    smoke_test machine toy_dns proxy_config [] (new_smoke proxy_config [], all_there)
    ≡ (tested, ok tt)
unfolding smoke_test probe_routes text_eq contains_text words load_operational_status trim_space
test_passes = refl

smoke_test-Seen_example : Seen machine toy_dns proxy_config [] all_there tested.1 tested.0
smoke_test-Seen_example =
    smoke_test-Seen machine toy_dns proxy_config [] all_there tested.0 tested.1 test_passes
