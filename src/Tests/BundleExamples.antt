-- ===== src/Tests/BundleExamples.antt =====
-- The theorems on generated configurations and on the client's subnet at concrete inputs.
use netflix_pbrd.Base.{
  ℕ, zero, suc, ◌≡◌, refl, true, false, [], ◌∷◌, ◌++◌, Option, none, some, Text, ok, codes,
  if◌then◌else◌, List,
}
use netflix_pbrd.Text.{text_eq}
use netflix_pbrd.Networks.{run_validate}
use netflix_pbrd.Config.{poll_interval, reapply_every}
use netflix_pbrd.Config.Load.{
  Parsers, load_config, first_error, check_dns_proxy, check_applies, is_set, with_max,
}
use netflix_pbrd.Operations.Machine.{load_config_file}
use netflix_pbrd.Operations.Generate.{
  NestedBundleOptions, Generator, generate_nested_bundle, write_bundle, random_token, write_config,
  verify, with_nested_defaults, hex, exit_bundle, edge_bundle,
}
use netflix_pbrd.Operations.Generated.{
  Loads, ReadsDefaults, defaults, generate_nested_bundle-Loads, bundle_loads,
}
use netflix_pbrd.Net.{V4}
use netflix_pbrd.Dns.Exchange.{
  EdnsOption, client_subnet, other_option, Additional, opt, other_record, Place, Query,
}
use netflix_pbrd.Tests.OperationExamples.{Disk, machine, all_there}

-- A generator whose directory is the root, and the parsers of the standard library on the texts that
-- are generated.
abbrev generator : Generator Disk
generator = record {
  machine = machine;
  random = λ n w. (w, ok []);
  marshal = λ c. ok [];
  make_dir = λ path w. (w, ok tt);
  join_path = λ directory name. directory ++ (codes "/" ++ name);
}

abbrev bundle_options : NestedBundleOptions
bundle_options = record {
  output_dir = codes "/root/bundle";
  edge_peer = codes "peer";
  source_net = [];
  exit_wan = [];
  tunnel_interface = [];
  input_interface = [];
  controller_listen = [];
  controller_url = [];
  dns_listen = [];
  dns_upstream = [];
}

generates : generate_nested_bundle generator bundle_options all_there ≡ (all_there, ok tt)
unfolding generate_nested_bundle write_bundle random_token write_config verify with_nested_defaults
    hex load_config_file load_config text_eq first_error check_dns_proxy check_applies poll_interval
    reapply_every run_validate
generates = refl

generate_nested_bundle-Loads_example :
    (is_set bundle_options.output_dir ≡ true)
    × (is_set bundle_options.edge_peer ≡ true)
    × Loads generator bundle_options all_there
generate_nested_bundle-Loads_example =
    generate_nested_bundle-Loads generator bundle_options all_there all_there generates

abbrev split_default : Text → Option (Text × Text)
split_default s =
    if text_eq s (codes "192.168.8.2:1053")
    then some (codes "192.168.8.2", codes "1053")
    else if text_eq s (codes "10.8.0.1:53")
    then some (codes "10.8.0.1", codes "53")
    else none

abbrev number_default : Text → Option ℕ
number_default s =
    if text_eq s (codes "1053")
    then some 1053
    else if text_eq s (codes "53")
    then some 53
    else if text_eq s (codes "12020")
    then some 12020
    else none

abbrev default_parsers : Parsers
default_parsers = record {
  parse_url = λ s. some (record { scheme = codes "http"; host = codes "172.31.255.1:18080" });
  split_host_port = split_default;
  atoi = number_default;
  parse_duration = λ s. if text_eq s (codes "15s") then some 15000000000 else some 300000000000;
}

reads_defaults : ReadsDefaults default_parsers
unfolding text_eq
reads_defaults = record {
  split_listen = refl;
  split_upstream = refl;
  port_listen = refl;
  port_upstream = refl;
  priority = refl;
  source = refl;
  every = refl;
  again = refl;
}

abbrev zeros : ℕ → List ℕ
zeros zero = []
zeros (suc n) = 0 ∷ zeros n

abbrev read_bytes : List ℕ
read_bytes = 1 ∷ zeros 31

abbrev report_bytes : List ℕ
report_bytes = 2 ∷ zeros 31

tokens_differ : text_eq (hex report_bytes) (hex read_bytes) ≡ false
unfolding text_eq hex
tokens_differ = refl

bundle_loads_example :
    (load_config default_parsers (codes "controller") (
        exit_bundle
          (defaults (codes "/root/bundle") (codes "peer"))
          (hex read_bytes)
          (hex report_bytes))
      ≡ ok (
          with_max default_parsers (
            exit_bundle
              (defaults (codes "/root/bundle") (codes "peer"))
              (hex read_bytes)
              (hex report_bytes))))
    × (load_config default_parsers (codes "agent") (
          edge_bundle
            (defaults (codes "/root/bundle") (codes "peer"))
            (hex read_bytes)
            (hex report_bytes))
        ≡ ok (
            with_max default_parsers (
              edge_bundle
                (defaults (codes "/root/bundle") (codes "peer"))
                (hex read_bytes)
                (hex report_bytes))))
bundle_loads_example =
    bundle_loads default_parsers reads_defaults (codes "/root/bundle") (codes "peer") read_bytes
      report_bytes refl refl refl tokens_differ

abbrev cookie : EdnsOption
cookie = other_option 10 (codes "cookie")

-- A query with a cookie and the subnet of someone else, behind another record.
abbrev asking : Query (Unit {0})
asking = record {
  extra =
      other_record (codes "tsig")
      ∷ opt (record { class = 4096; ttl = 0 })
          (client_subnet 1 8 (record { a = 10; b = 0; c = 0; d = 0 }) ∷ cookie ∷ [])
      ∷ [];
  rest = tt;
}

-- A DNS library that finds the first OPT record.
abbrev behind_record : Additional → Option Place → Option Place
behind_record x none = none
behind_record x (some p) = some (record p { ahead = x ∷ p.ahead })

unfoldable first_opt : List Additional → Option Place
first_opt [] = none
first_opt (opt header options ∷ extra) =
    some (record { ahead = []; header = header; options = options; behind = extra })
first_opt (other_record bytes ∷ extra) = behind_record (other_record bytes) (first_opt extra)

abbrev client_ip : V4
client_ip = record { a = 192; b = 168; c = 8; d = 44 }

abbrev split_client : Text → Option (Text × Text)
split_client s = some (codes "192.168.8.44", codes "5353")
