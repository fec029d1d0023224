-- ===== src/Operations/Generate.antt =====
-- internal/pbr/generate.go: two configurations that belong together, written to a directory.
use netflix_pbrd.Base.{
  ℕ, ◌+◌, ◌/◌, ◌%◌, true, ◌||◌, not, List, [], ◌∷◌, ◌++◌, Text, Io, ◌>>=◌, ◌>>◌, pure, fail, lift,
  Result, ok, err, text, wrapped, codes, ltb, if◌then◌else◌,
}
use netflix_pbrd.Config.{Config, ApplyConfig, ApiConfig, DnsProxyConfig, controller, agent}
use netflix_pbrd.Config.Load.{is_set}
use netflix_pbrd.Drivers.Commands.{or_default}
use netflix_pbrd.Operations.Machine.{Machine, load_config_file}

pub record NestedBundleOptions : Type 0 where
  pub output_dir : Text
  pub edge_peer : Text
  pub source_net : Text
  pub exit_wan : Text
  pub tunnel_interface : Text
  pub input_interface : Text
  pub controller_listen : Text
  pub controller_url : Text
  pub dns_listen : Text
  pub dns_upstream : Text

unfoldable pub with_nested_defaults : NestedBundleOptions → NestedBundleOptions
with_nested_defaults o = record o {
  source_net = or_default o.source_net (codes "192.168.8.0/24");
  exit_wan = or_default o.exit_wan (codes "wan");
  tunnel_interface = or_default o.tunnel_interface (codes "wg-relay");
  input_interface = or_default o.input_interface (codes "br+");
  controller_listen = or_default o.controller_listen (codes "172.31.255.1:18080");
  controller_url = or_default o.controller_url (codes "http://172.31.255.1:18080");
  dns_listen = or_default o.dns_listen (codes "192.168.8.2:1053");
  dns_upstream = or_default o.dns_upstream (codes "10.8.0.1:53");
}

-- What a configuration leaves out.
abbrev no_apply : ApplyConfig
no_apply = record {
  driver = [];
  interface = [];
  input_interface = [];
  peer = [];
  base_allowed = [];
  next_hop = [];
  source_net = [];
  wan_interface = [];
  table = [];
  rule_priority = [];
  mark = [];
  mask = [];
  chain = [];
  pbr_section = [];
  firewall_section = [];
}

abbrev no_proxy : DnsProxyConfig
no_proxy = record {
  listen = [];
  upstream = [];
  doh_url = [];
  doh_ca_file = [];
  trusted_suffixes = [];
  service_prefixes = [];
}

abbrev insecure_api : Text → Text → ApiConfig
insecure_api read_token report_token = record {
  listen = [];
  source_url = [];
  token = read_token;
  report_token = report_token;
  tls_cert = [];
  tls_key = [];
  allow_insecure_http = true;
}

unfoldable pub exit_bundle : NestedBundleOptions → Text → Text → Config
exit_bundle o read_token report_token = record {
  role = controller;
  interval = codes "15s";
  reapply_interval = codes "5m";
  state_file = codes "/root/netflix-pbrd/networks.state";
  seed_networks = [];
  api = record (insecure_api read_token report_token) { listen = o.controller_listen };
  dns_proxy = no_proxy;
  apply =
      record no_apply {
        driver = codes "nft-exit";
        source_net = o.source_net;
        wan_interface = o.exit_wan;
        chain = codes "netflix_exit";
      }
      ∷ [];
  max_networks = 0;
}

unfoldable pub edge_bundle : NestedBundleOptions → Text → Text → Config
edge_bundle o read_token report_token = record {
  role = agent;
  interval = codes "15s";
  reapply_interval = codes "5m";
  state_file = codes "/opt/var/lib/netflix-pbrd/networks.state";
  seed_networks = [];
  api = record (insecure_api read_token report_token) {
    source_url = o.controller_url ++ codes "/v1/networks";
  };
  dns_proxy = record no_proxy { listen = o.dns_listen; upstream = o.dns_upstream };
  apply =
      record no_apply {
        driver = codes "linux-edge";
        interface = o.tunnel_interface;
        input_interface = o.input_interface;
        peer = o.edge_peer;
        base_allowed = codes "0.0.0.0/0" ∷ [];
        source_net = o.source_net;
        table = codes "202";
        rule_priority = codes "12020";
        mark = codes "0x20000000";
        mask = codes "0xff000000";
        chain = codes "NETFLIX_PBR";
      }
      ∷ [];
  max_networks = 0;
}

-- `hex.EncodeToString`
abbrev pub hex_digit : ℕ → ℕ
hex_digit n = if ltb n 10 then b'0' + n else 87 + n

unfoldable pub hex : List ℕ → Text
hex [] = []
hex (byte ∷ bytes) = hex_digit (byte / 16) ∷ hex_digit (byte % 16) ∷ hex bytes

-- What the generation asks for: `rand.Read`, `json.MarshalIndent`, `os.MkdirAll`, `filepath.Join`.
pub record Generator (W : Type 0) : Type 0 where
  pub machine : Machine W
  pub random : ℕ → Io W (List ℕ)
  pub marshal : Config → Result Text
  pub make_dir : Text → Io W (Unit {0})
  pub join_path : Text → Text → Text

module _ {W : Type 0} (g : Generator W) where
  open g use {machine, join_path}

  unfoldable pub random_token : Io W Text
  random_token = do bytes ← g.random 32; pure (hex bytes)

  unfoldable pub write_config : Text → Config → Io W (Unit {0})
  write_config path c = do
    bytes ← lift (g.marshal c)
    machine.system.write_file path (bytes ++ codes "\n")

  abbrev pub edge_path : NestedBundleOptions → Text
  edge_path o = join_path o.output_dir (codes "edge.json")

  abbrev pub exit_path : NestedBundleOptions → Text
  exit_path o = join_path o.output_dir (codes "exit.json")

  -- A configuration that does not load takes both files with it; errors of the removal are ignored.
  abbrev pub remove_both : NestedBundleOptions → W → W
  remove_both o w = (machine.remove (exit_path o) (machine.remove (edge_path o) w).0).0

  abbrev pub verified : NestedBundleOptions → Text → W → Result Config → W × Result (Unit {0})
  verified o prefix w (ok c) = (w, ok tt)
  verified o prefix w (err e) = (remove_both o w, err (wrapped prefix e))

  unfoldable pub verify : NestedBundleOptions → Text → Text → Io W (Unit {0})
  verify o path prefix w = verified o prefix w (load_config_file machine path w)

  unfoldable pub write_bundle : NestedBundleOptions → Io W (Unit {0})
  write_bundle o = do
    read_token ← random_token
    report_token ← random_token
    g.make_dir o.output_dir
    write_config (exit_path o) (exit_bundle o read_token report_token)
    write_config (edge_path o) (edge_bundle o read_token report_token)
    verify o (edge_path o) (codes "generated edge config")
    verify o (exit_path o) (codes "generated exit config")

  unfoldable pub generate_nested_bundle : NestedBundleOptions → Io W (Unit {0})
  generate_nested_bundle o = do
    if not (is_set o.output_dir) || not (is_set o.edge_peer)
        then fail (text (codes "output directory and edge peer are required"))
        else pure tt
    write_bundle (with_nested_defaults o)
