-- ===== src/Operations/Doctor.antt =====
-- `Doctor` of internal/pbr/operations.go: what is checked, command by command.
use netflix_pbrd.Base.{
  ℕ, Bool, true, false, ◌&&◌, ◌||◌, List, [], ◌∷◌, ◌++◌, Option, none, some, Text, Io, ◌>>=◌, pure,
  fail, catch, Result, ok, err, Error, text, codes, leb, ◌==◌, if◌then◌else◌,
}
use netflix_pbrd.Text.{text_eq, contains_text, contains_byte, trim_space, trim_suffix, cut}
use netflix_pbrd.Text.Words.{words, fields, split_lines, text_of}
use netflix_pbrd.Config.{ApplyConfig, Config, is_agent}
use netflix_pbrd.Config.Load.{is_set}
use netflix_pbrd.System.{get_networks, Response}
use netflix_pbrd.Status.{OperationalStatus, runtime_status_file, load_operational_status}
use netflix_pbrd.Runtime.Daemon.{file_lines}
use netflix_pbrd.Drivers.Commands.{is_success}
use netflix_pbrd.Drivers.Rules.{inspect_ip_rule}
use netflix_pbrd.Drivers.Edge.{with_edge_defaults, rule_key, edge_hook}
use netflix_pbrd.Drivers.Exit.{with_chain}
use netflix_pbrd.Operations.Machine.{Machine}

pub record CheckResult : Type 0 where
  pub name : Text
  pub passed : Bool
  pub detail : Text

-- What a DNS server answers: the response code, and the addresses of the answer.
pub record DnsAnswer : Type 0 where
  pub rcode : ℕ
  pub addresses : List Text

-- The DNS client: a query for addresses by a network, an address of a server and a name.
pub record DnsClient (W : Type 0) : Type 0 where
  pub query : Text → Text → Text → Io W DnsAnswer
  -- The same by UDP, with EDNS0 and a buffer of 4096 bytes, and the `A` records of the answer.
  pub query_large : Text → Text → Io W DnsAnswer
  pub rcode_text : ℕ → Text
  pub fqdn : Text → Text
  pub upper : Text → Text

-- Whether a line names the address behind a "-d".
abbrev pub names_destination : Text → List Text → Bool
names_destination address [] = false
names_destination address (flag ∷ []) = false
names_destination address (flag ∷ value ∷ rest) =
    let later = names_destination address (value ∷ rest) in
    if text_eq flag (codes "-d") && text_eq (trim_suffix value (codes "/32")) address
    then true
    else later

unfoldable pub has_destination : Text → List Text → Bool
unfolding text_eq trim_suffix fields contains_text
has_destination address [] = false
has_destination address (line ∷ lines) =
    let rest = has_destination address lines in
    if names_destination address (fields line) then contains_text line (codes "-j MARK") else rest

unfoldable pub contains_destination_rule : Text → Text → Bool
unfolding has_destination split_lines
contains_destination_rule output address = has_destination address (split_lines output)

abbrev pub any_equal : Text → List Text → Bool
any_equal expected [] = false
any_equal expected (word ∷ rest) = text_eq word expected || any_equal expected rest

unfoldable pub contains_line : Text → Text → Bool
unfolding text_eq fields
contains_line output expected = any_equal expected (fields output)

-- `net.JoinHostPort`
abbrev pub join_host_port : Text → Text → Text
join_host_port host port =
    if contains_byte host b':'
    then text_of (codes "[" ∷ host ∷ codes "]:" ∷ port ∷ [])
    else text_of (host ∷ codes ":" ∷ port ∷ [])

abbrev pub resolved : Text → Option (Text × Text) → Text
resolved address none = address
resolved address (some (host, port)) =
    if text_eq host (codes "0.0.0.0") || text_eq host (codes "")
    then join_host_port (codes "127.0.0.1") port
    else join_host_port host port

-- What `policyRoute` returns: the route, whether it leads through the interface, and the error.
pub record Route : Type 0 where
  pub route : Text
  pub through : Bool
  pub error : Option Error

module _ {W : Type 0} (m : Machine W) (dns : DnsClient W) where
  open m use {system, runner, error_text, number_text, parsers, rule_parsers}

  unfoldable pub resolve_host_port : Text → Text
  unfolding text_eq contains_byte
  resolve_host_port address = resolved address (parsers.split_host_port address)

  abbrev pub detail_of : {A : Type 0} → Result A → Text → Text
  detail_of (ok a) success = success
  detail_of (err e) success = error_text e

  abbrev pub checked : {A : Type 0} → Text → Text → Result A → CheckResult
  checked name success r = record {
    name = name;
    passed = is_success r;
    detail = detail_of r success;
  }

  unfoldable pub command_check : Text → Text → List Text → Io W CheckResult
  command_check label command args = do
    r ← catch (runner.run command args)
    pure (checked label command r)

  abbrev pub require_ok : Response → Io W (Unit {0})
  require_ok response =
      if response.status == 200
      then pure tt
      else fail (text (codes "HTTP " ++ response.status_line))

  unfoldable pub api_check : Text → Text → Io W CheckResult
  api_check url token = do
    r ← catch (do response ← system.send (get_networks url token); require_ok response)
    pure (checked (codes "controller API") url r)

  abbrev pub require_noerror : DnsAnswer → Io W (Unit {0})
  require_noerror answer =
      if answer.rcode == 0
      then pure tt
      else fail (text (codes "rcode " ++ dns.rcode_text answer.rcode))

  unfoldable pub dns_check : Text → Text → Text → Io W CheckResult
  dns_check address name network = do
    r ← catch (do answer ← dns.query network address name; require_noerror answer)
    pure (checked (codes "DNS proxy " ++ dns.upper network) address r)

  -- The device that the route names, and the table where `ip` takes no selector.
  abbrev pub device_of : ApplyConfig → Text
  device_of c = codes "dev " ++ c.interface

  abbrev pub table_route : ApplyConfig → Error → Result Text → Route
  table_route c e (err f) = record { route = []; through = false; error = some e }
  table_route c e (ok out) = record {
    route = text_of (codes "table " ∷ c.table ∷ codes ": " ∷ trim_space out ∷ []);
    through = contains_text out (device_of c);
    error = none;
  }

  abbrev pub routed : ApplyConfig → Result Text → Io W Route
  routed c (ok out) = pure (record {
    route = trim_space out;
    through = contains_text (trim_space out) (device_of c);
    error = none;
  })
  routed c (err e) =
      if is_set c.table
      then (do
        out ← catch (runner.output (codes "ip") (words "route show table" ++ (c.table ∷ [])))
        pure (table_route c e out))
      else pure (record { route = []; through = false; error = some e })

  unfoldable pub policy_route : List Text → ApplyConfig → Io W Route
  unfolding words contains_text
  policy_route args c = do out ← catch (runner.output (codes "ip") args); routed c out

  abbrev pub peer_check : ApplyConfig → Result Text → CheckResult
  peer_check c (err e) = record {
    name = codes "WireGuard peer";
    passed = false;
    detail = error_text e;
  }
  peer_check c (ok out) = record {
    name = codes "WireGuard peer";
    passed = contains_line out c.peer;
    detail = c.peer;
  }

  -- The count of a scan, and `%v` of its error.
  abbrev pub rule_check : Result ℕ → CheckResult
  rule_check (ok exact) = record {
    name = codes "owned ip rule";
    passed = exact == 1;
    detail = text_of (number_text exact ∷ codes " exact rule(s): <nil>" ∷ []);
  }
  rule_check (err e) = record {
    name = codes "owned ip rule";
    passed = false;
    detail = text_of (codes "0 exact rule(s): " ∷ error_text e ∷ []);
  }

  abbrev pub interface_checks : ApplyConfig → Io W (List CheckResult)
  interface_checks c =
      if is_set c.interface
      then (do
        r ←
            command_check (codes "interface " ++ c.interface) (codes "ip")
              (words "link show dev" ++ (c.interface ∷ []))
        pure (r ∷ []))
      else pure []

  abbrev pub peer_checks : ApplyConfig → Io W (List CheckResult)
  peer_checks c =
      if is_set c.peer && is_set c.interface
      then (do
        out ← catch (runner.output (codes "wg") (codes "show" ∷ c.interface ∷ codes "peers" ∷ []))
        pure (peer_check c out ∷ []))
      else pure []

  -- The checks of the edge; its configuration has its defaults by then.
  abbrev pub edge_checks : ApplyConfig → Io W (List CheckResult)
  edge_checks c = do
    exact ← catch (inspect_ip_rule rule_parsers runner (rule_key c))
    hook ← command_check (codes "PREROUTING hook") (codes "iptables") (edge_hook c)
    chain ←
        command_check (codes "iptables chain") (codes "iptables")
          (words "-t mangle -S" ++ (c.chain ∷ []))
    pure (rule_check exact ∷ hook ∷ chain ∷ [])

  abbrev pub nft_checks : Text → Io W (List CheckResult)
  nft_checks chain = do
    r ← command_check (codes "nft table") (codes "nft") (words "list table inet" ++ (chain ∷ []))
    pure (r ∷ [])

  abbrev pub exit_checks : Io W (List CheckResult)
  exit_checks = do
    r ← command_check (codes "iptables") (codes "iptables") (codes "-S" ∷ [])
    pure (r ∷ [])

  abbrev pub is_edge : ApplyConfig → Bool
  is_edge c = text_eq c.driver (codes "linux-edge")

  abbrev pub driver_checks : ApplyConfig → Io W (List CheckResult)
  driver_checks c =
      if text_eq c.driver (codes "nft-exit")
      then nft_checks (with_chain (codes "netflix_exit") c).chain
      else if is_edge c
      then edge_checks c
      else if text_eq c.driver (codes "linux-exit")
      then exit_checks
      else pure []

  abbrev pub destination_check : Text → Result Text → CheckResult
  destination_check address (err e) = record {
    name = codes "learned destination rule";
    passed = false;
    detail = error_text e;
  }
  destination_check address (ok out) = record {
    name = codes "learned destination rule";
    passed = contains_destination_rule out address;
    detail = address;
  }

  abbrev pub destination_checks : ApplyConfig → Text → Io W (List CheckResult)
  destination_checks c address =
      if is_edge c
      then (do
        out ← catch (runner.output (codes "iptables") (words "-t mangle -S" ++ (c.chain ∷ [])))
        pure (destination_check address out ∷ []))
      else pure []

  abbrev pub mark_args : ApplyConfig → List Text
  mark_args c = if is_edge c then codes "mark" ∷ c.mark ∷ [] else []

  abbrev pub route_detail : Route → Option Error → Text
  route_detail r none = r.route
  route_detail r (some e) = error_text e

  abbrev pub route_check : Route → CheckResult
  route_check r = record {
    name = codes "learned route";
    passed = r.through;
    detail = route_detail r r.error;
  }

  abbrev pub address_checks : ApplyConfig → Text → Io W (List CheckResult)
  address_checks c address = do
    destination ← destination_checks c address
    r ← policy_route (words "route get" ++ (address ∷ mark_args c)) c
    pure (destination ++ (route_check r ∷ []))

  -- The first learned network decides, if there is one.
  abbrev pub state_checks : ApplyConfig → Result (List Text) → Io W (List CheckResult)
  state_checks c (err e) = pure []
  state_checks c (ok []) = pure []
  state_checks c (ok (network ∷ state)) =
      if is_edge c || text_eq c.driver (codes "wg-route")
      then address_checks c (cut network b'/').0
      else pure []

  abbrev pub defaulted : ApplyConfig → ApplyConfig
  defaulted c = if is_edge c then with_edge_defaults c else c

  unfoldable pub apply_checks : Config → ApplyConfig → Io W (List CheckResult)
  unfolding text_eq words cut contains_line
  apply_checks config c = do
    interface ← interface_checks c
    peer ← peer_checks c
    driver ← driver_checks (defaulted c)
    state ← catch (λ w. (w, file_lines (system.read_file config.state_file w)))
    learned ← state_checks (defaulted c) state
    pure (interface ++ (peer ++ (driver ++ learned)))

  unfoldable pub all_checks : Config → List ApplyConfig → Io W (List CheckResult)
  all_checks config [] = pure []
  all_checks config (c ∷ cs) = do
    first ← apply_checks config c
    rest ← all_checks config cs
    pure (first ++ rest)

  abbrev pub listen_scheme : Config → Text
  listen_scheme config = if is_set config.api.tls_cert then codes "https" else codes "http"

  abbrev pub own_url : Config → Text
  own_url config = text_of (
      listen_scheme config
      ∷ codes "://"
      ∷ resolve_host_port config.api.listen
      ∷ codes "/v1/networks"
      ∷ [])

  abbrev pub api_checks : Config → Io W (List CheckResult)
  api_checks config =
      if is_agent config.role
      then (do r ← api_check config.api.source_url config.api.token; pure (r ∷ []))
      else if is_set config.api.listen
      then (do r ← api_check (own_url config) config.api.token; pure (r ∷ []))
      else pure []

  abbrev pub dns_checks : Config → Io W (List CheckResult)
  dns_checks config =
      if is_set config.dns_proxy.listen
      then (do
        udp ← dns_check config.dns_proxy.listen (codes "example.com.") (codes "udp")
        tcp ← dns_check config.dns_proxy.listen (codes "example.com.") (codes "tcp")
        pure (udp ∷ tcp ∷ []))
      else pure []

  abbrev pub progress_check : Text → Bool → ℕ → ℕ → CheckResult
  progress_check name good from to = record {
    name = name;
    passed = good;
    detail = text_of (number_text from ∷ codes " -> " ∷ number_text to ∷ []);
  }

  abbrev pub reported_checks : Config → OperationalStatus → List CheckResult
  reported_checks config s =
      if is_agent config.role
      then progress_check (codes "learned -> reported") (leb s.learned s.reported) s.learned
          s.reported
        ∷ []
      else []

  abbrev pub status_checks : Config → Result OperationalStatus → List CheckResult
  status_checks config (err e) =
      record { name = codes "runtime status"; passed = false; detail = error_text e } ∷ []
  status_checks config (ok s) =
      progress_check (codes "learned -> applied") (s.applied_known && leb s.learned s.applied)
        s.learned s.applied
      ∷ reported_checks config s

  unfoldable pub doctor : Config → Io W (List CheckResult)
  doctor config = do
    drivers ← all_checks config config.apply
    api ← api_checks config
    proxy ← dns_checks config
    status ← catch (λ w. (
      w,
      load_operational_status system m.decode_status (runtime_status_file config.state_file) w,
    ))
    pure (
        record { name = codes "config"; passed = true; detail = codes "valid" }
        ∷ (drivers ++ (api ++ (proxy ++ status_checks config status))))
