-- ===== src/Config/Load.antt =====
-- `LoadConfig` of internal/pbr/config.go behind the JSON decoder: `url.Parse`, `net.SplitHostPort` and
-- `strconv.Atoi` are parameters. A number that `Atoi` gives as negative is `none` here: where it is
-- called, the code refuses both alike.
use netflix_pbrd.Base.{
  ℕ, Bool, true, false, not, ◌&&◌, ◌||◌, List, [], ◌∷◌, ◌++◌, Option, none, some, Text, length, ltb,
  leb, ◌==◌, if◌then◌else◌, Result, ok, err, Error, text, quoted, wrapped, codes, is_some,
}
use netflix_pbrd.Text.{text_eq, trim_suffix}
use netflix_pbrd.Net.{parse_ip, to4, parse_cidr, Ip}
use netflix_pbrd.Networks.{validate_networks, default_max_networks}
use netflix_pbrd.Config.{
  Role, controller, agent, is_agent, ApiConfig, DnsProxyConfig, ApplyConfig, Config, poll_interval,
  reapply_every,
}

-- `url.Parse`: the scheme and the host.
pub record Url : Type 0 where
  pub scheme : Text
  pub host : Text

pub record Parsers : Type 0 where
  pub parse_url : Text → Option Url
  pub split_host_port : Text → Option (Text × Text)
  pub atoi : Text → Option ℕ
  pub parse_duration : Text → Option ℕ

abbrev pub is_set : Text → Bool
is_set [] = false
is_set (c ∷ s) = true

-- The patterns.
abbrev pub is_word_byte : ℕ → Bool
is_word_byte c =
    leb b'A' c && leb c b'Z' || leb b'a' c && leb c b'z' || leb b'0' c && leb c b'9' || c == b'_'

abbrev is_interface_byte : ℕ → Bool
is_interface_byte c = is_word_byte c || c == b'.' || c == b'-'

abbrev is_identifier_byte : ℕ → Bool
is_identifier_byte c = is_interface_byte c || c == b'@' || c == b'[' || c == b']'

abbrev pub is_hex_byte : ℕ → Bool
is_hex_byte c = leb b'0' c && leb c b'9' || leb b'A' c && leb c b'F' || leb b'a' c && leb c b'f'

abbrev pub all_bytes : (ℕ → Bool) → Text → Bool
all_bytes test [] = true
all_bytes test (c ∷ s) = test c && all_bytes test s

abbrev between : ℕ → ℕ → ℕ → Bool
between low high n = leb low n && leb n high

unfoldable pub interface_pattern : Text → Bool
interface_pattern s = all_bytes is_interface_byte s && between 1 15 (length s)

unfoldable pub identifier_pattern : Text → Bool
identifier_pattern s = all_bytes is_identifier_byte s && leb 1 (length s)

unfoldable pub chain_pattern : Text → Bool
chain_pattern s = all_bytes is_word_byte s && between 1 20 (length s)

unfoldable pub hex_pattern : Text → Bool
hex_pattern (zero_byte ∷ x ∷ digits) =
    zero_byte == b'0' && x == b'x' && all_bytes is_hex_byte digits && between 1 8 (length digits)
hex_pattern _ = false

unfoldable pub valid_input_interface : Text → Bool
valid_input_interface value = interface_pattern (trim_suffix value (codes "+"))

abbrev is_v4 : Option Ip → Bool
is_v4 none = false
is_v4 (some ip) = is_some (to4 ip)

unfoldable pub valid_ipv4_cidr : Text → Bool
valid_ipv4_cidr value = elim (parse_cidr value) [ none ↦ false | some parts ↦ is_v4 (some parts.0) ]

-- The first error of checks that follow one another.
unfoldable pub first_error : List (Result (Unit {0})) → Result (Unit {0})
first_error [] = ok tt
first_error (ok u ∷ checks) = first_error checks
first_error (err e ∷ checks) = err e

abbrev pub refuse : Bool → Error → Result (Unit {0})
refuse true e = err e
refuse false e = ok tt

abbrev pub ignore : {A : Type 0} → Result A → Result (Unit {0})
ignore (ok a) = ok tt
ignore (err e) = err e

abbrev pub wrap : {A : Type 0} → Text → Result A → Result (Unit {0})
wrap prefix (ok a) = ok tt
wrap prefix (err e) = err (wrapped prefix e)

abbrev pub parse_role : Text → Option Role
parse_role role =
    if text_eq role (codes "controller")
    then some controller
    else if text_eq role (codes "agent")
    then some agent
    else none

abbrev pub is_max : ℕ → Bool
is_max = between 1 65535

module _ (parsers : Parsers) where
  open parsers use {parse_url, split_host_port, atoi, parse_duration}

  abbrev valid_port : Option ℕ → Bool
  valid_port none = false
  valid_port (some port) = ltb 0 port && leb port 65535

  abbrev valid_address : Option (Text × Text) → Bool
  valid_address none = false
  valid_address (some (host, port)) =
      is_set host && is_set port && valid_port (atoi port) && is_some (parse_ip host)

  unfoldable pub valid_host_port : Text → Bool
  valid_host_port value = valid_address (split_host_port value)

  -- The source of an agent: an absolute URL, and HTTPS unless the configuration says otherwise.
  abbrev pub check_url : Bool → Option Url → Result (Unit {0})
  check_url insecure none = err (text (codes "api.source_url must be an absolute URL"))
  check_url insecure (some url) =
      if not (is_set url.host) || not (is_set url.scheme)
      then err (text (codes "api.source_url must be an absolute URL"))
      else refuse (not (text_eq url.scheme (codes "https")) && not insecure)
          (text (codes "HTTPS source_url is required unless allow_insecure_http is true"))

  abbrev pub check_source : Role → ApiConfig → Result (Unit {0})
  check_source controller api = ok tt
  check_source agent api = first_error (
      refuse (not (is_set api.source_url)) (text (codes "agent requires api.source_url"))
      ∷ check_url api.allow_insecure_http (parse_url api.source_url)
      ∷ [])

  abbrev check_doh_url : Option Url → Result (Unit {0})
  check_doh_url none = err (text (codes "dns_proxy.doh_url must be an absolute HTTP or HTTPS URL"))
  check_doh_url (some url) =
      refuse
        (not (is_set url.host)
          || not (text_eq url.scheme (codes "http")) && not (text_eq url.scheme (codes "https")))
        (text (codes "dns_proxy.doh_url must be an absolute HTTP or HTTPS URL"))

  abbrev bool_same : Bool → Bool → Bool
  bool_same b d = if b then d else not d

  unfoldable pub check_dns_proxy : DnsProxyConfig → Result (Unit {0})
  unfolding first_error
  check_dns_proxy dns =
      if is_set dns.listen || is_set dns.upstream || is_set dns.doh_url
      then first_error (
          refuse (not (valid_host_port dns.listen))
            (text (codes "dns_proxy.listen must be a valid host:port address"))
          ∷ refuse (bool_same (not (is_set dns.upstream)) (not (is_set dns.doh_url)))
              (text (codes "dns_proxy requires exactly one of upstream or doh_url"))
          ∷ refuse (is_set dns.upstream && not (valid_host_port dns.upstream))
              (text (codes "dns_proxy.upstream must be a valid host:port address"))
          ∷ refuse (is_set dns.upstream && text_eq dns.listen dns.upstream)
              (text (codes "dns_proxy.listen and dns_proxy.upstream must differ"))
          ∷ (if is_set dns.doh_url then check_doh_url (parse_url dns.doh_url) else ok tt)
          ∷ [])
      else ok tt

  abbrev valid_priority : Option ℕ → Bool
  valid_priority none = false
  valid_priority (some priority) = leb 1 priority && leb priority 32765

  abbrev check_base : List Text → Result (Unit {0})
  check_base [] = ok tt
  check_base (network ∷ networks) =
      let rest = check_base networks in
      if valid_ipv4_cidr network
      then rest
      else err (quoted (codes "invalid base_allowed network ") network)

  unfoldable pub check_driver : ApplyConfig → Result (Unit {0})
  check_driver c =
      if text_eq c.driver (codes "wg-route")
      then refuse (not (is_set c.interface) || not (is_set c.peer))
          (text (codes "wg-route requires interface and peer"))
      else if text_eq c.driver (codes "linux-edge")
      then refuse (not (is_set c.interface) || not (is_set c.peer) || not (is_set c.source_net))
          (text (codes "linux-edge requires interface, peer, and source_net"))
      else if text_eq c.driver (codes "openwrt-pbr")
      then refuse
          (not (is_set c.pbr_section)
            || not (is_set c.firewall_section)
            || not (identifier_pattern c.pbr_section)
            || not (identifier_pattern c.firewall_section))
          (text (codes "openwrt-pbr requires pbr_section and firewall_section"))
      else if text_eq c.driver (codes "linux-exit") || text_eq c.driver (codes "nft-exit")
      then refuse (not (is_set c.source_net) || not (is_set c.wan_interface))
          (text (c.driver ++ codes " requires source_net and wan_interface"))
      else err (quoted (codes "unsupported apply driver ") c.driver)

  abbrev pub checks_of_apply : ApplyConfig → List (Result (Unit {0}))
  checks_of_apply c =
      refuse (is_set c.interface && not (interface_pattern c.interface))
        (quoted (codes "invalid interface ") c.interface)
      ∷ refuse (is_set c.input_interface && not (valid_input_interface c.input_interface))
          (quoted (codes "invalid input_interface ") c.input_interface)
      ∷ refuse (is_set c.wan_interface && not (interface_pattern c.wan_interface))
          (quoted (codes "invalid wan_interface ") c.wan_interface)
      ∷ refuse (is_set c.chain && not (chain_pattern c.chain))
          (quoted (codes "invalid chain ") c.chain)
      ∷ refuse (is_set c.table && not (identifier_pattern c.table))
          (quoted (codes "invalid table ") c.table)
      ∷ refuse (is_set c.rule_priority && not (valid_priority (atoi c.rule_priority)))
          (quoted (codes "invalid rule_priority ") c.rule_priority)
      ∷ refuse (is_set c.mark && not (hex_pattern c.mark)) (quoted (codes "invalid mark ") c.mark)
      ∷ refuse (is_set c.mask && not (hex_pattern c.mask)) (quoted (codes "invalid mask ") c.mask)
      ∷ refuse (is_set c.next_hop && not (is_v4 (parse_ip c.next_hop)))
          (quoted (codes "invalid next_hop ") c.next_hop)
      ∷ refuse (is_set c.source_net && not (valid_ipv4_cidr c.source_net))
          (quoted (codes "invalid source_net ") c.source_net)
      ∷ check_base c.base_allowed
      ∷ check_driver c
      ∷ []

  unfoldable pub check_apply : ApplyConfig → Result (Unit {0})
  unfolding first_error
  check_apply c = first_error (checks_of_apply c)

  unfoldable pub check_applies : List ApplyConfig → Result (Unit {0})
  check_applies [] = ok tt
  check_applies (c ∷ cs) = first_error (check_apply c ∷ check_applies cs ∷ [])

  abbrev pub with_max : Config → Config
  with_max c = record c {
    max_networks = if c.max_networks == 0 then default_max_networks else c.max_networks;
  }

  -- The checks in their order, on the configuration with its default limit.
  abbrev pub checks : Config → List (Result (Unit {0}))
  checks c =
      refuse (not (is_set c.state_file)) (text (codes "state_file is required"))
      ∷ check_source c.role c.api
      ∷ refuse (not (is_set c.api.token)) (text (codes "api.token is required"))
      ∷ refuse (ltb (length c.api.token) 32)
          (text (codes "api.token must contain at least 32 characters"))
      ∷ refuse (ltb (length c.api.report_token) 32)
          (text (codes "api.report_token must contain at least 32 characters"))
      ∷ refuse (text_eq c.api.report_token c.api.token)
          (text (codes "api.report_token must differ from api.token"))
      ∷ refuse (not (is_max c.max_networks))
          (text (codes "max_networks must be between 1 and 65535"))
      ∷ wrap (codes "seed_networks") (validate_networks c.seed_networks false c.max_networks)
      ∷ refuse (not (is_agent c.role) && not (is_set c.api.listen))
          (text (codes "controller requires api.listen"))
      ∷ refuse
          (is_set c.api.listen
            && (not (is_set c.api.tls_cert) || not (is_set c.api.tls_key))
            && not c.api.allow_insecure_http)
          (text (codes "TLS is required unless allow_insecure_http is true"))
      ∷ check_dns_proxy c.dns_proxy
      ∷ check_applies c.apply
      ∷ ignore (poll_interval parse_duration c)
      ∷ ignore (reapply_every parse_duration c)
      ∷ []

  abbrev pub checked : Config → Result (Unit {0}) → Result Config
  checked c (ok u) = ok c
  checked c (err e) = err e

  abbrev pub load_as : Option Role → Config → Result Config
  load_as none c = err (text (codes "role must be controller or agent"))
  load_as (some role) c =
      let given = with_max (record c { role = role }) in checked given (first_error (checks given))

  -- The decoded configuration, its role still a text.
  unfoldable pub load_config : Text → Config → Result Config
  load_config role c = load_as (parse_role role) c
