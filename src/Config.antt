-- ===== src/Config.antt =====
-- internal/pbr/config.go: the configuration, and the values derived from it. Durations are in
-- nanoseconds. `MaxNetworks` is not negative, as `LoadConfig` sees to.
pub mod Load
pub mod Loaded
use netflix_pbrd.Base.{
  ℕ, ◌*◌, Bool, ◌||◌, List, Option, none, some, Text, ltb, ◌==◌, if◌then◌else◌, Result, ok, err,
  Error, text, codes,
}
use netflix_pbrd.Text.{text_eq}
use netflix_pbrd.Networks.{effective_max}

pub data Role : Type 0 where
  controller agent : Role

abbrev pub is_agent : Role → Bool
is_agent controller = Bool.false
is_agent agent = Bool.true

pub record ApiConfig : Type 0 where
  pub listen : Text
  pub source_url : Text
  pub token : Text
  pub report_token : Text
  pub tls_cert : Text
  pub tls_key : Text
  pub allow_insecure_http : Bool

pub record DnsProxyConfig : Type 0 where
  pub listen : Text
  pub upstream : Text
  pub doh_url : Text
  pub doh_ca_file : Text
  pub trusted_suffixes : List Text
  pub service_prefixes : List Text

pub record ApplyConfig : Type 0 where
  pub driver : Text
  pub interface : Text
  pub input_interface : Text
  pub peer : Text
  pub base_allowed : List Text
  pub next_hop : Text
  pub source_net : Text
  pub wan_interface : Text
  pub table : Text
  pub rule_priority : Text
  pub mark : Text
  pub mask : Text
  pub chain : Text
  pub pbr_section : Text
  pub firewall_section : Text

pub record Config : Type 0 where
  pub role : Role
  pub interval : Text
  pub reapply_interval : Text
  pub state_file : Text
  pub seed_networks : List Text
  pub api : ApiConfig
  pub dns_proxy : DnsProxyConfig
  pub apply : List ApplyConfig
  pub max_networks : ℕ

abbrev pub second : ℕ
second = 1000000000

-- `time.ParseDuration` gives `none` for a text that it refuses, and for a negative duration.
module _ (parse_duration : Text → Option ℕ) where
  at_least : ℕ → Text → Text → Result ℕ
  at_least least message value = elim (parse_duration value) [
    | none ↦ err (text message)
    | some d ↦ if ltb d least then err (text message) else ok d
  ]

  unfoldable pub poll_interval : Config → Result ℕ
  unfolding at_least text_eq
  poll_interval c =
      if text_eq c.interval (codes "")
      then ok (30 * second)
      else at_least (5 * second) (codes "interval must be at least 5s") c.interval

  unfoldable pub reapply_every : Config → Result ℕ
  unfolding at_least text_eq
  reapply_every c =
      if text_eq c.reapply_interval (codes "")
      then ok (300 * second)
      else at_least (30 * second) (codes "reapply_interval must be at least 30s") c.reapply_interval

-- `maxNetworks` of runtime.go
abbrev pub max_networks : Config → ℕ
max_networks c = effective_max c.max_networks
