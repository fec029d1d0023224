-- ===== src/Operations/Smoke.antt =====
-- `SmokeTest` of internal/pbr/operations.go. Its state is the result that it fills, beside the world.
use netflix_pbrd.Base.{
  ℕ, Bool, true, false, ◌&&◌, ◌||◌, not, List, [], ◌∷◌, ◌++◌, Option, none, some, Text, Io, ◌>>=◌,
  ◌>>◌, pure, fail, wrap_error, Result, ok, err, Error, text, codes, ltb, ◌==◌, if◌then◌else◌,
}
use netflix_pbrd.Text.{text_eq, contains_text, trim_space}
use netflix_pbrd.Text.Words.{words, text_of}
use netflix_pbrd.Config.{ApplyConfig, Config, is_agent}
use netflix_pbrd.Config.Load.{is_set}
use netflix_pbrd.Status.{OperationalStatus, runtime_status_file, load_operational_status}
use netflix_pbrd.Drivers.Edge.{with_edge_defaults}
use netflix_pbrd.Operations.Machine.{Machine}
use netflix_pbrd.Operations.Doctor.{DnsAnswer, DnsClient, policy_route}

pub record SmokeResult : Type 0 where
  pub name : Text
  pub addresses : List Text
  pub route : Text
  pub progress : Text
  pub confirmed : Bool
  pub status_file : Text

abbrev pub asked_name : Text → Text
asked_name [] = codes "android.prod.cloud.netflix.com."
asked_name (c ∷ name) = c ∷ name

abbrev pub new_smoke : Config → Text → SmokeResult
new_smoke config name = record {
  name = name;
  addresses = [];
  route = [];
  progress = [];
  confirmed = false;
  status_file = runtime_status_file config.state_file;
}

-- Code on the world, and a change of the result.
abbrev pub kept : {W A : Type 0} → SmokeResult → W × Result A → (SmokeResult × W) × Result A
kept s (w, r) = ((s, w), r)

abbrev pub outside : {W A : Type 0} → Io W A → SmokeResult × W → (SmokeResult × W) × Result A
outside m (s, w) = kept s (m w)

abbrev pub modify :
    {W : Type 0}
    → (SmokeResult → SmokeResult)
    → SmokeResult × W
    → (SmokeResult × W) × Result (Unit {0})
modify f (s, w) = ((f s, w), ok tt)

abbrev pub require : {W : Type 0} → Bool → Error → W → W × Result (Unit {0})
require true e w = (w, ok tt)
require false e w = (w, err e)

abbrev pub progress_of : OperationalStatus → (ℕ → Text) → Text
progress_of status number_text = text_of (
    number_text status.learned
    ∷ codes " -> "
    ∷ number_text status.applied
    ∷ codes " -> "
    ∷ number_text status.reported
    ∷ [])

-- What the runtime status has to show.
abbrev pub is_complete : Config → OperationalStatus → Bool
is_complete config status =
    not (not status.applied_known || (is_agent config.role && ltb status.reported status.learned))

module _ {W : Type 0} (m : Machine W) (dns : DnsClient W) where
  open m use {system, runner, number_text}

  abbrev pub returned : Option Error → SmokeResult × W → (SmokeResult × W) × Result (Unit {0})
  returned none s = (s, ok tt)
  returned (some e) s = (s, err e)

  abbrev pub note_route : Text → Bool → SmokeResult × W → (SmokeResult × W) × Result (Unit {0})
  note_route shown through = modify (λ s. record s { route = shown; confirmed = through })

  abbrev pub probe_edge : Text → ApplyConfig → Io (SmokeResult × W) (Unit {0})
  probe_edge address c = do
    r ← outside (policy_route m dns (words "route get" ++ (address ∷ codes "mark" ∷ c.mark ∷ [])) c)
    note_route r.route r.through
    returned r.error

  abbrev pub probe_wg : Text → ApplyConfig → Io (SmokeResult × W) (Unit {0})
  probe_wg address c = do
    out ← outside (runner.output (codes "ip") (words "route get" ++ (address ∷ [])))
    note_route (trim_space out) (contains_text (trim_space out) (codes "dev " ++ c.interface))

  abbrev pub probe_one : Text → ApplyConfig → Io (SmokeResult × W) (Unit {0})
  probe_one address c =
      if text_eq c.driver (codes "linux-edge")
      then probe_edge address (with_edge_defaults c)
      else if text_eq c.driver (codes "wg-route")
      then probe_wg address c
      else pure tt

  unfoldable pub probe_routes : Text → List ApplyConfig → Io (SmokeResult × W) (Unit {0})
  unfolding text_eq contains_text words
  probe_routes address [] = pure tt
  probe_routes address (c ∷ cs) = do probe_one address c; probe_routes address cs

  abbrev pub no_proxy : Error
  no_proxy = text (codes "smoke-test requires dns_proxy on this host")

  abbrev pub no_addresses : Error
  no_addresses = text (codes "DNS response contained no IPv4 addresses")

  abbrev pub not_routed : Text → Error
  not_routed shown =
      text (codes "learned address is not routed through the configured interface: " ++ shown)

  abbrev pub incomplete : OperationalStatus → Error
  incomplete status =
      text (codes "runtime progress is incomplete: " ++ progress_of status number_text)

  abbrev pub probe_addresses : Config → List Text → Io (SmokeResult × W) (Unit {0})
  probe_addresses config [] = fail no_addresses
  probe_addresses config (address ∷ addresses) = probe_routes address config.apply

  abbrev pub require_confirmed : SmokeResult × W → (SmokeResult × W) × Result (Unit {0})
  require_confirmed (s, w) = require s.confirmed (not_routed s.route) (s, w)

  abbrev pub read_status : SmokeResult × W → (SmokeResult × W) × Result OperationalStatus
  read_status (s, w) = ((s, w), load_operational_status system m.decode_status s.status_file w)

  -- The last steps, from the status on, from the routes on, and from the answer on.
  abbrev pub after_status : Config → OperationalStatus → Io (SmokeResult × W) (Unit {0})
  after_status config status = do
    modify (λ s. record s { progress = progress_of status number_text })
    require (is_complete config status) (incomplete status)

  abbrev pub after_routes : Config → Io (SmokeResult × W) (Unit {0})
  after_routes config = do
    require_confirmed
    status ← wrap_error (codes "runtime status") read_status
    after_status config status

  abbrev pub after_answer : Config → DnsAnswer → Io (SmokeResult × W) (Unit {0})
  after_answer config answer = do
    require (answer.rcode == 0) (text (codes "DNS returned " ++ dns.rcode_text answer.rcode))
    modify (λ s. record s { addresses = answer.addresses })
    probe_addresses config answer.addresses
    after_routes config

  unfoldable pub smoke_test : Config → Text → Io (SmokeResult × W) (Unit {0})
  smoke_test config name = do
    require (is_set config.dns_proxy.listen) no_proxy
    modify (λ s. record s { name = asked_name name })
    answer ← outside (dns.query_large config.dns_proxy.listen (dns.fqdn (asked_name name)))
    after_answer config answer
