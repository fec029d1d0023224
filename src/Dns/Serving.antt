-- ===== src/Dns/Serving.antt =====
-- `ServeDNS` of internal/pbr/dns_proxy.go. The exchange with the upstream server is a parameter. That
-- a reply cannot be written is only logged, so a reply is what the client is sent.
use netflix_pbrd.Base.{
  ◌≡◌, ◌∙◌, true, List, [], ◌∷◌, Text, Io, Result, ok, err, Option, none, some, arith,
}
use netflix_pbrd.Text.{contains}
use netflix_pbrd.Text.Laws.{text_eq_refl}
use netflix_pbrd.Config.{Config, DnsProxyConfig, is_agent}
use netflix_pbrd.Networks.{canonical_network}
use netflix_pbrd.Networks.Merging.{names, names_forms, merge-IsNetworkSet}
use netflix_pbrd.Runtime.Daemon.{new_runtime, Host, State, in_world, learn}
use netflix_pbrd.Runtime.History.{
  History, AllRan, unnoted, logged, Lives, elsewhere, IsAcknowledged, learn-ok,
}
use netflix_pbrd.Dns.{Msg, Reply, server_failure, answered, inspect, addresses, trust}
use netflix_pbrd.Dns.Trust.{records_of}
use netflix_pbrd.Dns.Inspect.{IsTrusted, has_address, inspect-networks}

module _ {S : Type 0} (unicode_lower : Text → Text) (exchange : Msg → S → S × Result Msg)
    (learner : Option (List Text → S → S × Result (Unit {0}))) where
  abbrev replied : Msg → List Text → S × Result (Unit {0}) → (List Text × S) × Reply
  replied response aliases (s, ok u) = ((aliases, s), answered response)
  replied response aliases (s, err e) = ((aliases, s), server_failure)

  abbrev teach :
      Option (List Text → S → S × Result (Unit {0})) → List Text → S → S × Result (Unit {0})
  teach none networks s = (s, ok tt)
  teach (some f) [] s = (s, ok tt)
  teach (some f) (network ∷ networks) s = f (network ∷ networks) s

  abbrev pub serve_response : DnsProxyConfig → List Text → S × Result Msg → (List Text × S) × Reply
  serve_response c aliases (s, err e) = ((aliases, s), server_failure)
  serve_response c aliases (s, ok response) =
      let found = inspect unicode_lower c aliases response in
      replied response found.0 (teach learner found.1 s)

  -- A query, with the aliases that the proxy remembers and the state behind it.
  unfoldable pub serve_dns : DnsProxyConfig → Msg → List Text × S → (List Text × S) × Reply
  serve_dns c request (aliases, s) = serve_response c aliases (exchange request s)

module _ {W : Type 0} (host : Host W) (unicode_lower : Text → Text)
    (exchange : Msg → Io W Msg) where
  -- The proxy of the daemon: its queries reach the state only by `learn`.
  abbrev pub serve_with_daemon :
      DnsProxyConfig → Msg → List Text × State host → (List Text × State host) × Reply
  serve_with_daemon =
      serve_dns unicode_lower (λ request. in_world host (exchange request)) (some (learn host))

module _ {W : Type 0} (host : Host W) (unicode_lower : Text → Text)
    (exchange : Msg → Io W Msg) where
  inspect-names :
      (c : DnsProxyConfig) (aliases : List Text) (message : Msg) (y : Text)
      → contains (inspect unicode_lower c aliases message).1 y ≡ true
      → names (inspect unicode_lower c aliases message).1 y ≡ true
  unfolding inspect
  inspect-names c aliases message y h =
      names_forms _ y
        (merge-IsNetworkSet (
          addresses unicode_lower (trust unicode_lower c aliases message).names (records_of message)
          ∷ [])).forms
      ∙ h

  -- The daemon behind a history, and its queries, which leave the history as it is.
  abbrev D : Host (History × W)
  D = logged host

  abbrev pub query_upstream : Msg → Io (History × W) Msg
  query_upstream request = unnoted (exchange request)

  -- A network is in force, by the state and the history of what has happened: it is applied with all
  -- the desired ones, which each driver has run with and succeeded; and on an agent the controller has
  -- answered 204 to a report of exactly the learned hosts, with this one among them.
  abbrev pub IsInForce : Config → State (logged host) → Text → Type 0
  IsInForce config s y =
      (s.0.applied ≡ s.0.desired)
      × (contains s.0.applied y ≡ true)
      × AllRan config.apply s.0.applied s.1.0
      × (is_agent config.role ≡ true
          → (contains s.0.learned y ≡ true) × IsAcknowledged host config s.0.learned s.1.0)

  module _ (config : Config) (w : History × W) (s0 : State (logged host))
      (start : new_runtime (logged host) config w ≡ (s0.1, ok s0.0)) where
    learn-IsInForce :
        (networks : List Text) (s s' : State D) (y : Text)
        → Lives host s0 s
        → names networks y ≡ true
        → learn D networks s ≡ (s', ok tt)
        → IsInForce config s' y
    learn-IsInForce networks s s' y run n e =
        let (desired, all, drivers, on_agent) =
          learn-ok host config networks w s0 s s' start run e in
        (desired, all y n, drivers, λ q. on_agent q y n)

    replied-answered :
        (response answer : Msg) (found aliases : List Text) (p : State D × Result (Unit {0}))
        (s' : State D)
        → replied unicode_lower
            (λ request. in_world D (query_upstream request))
            (some (learn D))
            response
            found
            p
          ≡ ((aliases, s'), answered answer)
        → (p ≡ (s', ok tt)) × (response ≡ answer)
    replied-answered response answer found aliases (s, ok u) s' e = ground arith
    replied-answered response answer found aliases (s, err x) s' e = absurd (ground arith)

    taught-IsInForce :
        (networks : List Text) (s s' : State D) (y : Text)
        → Lives host s0 s
        → names networks y ≡ true
        → teach unicode_lower
            (λ request. in_world D (query_upstream request))
            (some (learn D))
            (some (learn D))
            networks
            s
          ≡ (s', ok tt)
        → IsInForce config s' y
    taught-IsInForce [] s s' y run n e = absurd (ground arith)
    taught-IsInForce (network ∷ networks) s s' y run n e =
        learn-IsInForce (network ∷ networks) s s' y run n e

    serve_response-answered :
        (c : DnsProxyConfig) (aliases aliases' : List Text) (p : State D × Result Msg)
        (s' : State D) (answer : Msg)
        → serve_response unicode_lower
            (λ request. in_world D (query_upstream request))
            (some (learn D))
            c
            aliases
            p
          ≡ ((aliases', s'), answered answer)
        → Lives host s0 p.0
        → (y : Text) → contains (inspect unicode_lower c aliases answer).1 y ≡ true
        → IsInForce config s' y
    serve_response-answered c aliases aliases' (s, err x) s' answer e run y h =
        absurd (ground arith)
    serve_response-answered c aliases aliases' (s, ok response) s' answer e run y h =
        let (done, same) = replied-answered response answer _ aliases' _ s' e in
        taught-IsInForce (inspect unicode_lower c aliases response).1 s s' y run
          (inspect-names c aliases response y (rw same h)) done

  -- For a daemon that `newRuntime` has started and that has done any of its operations since, while
  -- anything else happened in the world: when the proxy hands out an answer, every address that the answer
  -- gives a trusted name, and that is a public address, is in force. It is applied, with all the
  -- other desired networks; each driver of the configuration has run with exactly these networks and
  -- succeeded; and on an agent the controller has answered 204 to a report of exactly the learned
  -- hosts, which include it.
  pub serve_dns-answered :
      (config : Config) (w : History × W) (c : DnsProxyConfig) (request answer : Msg)
      (aliases aliases' : List Text) (s0 s s' : State (logged host))
      → new_runtime (logged host) config w ≡ (s0.1, ok s0.0)
      → Lives host s0 s
      → serve_with_daemon (logged host) unicode_lower query_upstream c request (aliases, s)
        ≡ ((aliases', s'), answered answer)
      → (owner address y : Text)
      → has_address unicode_lower (records_of answer) owner address ≡ true
      → IsTrusted unicode_lower c aliases answer owner
      → canonical_network address ≡ some y
      → IsInForce config s' y
  unfolding serve_dns
  serve_dns-answered config w c request answer aliases aliases' s0 s s' start run e owner address y
        h t f =
      serve_response-answered config w s0 start c aliases aliases'
        (in_world (logged host) (query_upstream request) s) s' answer e (elsewhere run _) y
        ((inspect-networks unicode_lower c aliases answer y).1
          (owner, address, h, t, rw f (text_eq_refl y)))
