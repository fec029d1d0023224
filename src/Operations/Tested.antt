-- ===== src/Operations/Tested.antt =====
-- What a smoke test that succeeds has seen.
use netflix_pbrd.Base.{
  ◌≡◌, refl, ◌==◌, ap, sym, ◌≤◌, ◌∙◌, inl, inr, Bool, true, false, List, [], ◌∷◌, ◌++◌, Text, Io,
  ◌>>=◌, ◌>>◌, >>=-eq-ok, wrap_error, Result, ok, err, Error, text, Option, none, some, arith,
  then_io, Keeps, Keeps->>=, Keeps->>, Bool-cases, codes,
}
use netflix_pbrd.Text.{text_eq, contains_text, trim_space}
use netflix_pbrd.Text.Words.{words}
use netflix_pbrd.Config.{ApplyConfig, Config, is_agent}
use netflix_pbrd.Config.Load.{is_set}
use netflix_pbrd.Status.{OperationalStatus, runtime_status_file, load_operational_status}
use netflix_pbrd.Drivers.Edge.{with_edge_defaults}
use netflix_pbrd.Operations.Machine.{Machine}
use netflix_pbrd.Operations.Doctor.{DnsAnswer, DnsClient, Route, policy_route}
use netflix_pbrd.Operations.Routed.{ConfirmedBy, probe_routes-ConfirmedBy}
use netflix_pbrd.Operations.Smoke.{
  SmokeResult, smoke_test, require, is_complete, outside, modify, returned, note_route, probe_edge,
  probe_wg, probe_one, probe_routes, probe_addresses, require_confirmed, read_status, after_status,
  after_routes, after_answer, new_smoke, asked_name, not_routed, incomplete, no_proxy, progress_of,
}

module _ {W : Type 0} (m : Machine W) (dns : DnsClient W) where
  -- The part of the result that the routes do not touch.
  abbrev Fixed : List Text → Text → SmokeResult × W → Type 0
  Fixed addresses file (s, w) = (s.addresses ≡ addresses) × (s.status_file ≡ file)

  module _ (addresses : List Text) (file : Text) where
    abbrev F : SmokeResult × W → Type 0
    F = Fixed addresses file

    outside-Fixed : {A : Type 0} (act : Io W A) → Keeps F (outside act)
    outside-Fixed act (s, w) h = h

    note_route-Fixed : (shown : Text) (through : Bool) → Keeps F (note_route m dns shown through)
    note_route-Fixed shown through (s, w) h = h

    returned-Fixed : (e : Option Error) → Keeps F (returned m dns e)
    returned-Fixed none s h = h
    returned-Fixed (some e) s h = h

    probe_edge-Fixed : (address : Text) (c : ApplyConfig) → Keeps F (probe_edge m dns address c)
    probe_edge-Fixed address c =
        Keeps->>= {A = Route} F (outside found) noted (outside-Fixed found) (λ r.
          Keeps->> F (note_route m dns r.route r.through) (returned m dns r.error)
            (note_route-Fixed r.route r.through) (returned-Fixed r.error))
      where
        found : W → W × Result Route
        found = policy_route m dns (words "route get" ++ (address ∷ codes "mark" ∷ c.mark ∷ [])) c

        noted : Route → SmokeResult × W → (SmokeResult × W) × Result (Unit {0})
        noted r = note_route m dns r.route r.through >> returned m dns r.error

    probe_wg-Fixed : (address : Text) (c : ApplyConfig) → Keeps F (probe_wg m dns address c)
    probe_wg-Fixed address c = Keeps->>= F (outside shown) noted (outside-Fixed shown) (λ out.
        note_route-Fixed (trim_space out)
          (contains_text (trim_space out) (codes "dev " ++ c.interface)))
      where
        shown : W → W × Result Text
        shown = m.runner.output (codes "ip") (words "route get" ++ (address ∷ []))

        noted : Text → SmokeResult × W → (SmokeResult × W) × Result (Unit {0})
        noted out =
            note_route m dns (trim_space out)
              (contains_text (trim_space out) (codes "dev " ++ c.interface))

    probe_one-Fixed : (address : Text) (c : ApplyConfig) → Keeps F (probe_one m dns address c)
    probe_one-Fixed address c s h = elim (Bool-cases (text_eq c.driver (codes "linux-edge"))) [
      | inl edge ↦ rw edge (probe_edge-Fixed address (with_edge_defaults c) s h)
      | inr other ↦ elim (Bool-cases (text_eq c.driver (codes "wg-route"))) [
        | inl wg ↦ rw (other, wg) (probe_wg-Fixed address c s h)
        | inr none_of ↦ rw (other, none_of) h
      ]
    ]

    probe_routes-Fixed :
        (address : Text) (cs : List ApplyConfig) → Keeps F (probe_routes m dns address cs)
    unfolding probe_routes
    probe_routes-Fixed address [] s h = h
    probe_routes-Fixed address (c ∷ cs) s h =
        Keeps->> F (probe_one m dns address c) (probe_routes m dns address cs)
          (probe_one-Fixed address c) (probe_routes-Fixed address cs) s h

  -- What has been seen in a run from `w` to `w'`: an answer of the proxy with an address, a probe that
  -- shows its route, and in the end a status that tells that the networks are applied, and for an
  -- agent that it has reported all that it learned.
  pub record Seen (config : Config) (name : Text) (w w' : W) (s' : SmokeResult) : Type 0 where
    pub address : Text
    pub others : List Text
    pub asked : W
    pub listening : is_set config.dns_proxy.listen ≡ true
    pub answered :
        dns.query_large config.dns_proxy.listen (dns.fqdn (asked_name name)) w
        ≡ (asked, ok (record { rcode = 0; addresses = address ∷ others }))
    pub listed : s'.addresses ≡ address ∷ others
    pub routed : ConfirmedBy m dns address config.apply asked
    pub status : OperationalStatus
    pub read :
        load_operational_status m.system m.decode_status (runtime_status_file config.state_file) w'
        ≡ ok status
    pub applied : status.applied_known ≡ true
    pub reported : is_agent config.role ≡ true → status.learned ≤ status.reported

  require-eq-ok :
      {V : Type 0} (b : Bool) (x : Error) (v v' : V)
      → require b x v ≡ (v', ok tt)
      → (b ≡ true) × (v ≡ v')
  require-eq-ok true x v v' e = (refl, ap (λ p. p.0) e)
  require-eq-ok false x v v' e = absurd (ground arith)

  is_complete-lem :
      (config : Config) (status : OperationalStatus)
      → is_complete config status ≡ true
      → (status.applied_known ≡ true)
        × (is_agent config.role ≡ true → status.learned ≤ status.reported)
  is_complete-lem config status h = (ground arith, λ agent. ground (arith, agent))

  -- What the last steps have seen, which leave the world as it is.
  record Confirmed (config : Config) (w w' : W) (s s' : SmokeResult) : Type 0 where
    status : OperationalStatus
    confirmed : s.confirmed ≡ true
    listed : s'.addresses ≡ s.addresses
    same : w ≡ w'
    read : load_operational_status m.system m.decode_status s.status_file w ≡ ok status
    complete : is_complete config status ≡ true

  after_routes-Confirmed :
      (config : Config) (s : SmokeResult) (w : W) (s' : SmokeResult) (w' : W)
      → after_routes m dns config (s, w) ≡ ((s', w'), ok tt)
      → Confirmed config w w' s s'
  after_routes-Confirmed config s w s' w' e =
      let (_, u, c, rest) =
        >>=-eq-ok (require_confirmed m dns)
          (λ _.
            wrap_error (codes "runtime status") (read_status m dns) >>= after_status m dns config)
          (s, w) e in
      let (confirmed, same) = require-eq-ok s.confirmed (not_routed m dns s.route) (s, w) u c in
      read confirmed (load_operational_status m.system m.decode_status s.status_file w) refl
        (rw (← same) at rest)
    where
      read :
          s.confirmed ≡ true
          → (r : Result OperationalStatus)
          → load_operational_status m.system m.decode_status s.status_file w ≡ r
          → then_io
              (after_status m dns config)
              (wrap_error (codes "runtime status") (λ (t : SmokeResult × W). (t, r)) (s, w))
            ≡ ((s', w'), ok tt)
          → Confirmed config w w' s s'
      read confirmed (err x) l k = absurd (ground arith)
      read confirmed (ok status) l k =
          let noted = record s { progress = progress_of status m.number_text } in
          let (complete, same) =
            require-eq-ok (is_complete config status) (incomplete m dns status) (noted, w) (s', w')
              k in
          record {
            status = status;
            confirmed = confirmed;
            listed = ap (λ p. p.0.addresses) (sym same);
            same = ap (λ p. p.1) same;
            read = l;
            complete = complete;
          }

  module _ (config : Config) (name : Text) (w : W) (s' : SmokeResult) (w' : W)
      (listening : is_set config.dns_proxy.listen ≡ true) where
    abbrev AskedFrom : W → DnsAnswer → Type 0
    AskedFrom v answer =
        dns.query_large config.dns_proxy.listen (dns.fqdn (asked_name name)) w ≡ (v, ok answer)

    routes-Seen :
        (address : Text) (others : List Text) (s : SmokeResult) (v : W)
        → s.confirmed ≡ false
        → s.status_file ≡ runtime_status_file config.state_file
        → s.addresses ≡ address ∷ others
        → AskedFrom v (record { rcode = 0; addresses = address ∷ others })
        → (probe_routes m dns address config.apply >> after_routes m dns config) (s, v)
          ≡ ((s', w'), ok tt)
        → Seen config name w w' s'
    routes-Seen address others s v fresh file listed asked k =
        let (_, (t, u), p, q) =
          >>=-eq-ok (probe_routes m dns address config.apply) (λ _. after_routes m dns config)
            (s, v) k in
        let fixed : Fixed (address ∷ others) s.status_file (t, u) = rw (ap (λ r. r.0) p) at (
          probe_routes-Fixed (address ∷ others) s.status_file address config.apply (s, v)
            (listed, refl)) in
        let done = after_routes-Confirmed config t u s' w' q in
        let told = is_complete-lem config done.status done.complete in
        record {
          address = address;
          others = others;
          asked = v;
          listening = listening;
          answered = asked;
          listed = done.listed ∙ fixed.0;
          routed =
              elim (probe_routes-ConfirmedBy m dns address config.apply s v t u p done.confirmed) [
                | inl already ↦ absurd (ground (arith, already, fresh))
                | inr routed ↦ routed
              ];
          status = done.status;
          read = rw (fixed.1 ∙ file, done.same) at done.read;
          applied = told.0;
          reported = told.1;
        }

    after_answer-Seen :
        (answer : DnsAnswer) (s : SmokeResult) (v : W)
        → s.confirmed ≡ false
        → s.status_file ≡ runtime_status_file config.state_file
        → AskedFrom v answer
        → after_answer m dns config answer (s, v) ≡ ((s', w'), ok tt)
        → Seen config name w w' s'
    after_answer-Seen answer s v fresh file asked e =
        let (_, u, c, rest) =
          >>=-eq-ok
            (require (answer.rcode == 0)
              (text (codes "DNS returned " ++ dns.rcode_text answer.rcode)))
            (λ _.
              modify (λ s. record s { addresses = answer.addresses })
              >> (probe_addresses m dns config answer.addresses >> after_routes m dns config))
            (s, v) e in
        let (noerror, same) =
          require-eq-ok (answer.rcode == 0)
            (text (codes "DNS returned " ++ dns.rcode_text answer.rcode)) (s, v) u c in
        let zero_code : answer.rcode ≡ 0 = grind arith in
        probed answer.addresses
          (asked ∙ ap (λ n. (v, ok (record { rcode = n; addresses = answer.addresses }))) zero_code)
          (rw (← same) at rest)
      where
        probed :
            (addresses : List Text)
            → AskedFrom v (record { rcode = 0; addresses = addresses })
            → (probe_addresses m dns config addresses >> after_routes m dns config)
                (record s { addresses = addresses }, v)
              ≡ ((s', w'), ok tt)
            → Seen config name w w' s'
        probed [] asked k = absurd (ground arith)
        probed (address ∷ others) asked k =
            routes-Seen address others (record s { addresses = address ∷ others }) v fresh file refl
              asked k

  -- When the smoke test succeeds, the proxy is configured and its answer without an error code lists an
  -- address; a driver of the configuration has a probe, a command `ip` run behind that answer, whose
  -- output names the interface of the driver as the way to the first address; and the status file,
  -- as it is read in the end, tells that the networks are applied and, on an agent, that no fewer are
  -- reported than learned.
  pub smoke_test-Seen :
      (config : Config) (name : Text) (w : W) (s' : SmokeResult) (w' : W)
      → smoke_test m dns config name (new_smoke config name, w) ≡ ((s', w'), ok tt)
      → Seen config name w w' s'
  unfolding smoke_test
  smoke_test-Seen config name w s' w' e =
      let ask = outside (dns.query_large config.dns_proxy.listen (dns.fqdn (asked_name name))) in
      let named = record (new_smoke config name) { name = asked_name name } in
      let (_, u, c, rest) =
        >>=-eq-ok (require (is_set config.dns_proxy.listen) (no_proxy m dns))
          (λ _.
            modify (λ s. record s { name = asked_name name })
            >> (ask >>= after_answer m dns config))
          (new_smoke config name, w) e in
      let (listening, same) =
        require-eq-ok (is_set config.dns_proxy.listen) (no_proxy m dns) (new_smoke config name, w) u
          c in
      let (answer, (t, v), a, k) =
        >>=-eq-ok ask (after_answer m dns config) (named, w) (rw (← same) at rest) in
      after_answer-Seen config name w s' w' listening answer t v (ap (λ p. p.0.0.confirmed) (sym a))
        (ap (λ p. p.0.0.status_file) (sym a)) (ap (λ p. (p.0.1, p.1)) a) k
