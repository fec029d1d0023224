-- ===== src/Runtime/History.antt =====
-- A host that also writes a history: which driver has run with which networks, and with which status
-- a request has been answered. The daemon's code is the same: it takes any host.
use netflix_pbrd.Base.{
  ℕ, ◌≡◌, refl, sym, ap, ◌∙◌, inl, inr, true, false, All, List, [], ◌∷◌, Text, Io, Result, ok, err,
  arith, Result-cases, is_ok, is_err, >>=-eq-ok,
}
use netflix_pbrd.Text.{contains}
use netflix_pbrd.Networks.Merging.{names}
use netflix_pbrd.Networks.Validation.{IsHost}
use netflix_pbrd.Config.{ApplyConfig, Config, is_agent, poll_interval, reapply_every}
use netflix_pbrd.System.{System, Request, Response, post_networks, Applier}
use netflix_pbrd.Runtime.Evidence.{Stays, Evidence, AllDrove}
use netflix_pbrd.Runtime.Witnessed.{Acknowledged, Witnessed, Step-Witnessed, learn_body-Witnessed}
use netflix_pbrd.Runtime.Reports.{Step}
use netflix_pbrd.Runtime.Success.{learn-applied, noted-ok}
use netflix_pbrd.Runtime.Daemon.{
  Host, State, hosts_of, initial_sets, started, new_runtime, learn_body, learn,
}

pub data Event : Type 0 where
  -- A driver has run with these networks, and succeeded.
  ran : ApplyConfig → List Text → Event
  -- A request has been answered with this status.
  answered : Request → ℕ → Event

abbrev pub History : Type 0
History = List Event

pub data Happened (event : Event) : History → Type 0 where
  newest : (older : History) → Happened event (event ∷ older)
  before : (last : Event) (older : History) → Happened event older → Happened event (last ∷ older)

-- Every driver of a configuration has run with these networks, and succeeded.
abbrev pub AllRan : List ApplyConfig → List Text → History → Type 0
AllRan [] nets history = Unit {0}
AllRan (c ∷ cs) nets history = Happened (ran c nets) history × AllRan cs nets history

module _ {W : Type 0} where
  abbrev aside : {A : Type 0} → History → W × A → (History × W) × A
  aside history (w, x) = ((history, w), x)

  abbrev noted_run :
      ApplyConfig → List Text → History → W × Result (Unit {0}) → (History × W) × Result (Unit {0})
  noted_run c nets history (w, ok u) = ((ran c nets ∷ history, w), ok u)
  noted_run c nets history (w, err e) = ((history, w), err e)

  abbrev noted_answer : Request → History → W × Result Response → (History × W) × Result Response
  noted_answer request history (w, ok response) =
      ((answered request response.status ∷ history, w), ok response)
  noted_answer request history (w, err e) = ((history, w), err e)

  -- Code on the world that leaves the history as it is.
  abbrev pub unnoted : {A : Type 0} → Io W A → Io (History × W) A
  unnoted m (history, w) = aside history (m w)

  abbrev logged_system : System W → System (History × W)
  logged_system system = record {
    now = λ s. aside s.0 (system.now s.1);
    pid = system.pid;
    read_file = λ path s. system.read_file path s.1;
    make_parent = λ path. unnoted (system.make_parent path);
    write_file = λ path bytes. unnoted (system.write_file path bytes);
    rename = λ from to. unnoted (system.rename from to);
    send = λ request s. noted_answer request s.0 (system.send request s.1);
  }

  abbrev logged_drivers : Applier W → Applier (History × W)
  logged_drivers drivers = record {
    apply_networks = λ c nets s. noted_run c nets s.0 (drivers.apply_networks c nets s.1);
    reapply_networks = λ c nets s. noted_run c nets s.0 (drivers.reapply_networks c nets s.1);
  }

  abbrev pub logged : Host W → Host (History × W)
  logged host = record {
    system = logged_system host.system;
    drivers = logged_drivers host.drivers;
    encode = host.encode;
    parse_duration = host.parse_duration;
    error_text = host.error_text;
  }

  -- The histories keep what they hold.
  run-Happened :
      (event : Event) (c : ApplyConfig) (nets : List Text) (history : History)
      (p : W × Result (Unit {0}))
      → Happened event history
      → Happened event (noted_run c nets history p).0.0
  run-Happened event c nets history (w, ok u) h = before (ran c nets) history h
  run-Happened event c nets history (w, err e) h = h

  answer-Happened :
      (event : Event) (request : Request) (history : History) (p : W × Result Response)
      → Happened event history
      → Happened event (noted_answer request history p).0.0
  answer-Happened event request history (w, ok response) h =
      before (answered request response.status) history h
  answer-Happened event request history (w, err e) h = h

  ran-Happened :
      (c : ApplyConfig) (nets : List Text) (history : History) (p : W × Result (Unit {0}))
      (s : History × W)
      → noted_run c nets history p ≡ (s, ok tt)
      → Happened (ran c nets) s.0
  ran-Happened c nets history (w, ok u) s e = rw (← ap (λ p. p.0.0) e) (newest history)
  ran-Happened c nets history (w, err x) s e = absurd (ground arith)

  answered-Happened :
      (request : Request) (history : History) (p : W × Result Response) (s : History × W)
      (response : Response)
      → noted_answer request history p ≡ (s, ok response)
      → Happened (answered request response.status) s.0
  answered-Happened request history (w, ok x) s response e =
      let same : x ≡ response = ground arith in rw (← ap (λ p. p.0.0) e, ← same) (newest history)
  answered-Happened request history (w, err x) s response e = absurd (ground arith)

  module _ (host : Host W) where
    Happened-Stays : (event : Event) → Stays (logged host) (λ s. Happened event s.0)
    Happened-Stays event = record {
      now = λ s h. h;
      make_parent = λ path s h. h;
      write_file = λ path bytes s h. h;
      rename = λ from to s h. h;
      send = λ request s h. answer-Happened event request s.0 _ h;
      apply = λ c nets s h. run-Happened event c nets s.0 _ h;
      reapply = λ c nets s h. run-Happened event c nets s.0 _ h;
    }

    abbrev log_evidence : Evidence (logged host)
    log_evidence = record {
      Drove = λ c nets s. Happened (ran c nets) s.0;
      Answered = λ request status s. Happened (answered request status) s.0;
      drove_stays = λ c nets. Happened-Stays (ran c nets);
      answered_stays = λ request status. Happened-Stays (answered request status);
      applies = λ c nets s t. ran-Happened c nets s.0 _ t;
      reapplies = λ c nets s t. ran-Happened c nets s.0 _ t;
      sends = λ request s t response. answered-Happened request s.0 _ t response;
    }

    AllDrove-AllRan :
        (cs : List ApplyConfig) (nets : List Text) (s : History × W)
        → AllDrove (logged host) log_evidence cs nets s
        → AllRan cs nets s.0
    AllDrove-AllRan [] nets s h = tt
    AllDrove-AllRan (c ∷ cs) nets s h = (h.0, AllDrove-AllRan cs nets s h.1)

    hosts_of_hosts : (nets : List Text) → All IsHost nets → hosts_of (logged host) nets ≡ nets
    hosts_of_hosts [] h = refl
    hosts_of_hosts (x ∷ nets) h = rw (h.0, hosts_of_hosts nets h.1) refl

    -- The daemon as it is started: nothing counts as applied or as reported.
    abbrev IsFresh : State (logged host) → Type 0
    IsFresh s = (s.0.applied_known ≡ false) × (s.0.last_reported ≡ [])

    -- What has come since: operations of the daemon, in any order, and anything else that changes the
    -- world, as a query to a DNS server does.
    pub data Lives (s0 : State (logged host)) : State (logged host) → Type 0 where
      starts : Lives s0 s0
      operates : {s t : State (logged host)} → Lives s0 s → Step (logged host) s t → Lives s0 t
      elsewhere : {s : State (logged host)} → Lives s0 s → (w : W) → Lives s0 (s.0, (s.1.0, w))

    -- The controller of this configuration has answered 204 to a report of these networks.
    abbrev pub IsAcknowledged : Config → List Text → History → Type 0
    IsAcknowledged c nets history =
        Happened
          (answered
            (post_networks c.api.source_url c.api.report_token
              (record { version = 1; updated = 0; networks = nets }))
            204)
          history

    Fresh-Witnessed :
        (s : State (logged host)) → IsFresh s → Witnessed (logged host) log_evidence s.0.config s
    Fresh-Witnessed s (unknown, none_of) = (refl, (λ k. absurd (ground arith)), inl none_of)

    -- In every such state the bookkeeping is backed by the history.
    Lives-Witnessed :
        {s0 s : State (logged host)}
        → Lives s0 s
        → IsFresh s0
        → Witnessed (logged host) log_evidence s0.0.config s
    Lives-Witnessed {s0} starts fresh = Fresh-Witnessed s0 fresh
    Lives-Witnessed {s0} (operates l step) fresh =
        Step-Witnessed (logged host) log_evidence s0.0.config step (Lives-Witnessed l fresh)
    Lives-Witnessed {s0} (elsewhere {s} l w) fresh = relocated s w (Lives-Witnessed l fresh)
      where
        relocated :
            (s : State (logged host)) (w : W)
            → Witnessed (logged host) log_evidence s0.0.config s
            → Witnessed (logged host) log_evidence s0.0.config (s.0, (s.1.0, w))
        relocated s w (q, drove, told) =
            (q, (λ k. moved_all s0.0.config.apply s.0.applied (drove k)), moved told)
          where
            moved_all :
                (cs : List ApplyConfig) (nets : List Text)
                → AllDrove (logged host) log_evidence cs nets s.1
                → AllDrove (logged host) log_evidence cs nets (s.1.0, w)
            moved_all [] nets h = tt
            moved_all (c ∷ cs) nets h = (h.0, moved_all cs nets h.1)

            moved :
                Acknowledged (logged host) log_evidence s0.0.config s.0.last_reported s.1
                → Acknowledged (logged host) log_evidence s0.0.config s.0.last_reported (s.1.0, w)
            moved (inl none_of) = inl none_of
            moved (inr told) = inr told

    contains-empty : (y : Text) → contains [] y ≡ false
    unfolding contains
    contains-empty y = refl

    acknowledged :
        (c : Config) (reported learned : List Text) (y : Text) (s : History × W)
        → reported ≡ learned
        → All IsHost learned
        → contains learned y ≡ true
        → Acknowledged (logged host) log_evidence c reported s
        → IsAcknowledged c learned s.0
    acknowledged c reported learned y s same hosts named (inl none_of) =
        let empty : learned ≡ [] = sym same ∙ none_of in
        let named' = rw empty at named in absurd (ground (arith, named', contains-empty y))
    acknowledged c reported learned y s same hosts named (inr told) =
        rw (same, hosts_of_hosts learned hosts) at told

    started-IsFresh :
        (c : Config) (interval reapply : ℕ) (sets : List Text × List Text) (p : (History × W) × ℕ)
        (s : State (logged host))
        → started (logged host) c interval reapply sets p ≡ (s.1, ok s.0)
        → IsFresh s × (s.0.config ≡ c)
    started-IsFresh c interval reapply sets (w, now) s e =
        ((ground arith, ground arith), ground arith)

    new_runtime-IsFresh :
        (c : Config) (w : History × W) (s : State (logged host))
        → new_runtime (logged host) c w ≡ (s.1, ok s.0)
        → IsFresh s × (s.0.config ≡ c)
    unfolding new_runtime
    new_runtime-IsFresh c w s e = elim (Result-cases (poll_interval host.parse_duration c)) [
      | is_err x p ↦ absurd (ground arith)
      | is_ok interval p ↦ elim (Result-cases (reapply_every host.parse_duration c)) [
        | is_err x q ↦ absurd (ground arith)
        | is_ok reapply q ↦
            let (sets, v, i, k) =
              >>=-eq-ok (initial_sets (logged host) c)
                (λ sets v.
                  started (logged host) c interval reapply sets ((logged host).system.now v))
                w (rw (p, q) at e) in
            started-IsFresh c interval reapply sets ((logged host).system.now v) s k
      ]
    ]

    -- For a daemon that `newRuntime` has started and that has done any of its operations since, while
    -- anything else happened in the world: when `learn` succeeds, the
    -- applied networks are the desired ones and include every network that it was called with, and
    -- each driver of the configuration has run with exactly the applied networks, and succeeded. On an
    -- agent, if it was called with a network, the controller has answered 204 to a report of exactly
    -- the learned hosts, which include every one of these networks.
    pub learn-ok :
        (c : Config) (networks : List Text) (w : History × W) (s0 s s' : State (logged host))
        → new_runtime (logged host) c w ≡ (s0.1, ok s0.0)
        → Lives s0 s
        → learn (logged host) networks s ≡ (s', ok tt)
        → (s'.0.applied ≡ s'.0.desired)
          × ((y : Text) → names networks y ≡ true → contains s'.0.applied y ≡ true)
          × AllRan c.apply s'.0.applied s'.1.0
          × (is_agent c.role ≡ true
              → (y : Text) → names networks y ≡ true
              → (contains s'.0.learned y ≡ true) × IsAcknowledged c s'.0.learned s'.1.0)
    unfolding learn
    learn-ok c networks w s0 s s' start run e =
        let (fresh, given) = new_runtime-IsFresh c w s0 start in
        let (known, applied, named, reports) = learn-applied (logged host) networks s s' e in
        let body = noted-ok (logged host) (learn_body (logged host) networks s) e in
        let before_it : Witnessed (logged host) log_evidence c s =
          rw given at (Lives-Witnessed run fresh) in
        let held : Witnessed (logged host) log_evidence c s' =
          rw (ap (λ p. p.0) body) at
            (learn_body-Witnessed (logged host) log_evidence c networks s before_it) in
        (
          applied,
          named,
          AllDrove-AllRan c.apply s'.0.applied s'.1 (held.1 known),
          λ on_agent y n.
              let (same, told, hosts) = reports (rw before_it.0 on_agent) in
              let learned : contains s'.0.learned y ≡ true = rw (← same) (told y n) in
              (
                learned,
                acknowledged c s'.0.last_reported s'.0.learned y s'.1 same hosts learned held.2,
              ),
        )
