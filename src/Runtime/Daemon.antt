-- ===== src/Runtime/Daemon.antt =====
-- internal/pbr/runtime.go: the daemon's state and the operations that the timer, the DNS proxy and
-- the API call. The clock counts nanoseconds, and 0 is Go's zero time.
use netflix_pbrd.Base.{
  ℕ, ◌-◌, Bool, true, false, not, ◌&&◌, ◌||◌, List, [], ◌∷◌, ◌++◌, Option, Text, length, Io, ◌>>=◌,
  ◌>>◌, pure, fail, lift, when, wrap_error, catch, Result, ok, err, Error, text, numbered, codes,
  if◌then◌else◌, leb, ◌==◌,
}
use netflix_pbrd.Text.{text_eq, has_suffix}
use netflix_pbrd.Networks.{merge, validate_networks, equal, state_content, scan_lines, host_suffix}
use netflix_pbrd.Config.{
  Config, Role, controller, agent, is_agent, ApplyConfig, poll_interval, reapply_every,
  max_networks,
}
use netflix_pbrd.System.{
  System, FileRead, missing, failed, content, get_networks, post_networks, Applier, replace_file,
}
use netflix_pbrd.Status.{OperationalStatus, runtime_status_file, save_operational_status}

pub record Runtime : Type 0 where
  pub config : Config
  pub interval : ℕ
  pub reapply_interval : ℕ
  pub desired : List Text
  pub learned : List Text
  pub applied : List Text
  pub applied_known : Bool
  pub applied_at : ℕ
  pub reported_at : ℕ
  pub last_reported : List Text
  pub last_error : Text
  pub last_error_at : ℕ
  pub last_status : OperationalStatus
  pub status_known : Bool
  pub updated : ℕ

-- What the daemon runs on. `error_text` is the text of an error as `fmt` prints it.
pub record Host (W : Type 0) : Type 0 where
  pub system : System W
  pub drivers : Applier W
  pub encode : OperationalStatus → Result Text
  pub parse_duration : Text → Option ℕ
  pub error_text : Error → Text

abbrev pub learned_state_file : Text → Text
learned_state_file state_file = state_file ++ codes ".learned"

abbrev pub file_lines : FileRead → Result (List Text)
file_lines missing = ok []
file_lines (failed e) = err e
file_lines (content bytes) = ok (scan_lines [] bytes)

-- Comparison of the structs, field by field.
abbrev role_eq : Role → Role → Bool
role_eq controller controller = true
role_eq agent agent = true
role_eq _ _ = false

abbrev bool_eq : Bool → Bool → Bool
bool_eq a b = if a then b else not b

unfoldable pub status_eq : OperationalStatus → OperationalStatus → Bool
unfolding text_eq
status_eq s t =
    s.version == t.version
    && role_eq s.role t.role
    && s.pid == t.pid
    && s.updated == t.updated
    && s.desired == t.desired
    && s.learned == t.learned
    && s.applied == t.applied
    && s.reported == t.reported
    && bool_eq s.applied_known t.applied_known
    && s.last_apply == t.last_apply
    && s.last_report == t.last_report
    && text_eq s.last_error t.last_error
    && s.last_error_at == t.last_error_at

module _ {W : Type 0} (host : Host W) where
  open host use {system, drivers, encode, parse_duration, error_text}

  abbrev pub State : Type 0
  State = Runtime × W

  unfoldable pub load_state : Text → W → Result (List Text)
  load_state path w = file_lines (system.read_file path w)

  unfoldable pub save_state : Text → List Text → Io W (Unit {0})
  save_state path values = replace_file system path (state_content values)

  -- Code on the world alone, the state of the daemon, and a change of it.
  abbrev pub beside : {A : Type 0} → Runtime → W × Result A → State × Result A
  beside r (w, x) = ((r, w), x)

  abbrev pub in_world : {A : Type 0} → Io W A → State → State × Result A
  in_world m (r, w) = beside r (m w)

  abbrev pub get : State → State × Result Runtime
  get (r, w) = ((r, w), ok r)

  abbrev pub timed : (Runtime → ℕ → Runtime) → Runtime → W × ℕ → State × Result (Unit {0})
  timed f r (w, t) = ((f r t, w), ok tt)

  -- A change that reads the clock.
  abbrev pub modify_now : (Runtime → ℕ → Runtime) → State → State × Result (Unit {0})
  modify_now f (r, w) = timed f r (system.now w)

  abbrev pub modify : (Runtime → Runtime) → State → State × Result (Unit {0})
  modify f (r, w) = ((f r, w), ok tt)

  -- The status that `recordStatus` compares, its time not yet set.
  unfoldable pub status_of : Runtime → OperationalStatus
  status_of r = record {
    version = 1;
    role = r.config.role;
    pid = system.pid;
    updated = 0;
    desired = length r.desired;
    learned = if is_agent r.config.role then length r.learned else length r.desired;
    applied = length r.applied;
    reported = length r.last_reported;
    applied_known = r.applied_known;
    last_apply = r.applied_at;
    last_report = r.reported_at;
    last_error = r.last_error;
    last_error_at = r.last_error_at;
  }

  abbrev pub status_saved : Runtime → OperationalStatus → W × Result (Unit {0}) → State
  status_saved r status (w, ok _) = (record r { last_status = status; status_known = true }, w)
  status_saved r status (w, err e) = (r, w)

  abbrev pub save_stamped : Runtime → W × ℕ → State
  save_stamped r (w, t) =
      let status = record (status_of r) { updated = t } in
      status_saved r status
        (save_operational_status system encode (runtime_status_file r.config.state_file) status w)

  unfoldable pub publish_status : State → State
  publish_status (r, w) =
      if r.status_known && status_eq (record r.last_status { updated = 0 }) (status_of r)
      then (r, w)
      else save_stamped r (system.now w)

  abbrev pub note_error : Text → Runtime → W × ℕ → State
  note_error message r (w, t) = (record r { last_error = message; last_error_at = t }, w)

  unfoldable pub record_status : Text → State → State
  record_status message (r, w) =
      publish_status
        (if text_eq message (codes "") then (r, w) else note_error message r (system.now w))

  -- The deferred `recordStatus` of an operation that fails.
  abbrev pub noted : {A : Type 0} → State × Result A → State × Result A
  noted (s, ok a) = (s, ok a)
  noted (s, err e) = (record_status (error_text e) s, err e)

  abbrev pub noting : {A : Type 0} → (State → State × Result A) → State → State × Result A
  noting m s = noted (m s)

  -- The loop over `config.Apply`.
  unfoldable pub apply_all : Bool → List ApplyConfig → List Text → Io W (Unit {0})
  apply_all periodic [] desired = pure tt
  apply_all periodic (c ∷ cs) desired = do
    wrap_error (codes "apply " ++ c.driver)
        (if periodic then drivers.reapply_networks c desired else drivers.apply_networks c desired)
    apply_all periodic cs desired

  abbrev pub hosts_of : List Text → List Text
  hosts_of [] = []
  hosts_of (network ∷ networks) =
      let rest = hosts_of networks in
      if has_suffix network host_suffix then network ∷ rest else rest

  unfoldable pub report : Config → List Text → Io W (Unit {0})
  report config networks = do
    response ← system.send (
        post_networks config.api.source_url config.api.report_token
          (record { version = 1; updated = 0; networks = hosts_of networks }))
    if response.status == 204
        then pure tt
        else fail (text (codes "controller returned " ++ response.status_line))

  unfoldable pub fetch : Config → Io W (List Text)
  fetch config = do
    response ← system.send (get_networks config.api.source_url config.api.token)
    if response.status == 200
        then pure tt
        else fail (text (codes "controller returned " ++ response.status_line))
    payload ← lift response.payload
    if payload.version == 1
        then pure tt
        else fail (numbered (codes "unsupported controller response version ") payload.version)
    lift (validate_networks payload.networks false (max_networks config))

  abbrev pub since : Runtime → W × ℕ → State × Result Bool
  since r (w, t) = ((r, w), ok (leb r.reapply_interval (t - r.applied_at)))

  -- Whether the last apply is `reapplyEvery` ago.
  abbrev pub due : State → State × Result Bool
  due (r, w) = since r (system.now w)

  abbrev pub is_changed : Runtime → Bool
  is_changed r = not r.applied_known || not (equal r.desired r.applied)

  unfoldable pub apply_desired : Bool → Bool → Runtime → State → State × Result (Unit {0})
  apply_desired false false r0 = pure tt
  apply_desired changed periodic r0 = do
    in_world (apply_all periodic r0.config.apply r0.desired)
    modify_now (λ r t. record r { applied = r0.desired; applied_known = true; applied_at = t })

  unfoldable pub report_learned : Runtime → State → State × Result (Unit {0})
  report_learned r0 = when (is_agent r0.config.role && not (equal r0.learned r0.last_reported)) (do
    wrap_error (codes "report") (in_world (report r0.config r0.learned))
    modify_now (λ r t. record r { last_reported = r0.learned; reported_at = t }))

  abbrev pub succeed : State → State × Result (Unit {0})
  succeed s = (record_status (codes "") s, ok tt)

  unfoldable pub reconcile_locked : State → State × Result (Unit {0})
  reconcile_locked = do
    r ← get
    periodic ← (if is_changed r then pure false else due)
    apply_desired (is_changed r) periodic r
    report_learned r
    succeed

  unfoldable pub reconcile : State → State × Result (Unit {0})
  reconcile = noting reconcile_locked

  abbrev pub desired_at : List Text → Runtime → ℕ → Runtime
  desired_at next r t = record r { desired = next; updated = t }

  -- A changed desired set is persisted before it is taken over.
  abbrev pub store_desired : Runtime → List Text → State → State × Result (Unit {0})
  store_desired r next =
      when (not (equal r.desired next))
        (in_world (save_state r.config.state_file next) >> modify_now (desired_at next))

  -- The networks that a sync finds: nothing happens to the desired set if the fetch failed.
  unfoldable pub adopt : Result (List Text) → State → State × Result (Unit {0})
  adopt (err e) = pure tt
  adopt (ok discovered) = do
    r ← get
    next ← lift (
        validate_networks (merge (discovered ∷ r.learned ∷ r.config.seed_networks ∷ [])) false
          (max_networks r.config))
    store_desired r next

  abbrev pub outcome : Result (List Text) → Result (Unit {0})
  outcome (ok discovered) = ok tt
  outcome (err e) = err e

  unfoldable pub sync_agent : State → State × Result (Unit {0})
  sync_agent = do
    r ← get
    discovered ← catch (in_world (fetch r.config))
    adopt discovered
    reconcile_locked
    lift (outcome discovered)

  abbrev pub sync_as : Role → State → State × Result (Unit {0})
  sync_as controller = reconcile_locked
  sync_as agent = sync_agent

  unfoldable pub sync_body : State → State × Result (Unit {0})
  sync_body = do r ← get; sync_as r.config.role

  unfoldable pub sync : State → State × Result (Unit {0})
  sync = noting sync_body

  -- The two sets that `learn` computes from the addresses reported to it.
  unfoldable pub learn_sets : Runtime → List Text → Result (List Text × List Text)
  learn_sets r networks = elim (validate_networks networks true (max_networks r.config)) [
    | err e ↦ err e
    | ok learned ↦
        elim (validate_networks (merge (r.learned ∷ learned ∷ [])) true (max_networks r.config)) [
          | err e ↦ err e
          | ok next_learned ↦
              elim (validate_networks
                (merge (r.desired ∷ next_learned ∷ r.config.seed_networks ∷ [])) false
                (max_networks r.config)) [ err e ↦ err e | ok next ↦ ok (next_learned, next) ]
        ]
  ]

  -- The steps of `learn` behind the computation of the sets. Discoveries are persisted first.
  abbrev pub save_learned : Runtime → List Text → State → State × Result (Unit {0})
  save_learned r next_learned =
      when (not (equal r.learned next_learned))
        (in_world (save_state (learned_state_file r.config.state_file) next_learned))

  abbrev pub save_desired : Runtime → List Text → State → State × Result (Unit {0})
  save_desired r next =
      when (not (equal r.desired next)) (in_world (save_state r.config.state_file next))

  abbrev pub learned_at : List Text → List Text → Runtime → ℕ → Runtime
  learned_at next_learned next r t = record r {
    desired = next;
    learned = next_learned;
    updated = t;
  }

  abbrev pub set_sets : Bool → List Text → List Text → State → State × Result (Unit {0})
  set_sets true next_learned next = modify_now (learned_at next_learned next)
  set_sets false next_learned next =
      modify (λ r. record r { desired = next; learned = next_learned })

  abbrev pub store_sets : Runtime → List Text × List Text → State → State × Result (Unit {0})
  store_sets r (next_learned, next) = do
    save_learned r next_learned
    save_desired r next
    set_sets (not (equal r.desired next)) next_learned next
    reconcile_locked

  unfoldable pub learn_body : List Text → State → State × Result (Unit {0})
  learn_body networks = do r ← get; sets ← lift (learn_sets r networks); store_sets r sets

  unfoldable pub learn : List Text → State → State × Result (Unit {0})
  learn networks = noting (learn_body networks)

  unfoldable pub accept_report : List Text → State → State × Result (Unit {0})
  accept_report networks = do
    r ← get
    report ← lift (validate_networks networks true (max_networks r.config))
    next ← lift (validate_networks (merge (r.desired ∷ report ∷ [])) false (max_networks r.config))
    store_desired r next
    reconcile_locked

  abbrev pub no_status : Config → OperationalStatus
  no_status c = record {
    version = 0;
    role = c.role;
    pid = 0;
    updated = 0;
    desired = 0;
    learned = 0;
    applied = 0;
    reported = 0;
    applied_known = false;
    last_apply = 0;
    last_report = 0;
    last_error = [];
    last_error_at = 0;
  }

  -- The sets that `newRuntime` starts from: the desired ones, and the learned ones.
  unfoldable pub initial_sets : Config → W → W × Result (List Text × List Text)
  initial_sets c = do
    state ← λ w. (w, load_state c.state_file w)
    validated ← wrap_error (codes "state") (lift (validate_networks state false (max_networks c)))
    learned_state ← λ w. (w, load_state (learned_state_file c.state_file) w)
    learned ←
        wrap_error (codes "learned state")
          (lift (validate_networks learned_state true (max_networks c)))
    desired ← wrap_error (codes "state") (
        lift (
          validate_networks (merge (validated ∷ learned ∷ c.seed_networks ∷ [])) false
            (max_networks c)))
    pure (desired, learned)

  abbrev pub started : Config → ℕ → ℕ → List Text × List Text → W × ℕ → W × Result Runtime
  started c interval reapply sets (w, now) = (
    w,
    ok (record {
      config = c;
      interval = interval;
      reapply_interval = reapply;
      desired = sets.0;
      learned = sets.1;
      applied = [];
      applied_known = false;
      applied_at = 0;
      reported_at = 0;
      last_reported = [];
      last_error = [];
      last_error_at = 0;
      last_status = no_status c;
      status_known = false;
      updated = now;
    }),
  )

  unfoldable pub new_runtime : Config → W → W × Result Runtime
  new_runtime c = do
    interval ← lift (poll_interval parse_duration c)
    reapply ← lift (reapply_every parse_duration c)
    sets ← initial_sets c
    λ w. started c interval reapply sets (system.now w)
