-- ===== src/Runtime/Witnessed.antt =====
-- The bookkeeping of the daemon is backed by evidence: what counts as applied has been driven, and
-- what counts as reported has been answered. Every operation of internal/pbr/runtime.go keeps it.
use netflix_pbrd.Base.{
  ℕ, ◌≡◌, refl, ◌⊎◌, inl, inr, Bool, true, false, not, ◌&&◌, List, [], ◌∷◌, Text, Io, ◌>>◌, ◌>>=◌,
  Keeps, Keeps->>=, Keeps->>, then_io, Result, ok, err, codes, wrap_error, lift, pure, when, catch,
  Bool-cases, if◌then◌else◌,
}
use netflix_pbrd.Text.{text_eq}
use netflix_pbrd.Networks.{equal, merge, validate_networks}
use netflix_pbrd.Config.{Config, Role, controller, agent, ApplyConfig, max_networks}
use netflix_pbrd.System.{Request}
use netflix_pbrd.Status.{OperationalStatus, save_operational_status, runtime_status_file}
use netflix_pbrd.Runtime.Inversion.{set_applied, set_reported, reporting, applying}
use netflix_pbrd.Runtime.Evidence.{
  Stays, Evidence, AllDrove, report_of, save_state-Keeps, save_operational_status-Keeps,
  report-Keeps, fetch-Keeps, apply_all-Keeps, apply_all-AllDrove, report-Answered,
}
use netflix_pbrd.Runtime.Reports.{Step, learns, syncs, accepts, reconciles, notes}
use netflix_pbrd.Runtime.Daemon.{
  Runtime, Host, State, in_world, beside, modify_now, status_eq, status_of, status_saved,
  save_stamped, publish_status, note_error, record_status, save_state, learned_state_file,
  save_learned, save_desired, set_sets, store_sets, store_desired, learned_at, desired_at, fetch,
  adopt, outcome, sync_agent, sync_as, sync_body, learn_sets, learn_body, accept_report, due,
  is_changed, apply_all, apply_desired, report, report_learned, succeed, reconcile_locked,
}

module _ {W : Type 0} (host : Host W) (evidence : Evidence host) (c : Config) where
  open evidence use {Drove, Answered}

  -- A report of these networks has been answered with 204, unless there is none.
  abbrev pub Acknowledged : List Text → W → Type 0
  Acknowledged nets w = (nets ≡ []) ⊎ Answered (report_of host c nets) 204 w

  abbrev pub Held : Runtime → W → Type 0
  Held r w =
      (r.config ≡ c)
      × (r.applied_known ≡ true → AllDrove host evidence c.apply r.applied w)
      × Acknowledged r.last_reported w

  abbrev pub Witnessed : State host → Type 0
  Witnessed s = Held s.0 s.1

  grow_all :
      (cs : List ApplyConfig) (nets : List Text) (w w' : W)
      → ((d : ApplyConfig) → Drove d nets w → Drove d nets w')
      → AllDrove host evidence cs nets w
      → AllDrove host evidence cs nets w'
  grow_all [] nets w w' g h = tt
  grow_all (d ∷ cs) nets w w' g h = (g d h.0, grow_all cs nets w w' g h.1)

  grow :
      (r : Runtime) (w w' : W)
      → ((d : ApplyConfig) (nets : List Text) → Drove d nets w → Drove d nets w')
      → ((request : Request) → Answered request 204 w → Answered request 204 w')
      → Held r w
      → Held r w'
  grow r w w' g f (q, drove, acked) =
      (q, λ k. grow_all c.apply r.applied w w' (λ d. g d r.applied) (drove k), grow_acked acked)
    where
      grow_acked : Acknowledged r.last_reported w → Acknowledged r.last_reported w'
      grow_acked (inl none_of) = inl none_of
      grow_acked (inr answered) = inr (f _ answered)

  Held-Stays : (r : Runtime) → Stays host (Held r)
  Held-Stays r = record {
    now = λ w.
        grow r w _ (λ d nets. (evidence.drove_stays d nets).now w)
          (λ q. (evidence.answered_stays q 204).now w);
    make_parent = λ path w.
        grow r w _ (λ d nets. (evidence.drove_stays d nets).make_parent path w)
          (λ q. (evidence.answered_stays q 204).make_parent path w);
    write_file = λ path bytes w.
        grow r w _ (λ d nets. (evidence.drove_stays d nets).write_file path bytes w)
          (λ q. (evidence.answered_stays q 204).write_file path bytes w);
    rename = λ from to w.
        grow r w _ (λ d nets. (evidence.drove_stays d nets).rename from to w)
          (λ q. (evidence.answered_stays q 204).rename from to w);
    send = λ request w.
        grow r w _ (λ d nets. (evidence.drove_stays d nets).send request w)
          (λ q. (evidence.answered_stays q 204).send request w);
    apply = λ e set w.
        grow r w _ (λ d nets. (evidence.drove_stays d nets).apply e set w)
          (λ q. (evidence.answered_stays q 204).apply e set w);
    reapply = λ e set w.
        grow r w _ (λ d nets. (evidence.drove_stays d nets).reapply e set w)
          (λ q. (evidence.answered_stays q 204).reapply e set w);
  }

  in_world-Witnessed :
      {A : Type 0} (m : Io W A)
      → ((r : Runtime) → Keeps (Held r) m)
      → Keeps Witnessed (in_world host m)
  in_world-Witnessed m h (r, w) q = h r w q

  saved-Witnessed :
      (path : Text) (nets : List Text) → Keeps Witnessed (in_world host (save_state host path nets))
  saved-Witnessed path nets =
      in_world-Witnessed (save_state host path nets)
        (λ r. save_state-Keeps host (Held r) (Held-Stays r) path nets)

  modify_now-Witnessed :
      (f : Runtime → ℕ → Runtime)
      → ((r : Runtime) (t : ℕ) (w : W) → Held r w → Held (f r t) w)
      → Keeps Witnessed (modify_now host f)
  modify_now-Witnessed f h (r, w) q = h r _ _ ((Held-Stays r).now w q)

  when-Witnessed :
      (b : Bool) (m : State host → State host × Result (Unit {0}))
      → Keeps Witnessed m
      → Keeps Witnessed (when b m)
  when-Witnessed true m h s q = h s q
  when-Witnessed false m h s q = q

  -- The publication of the status.
  save_stamped-Witnessed :
      (r : Runtime) (p : W × ℕ) → Held r p.0 → Witnessed (save_stamped host r p)
  save_stamped-Witnessed r (w, t) q =
      let status = record (status_of host r) { updated = t } in
      let path = runtime_status_file r.config.state_file in
      saved status (save_operational_status host.system host.encode path status w)
        (save_operational_status-Keeps host (Held r) (Held-Stays r) host.encode path status w q)
    where
      saved :
          (status : OperationalStatus) (x : W × Result (Unit {0}))
          → Held r x.0
          → Witnessed (status_saved host r status x)
      saved status (v, ok u) h = h
      saved status (v, err e) h = h

  publish_status-Witnessed : (s : State host) → Witnessed s → Witnessed (publish_status host s)
  unfolding publish_status
  publish_status-Witnessed (r, w) q =
      elim (Bool-cases
        (r.status_known && status_eq (record r.last_status { updated = 0 }) (status_of host r))) [
          | inl same ↦ rw same q
          | inr new ↦ rw new (save_stamped-Witnessed r (host.system.now w) ((Held-Stays r).now w q))
        ]

  pub record_status-Witnessed :
      (message : Text) (s : State host) → Witnessed s → Witnessed (record_status host message s)
  unfolding record_status
  record_status-Witnessed message (r, w) q = elim (Bool-cases (text_eq message (codes ""))) [
    | inl none_of ↦ rw none_of (publish_status-Witnessed (r, w) q)
    | inr some_of ↦ rw some_of (
        publish_status-Witnessed (note_error host message r (host.system.now w))
          ((Held-Stays r).now w q))
  ]

  -- An application that succeeds leaves its own evidence.
  apply_now-Witnessed :
      (periodic : Bool) (r0 : Runtime)
      → r0.config ≡ c
      → Keeps Witnessed (
          in_world host (apply_all host periodic r0.config.apply r0.desired)
          >> modify_now host (set_applied host r0))
  apply_now-Witnessed periodic r0 same (r, w) q =
      driven (apply_all host periodic r0.config.apply r0.desired w) refl
        (apply_all-Keeps host (Held r) (Held-Stays r) periodic r0.config.apply r0.desired w q)
    where
      driven :
          (x : W × Result (Unit {0}))
          → apply_all host periodic r0.config.apply r0.desired w ≡ x
          → Held r x.0
          → Witnessed (then_io (λ _. modify_now host (set_applied host r0)) (beside host r x)).0
      driven (v, ok u) e h =
          let drove = apply_all-AllDrove host evidence periodic r0.config.apply r0.desired w v e in
          (Held-Stays (set_applied host r0 r (host.system.now v).1)).now v
            (h.0, (λ k. rw same at drove), h.2)
      driven (v, err x) e h = h

  apply_desired-Witnessed :
      (changed periodic : Bool) (r0 : Runtime)
      → r0.config ≡ c
      → Keeps Witnessed (apply_desired host changed periodic r0)
  unfolding apply_desired
  apply_desired-Witnessed false false r0 same s q = q
  apply_desired-Witnessed false true r0 same s q = apply_now-Witnessed true r0 same s q
  apply_desired-Witnessed true periodic r0 same s q = apply_now-Witnessed periodic r0 same s q

  -- A report that succeeds leaves its own evidence.
  report_now-Witnessed :
      (r0 : Runtime)
      → r0.config ≡ c
      → Keeps Witnessed (
          wrap_error (codes "report") (in_world host (report host r0.config r0.learned))
          >> modify_now host (set_reported host r0))
  report_now-Witnessed r0 same (r, w) q =
      answered (report host r0.config r0.learned w) refl
        (report-Keeps host (Held r) (Held-Stays r) r0.config r0.learned w q)
    where
      answered :
          (x : W × Result (Unit {0}))
          → report host r0.config r0.learned w ≡ x
          → Held r x.0
          → Witnessed
              (then_io
                (λ _. modify_now host (set_reported host r0))
                (wrap_error (codes "report") (λ (s : State host). beside host r x) (r, w))).0
      answered (v, ok u) e h =
          let told = report-Answered host evidence r0.config r0.learned w v e in
          (Held-Stays (set_reported host r0 r (host.system.now v).1)).now v
            (h.0, h.1, inr (rw same at told))
      answered (v, err x) e h = h

  report_learned-Witnessed :
      (r0 : Runtime) → r0.config ≡ c → Keeps Witnessed (report_learned host r0)
  unfolding report_learned
  report_learned-Witnessed r0 same = when-Witnessed _ _ (report_now-Witnessed r0 same)

  periodic-Witnessed : (b : Bool) → Keeps Witnessed (if b then pure false else due host)
  periodic-Witnessed true s q = q
  periodic-Witnessed false (r, w) q = (Held-Stays r).now w q

  reconcile_locked-Witnessed : Keeps Witnessed (reconcile_locked host)
  unfolding reconcile_locked
  reconcile_locked-Witnessed (r, w) q =
      Keeps->>= Witnessed (if is_changed host r then pure false else due host) (applying host r)
        (periodic-Witnessed (is_changed host r))
        (λ b.
          Keeps->>= Witnessed (apply_desired host (is_changed host r) b r) (λ _. reporting host r)
            (apply_desired-Witnessed (is_changed host r) b r q.0)
            (λ _.
              Keeps->>= Witnessed (report_learned host r) (λ _. succeed host)
                (report_learned-Witnessed r q.0) (λ _ s. record_status-Witnessed (codes "") s)))
        (r, w) q

  store_desired-Witnessed :
      (r : Runtime) (nets : List Text) → Keeps Witnessed (store_desired host r nets)
  store_desired-Witnessed r nets = when-Witnessed _ _ (
      Keeps->> Witnessed (in_world host (save_state host r.config.state_file nets))
        (modify_now host (desired_at host nets)) (saved-Witnessed _ nets)
        (modify_now-Witnessed (desired_at host nets) (λ r t w h. h)))

  set_sets-Witnessed :
      (b : Bool) (learned nets : List Text) → Keeps Witnessed (set_sets host b learned nets)
  set_sets-Witnessed true learned nets s q =
      modify_now-Witnessed (learned_at host learned nets) (λ r t w h. h) s q
  set_sets-Witnessed false learned nets s q = q

  store_sets-Witnessed :
      (r : Runtime) (learned nets : List Text) → Keeps Witnessed (store_sets host r (learned, nets))
  store_sets-Witnessed r learned nets =
      let changed = not (equal r.desired nets) in
      let tail = set_sets host changed learned nets >> reconcile_locked host in
      Keeps->> Witnessed (save_learned host r learned) (save_desired host r nets >> tail)
        (when-Witnessed _ _ (saved-Witnessed (learned_state_file r.config.state_file) learned))
        (Keeps->> Witnessed (save_desired host r nets) tail
          (when-Witnessed changed _ (saved-Witnessed r.config.state_file nets))
          (Keeps->> Witnessed (set_sets host changed learned nets) (reconcile_locked host)
            (set_sets-Witnessed changed learned nets) reconcile_locked-Witnessed))

  pub learn_body-Witnessed : (networks : List Text) → Keeps Witnessed (learn_body host networks)
  unfolding learn_body
  learn_body-Witnessed networks (r, w) q =
      Keeps->>= Witnessed (lift (learn_sets host r networks)) (store_sets host r) (λ s h. h)
        (λ sets. store_sets-Witnessed r sets.0 sets.1) (r, w) q

  adopt-Witnessed : (found : Result (List Text)) → Keeps Witnessed (adopt host found)
  unfolding adopt
  adopt-Witnessed (err e) s q = q
  adopt-Witnessed (ok discovered) (r, w) q =
      Keeps->>= Witnessed
        (lift (
          validate_networks (merge (discovered ∷ r.learned ∷ r.config.seed_networks ∷ [])) false
            (max_networks r.config)))
        (store_desired host r) (λ s h. h) (store_desired-Witnessed r) (r, w) q

  sync_agent-Witnessed : Keeps Witnessed (sync_agent host)
  unfolding sync_agent
  sync_agent-Witnessed (r, w) q =
      Keeps->>= Witnessed (catch (in_world host (fetch host r.config))) after_fetch
        (in_world-Witnessed (fetch host r.config)
          (λ r'. fetch-Keeps host (Held r') (Held-Stays r') r.config))
        (λ found.
          Keeps->> Witnessed (adopt host found) (reconcile_locked host >> lift (outcome host found))
            (adopt-Witnessed found)
            (Keeps->> Witnessed (reconcile_locked host) (lift (outcome host found))
              reconcile_locked-Witnessed (λ s h. h)))
        (r, w) q
    where
      after_fetch : Result (List Text) → State host → State host × Result (Unit {0})
      after_fetch found = adopt host found >> (reconcile_locked host >> lift (outcome host found))

  sync_body-Witnessed : Keeps Witnessed (sync_body host)
  unfolding sync_body
  sync_body-Witnessed (r, w) q = as_role r.config.role
    where
      as_role : (role : Role) → Witnessed (sync_as host role (r, w)).0
      as_role controller = reconcile_locked-Witnessed (r, w) q
      as_role agent = sync_agent-Witnessed (r, w) q

  accept_report-Witnessed : (networks : List Text) → Keeps Witnessed (accept_report host networks)
  unfolding accept_report
  accept_report-Witnessed networks (r, w) q =
      let m = max_networks r.config in
      let storing = λ (nets : List Text). store_desired host r nets >> reconcile_locked host in
      let merging = λ (found : List Text).
        lift (validate_networks (merge (r.desired ∷ found ∷ [])) false m) >>= storing in
      Keeps->>= Witnessed (lift (validate_networks networks true m)) merging (λ s h. h)
        (λ found.
          Keeps->>= Witnessed (lift (validate_networks (merge (r.desired ∷ found ∷ [])) false m))
            storing (λ s h. h)
            (λ nets.
              Keeps->> Witnessed (store_desired host r nets) (reconcile_locked host)
                (store_desired-Witnessed r nets) reconcile_locked-Witnessed))
        (r, w) q

  pub Step-Witnessed : {s t : State host} → Step host s t → Witnessed s → Witnessed t
  Step-Witnessed {s} (learns networks) h = learn_body-Witnessed networks s h
  Step-Witnessed {s} syncs h = sync_body-Witnessed s h
  Step-Witnessed {s} (accepts networks) h = accept_report-Witnessed networks s h
  Step-Witnessed {s} reconciles h = reconcile_locked-Witnessed s h
  Step-Witnessed {s} (notes message) h = record_status-Witnessed message s h
