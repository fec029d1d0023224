-- ===== src/Runtime/Inversion.antt =====
-- What `reconcileLocked` and the bookkeeping around it leave alone, and what a successful run has
-- done.
use netflix_pbrd.Base.{
  ℕ, ◌≡◌, refl, sym, ap, ◌∙◌, Bool, true, false, not, ◌&&◌, List, Text, Io, >>=-eq-ok, ◌>>◌, Result,
  ok, err, arith, and-eq-true, Bool-cases, inl, inr, codes, wrap_error, if◌then◌else◌, when, pure,
}
use netflix_pbrd.Networks.{equal}
use netflix_pbrd.Networks.Files.{equal→eq}
use netflix_pbrd.Text.{text_eq}
use netflix_pbrd.Config.{Config, is_agent}
use netflix_pbrd.Status.{OperationalStatus}
use netflix_pbrd.Runtime.Daemon.{
  Runtime, Host, State, status_eq, status_of, status_saved, save_stamped, publish_status,
  note_error, record_status, beside, in_world, timed, modify_now, since, due, is_changed, apply_all,
  apply_desired, report, report_learned, succeed, reconcile_locked,
}

-- The part of the state that the status does not touch.
pub record Core : Type 0 where
  pub config : Config
  pub desired : List Text
  pub learned : List Text
  pub applied : List Text
  pub applied_known : Bool
  pub last_reported : List Text

abbrev pub core : Runtime → Core
core r = record {
  config = r.config;
  desired = r.desired;
  learned = r.learned;
  applied = r.applied;
  applied_known = r.applied_known;
  last_reported = r.last_reported;
}

module _ {W : Type 0} (host : Host W) where
  status_saved-core :
      (r : Runtime) (s : OperationalStatus) (p : W × Result (Unit {0}))
      → core (status_saved host r s p).0 ≡ core r
  status_saved-core r s (w, ok u) = refl
  status_saved-core r s (w, err e) = refl

  save_stamped-core : (r : Runtime) (p : W × ℕ) → core (save_stamped host r p).0 ≡ core r
  save_stamped-core r (w, t) = status_saved-core r (record (status_of host r) { updated = t }) _

  publish_status-core : (s : State host) → core (publish_status host s).0 ≡ core s.0
  unfolding publish_status
  publish_status-core (r, w) =
      elim (Bool-cases
        (r.status_known && status_eq (record r.last_status { updated = 0 }) (status_of host r))) [
          | inl same ↦ rw same refl
          | inr new ↦ rw new (save_stamped-core r _)
        ]

  note_error-core :
      (message : Text) (r : Runtime) (p : W × ℕ) → core (note_error host message r p).0 ≡ core r
  note_error-core message r (w, t) = refl

  pub record_status-core :
      (message : Text) (s : State host) → core (record_status host message s).0 ≡ core s.0
  unfolding record_status
  record_status-core message (r, w) = elim (Bool-cases (text_eq message (codes ""))) [
    | inl none ↦ rw none (publish_status-core (r, w))
    | inr some ↦ rw some (publish_status-core _ ∙ note_error-core message r (host.system.now w))
  ]

  beside-runtime : {A : Type 0} (r : Runtime) (p : W × Result A) → (beside host r p).0.0 ≡ r
  beside-runtime r (w, x) = refl

  pub in_world-runtime : {A : Type 0} (m : Io W A) (s : State host) → (in_world host m s).0.0 ≡ s.0
  in_world-runtime m (r, w) = beside-runtime r (m w)

  timed-runtime :
      (f : Runtime → ℕ → Runtime) (r : Runtime) (p : W × ℕ) → (timed host f r p).0.0 ≡ f r p.1
  timed-runtime f r (w, t) = refl

  pub modify_now-runtime :
      (f : Runtime → ℕ → Runtime) (s : State host) → (t : ℕ) × ((modify_now host f s).0.0 ≡ f s.0 t)
  modify_now-runtime f (r, w) = ((host.system.now w).1, timed-runtime f r (host.system.now w))

  since-runtime : (r : Runtime) (p : W × ℕ) → (since host r p).0.0 ≡ r
  since-runtime r (w, t) = refl

  pub due-runtime : (s : State host) → (due host s).0.0 ≡ s.0
  due-runtime (r, w) = since-runtime r (host.system.now w)

  wrap_error-fst :
      {S A : Type 0} (prefix : Text) (m : S → S × Result A) (s : S)
      → (wrap_error prefix m s).0 ≡ (m s).0
  wrap_error-fst {S} {A} prefix m s = split (m s)
    where
      split : (p : S × Result A) → (wrap_error prefix (λ (_ : S). p) s).0 ≡ p.0
      split (v, ok a) = refl
      split (v, err e) = refl

  pub in_world-ok :
      {A : Type 0} (m : Io W A) (s v : State host) {x : Result A}
      → in_world host m s ≡ (v, x)
      → v.0 ≡ s.0
  in_world-ok m s v e = ap (λ p. p.0.0) (sym e) ∙ in_world-runtime m s

  pub modify_now-ok :
      (f : Runtime → ℕ → Runtime) (s v : State host) {x : Result (Unit {0})}
      → modify_now host f s ≡ (v, x)
      → (t : ℕ) × (v.0 ≡ f s.0 t)
  modify_now-ok f s v e =
      let (t, after) = modify_now-runtime f s in (t, ap (λ p. p.0.0) (sym e) ∙ after)

  -- The state after a successful reconciliation, as far as the core goes.
  abbrev put_applied : List Text → Core → Core
  put_applied applied c = record c { applied = applied; applied_known = true }

  abbrev pub applied_core : Core → Core
  applied_core c = record c { applied = c.desired; applied_known = true }

  abbrev pub reported_core : Core → Core
  reported_core c = record c {
    last_reported = if is_agent c.config.role then c.learned else c.last_reported;
  }

  abbrev pub set_applied : Runtime → Runtime → ℕ → Runtime
  set_applied r0 r t = record r { applied = r0.desired; applied_known = true; applied_at = t }

  apply_now-core :
      (periodic : Bool) (r0 : Runtime) (s s' : State host)
      → core s.0 ≡ core r0
      → (in_world host (apply_all host periodic r0.config.apply r0.desired)
            >> modify_now host (set_applied r0))
          s
        ≡ (s', ok tt)
      → core s'.0 ≡ applied_core (core r0)
  apply_now-core periodic r0 s s' same e =
      let act = in_world host (apply_all host periodic r0.config.apply r0.desired) in
      let (_, v, m, k) = >>=-eq-ok act (λ _. modify_now host (set_applied r0)) s e in
      let (t, after) = modify_now-ok (set_applied r0) v s' k in
      ap core after
      ∙ ap (λ r. put_applied r0.desired (core r))
          (in_world-ok (apply_all host periodic r0.config.apply r0.desired) s v m)
      ∙ ap (put_applied r0.desired) same

  -- Nothing was to be applied: what is desired is applied already.
  unchanged_core : (r : Runtime) → is_changed host r ≡ false → core r ≡ applied_core (core r)
  unchanged_core r h =
      let known : r.applied_known ≡ true = ground arith in
      let same : r.desired ≡ r.applied = equal→eq r.desired r.applied (ground arith) in
      λ i. record (core r) { applied = same-sym same i; applied_known = known i }
    where
      same-sym : r.desired ≡ r.applied → r.applied ≡ r.desired
      same-sym e = sym e

  apply_desired-core :
      (changed periodic : Bool) (r0 : Runtime) (s s' : State host)
      → core s.0 ≡ core r0
      → is_changed host r0 ≡ changed
      → apply_desired host changed periodic r0 s ≡ (s', ok tt)
      → core s'.0 ≡ applied_core (core r0)
  unfolding apply_desired
  apply_desired-core false false r0 s s' same h e =
      ap (λ p. core p.0.0) (sym e) ∙ same ∙ unchanged_core r0 h
  apply_desired-core false true r0 s s' same h e = apply_now-core true r0 s s' same e
  apply_desired-core true periodic r0 s s' same h e = apply_now-core periodic r0 s s' same e

  abbrev put_reported : List Text → Core → Core
  put_reported reported c = record c { last_reported = reported }

  abbrev pub set_reported : Runtime → Runtime → ℕ → Runtime
  set_reported r0 r t = record r { last_reported = r0.learned; reported_at = t }

  report_now-core :
      (r0 : Runtime) (s s' : State host)
      → (wrap_error (codes "report") (in_world host (report host r0.config r0.learned))
            >> modify_now host (set_reported r0))
          s
        ≡ (s', ok tt)
      → core s'.0 ≡ put_reported r0.learned (core s.0)
  report_now-core r0 s s' e =
      let sending = in_world host (report host r0.config r0.learned) in
      let act = wrap_error (codes "report") sending in
      let (_, v, m, k) = >>=-eq-ok act (λ _. modify_now host (set_reported r0)) s e in
      let (t, after) = modify_now-ok (set_reported r0) v s' k in
      let fetched = in_world-runtime (report host r0.config r0.learned) s in
      ap core after
      ∙ ap (λ r. put_reported r0.learned (core r))
          (ap (λ p. p.0.0) (sym m)
            ∙ ap (λ (q : State host). q.0) (wrap_error-fst (codes "report") sending s)
            ∙ fetched)

  -- Nothing was to be reported: what is learned is reported already, or there is no controller.
  unreported :
      (r : Runtime)
      → (is_agent r.config.role && not (equal r.learned r.last_reported)) ≡ false
      → r.last_reported ≡ (if is_agent r.config.role then r.learned else r.last_reported)
  unreported r h = elim (Bool-cases (is_agent r.config.role)) [
    | inl agent ↦ rw agent (sym (equal→eq r.learned r.last_reported (ground arith)))
    | inr controller ↦ rw controller refl
  ]

  report-when-core :
      (b : Bool) (r0 : Runtime) (s s' : State host)
      → (is_agent r0.config.role && not (equal r0.learned r0.last_reported)) ≡ b
      → core s.0 ≡ applied_core (core r0)
      → when b
          (wrap_error (codes "report") (in_world host (report host r0.config r0.learned))
            >> modify_now host (set_reported r0))
          s
        ≡ (s', ok tt)
      → core s'.0 ≡ reported_core (applied_core (core r0))
  report-when-core true r0 s s' test same e =
      report_now-core r0 s s' e
      ∙ ap (put_reported r0.learned) same
      ∙ ap (λ l. put_reported l (applied_core (core r0))) (is_sent _ (and-eq-true _ _ test).0)
    where
      is_sent : (b : Bool) → b ≡ true → r0.learned ≡ (if b then r0.learned else r0.last_reported)
      is_sent b h = rw h refl
  report-when-core false r0 s s' test same e =
      ap (λ p. core p.0.0) (sym e)
      ∙ same
      ∙ ap (λ l. put_reported l (applied_core (core r0))) (unreported r0 test)

  report_learned-core :
      (r0 : Runtime) (s s' : State host)
      → core s.0 ≡ applied_core (core r0)
      → report_learned host r0 s ≡ (s', ok tt)
      → core s'.0 ≡ reported_core (applied_core (core r0))
  unfolding report_learned
  report_learned-core r0 s s' same e = report-when-core _ r0 s s' refl same e

  periodic-ok :
      (changed : Bool) (s v : State host) {p : Bool}
      → (if changed then pure false else due host) s ≡ (v, ok p)
      → v.0 ≡ s.0
  periodic-ok true s v e = ap (λ p. p.0.0) (sym e)
  periodic-ok false s v e = ap (λ p. p.0.0) (sym e) ∙ due-runtime s

  -- The two last steps of a reconciliation, and the three last.
  abbrev pub reporting : Runtime → State host → State host × Result (Unit {0})
  reporting r = report_learned host r >> succeed host

  abbrev pub applying : Runtime → Bool → State host → State host × Result (Unit {0})
  applying r p = apply_desired host (is_changed host r) p r >> reporting r

  -- A reconciliation that succeeds leaves the desired networks applied and, on an agent, the
  -- learned ones reported; it changes nothing else of the core.
  pub reconcile_locked-core :
      (s s' : State host)
      → reconcile_locked host s ≡ (s', ok tt)
      → core s'.0 ≡ reported_core (applied_core (core s.0))
  unfolding reconcile_locked
  reconcile_locked-core (r, w) s' e =
      let (p, v, m, k) =
        >>=-eq-ok (if is_changed host r then pure false else due host) (applying r) (r, w) e in
      let (_, u, n, l) =
        >>=-eq-ok (apply_desired host (is_changed host r) p r) (λ _. reporting r) v k in
      let (_, t, o, q) = >>=-eq-ok (report_learned host r) (λ _. succeed host) u l in
      let same : core v.0 ≡ core r = ap core (periodic-ok (is_changed host r) (r, w) v m) in
      let applied = apply_desired-core (is_changed host r) p r v u same refl n in
      ap (λ p. core p.0.0) (sym q)
      ∙ record_status-core (codes "") t
      ∙ report_learned-core r u t applied o
