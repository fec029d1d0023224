-- ===== src/Runtime/Invariant.antt =====
-- What holds of the daemon's sets in every state: they are within the limit, in canonical form, and
-- the desired networks include the learned hosts and the seeds. Every operation keeps it, also when
-- it fails.
use netflix_pbrd.Base.{
  ℕ, ◌≤◌, ◌≡◌, refl, ap, ◌∙◌, Bool, true, false, List, Text, length, All, Io, Keeps, Keeps->>=,
  ◌>>◌, Result, ok, err, codes, wrap_error, if◌then◌else◌, when, pure,
}
use netflix_pbrd.Networks.Merging.{names, IsNetworkSet}
use netflix_pbrd.Networks.Validation.{IsHost}
use netflix_pbrd.Text.{contains}
use netflix_pbrd.Config.{Config, max_networks}
use netflix_pbrd.Runtime.Inversion.{
  Core, core, record_status-core, in_world-runtime, modify_now-runtime, due-runtime, set_applied,
  set_reported, reporting, applying,
}
use netflix_pbrd.Runtime.Daemon.{
  Runtime, Host, State, record_status, noted, in_world, modify_now, due, is_changed, apply_all,
  apply_desired, report, report_learned, succeed, reconcile_locked,
}

-- The sets that a core holds.
pub record AreSound (config : Config) (desired learned : List Text) : Type 0 where
  pub desired_set : IsNetworkSet desired
  pub desired_bound : length desired ≤ max_networks config
  pub learned_set : IsNetworkSet learned
  pub learned_hosts : All IsHost learned
  pub learned_bound : length learned ≤ max_networks config
  pub learned_desired : (y : Text) → contains learned y ≡ true → contains desired y ≡ true
  pub seeds_desired : (y : Text) → names config.seed_networks y ≡ true → contains desired y ≡ true

abbrev pub IsSound : Runtime → Type 0
IsSound r = AreSound r.config r.desired r.learned

-- The predicates on the parts of the state that a reconciliation does not touch.
pub record Plan : Type 0 where
  pub config : Config
  pub desired : List Text
  pub learned : List Text

abbrev pub plan : Runtime → Plan
plan r = record { config = r.config; desired = r.desired; learned = r.learned }

module _ {W : Type 0} (host : Host W) where
  abbrev pub HasPlan : Plan → State host → Type 0
  HasPlan p s = plan s.0 ≡ p

  plan_of_core : (r q : Runtime) → core r ≡ core q → plan r ≡ plan q
  plan_of_core r q e =
      ap (λ (c : Core). record { config = c.config; desired = c.desired; learned = c.learned }) e

  pub record_status-plan :
      (message : Text) (s : State host) → plan (record_status host message s).0 ≡ plan s.0
  record_status-plan message s =
      plan_of_core (record_status host message s).0 s.0 (record_status-core host message s)

  pub noted-plan : {A : Type 0} (r : State host × Result A) → plan (noted host r).0.0 ≡ plan r.0.0
  noted-plan (v, ok a) = refl
  noted-plan (v, err e) =
      plan_of_core (record_status host (host.error_text e) v).0 v.0
        (record_status-core host (host.error_text e) v)

  pub in_world-HasPlan : {A : Type 0} (p : Plan) (m : Io W A) → Keeps (HasPlan p) (in_world host m)
  in_world-HasPlan p m s q = ap plan (in_world-runtime host m s) ∙ q

  modify_now-HasPlan :
      (p : Plan) (f : Runtime → ℕ → Runtime)
      → ((r : Runtime) (t : ℕ) → plan (f r t) ≡ plan r)
      → Keeps (HasPlan p) (modify_now host f)
  modify_now-HasPlan p f h s q = let (t, e) = modify_now-runtime host f s in ap plan e ∙ h s.0 t ∙ q

  wrap_error-HasPlan :
      {A : Type 0} (p : Plan) (prefix : Text) (m : State host → State host × Result A)
      → Keeps (HasPlan p) m
      → Keeps (HasPlan p) (wrap_error prefix m)
  wrap_error-HasPlan {A} p prefix m h s q = split (m s) (h s q)
    where
      split :
          (r : State host × Result A)
          → HasPlan p r.0
          → HasPlan p (wrap_error prefix (λ (_ : State host). r) s).0
      split (v, ok a) k = k
      split (v, err e) k = k

  when-HasPlan :
      (p : Plan) (b : Bool) (m : State host → State host × Result (Unit {0}))
      → Keeps (HasPlan p) m
      → Keeps (HasPlan p) (when b m)
  when-HasPlan p true m h s q = h s q
  when-HasPlan p false m h s q = q

  periodic-HasPlan : (p : Plan) (b : Bool) → Keeps (HasPlan p) (if b then pure false else due host)
  periodic-HasPlan p true s q = q
  periodic-HasPlan p false s q = ap plan (due-runtime host s) ∙ q

  succeed-HasPlan : (p : Plan) → Keeps (HasPlan p) (succeed host)
  succeed-HasPlan p s q =
      plan_of_core (record_status host (codes "") s).0 s.0 (record_status-core host (codes "") s)
      ∙ q

  apply_now-HasPlan :
      (p : Plan) (periodic : Bool) (r0 : Runtime)
      → Keeps (HasPlan p) (
          in_world host (apply_all host periodic r0.config.apply r0.desired)
          >> modify_now host (set_applied host r0))
  apply_now-HasPlan p periodic r0 =
      Keeps->>= (HasPlan p) (in_world host (apply_all host periodic r0.config.apply r0.desired))
        (λ _. modify_now host (set_applied host r0))
        (in_world-HasPlan p (apply_all host periodic r0.config.apply r0.desired))
        (λ _. modify_now-HasPlan p (set_applied host r0) (λ r t. refl))

  apply_desired-HasPlan :
      (p : Plan) (changed periodic : Bool) (r0 : Runtime)
      → Keeps (HasPlan p) (apply_desired host changed periodic r0)
  unfolding apply_desired
  apply_desired-HasPlan p false false r0 s q = q
  apply_desired-HasPlan p false true r0 s q = apply_now-HasPlan p true r0 s q
  apply_desired-HasPlan p true periodic r0 s q = apply_now-HasPlan p periodic r0 s q

  report_learned-HasPlan : (p : Plan) (r0 : Runtime) → Keeps (HasPlan p) (report_learned host r0)
  unfolding report_learned
  report_learned-HasPlan p r0 = when-HasPlan p _ _ (
      Keeps->>= (HasPlan p)
        (wrap_error (codes "report") (in_world host (report host r0.config r0.learned)))
        (λ _. modify_now host (set_reported host r0))
        (wrap_error-HasPlan p (codes "report") _
          (in_world-HasPlan p (report host r0.config r0.learned)))
        (λ _. modify_now-HasPlan p (set_reported host r0) (λ r t. refl)))

  -- A reconciliation leaves the configuration, the desired and the learned networks as they are,
  -- whether it succeeds or not.
  pub reconcile_locked-HasPlan : (p : Plan) → Keeps (HasPlan p) (reconcile_locked host)
  unfolding reconcile_locked
  reconcile_locked-HasPlan p (r, w) q =
      Keeps->>= (HasPlan p) (if is_changed host r then pure false else due host) (applying host r)
        (periodic-HasPlan p (is_changed host r))
        (λ b.
          Keeps->>= (HasPlan p) (apply_desired host (is_changed host r) b r) (λ _. reporting host r)
            (apply_desired-HasPlan p (is_changed host r) b r)
            (λ _.
              Keeps->>= (HasPlan p) (report_learned host r) (λ _. succeed host)
                (report_learned-HasPlan p r) (λ _. succeed-HasPlan p)))
        (r, w) q
