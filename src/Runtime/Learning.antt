-- ===== src/Runtime/Learning.antt =====
-- The sets that `learn`, `sync` and `acceptReport` compute, and the invariant across them.
use netflix_pbrd.Base.{
  ℕ, ◌≤◌, ◌≡◌, refl, sym, ap, ◌∙◌, Bool, true, false, not, ◌||◌, List, [], ◌∷◌, Text, length, All,
  Io, Keeps, Keeps->>=, Keeps->>, ◌>>◌, Result, ok, err, arith, Bool-cases, inl, inr, when, lift,
  catch, Result-cases, is_ok, is_err,
}
use mathlib.Core.Path.{subst}
use netflix_pbrd.Networks.{equal, merge, validate_networks, effective_max}
use netflix_pbrd.Networks.Merging.{
  names, names_any, names_forms, IsNetworkSet, merge-IsNetworkSet, contains-merge,
}
use netflix_pbrd.Networks.Validation.{
  IsHost, validate_networks-merge, validate_networks-hosts, validate_networks-IsNetworkSet,
}
use netflix_pbrd.Text.{contains}
use netflix_pbrd.Config.{Config, Role, controller, agent, max_networks}
use netflix_pbrd.Runtime.Invariant.{
  record_status-plan, AreSound, Plan, plan, HasPlan, noted-plan, in_world-HasPlan,
  reconcile_locked-HasPlan,
}
use netflix_pbrd.Runtime.Inversion.{modify_now-runtime, in_world-runtime}
use netflix_pbrd.Runtime.Daemon.{
  record_status, Runtime, Host, State, in_world, modify_now, save_state, save_learned, save_desired,
  set_sets, store_sets, store_desired, learned_at, desired_at, learned_state_file, fetch, adopt,
  outcome, sync_agent, sync_as, sync_body, sync, learn_sets, learn_body, learn, reconcile_locked,
  reconcile, noting,
}

pub effective_max_idem : (n : ℕ) → effective_max (effective_max n) ≡ effective_max n
effective_max_idem n = ground arith

pub or_first : (a b : Bool) → a ≡ true → (a || b) ≡ true
or_first a b h = rw h refl

or_later : (a b : Bool) → b ≡ true → (a || b) ≡ true
or_later a b h = ground arith

-- A network of one of the groups is in the merged set.
pub first_merged :
    (group : List Text) (groups : List (List Text)) (y : Text)
    → names group y ≡ true
    → contains (merge (group ∷ groups)) y ≡ true
first_merged group groups y h = contains-merge (group ∷ groups) y ∙ or_first _ _ h

pub later_merged :
    (group : List Text) (groups : List (List Text)) (y : Text)
    → names_any groups y ≡ true
    → contains (merge (group ∷ groups)) y ≡ true
later_merged group groups y h = contains-merge (group ∷ groups) y ∙ or_later (names group y) _ h

-- The desired networks are computed by merging three groups, the learned hosts the second and the
-- seeds the third.
AreSound-merge :
    (c : Config) (group learned next : List Text)
    → IsNetworkSet learned
    → All IsHost learned
    → length learned ≤ max_networks c
    → validate_networks (merge (group ∷ learned ∷ c.seed_networks ∷ [])) false (max_networks c)
      ≡ ok next
    → AreSound c next learned
AreSound-merge c group learned next set hosts bound e =
    let (same, limit) =
      validate_networks-merge (group ∷ learned ∷ c.seed_networks ∷ []) false (max_networks c) e in
    record {
      desired_set = rw same (merge-IsNetworkSet (group ∷ learned ∷ c.seed_networks ∷ []));
      desired_bound = rw effective_max_idem at limit;
      learned_set = set;
      learned_hosts = hosts;
      learned_bound = bound;
      learned_desired = λ y h. rw same (
          later_merged group (learned ∷ c.seed_networks ∷ []) y
            (or_first _ _ (names_forms learned y set.forms ∙ h)));
      seeds_desired = λ y h. rw same (
          later_merged group (learned ∷ c.seed_networks ∷ []) y
            (or_later (names learned y) _ (or_first _ _ h)));
    }

module _ {W : Type 0} (host : Host W) where
  -- The sets that `learn` computes keep the invariant.
  pub learn_sets-AreSound :
      (r : Runtime) (networks next_learned next : List Text)
      → learn_sets host r networks ≡ ok (next_learned, next)
      → AreSound r.config next next_learned
  unfolding learn_sets
  learn_sets-AreSound r networks next_learned next e =
      let m = max_networks r.config in
      elim (Result-cases (validate_networks networks true m)) [
        | is_err x q ↦ absurd (ground arith)
        | is_ok learned q ↦
            elim (Result-cases (validate_networks (merge (r.learned ∷ learned ∷ [])) true m)) [
              | is_err x p ↦ absurd (ground arith)
              | is_ok nl p ↦
                  elim (Result-cases (
                    validate_networks (merge (r.desired ∷ nl ∷ r.config.seed_networks ∷ [])) false
                      m)) [
                        | is_err x o ↦ absurd (ground arith)
                        | is_ok n o ↦
                            let same : nl ≡ next_learned = ground arith in
                            let given : n ≡ next = ground arith in
                            rw (← same, ← given)
                              (AreSound-merge r.config r.desired nl n
                                (validate_networks-IsNetworkSet _ true m p)
                                (validate_networks-hosts (r.learned ∷ learned ∷ []) m p)
                                (rw effective_max_idem at
                                  (validate_networks-merge (r.learned ∷ learned ∷ []) true m p).1)
                                o)
                      ]
            ]
      ]

  -- The invariant at a configuration.
  abbrev pub SoundAt : Config → State host → Type 0
  SoundAt c s = (s.0.config ≡ c) × AreSound c s.0.desired s.0.learned

  -- Code that leaves the configuration and the two sets alone keeps it.
  SoundAt-same :
      (c : Config) {A : Type 0} (m : State host → State host × Result A)
      → ((p : Plan) → Keeps (HasPlan host p) m)
      → Keeps (SoundAt c) m
  SoundAt-same c m h s q =
      subst (λ p. (p.config ≡ c) × AreSound c p.desired p.learned) (sym (h (plan s.0) s refl)) q

  in_world-SoundAt : (c : Config) {A : Type 0} (m : Io W A) → Keeps (SoundAt c) (in_world host m)
  in_world-SoundAt c m = SoundAt-same c (in_world host m) (λ p. in_world-HasPlan host p m)

  pub reconcile_locked-SoundAt : (c : Config) → Keeps (SoundAt c) (reconcile_locked host)
  reconcile_locked-SoundAt c =
      SoundAt-same c (reconcile_locked host) (reconcile_locked-HasPlan host)

  when-SoundAt :
      (c : Config) (b : Bool) (m : State host → State host × Result (Unit {0}))
      → Keeps (SoundAt c) m
      → Keeps (SoundAt c) (when b m)
  when-SoundAt c true m h s q = h s q
  when-SoundAt c false m h s q = q

  modify_now-SoundAt :
      (c : Config) (f : Runtime → ℕ → Runtime)
      → ((r : Runtime) (t : ℕ) → (f r t).config ≡ r.config)
      → ((r : Runtime) (t : ℕ)
          → AreSound c r.desired r.learned
          → AreSound c (f r t).desired (f r t).learned)
      → Keeps (SoundAt c) (modify_now host f)
  modify_now-SoundAt c f same sound s (q, h) =
      let (t, e) = modify_now-runtime host f s in
      (
        ap (λ r. r.config) e ∙ same s.0 t ∙ q,
        subst (λ r. AreSound c r.desired r.learned) (sym e) (sound s.0 t h),
      )

  set_sets-SoundAt :
      (c : Config) (b : Bool) (next_learned next : List Text)
      → AreSound c next next_learned
      → Keeps (SoundAt c) (set_sets host b next_learned next)
  set_sets-SoundAt c true nl n h s q =
      modify_now-SoundAt c (learned_at host nl n) (λ r t. refl) (λ r t _. h) s q
  set_sets-SoundAt c false nl n h s q = (q.0, h)

  store_sets-SoundAt :
      (c : Config) (r : Runtime) (next_learned next : List Text)
      → AreSound c next next_learned
      → Keeps (SoundAt c) (store_sets host r (next_learned, next))
  store_sets-SoundAt c r nl n h =
      let changed = not (equal r.desired n) in
      let tail = set_sets host changed nl n >> reconcile_locked host in
      Keeps->> (SoundAt c) (save_learned host r nl) (save_desired host r n >> tail)
        (when-SoundAt c _
          (in_world host (save_state host (learned_state_file r.config.state_file) nl))
          (in_world-SoundAt c (save_state host (learned_state_file r.config.state_file) nl)))
        (Keeps->> (SoundAt c) (save_desired host r n) tail
          (when-SoundAt c changed (in_world host (save_state host r.config.state_file n))
            (in_world-SoundAt c (save_state host r.config.state_file n)))
          (Keeps->> (SoundAt c) (set_sets host changed nl n) (reconcile_locked host)
            (set_sets-SoundAt c changed nl n h) (reconcile_locked-SoundAt c)))

  pub learn_body-SoundAt :
      (c : Config) (networks : List Text) → Keeps (SoundAt c) (learn_body host networks)
  unfolding learn_body
  learn_body-SoundAt c networks (r, w) (q, h) = elim (Result-cases (learn_sets host r networks)) [
    | is_err x e ↦ rw e (q, h)
    | is_ok sets e ↦ rw e (
        store_sets-SoundAt c r sets.0 sets.1
          (rw q at (learn_sets-AreSound r networks sets.0 sets.1 e)) (r, w) (q, h))
  ]

  -- The invariant while the learned hosts stay `l`.
  abbrev LearnedAt : Config → List Text → State host → Type 0
  LearnedAt c l s = (s.0.config ≡ c) × (s.0.learned ≡ l) × AreSound c s.0.desired l

  LearnedAt-SoundAt : (c : Config) (l : List Text) (s : State host) → LearnedAt c l s → SoundAt c s
  LearnedAt-SoundAt c l s (q, e, h) = (q, rw e h)

  in_world-LearnedAt :
      (c : Config) (l : List Text) {A : Type 0} (m : Io W A)
      → Keeps (LearnedAt c l) (in_world host m)
  in_world-LearnedAt c l m s q =
      subst (λ r. (r.config ≡ c) × (r.learned ≡ l) × AreSound c r.desired l)
        (sym (in_world-runtime host m s)) q

  desired_at-LearnedAt :
      (c : Config) (l next : List Text)
      → AreSound c next l
      → Keeps (LearnedAt c l) (modify_now host (desired_at host next))
  desired_at-LearnedAt c l next h s (q, e, _) =
      let (t, after) = modify_now-runtime host (desired_at host next) s in
      (
        ap (λ r. r.config) after ∙ q,
        ap (λ r. r.learned) after ∙ e,
        subst (λ d. AreSound c d l) (sym (ap (λ r. r.desired) after)) h,
      )

  pub store_desired-SoundAt :
      (c : Config) (r : Runtime) (w : W) (next : List Text)
      → AreSound c next r.learned
      → SoundAt c (r, w)
      → SoundAt c (store_desired host r next (r, w)).0
  store_desired-SoundAt c r w next h (q, g) = elim (Bool-cases (equal r.desired next)) [
    | inl same ↦ rw same (q, g)
    | inr changed ↦
        let storing =
          in_world host (save_state host r.config.state_file next)
          >> modify_now host (desired_at host next) in
        rw changed (
          LearnedAt-SoundAt c r.learned (storing (r, w)).0 (
            Keeps->> (LearnedAt c r.learned)
              (in_world host (save_state host r.config.state_file next))
              (modify_now host (desired_at host next))
              (in_world-LearnedAt c r.learned (save_state host r.config.state_file next))
              (desired_at-LearnedAt c r.learned next h) (r, w) (q, refl, g)))
  ]

  adopt-SoundAt : (c : Config) (found : Result (List Text)) → Keeps (SoundAt c) (adopt host found)
  unfolding adopt
  adopt-SoundAt c (err e) s q = q
  adopt-SoundAt c (ok discovered) (r, w) (q, g) =
      let m = max_networks r.config in
      elim (Result-cases (
        validate_networks (merge (discovered ∷ r.learned ∷ r.config.seed_networks ∷ [])) false m)) [
          | is_err x e ↦ rw e (q, g)
          | is_ok next e ↦ rw e (
              store_desired-SoundAt c r w next
                (rw q at (
                  AreSound-merge r.config discovered r.learned next g.learned_set g.learned_hosts
                    (rw (← q) at g.learned_bound) e))
                (q, g))
        ]

  sync_agent-SoundAt : (c : Config) → Keeps (SoundAt c) (sync_agent host)
  unfolding sync_agent
  sync_agent-SoundAt c (r, w) q =
      Keeps->>= (SoundAt c) (catch (in_world host (fetch host r.config))) after_fetch
        (in_world-SoundAt c (catch (fetch host r.config)))
        (λ found.
          Keeps->> (SoundAt c) (adopt host found)
            (reconcile_locked host >> lift (outcome host found)) (adopt-SoundAt c found)
            (Keeps->> (SoundAt c) (reconcile_locked host) (lift (outcome host found))
              (reconcile_locked-SoundAt c) (λ s k. k)))
        (r, w) q
    where
      after_fetch : Result (List Text) → State host → State host × Result (Unit {0})
      after_fetch found = adopt host found >> (reconcile_locked host >> lift (outcome host found))

  pub sync_body-SoundAt : (c : Config) → Keeps (SoundAt c) (sync_body host)
  unfolding sync_body
  sync_body-SoundAt c (r, w) q = as_role r.config.role
    where
      as_role : (role : Role) → SoundAt c (sync_as host role (r, w)).0
      as_role controller = reconcile_locked-SoundAt c (r, w) q
      as_role agent = sync_agent-SoundAt c (r, w) q

  -- The publication of the status leaves the sets alone.
  pub record_status-SoundAt :
      (c : Config) (message : Text) (s : State host)
      → SoundAt c s
      → SoundAt c (record_status host message s)
  record_status-SoundAt c message s q =
      subst (λ p. (p.config ≡ c) × AreSound c p.desired p.learned)
        (sym (record_status-plan host message s)) q

  pub noting-SoundAt :
      (c : Config) (m : State host → State host × Result (Unit {0}))
      → Keeps (SoundAt c) m
      → Keeps (SoundAt c) (noting host m)
  noting-SoundAt c m h s q =
      subst (λ p. (p.config ≡ c) × AreSound c p.desired p.learned) (sym (noted-plan host (m s)))
        (h s q)

  -- Whole operations, their record of an error included.
  pub learn-SoundAt : (c : Config) (networks : List Text) → Keeps (SoundAt c) (learn host networks)
  unfolding learn
  learn-SoundAt c networks =
      noting-SoundAt c (learn_body host networks) (learn_body-SoundAt c networks)

  pub sync-SoundAt : (c : Config) → Keeps (SoundAt c) (sync host)
  unfolding sync
  sync-SoundAt c = noting-SoundAt c (sync_body host) (sync_body-SoundAt c)

  pub reconcile-SoundAt : (c : Config) → Keeps (SoundAt c) (reconcile host)
  unfolding reconcile
  reconcile-SoundAt c = noting-SoundAt c (reconcile_locked host) (reconcile_locked-SoundAt c)
