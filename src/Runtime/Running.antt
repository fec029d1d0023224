-- ===== src/Runtime/Running.antt =====
-- `Run` of internal/pbr/runtime.go: what the daemon does by itself, tick by tick.
use netflix_pbrd.Base.{
  ℕ, zero, suc, ◌≡◌, ap, true, false, List, [], ◌∷◌, Text, All, Result, ok, err, Io, Option-cases,
  Result-cases, is_ok, is_err, Bool-cases, inl, inr, arith, codes, if◌then◌else◌, >>=-eq-ok,
}
use netflix_pbrd.Text.{text_eq, contains}
use netflix_pbrd.Text.Laws.{text_eq→eq}
use netflix_pbrd.Text.Sets.{All-of_contains}
use netflix_pbrd.Networks.{canonical_network, merge, validate_networks}
use netflix_pbrd.Networks.Merging.{names, contains-merge, names_forms}
use netflix_pbrd.Networks.Validation.{
  IsHost, IsAccepted, validate_networks-ok, validate_networks-merge, validate_networks-IsNetworkSet,
}
use netflix_pbrd.Config.{Config, max_networks, poll_interval, reapply_every}
use netflix_pbrd.Runtime.Daemon.{
  Runtime, Host, State, record_status, reconcile, sync, load_state, learned_state_file,
  initial_sets, new_runtime, started,
}
use netflix_pbrd.Runtime.Invariant.{AreSound}
use netflix_pbrd.Runtime.Learning.{
  SoundAt, record_status-SoundAt, reconcile-SoundAt, sync-SoundAt, effective_max_idem,
}

module _ {W : Type 0} (host : Host W) (start_proxy : Io W (Unit {0})) where
  open host use {error_text}

  -- A failed first apply is recorded once more.
  abbrev pub after_apply : State host × Result (Unit {0}) → State host
  after_apply (s, ok u) = s
  after_apply (s, err e) = record_status host (error_text e) s

  abbrev pub tick : State host → State host
  tick s = (sync host s).0

  abbrev pub ticks : ℕ → State host → State host
  ticks zero s = s
  ticks (suc n) s = ticks n (tick s)

  abbrev pub after_proxy : ℕ → Runtime → W × Result (Unit {0}) → State host × Result (Unit {0})
  after_proxy n r (w, ok u) = (ticks (suc n) (r, w), ok tt)
  after_proxy n r (w, err e) = (record_status host (error_text e) (r, w), err e)

  abbrev pub after_restore : ℕ → State host → State host × Result (Unit {0})
  after_restore n (r, w) =
      if text_eq r.config.dns_proxy.listen (codes "")
      then (ticks (suc n) (r, w), ok tt)
      else after_proxy n r (start_proxy w)

  -- The first sync, and `n` ticks of the timer behind it.
  unfoldable pub run : ℕ → State host → State host × Result (Unit {0})
  run n s = after_restore n (after_apply (reconcile host (record_status host (codes "") s)))

  ticks-SoundAt :
      (c : Config) (n : ℕ) (s : State host) → SoundAt host c s → SoundAt host c (ticks n s)
  ticks-SoundAt c zero s h = h
  ticks-SoundAt c (suc n) s h = ticks-SoundAt c n (tick s) (sync-SoundAt host c s h)

  after_apply-SoundAt :
      (c : Config) (p : State host × Result (Unit {0}))
      → SoundAt host c p.0
      → SoundAt host c (after_apply p)
  after_apply-SoundAt c (s, ok u) h = h
  after_apply-SoundAt c (s, err e) h = record_status-SoundAt host c (error_text e) s h

  after_proxy-SoundAt :
      (c : Config) (n : ℕ) (r : Runtime) (p : W × Result (Unit {0}))
      → SoundAt host c (r, p.0)
      → SoundAt host c (after_proxy n r p).0
  after_proxy-SoundAt c n r (w, ok u) h = ticks-SoundAt c (suc n) (r, w) h
  after_proxy-SoundAt c n r (w, err e) h = record_status-SoundAt host c (error_text e) (r, w) h

  after_restore-SoundAt :
      (c : Config) (n : ℕ) (s : State host)
      → SoundAt host c s
      → SoundAt host c (after_restore n s).0
  after_restore-SoundAt c n (r, w) h =
      elim (Bool-cases (text_eq r.config.dns_proxy.listen (codes ""))) [
        | inl unset ↦ rw unset (ticks-SoundAt c (suc n) (r, w) h)
        | inr given ↦ rw given (after_proxy-SoundAt c n r (start_proxy w) h)
      ]

  run-keeps : (c : Config) (n : ℕ) (s : State host) → SoundAt host c s → SoundAt host c (run n s).0
  unfolding run
  run-keeps c n s h = after_restore-SoundAt c n _ (
      after_apply-SoundAt c (reconcile host (record_status host (codes "") s)) (
        reconcile-SoundAt host c (record_status host (codes "") s)
          (record_status-SoundAt host c (codes "") s h)))

-- The canonical form of an accepted host is a host.
names-IsHost :
    (values : List Text) (y : Text)
    → All (IsAccepted true) values
    → names values y ≡ true
    → IsHost y
names-IsHost [] y h n = absurd (ground arith)
names-IsHost (raw ∷ values) y h n = elim (Option-cases (canonical_network raw)) [
  | inl bad ↦ names-IsHost values y h.1 (rw bad at n)
  | inr (value, form) ↦ elim (Bool-cases (text_eq value y)) [
    | inl same ↦ let fine = rw form at h.0 in ground (arith, text_eq→eq value y same)
    | inr differ ↦ names-IsHost values y h.1 (rw (form, differ) at n)
  ]
]

validated-IsHost :
    (values out : List Text) (max : ℕ) → validate_networks values true max ≡ ok out → All IsHost out
validated-IsHost values out max e =
    let v = validate_networks-ok values true max e in
    All-of_contains IsHost out (λ y h.
      names-IsHost values y v.accepted
        (ground (arith, contains-merge (values ∷ []) y, ap (λ s. contains s y) v.merged)))

-- The sets that a start computes from any state files are sound.
merge_start-AreSound :
    (c : Config) (validated learned_state learned desired : List Text)
    → validate_networks learned_state true (max_networks c) ≡ ok learned
    → validate_networks (merge (validated ∷ learned ∷ c.seed_networks ∷ [])) false (max_networks c)
      ≡ ok desired
    → AreSound c desired learned
merge_start-AreSound c validated learned_state learned desired l d =
    let m = max_networks c in
    let groups : List (List Text) = validated ∷ learned ∷ c.seed_networks ∷ [] in
    let (same, bound) = validate_networks-merge groups false m d in
    let v = validate_networks-ok learned_state true m l in
    let set = validate_networks-IsNetworkSet learned_state true m l in
    record {
      desired_set = validate_networks-IsNetworkSet (merge groups) false m d;
      desired_bound = rw effective_max_idem at bound;
      learned_set = set;
      learned_hosts = validated-IsHost learned_state learned m l;
      learned_bound = rw effective_max_idem at v.bounded;
      learned_desired = λ y h. ground (
        arith,
        contains-merge groups y,
        names_forms learned y set.forms,
        ap (λ s. contains s y) same,
      );
      seeds_desired = λ y h. ground (arith, contains-merge groups y, ap (λ s. contains s y) same);
    }

module _ {W : Type 0} (host : Host W) where
  initial_sets-AreSound :
      (c : Config) (w w' : W) (desired learned : List Text)
      → initial_sets host c w ≡ (w', ok (desired, learned))
      → AreSound c desired learned
  unfolding initial_sets
  initial_sets-AreSound c w w' desired learned e =
      let m = max_networks c in
      elim (Result-cases (load_state host c.state_file w)) [
        | is_err x q ↦ absurd (ground arith)
        | is_ok state q ↦ elim (Result-cases (validate_networks state false m)) [
          | is_err x v ↦ absurd (ground arith)
          | is_ok validated v ↦
              elim (Result-cases (load_state host (learned_state_file c.state_file) w)) [
                | is_err x p ↦ absurd (ground arith)
                | is_ok learned_state p ↦
                    elim (Result-cases (validate_networks learned_state true m)) [
                      | is_err x l ↦ absurd (ground arith)
                      | is_ok hosts l ↦
                          elim (Result-cases (
                            validate_networks (merge (validated ∷ hosts ∷ c.seed_networks ∷ []))
                              false m)) [
                                | is_err x d ↦ absurd (ground arith)
                                | is_ok all d ↦
                                    let same : (all ≡ desired) × (hosts ≡ learned) = ground arith in
                                    rw (← same.0, ← same.1)
                                      (merge_start-AreSound c validated learned_state hosts all l d)
                              ]
                    ]
              ]
        ]
      ]

  started-SoundAt :
      (c : Config) (interval reapply : ℕ) (sets : List Text × List Text) (p : W × ℕ) (w' : W)
      (r : Runtime)
      → started host c interval reapply sets p ≡ (w', ok r)
      → AreSound c sets.0 sets.1
      → SoundAt host c (r, w')
  started-SoundAt c interval reapply sets (w, now) w' r e h =
      let wanted : r.desired ≡ sets.0 = ground arith in
      let known : r.learned ≡ sets.1 = ground arith in (ground arith, rw (wanted, known) h)

  new_runtime-SoundAt :
      (c : Config) (w w' : W) (r : Runtime)
      → new_runtime host c w ≡ (w', ok r)
      → SoundAt host c (r, w')
  unfolding new_runtime
  new_runtime-SoundAt c w w' r e = elim (Result-cases (poll_interval host.parse_duration c)) [
    | is_err x p ↦ absurd (ground arith)
    | is_ok interval p ↦ elim (Result-cases (reapply_every host.parse_duration c)) [
      | is_err x q ↦ absurd (ground arith)
      | is_ok reapply q ↦
          let (sets, v, i, k) =
            >>=-eq-ok (initial_sets host c)
              (λ sets v. started host c interval reapply sets (host.system.now v)) w
              (rw (p, q) at e) in
          started-SoundAt c interval reapply sets (host.system.now v) w' r k
            (initial_sets-AreSound c w v sets.0 sets.1 i)
    ]
  ]

  -- A daemon that `newRuntime` starts, whatever its state files hold, and that `Run` has taken through
  -- any number of ticks, whatever the files, the drivers and the controller answer, has sound sets.
  pub run-SoundAt :
      (start_proxy : Io W (Unit {0})) (c : Config) (n : ℕ) (w w' : W) (r : Runtime)
      → new_runtime host c w ≡ (w', ok r)
      → SoundAt host c (run host start_proxy n (r, w')).0
  run-SoundAt start_proxy c n w w' r e =
      run-keeps host start_proxy c n (r, w') (new_runtime-SoundAt c w w' r e)
