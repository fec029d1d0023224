-- ===== src/Runtime/Success.antt =====
-- What a `learn` that succeeds has done to the state of the daemon: the sets, and what counts as applied and
-- as reported. Runtime/History.antt ties it to what has happened.
use netflix_pbrd.Base.{
  ◌≡◌, refl, sym, ap, ◌∙◌, All, Bool, true, false, not, List, [], ◌∷◌, Text, Io, ◌>>◌, >>=-eq-ok,
  Result, ok, err, arith, when, lift, Result-cases, is_ok, is_err,
}
use netflix_pbrd.Networks.{equal, merge, validate_networks}
use netflix_pbrd.Networks.Merging.{names, names_forms, merge-IsNetworkSet}
use netflix_pbrd.Networks.Validation.{IsHost, validate_networks-merge, validate_networks-ok}
use netflix_pbrd.Text.{contains}
use netflix_pbrd.Config.{is_agent, max_networks}
use netflix_pbrd.Runtime.Inversion.{
  Core, core, in_world-ok, modify_now-ok, reconcile_locked-core, reported_core, applied_core,
}
use netflix_pbrd.Runtime.Learning.{learn_sets-AreSound, first_merged, later_merged, or_first}
use netflix_pbrd.Runtime.Daemon.{
  Runtime, Host, State, in_world, save_state, learned_state_file, save_learned, save_desired,
  set_sets, store_sets, learned_at, learn_sets, learn_body, learn, reconcile_locked, noted,
}

module _ {W : Type 0} (host : Host W) where
  pub noted-ok :
      {A : Type 0} (p : State host × Result A) {s : State host} {a : A}
      → noted host p ≡ (s, ok a)
      → p ≡ (s, ok a)
  noted-ok (v, ok b) h = h
  noted-ok (v, err e) h = absurd (ground arith)

  when-in_world-ok :
      (b : Bool) (m : Io W (Unit {0})) (s v : State host)
      → when b (in_world host m) s ≡ (v, ok tt)
      → v.0 ≡ s.0
  when-in_world-ok true m s v e = in_world-ok host m s v e
  when-in_world-ok false m s v e = ap (λ p. p.0.0) (sym e)

  put_sets : List Text → List Text → Core → Core
  put_sets next_learned next c = record c { desired = next; learned = next_learned }

  set_sets-core :
      (b : Bool) (next_learned next : List Text) (s v : State host)
      → set_sets host b next_learned next s ≡ (v, ok tt)
      → core v.0 ≡ put_sets next_learned next (core s.0)
  unfolding put_sets
  set_sets-core true nl n s v e =
      let (t, after) = modify_now-ok host (learned_at host nl n) s v e in ap core after
  set_sets-core false nl n s v e = ap (λ p. core p.0.0) (sym e)

  -- The core after a successful run of the steps behind the computation of the sets.
  store_sets-core :
      (r : Runtime) (w : W) (nl n : List Text) (s' : State host)
      → store_sets host r (nl, n) (r, w) ≡ (s', ok tt)
      → core s'.0 ≡ reported_core host (applied_core host (put_sets nl n (core r)))
  store_sets-core r w nl n s' e =
      let changed = not (equal r.desired n) in
      let tail = set_sets host changed nl n >> reconcile_locked host in
      let (_, a, m, k) =
        >>=-eq-ok (save_learned host r nl) (λ _. save_desired host r n >> tail) (r, w) e in
      let (_, b, o, l) = >>=-eq-ok (save_desired host r n) (λ _. tail) a k in
      let (_, d, p, q) = >>=-eq-ok (set_sets host changed nl n) (λ _. reconcile_locked host) b l in
      let first : a.0 ≡ r =
        when-in_world-ok _ (save_state host (learned_state_file r.config.state_file) nl) (r, w) a
          m in
      let second : b.0 ≡ a.0 =
        when-in_world-ok changed (save_state host r.config.state_file n) a b o in
      reconcile_locked-core host d s' q
      ∙ ap (λ c. reported_core host (applied_core host c))
          (set_sets-core changed nl n b d p ∙ ap (λ x. put_sets nl n (core x)) (second ∙ first))

  -- Each network that `learn` is called with is in the learned set that it computes.
  learn_sets-names :
      (r : Runtime) (networks nl n : List Text) (y : Text)
      → learn_sets host r networks ≡ ok (nl, n)
      → names networks y ≡ true
      → contains nl y ≡ true
  unfolding learn_sets
  learn_sets-names r networks nl n y e h =
      let m = max_networks r.config in
      elim (Result-cases (validate_networks networks true m)) [
        | is_err x q ↦ absurd (ground arith)
        | is_ok learned q ↦
            let v = validate_networks-ok networks true m q in
            let named : names learned y ≡ true = rw v.merged (
              names_forms (merge (networks ∷ [])) y (merge-IsNetworkSet (networks ∷ [])).forms
              ∙ first_merged networks [] y h) in
            elim (Result-cases (validate_networks (merge (r.learned ∷ learned ∷ [])) true m)) [
              | is_err x p ↦ absurd (ground arith)
              | is_ok out p ↦
                  elim (Result-cases (
                    validate_networks (merge (r.desired ∷ out ∷ r.config.seed_networks ∷ [])) false
                      m)) [
                        | is_err x o ↦ absurd (ground arith)
                        | is_ok last o ↦
                            let same : out ≡ nl = ground arith in
                            rw
                              (
                                ← same,
                                (validate_networks-merge (r.learned ∷ learned ∷ []) true m p).0,
                              )
                              (later_merged r.learned (learned ∷ []) y (or_first _ _ named))
                      ]
            ]
      ]

  -- The sets behind a `learn` that succeeds: those that it was called with are among the learned hosts
  -- and the applied networks, and on an agent the learned hosts count as reported.
  pub learn-applied :
      (networks : List Text) (s s' : State host)
      → learn host networks s ≡ (s', ok tt)
      → (s'.0.applied_known ≡ true)
        × (s'.0.applied ≡ s'.0.desired)
        × ((y : Text) → names networks y ≡ true → contains s'.0.applied y ≡ true)
        × (is_agent s.0.config.role ≡ true
            → (s'.0.last_reported ≡ s'.0.learned)
              × ((y : Text) → names networks y ≡ true → contains s'.0.last_reported y ≡ true)
              × All IsHost s'.0.learned)
  unfolding learn learn_body put_sets
  learn-applied networks (r, w) s' e =
      let (sets, v, m, k) =
        >>=-eq-ok (lift (learn_sets host r networks)) (store_sets host r) (r, w)
          (noted-ok (learn_body host networks (r, w)) e) in
      let given : learn_sets host r networks ≡ ok sets = ap (λ p. p.1) m in
      let same : v ≡ (r, w) = ap (λ p. p.0) (sym m) in
      let after = store_sets-core r w sets.0 sets.1 s' (rw same at k) in
      let sound = learn_sets-AreSound host r networks sets.0 sets.1 given in
      let applied : s'.0.applied ≡ sets.1 = ap (λ c. c.applied) after in
      (
        ap (λ c. c.applied_known) after,
        applied ∙ sym (ap (λ c. c.desired) after),
        (λ y h.
            rw applied
              (sound.learned_desired y (learn_sets-names r networks sets.0 sets.1 y given h))),
        λ agent.
            let reported : s'.0.last_reported ≡ sets.0 =
              ap (λ c. c.last_reported) after ∙ rw agent refl in
            (
              reported ∙ sym (ap (λ c. c.learned) after),
              (λ y h. rw reported (learn_sets-names r networks sets.0 sets.1 y given h)),
              rw (ap (λ c. c.learned) after) sound.learned_hosts,
            ),
      )
