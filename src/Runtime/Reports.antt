-- ===== src/Runtime/Reports.antt =====
-- Reports of agents, every reachable state, and what a successful `learn` or report has achieved.
use netflix_pbrd.Base.{
  ◌≡◌, ◌∙◌, true, false, List, [], ◌∷◌, Text, Keeps, ◌>>◌, then_io, Result, ok, err, Result-cases,
  is_ok, is_err,
}
use netflix_pbrd.Networks.{merge, validate_networks}
use netflix_pbrd.Networks.Merging.{names_forms, merge-IsNetworkSet}
use netflix_pbrd.Networks.Validation.{validate_networks-merge}
use netflix_pbrd.Text.{contains}
use netflix_pbrd.Config.{Config, max_networks}
use netflix_pbrd.Runtime.Invariant.{AreSound}
use netflix_pbrd.Runtime.Learning.{
  learn_body-SoundAt, sync_body-SoundAt, record_status-SoundAt, SoundAt, reconcile_locked-SoundAt,
  first_merged, store_desired-SoundAt, effective_max_idem,
}
use netflix_pbrd.Runtime.Daemon.{
  learn_body, sync_body, record_status, Runtime, Host, State, store_desired, accept_report,
  reconcile_locked,
}

module _ {W : Type 0} (host : Host W) where
  -- A report only adds to the desired networks.
  merge_report-AreSound :
      (c : Config) (desired learned report next : List Text)
      → AreSound c desired learned
      → validate_networks (merge (desired ∷ report ∷ [])) false (max_networks c) ≡ ok next
      → AreSound c next learned
  merge_report-AreSound c desired learned report next g e =
      let (same, limit) =
        validate_networks-merge (desired ∷ report ∷ []) false (max_networks c) e in
      record {
        desired_set = rw same (merge-IsNetworkSet (desired ∷ report ∷ []));
        desired_bound = rw effective_max_idem at limit;
        learned_set = g.learned_set;
        learned_hosts = g.learned_hosts;
        learned_bound = g.learned_bound;
        learned_desired = λ y h. grown same y (g.learned_desired y h);
        seeds_desired = λ y h. grown same y (g.seeds_desired y h);
      }
    where
      grown :
          next ≡ merge (desired ∷ report ∷ [])
          → (y : Text) → contains desired y ≡ true
          → contains next y ≡ true
      grown same y h =
          rw same
            (first_merged desired (report ∷ []) y (names_forms desired y g.desired_set.forms ∙ h))

  -- The part of `acceptReport` behind its checks.
  abbrev storing : Runtime → List Text → State host → State host × Result (Unit {0})
  storing r next = store_desired host r next >> reconcile_locked host

  -- Accepting a report keeps the invariant, whether it succeeds or fails.
  pub accept_report-SoundAt :
      (c : Config) (networks : List Text) → Keeps (SoundAt host c) (accept_report host networks)
  unfolding accept_report
  accept_report-SoundAt c networks (r, w) (q, g) =
      let m = max_networks r.config in
      elim (Result-cases (validate_networks networks true m)) [
        | is_err x e ↦ rw e (q, g)
        | is_ok report e ↦
            elim (Result-cases (validate_networks (merge (r.desired ∷ report ∷ [])) false m)) [
              | is_err x o ↦ rw (e, o) (q, g)
              | is_ok next o ↦
                  rw (e, o)
                    (stored next
                      (merge_report-AreSound c r.desired r.learned report next g (rw q at o)))
            ]
      ]
    where
      stored :
          (next : List Text) → AreSound c next r.learned → SoundAt host c (storing r next (r, w)).0
      stored next h =
          reconciled (store_desired host r next (r, w))
            (store_desired-SoundAt host c r w next h (q, g))
        where
          reconciled :
              (p : State host × Result (Unit {0}))
              → SoundAt host c p.0
              → SoundAt host c (then_io (λ _. reconcile_locked host) p).0
          reconciled (v, ok u) k = reconcile_locked-SoundAt host c v k
          reconciled (v, err x) k = k

  -- What the daemon does under `syncMu`, by whoever calls it: the DNS proxy, the timer, an agent's
  -- report, or the start. A failed operation records its error behind the unlock, so that is a step
  -- of its own, and another operation may come between.
  pub data Step (s : State host) : State host → Type 0 where
    learns : (networks : List Text) → Step s (learn_body host networks s).0
    syncs : Step s (sync_body host s).0
    accepts : (networks : List Text) → Step s (accept_report host networks s).0
    reconciles : Step s (reconcile_locked host s).0
    notes : (message : Text) → Step s (record_status host message s)

  pub data Reach (s : State host) : State host → Type 0 where
    here : Reach s s
    next : {t u : State host} → Reach s t → Step t u → Reach s u

  Step-SoundAt : (c : Config) {s t : State host} → Step s t → SoundAt host c s → SoundAt host c t
  Step-SoundAt c {s} (learns networks) h = learn_body-SoundAt host c networks s h
  Step-SoundAt c {s} syncs h = sync_body-SoundAt host c s h
  Step-SoundAt c {s} (accepts networks) h = accept_report-SoundAt c networks s h
  Step-SoundAt c {s} reconciles h = reconcile_locked-SoundAt host c s h
  Step-SoundAt c {s} (notes message) h = record_status-SoundAt host c message s h

  -- In every state that the daemon reaches from a sound one by learning, syncing, accepting reports,
  -- reconciling and recording its status, in any order, whatever the files, the drivers and the
  -- controller answer, its sets are sound: in canonical form, ascending, within the limit, the learned ones hosts, and the desired ones
  -- including the learned ones and the seeds.
  pub Reach-SoundAt :
      (c : Config) {s t : State host} → Reach s t → SoundAt host c s → SoundAt host c t
  Reach-SoundAt c here h = h
  Reach-SoundAt c (next r st) h = Step-SoundAt c st (Reach-SoundAt c r h)
