-- ===== src/Runtime/Accepting.antt =====
-- What an accepted report has done, and which requests reach the state, in internal/pbr/runtime.go.
use netflix_pbrd.Base.{
  ◌≡◌, refl, sym, ap, ◌∙◌, ◌⊎◌, inl, inr, true, false, List, [], ◌∷◌, Text, >>=-eq-ok, Result, ok,
  err, arith, Bool-cases, Result-cases, is_ok, is_err,
}
use netflix_pbrd.Networks.{equal, merge, validate_networks}
use netflix_pbrd.Networks.Files.{equal→eq}
use netflix_pbrd.Networks.Merging.{names, names_forms, merge-IsNetworkSet}
use netflix_pbrd.Networks.Validation.{validate_networks-merge, validate_networks-ok}
use netflix_pbrd.Text.{contains}
use netflix_pbrd.Config.{is_agent, max_networks}
use netflix_pbrd.System.{ApiResponse}
use netflix_pbrd.Runtime.Inversion.{
  Core, core, in_world-ok, modify_now-ok, reconcile_locked-core, reported_core, applied_core,
}
use netflix_pbrd.Runtime.Learning.{first_merged, later_merged, or_first}
use netflix_pbrd.Runtime.Daemon.{
  Runtime, Host, State, in_world, modify_now, save_state, store_desired, desired_at, accept_report,
  reconcile_locked,
}
use netflix_pbrd.Runtime.Server.{
  Call, status_written, is_get, is_post, is_authorized, is_valid_report, acknowledged, post_payload,
  handle_post, handle,
}

module _ {W : Type 0} (host : Host W) where
  put_desired : List Text → Core → Core
  put_desired next c = record c { desired = next }

  store_desired-core :
      (r : Runtime) (w : W) (next : List Text) (v : State host)
      → store_desired host r next (r, w) ≡ (v, ok tt)
      → core v.0 ≡ put_desired next (core r)
  unfolding put_desired
  store_desired-core r w next v e = elim (Bool-cases (equal r.desired next)) [
    | inl same ↦
        let kept : v.0 ≡ r = ap (λ p. p.0.0) (sym (rw same at e)) in
        ap core kept ∙ (λ i. record (core r) { desired = equal→eq r.desired next same i })
    | inr differ ↦
        let both = rw differ at e in
        let saving = in_world host (save_state host r.config.state_file next) in
        let (_, s, m, k) =
          >>=-eq-ok saving (λ _. modify_now host (desired_at host next)) (r, w) both in
        let (t, after) = modify_now-ok host (desired_at host next) s v k in
        ap core after
        ∙ ap (λ q. put_desired next (core q))
            (in_world-ok host (save_state host r.config.state_file next) (r, w) s m)
  ]

  -- A report that is accepted without an error is in force: every network reported, and every
  -- network desired before, is applied, and the applied networks are the desired ones.
  pub accept_report-ok :
      (networks : List Text) (s s' : State host)
      → accept_report host networks s ≡ (s', ok tt)
      → (s'.0.applied_known ≡ true)
        × (s'.0.applied ≡ s'.0.desired)
        × ((y : Text) → names networks y ≡ true → contains s'.0.applied y ≡ true)
        × ((y : Text) → names s.0.desired y ≡ true → contains s'.0.applied y ≡ true)
  unfolding accept_report put_desired
  accept_report-ok networks (r, w) s' e =
      let m = max_networks r.config in
      elim (Result-cases (validate_networks networks true m)) [
        | is_err x q ↦ absurd (ground arith)
        | is_ok report q ↦
            elim (Result-cases (validate_networks (merge (r.desired ∷ report ∷ [])) false m)) [
              | is_err x o ↦ absurd (ground arith)
              | is_ok next o ↦
                  let run = rw (q, o) at e in
                  let (_, v, k, l) =
                    >>=-eq-ok (store_desired host r next) (λ _. reconcile_locked host) (r, w) run in
                  let after =
                    reconcile_locked-core host v s' l
                    ∙ ap (λ c. reported_core host (applied_core host c))
                        (store_desired-core r w next v k) in
                  let applied : s'.0.applied ≡ next = ap (λ c. c.applied) after in
                  let same = (validate_networks-merge (r.desired ∷ report ∷ []) false m o).0 in
                  let checked = validate_networks-ok networks true m q in
                  (
                    ap (λ c. c.applied_known) after,
                    applied ∙ sym (ap (λ c. c.desired) after),
                    (λ y h.
                        let named : names report y ≡ true = rw checked.merged (
                          names_forms (merge (networks ∷ [])) y
                            (merge-IsNetworkSet (networks ∷ [])).forms
                          ∙ first_merged networks [] y h) in
                        rw (applied, same)
                          (later_merged r.desired (report ∷ []) y (or_first _ _ named))),
                    λ y h. rw (applied, same) (first_merged r.desired (report ∷ []) y h),
                  )
            ]
      ]

  acknowledged-fst : (p : State host × Result (Unit {0})) → (acknowledged host p).0 ≡ p.0
  acknowledged-fst (s, ok u) = refl
  acknowledged-fst (s, err e) = refl

  post_payload-changes :
      (payload : Result ApiResponse) (s : State host)
      → ((post_payload host payload s).0 ≡ s)
        ⊎ ((report : ApiResponse) × (payload ≡ ok report)
            × (is_valid_report s.0 report ≡ true)
            × ((post_payload host payload s).0 ≡ (accept_report host report.networks s).0))
  post_payload-changes (err e) s = inl refl
  post_payload-changes (ok report) s = elim (Bool-cases (is_valid_report s.0 report)) [
    | inr invalid ↦ inl (rw invalid refl)
    | inl valid ↦
        inr
          (report, refl, valid, rw valid (acknowledged-fst (accept_report host report.networks s)))
  ]

  acknowledged-204 :
      (p : State host × Result (Unit {0})) (s' : State host)
      → acknowledged host p ≡ (s', status_written 204)
      → p ≡ (s', ok tt)
  acknowledged-204 (s, ok u) s' e = ground arith
  acknowledged-204 (s, err x) s' e = absurd (ground arith)

  post_payload-204 :
      (payload : Result ApiResponse) (s s' : State host)
      → post_payload host payload s ≡ (s', status_written 204)
      → (report : ApiResponse) × (payload ≡ ok report)
        × (s'.0.applied ≡ s'.0.desired)
        × ((y : Text) → names report.networks y ≡ true → contains s'.0.applied y ≡ true)
  post_payload-204 (err e) s s' h = absurd (ground arith)
  post_payload-204 (ok report) s s' h = elim (Bool-cases (is_valid_report s.0 report)) [
    | inr invalid ↦ absurd (ground arith)
    | inl valid ↦
        let (_, same, all, _) =
          accept_report-ok report.networks s s'
            (acknowledged-204 (accept_report host report.networks s) s' (rw valid at h)) in
        (report, refl, same, all)
  ]

  -- A request changes nothing, or it is an authorised POST to a controller, of a valid report that
  -- is then accepted.
  pub handle-changes :
      (call : Call) (s : State host)
      → ((handle host call s).0 ≡ s)
        ⊎ ((report : ApiResponse) × (is_post call.method ≡ true)
            × (is_authorized s.0.config call ≡ true)
            × (is_agent s.0.config.role ≡ false)
            × (call.payload ≡ ok report)
            × (is_valid_report s.0 report ≡ true)
            × ((handle host call s).0 ≡ (accept_report host report.networks s).0))
  unfolding handle handle_post
  handle-changes call s = elim (Bool-cases (is_authorized s.0.config call)) [
    | inr refused ↦ inl (rw refused refl)
    | inl authorized ↦ elim (Bool-cases (is_get call.method)) [
      | inl reading ↦ inl (rw (authorized, reading) refl)
      | inr not_get ↦ elim (Bool-cases (is_post call.method)) [
        | inr not_post ↦ inl (rw (authorized, not_get, not_post) refl)
        | inl posting ↦ elim (Bool-cases (is_agent s.0.config.role)) [
          | inl on_agent ↦ inl (rw (authorized, not_get, posting, on_agent) refl)
          | inr on_controller ↦
              let e : (handle host call s).0 ≡ (post_payload host call.payload s).0 =
                rw (authorized, not_get, posting, on_controller) refl in
              elim (post_payload-changes call.payload s) [
                | inl k ↦ inl (e ∙ k)
                | inr (report, p, v, k) ↦
                    inr (report, posting, authorized, on_controller, p, v, e ∙ k)
              ]
        ]
      ]
    ]
  ]

  -- When a request is answered with 204, its body held a report, every network of the report is
  -- applied, and the applied networks are the desired ones.
  pub handle-204 :
      (call : Call) (s s' : State host)
      → handle host call s ≡ (s', status_written 204)
      → (report : ApiResponse) × (call.payload ≡ ok report)
        × (s'.0.applied ≡ s'.0.desired)
        × ((y : Text) → names report.networks y ≡ true → contains s'.0.applied y ≡ true)
  unfolding handle handle_post
  handle-204 call s s' h = elim (Bool-cases (is_authorized s.0.config call)) [
    | inr refused ↦ absurd (ground arith)
    | inl authorized ↦ elim (Bool-cases (is_get call.method)) [
      | inl reading ↦ absurd (ground arith)
      | inr not_get ↦ elim (Bool-cases (is_post call.method)) [
        | inr not_post ↦ absurd (ground arith)
        | inl posting ↦ elim (Bool-cases (is_agent s.0.config.role)) [
          | inl on_agent ↦ absurd (ground arith)
          | inr on_controller ↦
              post_payload-204 call.payload s s'
                (rw (authorized, not_get, posting, on_controller) at h)
        ]
      ]
    ]
  ]
