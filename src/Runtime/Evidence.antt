-- ===== src/Runtime/Evidence.antt =====
-- Evidence in the world of what the daemon has done, whatever the world is: that a driver has been
-- run with some networks, and that a request has been answered. The calls of the host leave it
-- there, and a call that succeeds adds its own.
use netflix_pbrd.Base.{
  ℕ, ◌≡◌, refl, ap, ◌==◌, Bool, true, false, List, [], ◌∷◌, ◌++◌, Text, ◌>>◌, ◌>>=◌, >>=-eq-ok,
  Keeps, Keeps->>=, Keeps->>, Result, ok, err, Error, text, numbered, codes, wrap_error, lift, pure,
  fail, if◌then◌else◌, arith,
}
use netflix_pbrd.Networks.{validate_networks, state_content}
use netflix_pbrd.Config.{Config, ApplyConfig, max_networks}
use netflix_pbrd.System.{Request, Response, ApiResponse, get_networks, post_networks, replace_file}
use netflix_pbrd.Status.{OperationalStatus, save_operational_status}
use netflix_pbrd.Runtime.Daemon.{Host, save_state, apply_all, hosts_of, report, fetch}

module _ {W : Type 0} (host : Host W) where
  open host use {system, drivers}

  -- The report of these learned networks.
  abbrev pub report_of : Config → List Text → Request
  report_of config networks =
      post_networks config.api.source_url config.api.report_token
        (record { version = 1; updated = 0; networks = hosts_of host networks })

  -- A predicate on the world that the calls of the host keep.
  pub record Stays (P : W → Type 0) : Type 0 where
    pub now : (w : W) → P w → P (system.now w).0
    pub make_parent : (path : Text) → Keeps P (system.make_parent path)
    pub write_file : (path bytes : Text) → Keeps P (system.write_file path bytes)
    pub rename : (from to : Text) → Keeps P (system.rename from to)
    pub send : (request : Request) → Keeps P (system.send request)
    pub apply : (c : ApplyConfig) (nets : List Text) → Keeps P (drivers.apply_networks c nets)
    pub reapply : (c : ApplyConfig) (nets : List Text) → Keeps P (drivers.reapply_networks c nets)

  pub record Evidence : Type 1 where
    pub Drove : ApplyConfig → List Text → W → Type 0
    pub Answered : Request → ℕ → W → Type 0
    pub drove_stays : (c : ApplyConfig) (nets : List Text) → Stays (Drove c nets)
    pub answered_stays : (request : Request) (status : ℕ) → Stays (Answered request status)
    pub applies :
        (c : ApplyConfig) (nets : List Text) (w w' : W)
        → drivers.apply_networks c nets w ≡ (w', ok tt)
        → Drove c nets w'
    pub reapplies :
        (c : ApplyConfig) (nets : List Text) (w w' : W)
        → drivers.reapply_networks c nets w ≡ (w', ok tt)
        → Drove c nets w'
    pub sends :
        (request : Request) (w w' : W) (response : Response)
        → system.send request w ≡ (w', ok response)
        → Answered request response.status w'

  wrap_error-Keeps :
      {A : Type 0} (P : W → Type 0) (prefix : Text) (m : W → W × Result A)
      → Keeps P m
      → Keeps P (wrap_error prefix m)
  wrap_error-Keeps {A} P prefix m h w p = split (m w) (h w p)
    where
      split : (r : W × Result A) → P r.0 → P (wrap_error prefix (λ (_ : W). r) w).0
      split (v, ok a) q = q
      split (v, err e) q = q

  test-Keeps :
      (P : W → Type 0) (b : Bool) (e : Error)
      → Keeps {A = Unit {0}} P (if b then pure tt else fail e)
  test-Keeps P true e w p = p
  test-Keeps P false e w p = p

  -- The test of an answer's status.
  abbrev judged : ℕ → Response → W → W × Result (Unit {0})
  judged wanted response =
      if response.status == wanted
      then pure tt
      else fail (text (codes "controller returned " ++ response.status_line))

  module _ (P : W → Type 0) (stays : Stays P) where
    replace_file-Keeps : (path bytes : Text) → Keeps P (replace_file system path bytes)
    unfolding replace_file
    replace_file-Keeps path bytes =
        let moving = system.rename (path ++ codes ".tmp") path in
        let writing = system.write_file (path ++ codes ".tmp") bytes in
        Keeps->> P (system.make_parent path) (writing >> moving) (stays.make_parent path)
          (Keeps->> P writing moving (stays.write_file _ _) (stays.rename _ _))

    pub save_state-Keeps :
        (path : Text) (values : List Text) → Keeps P (save_state host path values)
    unfolding save_state
    save_state-Keeps path values = replace_file-Keeps path (state_content values)

    pub save_operational_status-Keeps :
        (encode : OperationalStatus → Result Text) (path : Text) (status : OperationalStatus)
        → Keeps P (save_operational_status system encode path status)
    unfolding save_operational_status
    save_operational_status-Keeps encode path status =
        let moving = system.rename (path ++ codes ".tmp") path in
        let writing =
          λ (bytes : Text). system.write_file (path ++ codes ".tmp") (bytes ++ codes "\n") in
        let storing = λ (bytes : Text). writing bytes >> moving in
        Keeps->> P (system.make_parent path) (lift (encode status) >>= storing)
          (stays.make_parent path)
          (Keeps->>= P (lift (encode status)) storing (λ w p. p)
            (λ bytes. Keeps->> P (writing bytes) moving (stays.write_file _ _) (stays.rename _ _)))

    pub report-Keeps :
        (config : Config) (networks : List Text) → Keeps P (report host config networks)
    unfolding report
    report-Keeps config networks =
        Keeps->>= P (system.send (report_of config networks)) (judged 204) (stays.send _)
          (λ response. test-Keeps P (response.status == 204) _)

    decoded : Config → Response → W → W × Result (List Text)
    decoded config response = do
      payload ← lift response.payload
      if payload.version == 1
          then pure tt
          else fail (numbered (codes "unsupported controller response version ") payload.version)
      lift (validate_networks payload.networks false (max_networks config))

    decoded-Keeps : (config : Config) (response : Response) → Keeps P (decoded config response)
    unfolding decoded
    decoded-Keeps config response =
        let found = λ (payload : ApiResponse).
          lift (validate_networks payload.networks false (max_networks config)) in
        let tested = λ (payload : ApiResponse).
          if payload.version == 1
          then pure tt
          else fail (numbered (codes "unsupported controller response version ") payload.version) in
        Keeps->>= P (lift response.payload) (λ payload. tested payload >> found payload) (λ w p. p)
          (λ payload.
            Keeps->> P (tested payload) (found payload) (test-Keeps P (payload.version == 1) _)
              (λ w p. p))

    pub fetch-Keeps : (config : Config) → Keeps P (fetch host config)
    unfolding fetch decoded
    fetch-Keeps config =
        let continued = λ (response : Response). judged 200 response >> decoded config response in
        Keeps->>= P (system.send (get_networks config.api.source_url config.api.token)) continued
          (stays.send _)
          (λ response.
            Keeps->> P (judged 200 response) (decoded config response)
              (test-Keeps P (response.status == 200) _) (decoded-Keeps config response))

    driven-Keeps :
        (periodic : Bool) (c : ApplyConfig) (nets : List Text)
        → Keeps P
            (if periodic then drivers.reapply_networks c nets else drivers.apply_networks c nets)
    driven-Keeps true c nets = stays.reapply c nets
    driven-Keeps false c nets = stays.apply c nets

    pub apply_all-Keeps :
        (periodic : Bool) (cs : List ApplyConfig) (nets : List Text)
        → Keeps P (apply_all host periodic cs nets)
    unfolding apply_all
    apply_all-Keeps periodic [] nets w p = p
    apply_all-Keeps periodic (c ∷ cs) nets w p =
        let driven =
          if periodic then drivers.reapply_networks c nets else drivers.apply_networks c nets in
        Keeps->> P (wrap_error (codes "apply " ++ c.driver) driven)
          (apply_all host periodic cs nets)
          (wrap_error-Keeps P (codes "apply " ++ c.driver) driven (driven-Keeps periodic c nets))
          (apply_all-Keeps periodic cs nets) w p

  wrap_error-eq :
      {A : Type 0} (prefix : Text) (m : W → W × Result A) (w w' : W) {a : A}
      → wrap_error prefix m w ≡ (w', ok a)
      → m w ≡ (w', ok a)
  wrap_error-eq {A} prefix m w w' {a} e = split (m w) e
    where
      split : (r : W × Result A) → wrap_error prefix (λ (_ : W). r) w ≡ (w', ok a) → r ≡ (w', ok a)
      split (v, ok b) k = k
      split (v, err x) k = absurd (ground arith)

  module _ (evidence : Evidence) where
    open evidence use {Drove, Answered}

    -- Every driver of a configuration has been run with these networks.
    abbrev pub AllDrove : List ApplyConfig → List Text → W → Type 0
    AllDrove [] nets w = Unit {0}
    AllDrove (c ∷ cs) nets w = Drove c nets w × AllDrove cs nets w

    driven-Drove :
        (periodic : Bool) (c : ApplyConfig) (nets : List Text) (w w' : W)
        → (if periodic then drivers.reapply_networks c nets else drivers.apply_networks c nets) w
          ≡ (w', ok tt)
        → Drove c nets w'
    driven-Drove true = evidence.reapplies
    driven-Drove false = evidence.applies

    pub apply_all-AllDrove :
        (periodic : Bool) (cs : List ApplyConfig) (nets : List Text) (w w' : W)
        → apply_all host periodic cs nets w ≡ (w', ok tt)
        → AllDrove cs nets w'
    unfolding apply_all
    apply_all-AllDrove periodic [] nets w w' e = tt
    apply_all-AllDrove periodic (c ∷ cs) nets w w' e =
        let driven =
          if periodic then drivers.reapply_networks c nets else drivers.apply_networks c nets in
        let (_, v, first, rest) =
          >>=-eq-ok (wrap_error (codes "apply " ++ c.driver) driven)
            (λ _. apply_all host periodic cs nets) w e in
        let drove =
          driven-Drove periodic c nets w v
            (wrap_error-eq (codes "apply " ++ c.driver) driven w v first) in
        (
          rw (ap (λ p. p.0) rest) at (
              apply_all-Keeps (Drove c nets) (evidence.drove_stays c nets) periodic cs nets v
                drove),
          apply_all-AllDrove periodic cs nets v w' rest,
        )

    pub report-Answered :
        (config : Config) (networks : List Text) (w w' : W)
        → report host config networks w ≡ (w', ok tt)
        → Answered (report_of config networks) 204 w'
    unfolding report
    report-Answered config networks w w' e =
        let (response, v, sent, rest) =
          >>=-eq-ok (system.send (report_of config networks)) (judged 204) w e in
        tested response v (evidence.sends _ w v response sent) (response.status == 204) refl rest
      where
        tested :
            (response : Response) (v : W)
            → Answered (report_of config networks) response.status v
            → (b : Bool) → (response.status == 204) ≡ b
            → (if b
                  then pure tt
                  else fail (text (codes "controller returned " ++ response.status_line)))
                v
              ≡ (w', ok tt)
            → Answered (report_of config networks) 204 w'
        tested response v answered true test k =
            let status : response.status ≡ 204 = grind arith in
            rw (status, ap (λ p. p.0) k) at answered
        tested response v answered false test k = absurd (ground arith)
