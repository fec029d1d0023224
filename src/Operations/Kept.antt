-- ===== src/Operations/Kept.antt =====
-- What the commands of stopping and of cleaning up keep.
use netflix_pbrd.Base.{
  ℕ, false, List, [], ◌∷◌, ◌++◌, Text, ◌>>◌, pure, fail, when, Result, ok, err, Keeps, Keeps->>=,
  Keeps->>, Keeps-if, Keeps-when, Keeps-catch, codes,
}
use netflix_pbrd.Text.{text_eq, trim_space}
use netflix_pbrd.Text.Words.{words}
use netflix_pbrd.Config.{ApplyConfig}
use netflix_pbrd.Drivers.Edge.{set_allowed}
use netflix_pbrd.Operations.Machine.{Machine}
use netflix_pbrd.Operations.Cleanup.{
  is_missing_error, probed, tolerated, cleanup_probe, run_allow_missing, run_list, undo,
  remove_route, remove_routes,
}

module _ {W : Type 0} (m : Machine W) (P : W → Type 0) where
  -- A predicate that commands, signals, sleeps and reading the clock keep.
  pub record IsSteady : Type 0 where
    pub runs : (name : Text) (args : List Text) → Keeps P (m.runner.run name args)
    pub outputs : (name : Text) (args : List Text) → Keeps P (m.runner.output name args)
    pub nows : (w : W) → P w → P (m.system.now w).0
    pub kills : (pid signal : ℕ) (w : W) → P w → P (m.kill pid signal w).0
    pub sleeps : (d : ℕ) (w : W) → P w → P (m.sleep d w)

  module _ (runs : (name : Text) (args : List Text) → Keeps P (m.runner.run name args))
      (outputs : (name : Text) (args : List Text) → Keeps P (m.runner.output name args)) where
    probed-Keeps : (r : Result (Unit {0})) → Keeps P (probed m r)
    probed-Keeps (ok u) w p = p
    probed-Keeps (err e) w p =
        Keeps-if P (is_missing_error m e) (pure false) (fail e) (λ w p. p) (λ w p. p) w p

    tolerated-Keeps : (r : Result (Unit {0})) → Keeps P (tolerated m r)
    tolerated-Keeps (ok u) w p = p
    tolerated-Keeps (err e) w p =
        Keeps-if P (is_missing_error m e) (pure tt) (fail e) (λ w p. p) (λ w p. p) w p

    pub run_allow_missing-Keeps :
        (name : Text) (args : List Text) → Keeps P (run_allow_missing m name args)
    unfolding run_allow_missing
    run_allow_missing-Keeps name args =
        Keeps-catch P (m.runner.run name args) (tolerated m) (runs name args) tolerated-Keeps

    run_list-Keeps :
        (name : Text) (commands : List (List Text)) → Keeps P (run_list m name commands)
    run_list-Keeps name [] w p = p
    run_list-Keeps name (args ∷ commands) w p =
        Keeps->> P (m.runner.run name args) (run_list m name commands) (runs name args)
          (run_list-Keeps name commands) w p

    pub undo-Keeps :
        (name : Text) (probe : List Text) (commands : List (List Text))
        → Keeps P (undo m name probe commands)
    unfolding undo cleanup_probe
    undo-Keeps name probe commands =
        Keeps->>= P (cleanup_probe m name probe)
          (λ present. when present (run_list m name commands))
          (Keeps-catch P (m.runner.run name probe) (probed m) (runs name probe) probed-Keeps)
          (λ present.
            Keeps-when P present (run_list m name commands) (run_list-Keeps name commands))

    remove_route-Keeps :
        (c : ApplyConfig) (network shown : Text) → Keeps P (remove_route m c network shown)
    remove_route-Keeps c network shown =
        Keeps-if P (text_eq (trim_space shown) (codes "")) (pure tt) _ (λ w p. p)
          (run_allow_missing-Keeps (codes "ip") _)

    pub remove_routes-Keeps :
        (c : ApplyConfig) (networks : List Text) → Keeps P (remove_routes m c networks)
    unfolding remove_routes
    remove_routes-Keeps c [] w p = p
    remove_routes-Keeps c (network ∷ networks) w p =
        Keeps->>= P (m.runner.output (codes "ip") (words "route show" ++ (network ∷ [])))
          (λ shown. remove_route m c network shown >> remove_routes m c networks)
          (outputs (codes "ip") (words "route show" ++ (network ∷ [])))
          (λ shown.
            Keeps->> P (remove_route m c network shown) (remove_routes m c networks)
              (remove_route-Keeps c network shown) (remove_routes-Keeps c networks))
          w p

    pub set_allowed-Keeps :
        (c : ApplyConfig) (networks : Text) → Keeps P (set_allowed m.runner c networks)
    unfolding set_allowed
    set_allowed-Keeps c networks = runs (codes "wg") _
