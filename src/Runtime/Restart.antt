-- ===== src/Runtime/Restart.antt =====
-- `newRuntime` of internal/pbr/runtime.go on the state files of an earlier run.
use netflix_pbrd.Base.{◌≡◌, refl, ap, ◌∙◌, List, [], ◌∷◌, Text, ok, err, wrapped, codes, arith}
use netflix_pbrd.Text.Sets.{sorted_ext}
use netflix_pbrd.Networks.{merge, state_content, run_validate, invalid_network}
use netflix_pbrd.Networks.Merging.{names_forms, IsNetworkSet, merge-IsNetworkSet, contains-merge}
use netflix_pbrd.Networks.Validation.{validate_networks_of_set}
use netflix_pbrd.Networks.Files.{scan_lines-empty}
use netflix_pbrd.Networks.Saved.{scan_lines-set, validate_networks_of_hosts}
use netflix_pbrd.Config.{Config, max_networks}
use netflix_pbrd.System.{FileRead, missing, content}
use netflix_pbrd.Runtime.Daemon.{Host, file_lines, load_state, learned_state_file, initial_sets}
use netflix_pbrd.Runtime.Invariant.{AreSound}
use netflix_pbrd.Runtime.Learning.{effective_max_idem}

-- What a state file holds for a set that is not empty, or for one that was never saved.
pub data IsSaved : List Text → FileRead → Type 0 where
  never : IsSaved [] missing
  written : (x : Text) (set : List Text) → IsSaved (x ∷ set) (content (state_content (x ∷ set)))

file_lines-IsSaved :
    (set : List Text) (file : FileRead)
    → IsSaved set file
    → IsNetworkSet set
    → file_lines file ≡ ok set
file_lines-IsSaved _ _ never h = refl
file_lines-IsSaved _ _ (written x set) h = ap ok (scan_lines-set x set h)

-- Merging the learned hosts and the seeds into the desired networks that hold them adds nothing.
merge-AreSound :
    (c : Config) (desired learned : List Text)
    → AreSound c desired learned
    → merge (desired ∷ learned ∷ c.seed_networks ∷ []) ≡ desired
merge-AreSound c desired learned h =
    sorted_ext _ _ (merge-IsNetworkSet (desired ∷ learned ∷ c.seed_networks ∷ [])).sorted
      h.desired_set.sorted
      (λ y.
        contains-merge (desired ∷ learned ∷ c.seed_networks ∷ []) y
        ∙ ground (
          arith,
          names_forms desired y h.desired_set.forms,
          names_forms learned y h.learned_set.forms,
          h.learned_desired y,
          h.seeds_desired y,
        ))

module _ {W : Type 0} (host : Host W) where
  -- Restarted on the state files of a sound pair of sets, each either not empty or never saved, a
  -- daemon starts from these sets.
  pub initial_sets-recovers :
      (c : Config) (w : W) (desired learned : List Text)
      → AreSound c desired learned
      → IsSaved desired (host.system.read_file c.state_file w)
      → IsSaved learned (host.system.read_file (learned_state_file c.state_file) w)
      → initial_sets host c w ≡ (w, ok (desired, learned))
  unfolding initial_sets load_state
  initial_sets-recovers c w desired learned h d l =
      rw
        (
          file_lines-IsSaved desired _ d h.desired_set,
          validate_networks_of_set desired (max_networks c) h.desired_set
              (rw effective_max_idem h.desired_bound),
          file_lines-IsSaved learned _ l h.learned_set,
          validate_networks_of_hosts learned (max_networks c) h.learned_set h.learned_hosts
              (rw effective_max_idem h.learned_bound),
          merge-AreSound c desired learned h,
          validate_networks_of_set desired (max_networks c) h.desired_set
              (rw effective_max_idem h.desired_bound),
        )
        refl

  -- Restarted on a state file that an empty set was saved to, a daemon refuses to start.
  pub initial_sets-refuses_empty :
      (c : Config) (w : W)
      → host.system.read_file c.state_file w ≡ content (state_content [])
      → initial_sets host c w ≡ (w, err (wrapped (codes "state") (invalid_network [])))
  unfolding initial_sets load_state run_validate
  initial_sets-refuses_empty c w h = rw (h, scan_lines-empty) refl
