-- ===== src/Tests/Canonical.antt =====
-- Runs of internal/pbr/networks.go.
use netflix_pbrd.Base.{◌≡◌, refl, some, none, codes, [], ◌∷◌, true, ok, err}
use netflix_pbrd.Networks.{
  canonical_network, merge, validate_networks, needs_host, limit_exceeded, state_content,
  scan_lines, run_canonical, run_merge, run_validate,
}

hosts :
    (canonical_network (codes " 8.8.8.8 \n") ≡ some (codes "8.8.8.8/32"))
    × (canonical_network (codes "::ffff:8.8.4.4") ≡ some (codes "8.8.4.4/32"))
    × (canonical_network (codes "::ffff:808:808") ≡ some (codes "8.8.8.8/32"))
    × (canonical_network (codes "2001:db8::1") ≡ none)
    × (canonical_network (codes "10.1.2.3") ≡ none)
    × (canonical_network (codes "08.8.8.8") ≡ none)
    × (canonical_network (codes "8.8.8") ≡ none)
    × (canonical_network (codes "") ≡ none)
unfolding run_canonical
hosts = (refl, refl, refl, refl, refl, refl, refl, refl)

cidrs :
    (canonical_network (codes "23.246.0.77/24") ≡ some (codes "23.246.0.0/24"))
    × (canonical_network (codes "23.246.0.77/030") ≡ some (codes "23.246.0.76/30"))
    × (canonical_network (codes "23.246.0.77/23") ≡ none)
    × (canonical_network (codes "192.168.0.0/24") ≡ none)
    × (canonical_network (codes "::ffff:8.8.8.8/128") ≡ none)
    × (canonical_network (codes "8.8.8.8/") ≡ none)
unfolding run_canonical
cidrs = (refl, refl, refl, refl, refl, refl)

sets :
    (merge ((codes "8.8.8.8" ∷ codes "1.1.1.1" ∷ []) ∷ (codes "bad" ∷ codes "8.8.8.8/32" ∷ []) ∷ [])
      ≡ codes "1.1.1.1/32" ∷ codes "8.8.8.8/32" ∷ [])
    × (validate_networks (codes "8.8.8.0/24" ∷ []) true 5 ≡ err (needs_host (codes "8.8.8.0/24")))
    × (validate_networks (codes "8.8.8.8" ∷ codes "8.8.8.8/32" ∷ []) true 1
        ≡ ok (codes "8.8.8.8/32" ∷ []))
    × (validate_networks (codes "8.8.8.8" ∷ codes "8.8.4.4" ∷ []) true 1 ≡ err (limit_exceeded 1))
unfolding run_merge run_validate
sets = (refl, refl, refl, refl)

files :
    (scan_lines [] (state_content (codes "a" ∷ codes "b" ∷ [])) ≡ codes "a" ∷ codes "b" ∷ [])
    × (scan_lines [] (state_content []) ≡ [] ∷ [])
unfolding scan_lines state_content
files = (refl, refl)
