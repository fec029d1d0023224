-- ===== src/Tests/Examples.antt =====
-- The theorems on networks, configurations and DNS answers at concrete inputs.
use netflix_pbrd.Base.{
  ℕ, ◌≤◌, ◌≡◌, refl, ◌⊎◌, ◌↔◌, true, false, not, ◌&&◌, ◌||◌, [], ◌∷◌, ◌++◌, Text, length, some, ok,
  codes, arith, All,
}
use netflix_pbrd.Text.{contains, contains_byte, has_suffix, text_eq}
use netflix_pbrd.Net.{V4}
use netflix_pbrd.Net.RoundTrip.{IsV4}
use netflix_pbrd.Networks.{
  canonical_network, merge, validate_networks, is_public, network_text, effective_max,
  state_content, scan_lines, run_canonical, run_merge, run_validate,
}
use netflix_pbrd.Networks.Canonical.{canonical_network_idem}
use netflix_pbrd.Networks.Public.{
  is_public-reserved_blocks, canonical_network-public, in_blocks, reserved_blocks, number,
  InNetwork,
}
use netflix_pbrd.Networks.Merging.{merge-merge, is_form}
use netflix_pbrd.Networks.Validation.{
  validate_networks-ok, validate_networks-accepts, IsValidated, IsAccepted,
}
use netflix_pbrd.Networks.Files.{scan_lines-state_content}
use netflix_pbrd.Config.Load.{load_config, with_max, first_error, check_dns_proxy, check_applies}
use netflix_pbrd.Config.{poll_interval, reapply_every}
use netflix_pbrd.Config.Loaded.{load_config-ok, IsLoaded}
use netflix_pbrd.Dns.{trust, inspect, is_netflix_name}
use netflix_pbrd.Dns.Trust.{asks, records_of}
use netflix_pbrd.Dns.Inspect.{
  trust-stops, trust-names, inspect-aliases, inspect-networks, IsTrusted, has_address,
}
use netflix_pbrd.Dns.Names.{is_netflix_name-IsUnder, HasDomain, IsBalancer}
use netflix_pbrd.Tests.Fixtures.{test_config, one_host, aliased_answer, same_text, no_parsers}

eight_form : canonical_network (codes "8.8.8.8") ≡ some (codes "8.8.8.8/32")
unfolding run_canonical
eight_form = refl

canonical_network_idem_example : canonical_network (codes "8.8.8.8/32") ≡ some (codes "8.8.8.8/32")
canonical_network_idem_example =
    canonical_network_idem (codes "8.8.8.8") (codes "8.8.8.8/32") eight_form

canonical_network-public_example :
    (ip : V4) × (n : ℕ) × (codes "8.8.8.8/32" ≡ network_text ip n)
    × (24 ≤ n)
    × (n ≤ 32)
    × ((v : V4) → IsV4 v → InNetwork ip n v → in_blocks (number v) reserved_blocks ≡ false)
canonical_network-public_example =
    canonical_network-public (codes "8.8.8.8") (codes "8.8.8.8/32") eight_form

abbrev private_host : V4
private_host = record { a = 192; b = 168; c = 1; d = 7 }

is_public-reserved_blocks_example :
    is_public private_host ≡ not (in_blocks (number private_host) reserved_blocks)
is_public-reserved_blocks_example = is_public-reserved_blocks private_host (ground arith)

merge-merge_example :
    merge (merge (one_host ∷ []) ∷ (codes "1.1.1.1" ∷ []) ∷ [])
    ≡ merge ((one_host ∷ []) ++ ((codes "1.1.1.1" ∷ []) ∷ []))
merge-merge_example = merge-merge (one_host ∷ []) ((codes "1.1.1.1" ∷ []) ∷ [])

one_validated : validate_networks one_host true 16 ≡ ok (codes "8.8.8.8/32" ∷ [])
unfolding run_validate
one_validated = refl

validate_networks-ok_example : IsValidated one_host true 16 (codes "8.8.8.8/32" ∷ [])
validate_networks-ok_example = validate_networks-ok one_host true 16 one_validated

one-IsAccepted : All (IsAccepted true) one_host
unfolding run_canonical has_suffix
one-IsAccepted = (refl, tt)

one_bounded : length (merge (one_host ∷ [])) ≤ effective_max 16
unfolding run_merge
one_bounded = omega arith

validate_networks-accepts_example : validate_networks one_host true 16 ≡ ok (merge (one_host ∷ []))
validate_networks-accepts_example =
    validate_networks-accepts one_host true 16 one-IsAccepted one_bounded

scan_lines-state_content_example :
    scan_lines [] (state_content (codes "8.8.8.8/32" ∷ codes "x" ∷ []))
    ≡ codes "8.8.8.8/32" ∷ codes "x" ∷ []
scan_lines-state_content_example =
    scan_lines-state_content (codes "8.8.8.8/32") (codes "x" ∷ [])
      (unfold contains_byte in ground arith)

loaded :
    load_config no_parsers (codes "controller") test_config ≡ ok (with_max no_parsers test_config)
unfolding load_config text_eq first_error check_dns_proxy check_applies poll_interval reapply_every
    run_validate
loaded = refl

load_config-ok_example : IsLoaded no_parsers (with_max no_parsers test_config)
load_config-ok_example =
    load_config-ok no_parsers (codes "controller") test_config (with_max no_parsers test_config)
      loaded

trust-stops_example : (trust same_text test_config.dns_proxy [] aliased_answer).changed ≡ false
trust-stops_example = trust-stops same_text test_config.dns_proxy [] aliased_answer

trust-names_example :
    contains (trust same_text test_config.dns_proxy [] aliased_answer).names (codes "edge.example")
      ≡ true
    ↔ IsTrusted same_text test_config.dns_proxy [] aliased_answer (codes "edge.example")
trust-names_example =
    trust-names same_text test_config.dns_proxy [] aliased_answer (codes "edge.example")

inspect-networks_example :
    contains (inspect same_text test_config.dns_proxy [] aliased_answer).1 (codes "8.8.8.8/32")
      ≡ true
    ↔ ((owner : Text) × (address : Text) × (has_address same_text
            (records_of aliased_answer)
            owner
            address
          ≡ true)
        × IsTrusted same_text test_config.dns_proxy [] aliased_answer owner
        × (is_form (canonical_network address) (codes "8.8.8.8/32") ≡ true))
inspect-networks_example =
    inspect-networks same_text test_config.dns_proxy [] aliased_answer (codes "8.8.8.8/32")

is_netflix_name-IsUnder_example :
    is_netflix_name same_text test_config.dns_proxy (codes "www.netflix.com") ≡ true ↔ (
      HasDomain same_text test_config.dns_proxy.trusted_suffixes (codes "www.netflix.com")
      ⊎ IsBalancer same_text test_config.dns_proxy (codes "www.netflix.com"))
is_netflix_name-IsUnder_example =
    is_netflix_name-IsUnder same_text test_config.dns_proxy (codes "www.netflix.com")

inspect-aliases_example :
    contains (inspect same_text test_config.dns_proxy [] aliased_answer).0 (codes "edge.example")
    ≡ (contains [] (codes "edge.example")
        || (contains
              (trust same_text test_config.dns_proxy [] aliased_answer).names
              (codes "edge.example")
            && not (
                asks same_text test_config.dns_proxy aliased_answer.questions
                  (codes "edge.example"))))
inspect-aliases_example =
    inspect-aliases same_text test_config.dns_proxy [] aliased_answer (codes "edge.example")
