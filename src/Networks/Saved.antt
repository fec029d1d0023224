-- ===== src/Networks/Saved.antt =====
-- State files of network sets: every set but the empty one is read back as it was written.
use netflix_pbrd.Base.{
  ℕ, ◌≡◌, refl, ap, ◌∙◌, ◌≤◌, ◌<◌, true, List, [], ◌∷◌, ◌++◌, Text, length, All, All-mono, arith,
  ok,
}
use netflix_pbrd.Text.{itoa}
use netflix_pbrd.Net.{V4, v4_text}
use netflix_pbrd.Net.RoundTrip.{IsV4}
use netflix_pbrd.Text.Ink.{IsInk, IsWord, append-IsInk, contains_byte-IsInk, itoa-IsInk}
use netflix_pbrd.Networks.{
  network_text, scan_lines, state_content, drop_cr, validate_networks, effective_max, run_canonical,
}
use netflix_pbrd.Networks.Canonical.{canonical_network-IsCanonical}
use netflix_pbrd.Networks.Merging.{IsForm, IsNetworkSet, merge_one}
use netflix_pbrd.Networks.Validation.{IsHost, IsAccepted, validate_networks-accepts}
use netflix_pbrd.Networks.Files.{IsLine, scan_lines-state_content}

drop_cr-IsInk : (s : Text) → IsInk s → drop_cr s ≡ s
drop_cr-IsInk [] h = refl
drop_cr-IsInk (c ∷ []) h = ground (arith, h.0)
drop_cr-IsInk (c ∷ d ∷ s) h = ap (λ t. c ∷ t) (drop_cr-IsInk (d ∷ s) h.1)

dotted : (n : ℕ) (rest : Text) → n < 256 → IsInk rest → IsInk (itoa n ++ (b'.' ∷ rest))
dotted n rest l h =
    append-IsInk (itoa n) (b'.' ∷ rest) (itoa-IsInk n (omega arith)) ((omega arith, omega arith), h)

network_text-IsInk : (ip : V4) (ones : ℕ) → IsV4 ip → ones ≤ 32 → IsInk (network_text ip ones)
unfolding network_text v4_text
network_text-IsInk ip ones v l =
    append-IsInk (itoa ip.a ++ (b'.' ∷ (itoa ip.b ++ (b'.' ∷ (itoa ip.c ++ (b'.' ∷ itoa ip.d))))))
      (b'/' ∷ itoa ones)
      (dotted ip.a _ v.a_lt
        (dotted ip.b _ v.b_lt (dotted ip.c _ v.c_lt (itoa-IsInk ip.d (omega (arith, v.d_lt))))))
      ((omega arith, omega arith), itoa-IsInk ones (omega arith))

pub IsForm-IsInk : (s : Text) → IsForm s → IsInk s
IsForm-IsInk s h =
    let c = canonical_network-IsCanonical s s h in
    rw c.reads (network_text-IsInk c.ip c.ones c.bytes c.high)

IsForm-IsLine : (s : Text) → IsForm s → IsLine s
IsForm-IsLine s h =
    (contains_byte-IsInk s 10 (omega arith) (IsForm-IsInk s h), drop_cr-IsInk s (IsForm-IsInk s h))

IsForm-IsWord : (s : Text) → IsForm s → IsWord s
unfolding run_canonical
IsForm-IsWord [] h = absurd (ground arith)
IsForm-IsWord (c ∷ s) h = IsForm-IsInk (c ∷ s) h

pub All-IsWord : (set : List Text) → All IsForm set → All IsWord set
All-IsWord set h = All-mono IsForm IsWord IsForm-IsWord set h

All-IsLine : (set : List Text) → All IsForm set → All IsLine set
All-IsLine [] h = tt
All-IsLine (x ∷ set) h = (IsForm-IsLine x h.0, All-IsLine set h.1)

-- A set of canonical forms that is not empty is read back from its state file as it was saved.
pub scan_lines-set :
    (x : Text) (set : List Text)
    → IsNetworkSet (x ∷ set)
    → scan_lines [] (state_content (x ∷ set)) ≡ x ∷ set
scan_lines-set x set h = scan_lines-state_content x set (All-IsLine (x ∷ set) h.forms)

host-IsAccepted : (set : List Text) → All IsForm set → All IsHost set → All (IsAccepted true) set
host-IsAccepted [] h k = tt
host-IsAccepted (x ∷ set) h k = (rw (h.0, k.0) refl, host-IsAccepted set h.1 k.1)

pub validate_networks_of_hosts :
    (set : List Text) (max : ℕ)
    → IsNetworkSet set
    → All IsHost set
    → length set ≤ effective_max max
    → validate_networks set true max ≡ ok set
validate_networks_of_hosts set max h hosts bound =
    validate_networks-accepts set true max (host-IsAccepted set h.forms hosts)
      (rw (merge_one set h) bound)
    ∙ ap ok (merge_one set h)
