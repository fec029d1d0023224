-- ===== src/Networks/Public.antt =====
-- `isPublicIPv4` against the list of reserved blocks, and the addresses of an accepted network.
use netflix_pbrd.Base.{
  ℕ, ◌+◌, ◌*◌, ◌≤◌, ◌<◌, ◌≡◌, refl, sym, ◌∙◌, true, false, Bool, not, ◌&&◌, ◌||◌, List, [], ◌∷◌,
  some, Text, arith, ltb, leb, ◌==◌,
}
use netflix_pbrd.Net.{V4, mask_bytes}
use netflix_pbrd.Net.RoundTrip.{IsV4}
use netflix_pbrd.Networks.Canonical.{
  canonical_network-IsCanonical, is_public_of_prefix, v4_bytes, mask_bytes_high,
}
use netflix_pbrd.Networks.{is_public, canonical_network, network_text}

-- An address as a number of 32 bits.
abbrev pub number : V4 → ℕ
number v = v.a * 16777216 + v.b * 65536 + v.c * 256 + v.d

-- Blocks of addresses, each by its first address and the one behind its last: 0.0.0.0/8, 10/8,
-- 127/8, all from 224.0.0.0 on, 100.64/10, 169.254/16, 172.16/12, 192.0/16, 192.168/16, 198.18/15,
-- 198.51.100/24 and 203.0.113/24.
abbrev pub reserved_blocks : List (ℕ × ℕ)
reserved_blocks =
    (0x00000000, 0x01000000)
    ∷ (0x0A000000, 0x0B000000)
    ∷ (0x7F000000, 0x80000000)
    ∷ (0xE0000000, 0x100000000)
    ∷ (0x64400000, 0x64800000)
    ∷ (0xA9FE0000, 0xA9FF0000)
    ∷ (0xAC100000, 0xAC200000)
    ∷ (0xC0000000, 0xC0010000)
    ∷ (0xC0A80000, 0xC0A90000)
    ∷ (0xC6120000, 0xC6140000)
    ∷ (0xC6336400, 0xC6336500)
    ∷ (0xCB007100, 0xCB007200)
    ∷ []

abbrev pub in_blocks : ℕ → List (ℕ × ℕ) → Bool
in_blocks n [] = false
in_blocks n ((first, behind) ∷ blocks) = leb first n && ltb n behind || in_blocks n blocks

abbrev in_block : ℕ → ℕ → ℕ → Bool
in_block n first behind = leb first n && ltb n behind

-- A test on the bytes is a test on the number.
module _ (v : V4) (h : IsV4 v) where
  block_8 : (k : ℕ) → in_block (number v) (k * 16777216) ((k + 1) * 16777216) ≡ (v.a == k)
  block_8 k = ground (arith, h.b_lt, h.c_lt, h.d_lt)

  block_from_224 : in_block (number v) 0xE0000000 0x100000000 ≡ leb 224 v.a
  block_from_224 = ground (arith, h.a_lt, h.b_lt, h.c_lt, h.d_lt)

  block_range :
      (k low high : ℕ)
      → high < 256
      → in_block (number v) (k * 16777216 + low * 65536) (k * 16777216 + (high + 1) * 65536)
        ≡ (v.a == k && leb low v.b && leb v.b high)
  block_range k low high t = ground (arith, h.b_lt, h.c_lt, h.d_lt)

  block_16 :
      (k l : ℕ)
      → l < 256
      → in_block (number v) (k * 16777216 + l * 65536) (k * 16777216 + (l + 1) * 65536)
        ≡ (v.a == k && v.b == l)
  block_16 k l t = ground (arith, h.b_lt, h.c_lt, h.d_lt)

  -- Two neighbours
  block_15 :
      (k l : ℕ)
      → l < 255
      → in_block (number v) (k * 16777216 + l * 65536) (k * 16777216 + (l + 2) * 65536)
        ≡ (v.a == k && (v.b == l || v.b == l + 1))
  block_15 k l t = ground (arith, h.b_lt, h.c_lt, h.d_lt)

  block_24 :
      (k l m : ℕ)
      → l < 256
      → m < 256
      → in_block
          (number v)
          (k * 16777216 + l * 65536 + m * 256)
          (k * 16777216 + l * 65536 + (m + 1) * 256)
        ≡ (v.a == k && (v.b == l && v.c == m))
  block_24 k l m t u = ground (arith, h.b_lt, h.c_lt, h.d_lt)

-- The tests of the code, block by block.
by_block : V4 → List Bool
by_block v =
    (v.a == 0)
    ∷ (v.a == 10)
    ∷ (v.a == 127)
    ∷ leb 224 v.a
    ∷ (v.a == 100 && leb 64 v.b && leb v.b 127)
    ∷ (v.a == 169 && v.b == 254)
    ∷ (v.a == 172 && leb 16 v.b && leb v.b 31)
    ∷ (v.a == 192 && v.b == 0)
    ∷ (v.a == 192 && v.b == 168)
    ∷ (v.a == 198 && (v.b == 18 || v.b == 19))
    ∷ (v.a == 198 && (v.b == 51 && v.c == 100))
    ∷ (v.a == 203 && (v.b == 0 && v.c == 113))
    ∷ []

abbrev any : List Bool → Bool
any [] = false
any (b ∷ bs) = b || any bs

in_blocks-by_block : (v : V4) → IsV4 v → in_blocks (number v) reserved_blocks ≡ any (by_block v)
unfolding by_block
in_blocks-by_block v h =
    rw
      (
        block_8 v h 0,
        block_8 v h 10,
        block_8 v h 127,
        block_from_224 v h,
        block_range v h 100 64 127 (omega arith),
        block_16 v h 169 254 (omega arith),
        block_range v h 172 16 31 (omega arith),
        block_16 v h 192 0 (omega arith),
        block_16 v h 192 168 (omega arith),
        block_15 v h 198 18 (omega arith),
        block_24 v h 198 51 100 (omega arith) (omega arith),
        block_24 v h 203 0 113 (omega arith) (omega arith),
      )
      refl

-- The nested tests of the code as one disjunction.
flatten_tests :
    (p q r s t a e b c d d' f f' g g' k : Bool)
    → (not (p || q || r || s)
        && not (t || a || e || b && (c || d) || d' && (f || f') || g && g' && k))
      ≡ not (
          any (
            p
            ∷ q
            ∷ r
            ∷ s
            ∷ t
            ∷ a
            ∷ e
            ∷ (b && c)
            ∷ (b && d)
            ∷ (d' && f)
            ∷ (d' && f')
            ∷ (g && (g' && k))
            ∷ []))
flatten_tests true q r s t a e b c d d' f f' g g' k = refl
flatten_tests false true r s t a e b c d d' f f' g g' k = refl
flatten_tests false false true s t a e b c d d' f f' g g' k = refl
flatten_tests false false false true t a e b c d d' f f' g g' k = refl
flatten_tests false false false false true a e b c d d' f f' g g' k = refl
flatten_tests false false false false false true e b c d d' f f' g g' k = refl
flatten_tests false false false false false false true b c d d' f f' g g' k = refl
flatten_tests false false false false false false false b c d d' f f' g g' k = ground arith

is_public-by_block : (v : V4) → is_public v ≡ not (any (by_block v))
unfolding is_public by_block
is_public-by_block v =
    flatten_tests (v.a == 0) (v.a == 10) (v.a == 127) (leb 224 v.a)
      (v.a == 100 && leb 64 v.b && leb v.b 127) (v.a == 169 && v.b == 254)
      (v.a == 172 && leb 16 v.b && leb v.b 31) (v.a == 192) (v.b == 0) (v.b == 168) (v.a == 198)
      (v.b == 18 || v.b == 19) (v.b == 51 && v.c == 100) (v.a == 203) (v.b == 0) (v.c == 113)

-- `isPublicIPv4` accepts an address of four bytes exactly if it is outside the reserved blocks.
pub is_public-reserved_blocks :
    (v : V4) → IsV4 v → is_public v ≡ not (in_blocks (number v) reserved_blocks)
is_public-reserved_blocks v h = is_public-by_block v ∙ rw (in_blocks-by_block v h)

-- The address `v` lies in the network of `ip` and `n` bits.
abbrev pub InNetwork : V4 → ℕ → V4 → Type 0
InNetwork ip n v = mask_bytes n (v4_bytes v) ≡ mask_bytes n (v4_bytes ip)

same_prefix :
    {a b c d a' b' c' d' : ℕ}
    → ◌≡◌ {A = List ℕ} (a ∷ b ∷ c ∷ d ∷ []) (a' ∷ b' ∷ c' ∷ d' ∷ [])
    → (a ≡ a') × (b ≡ b') × (c ≡ c')
same_prefix e = (cc, cc, cc)

InNetwork-prefix :
    (ip v : V4) (n : ℕ) → 24 ≤ n → InNetwork ip n v → (v.a ≡ ip.a) × (v.b ≡ ip.b) × (v.c ≡ ip.c)
InNetwork-prefix ip v n low inside = same_prefix (
    sym (mask_bytes_high v.a v.b v.c v.d n low)
    ∙ inside
    ∙ mask_bytes_high ip.a ip.b ip.c ip.d n low)

-- Every address of a network that `CanonicalNetwork` accepts is public: the returned text names a
-- network of 24 to 32 bits, and no address in it lies in a reserved block.
pub canonical_network-public :
    (raw w : Text)
    → canonical_network raw ≡ some w
    → (ip : V4) × (n : ℕ) × (w ≡ network_text ip n)
      × (24 ≤ n)
      × (n ≤ 32)
      × ((v : V4) → IsV4 v → InNetwork ip n v → in_blocks (number v) reserved_blocks ≡ false)
canonical_network-public raw w e =
    let c = canonical_network-IsCanonical raw w e in
    (
      c.ip,
      c.ones,
      c.reads,
      c.low,
      c.high,
      λ v h inside.
          let (p, q, r) = InNetwork-prefix c.ip v c.ones c.low inside in
          outside v h (is_public_of_prefix v c.ip p q r ∙ c.public),
    )
  where
    outside : (v : V4) → IsV4 v → is_public v ≡ true → in_blocks (number v) reserved_blocks ≡ false
    outside v h p = flip _ (sym (is_public-reserved_blocks v h) ∙ p)
      where
        flip : (b : Bool) → not b ≡ true → b ≡ false
        flip b e = ground arith
