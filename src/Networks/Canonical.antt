-- ===== src/Networks/Canonical.antt =====
-- The canonical form of a network is reached in one step: canonical texts are their own canonical
-- form, and nothing else is returned.
use netflix_pbrd.Base.{
  ℕ, ◌-◌, ◌≤◌, ◌≡◌, refl, sym, ◌∙◌, true, false, Bool, not, ◌||◌, List, [], ◌∷◌, ◌++◌, Option, none,
  some, Text, drop, arith, codes, ltb, if◌then◌else◌, sym, and_then-eq-some, option_map-eq-some,
  Bool-cases, inl, inr, append_assoc,
}
use netflix_pbrd.Net.{
  Ip, Addr, v4, v6, V4, IpNet, quad, to4, mask_byte, mask_bytes, or_not_mask, as16, cidr_parts,
  parse_addr, parse_ip, parse_cidr, net_of, mask_size, v4_text,
}
use netflix_pbrd.Net.Bytes.{AreBytes, IsAddr, AreBytes-drop, parse_addr-IsAddr}
use netflix_pbrd.Net.RoundTrip.{IsV4, parse_addr-v4_text, cut-v4_text, mask_size-itoa}
use netflix_pbrd.Networks.{
  is_public, is_public_ipv4, last_bytes, last_ipv4, network_text, canonical_host, canonical_net,
  canonical_cidr, canonical_trimmed, canonical_network,
}
use mathlib.Core.Option.{some-injective}
use netflix_pbrd.Text.Laws.{contains_byte-append, text_eq→eq}
use netflix_pbrd.Text.Trim.{trim_space_digits, itoa_head, itoa_last}
use netflix_pbrd.Text.{cut, itoa, text_eq, contains_byte, trim_space}
use Prim.Native.Nat.{min}

mask_byte_idem : (t b : ℕ) → mask_byte t (mask_byte t b) ≡ mask_byte t b
mask_byte_idem t b = grind arith

mask_byte-le : (t b : ℕ) → mask_byte t b ≤ b
mask_byte-le t b = grind arith

pub mask_bytes_high :
    (a b c d ones : ℕ)
    → 24 ≤ ones
    → mask_bytes ones (a ∷ b ∷ c ∷ d ∷ []) ≡ a ∷ b ∷ c ∷ mask_byte (min (ones - 24) 8) d ∷ []
unfolding mask_bytes
mask_bytes_high a b c d ones h =
    let e1 : min ones 8 ≡ 8 = omega arith in
    let e2 : min (ones - 8) 8 ≡ 8 = omega arith in
    let e3 : min (ones - 8 - 8) 8 ≡ 8 = omega arith in
    let e4 : ones - 8 - 8 - 8 ≡ ones - 24 = omega arith in rw (e1, e2, e3, e4) (ground arith)

-- The texts that `CanonicalNetwork` returns: a masked public network of 24 to 32 bits.
pub record IsCanonical (w : Text) : Type 0 where
  pub ip : V4
  pub ones : ℕ
  pub bytes : IsV4 ip
  pub low : 24 ≤ ones
  pub high : ones ≤ 32
  pub masked : mask_byte (min (ones - 24) 8) ip.d ≡ ip.d
  pub public : is_public ip ≡ true
  pub reads : w ≡ network_text ip ones

quad-IsV4 : (xs : List ℕ) (v : V4) → AreBytes xs → quad xs ≡ some v → IsV4 v
quad-IsV4 (a ∷ b ∷ c ∷ d ∷ []) v h e = ground arith
quad-IsV4 [] v h e = absurd (ground arith)
quad-IsV4 (a ∷ []) v h e = absurd (ground arith)
quad-IsV4 (a ∷ b ∷ []) v h e = absurd (ground arith)
quad-IsV4 (a ∷ b ∷ c ∷ []) v h e = absurd (ground arith)
quad-IsV4 (a ∷ b ∷ c ∷ d ∷ _ ∷ _) v h e = absurd (ground arith)

-- A value that one of two guarded choices gives.
if_some {ℓ κ} :
    {A : Type ℓ} {P : Type κ} (t u : Bool) (x y : Option A) {v : A}
    → (x ≡ some v → P)
    → (y ≡ some v → P)
    → (if t then x else if u then y else none) ≡ some v
    → P
if_some true u x y f g e = f e
if_some false true x y f g e = g e
if_some false false x y f g e = absurd (ground arith)

to4-IsV4 : (ip : Ip) (v : V4) → AreBytes ip → to4 ip ≡ some v → IsV4 v
unfolding to4
to4-IsV4 ip v h e =
    if_some _ _ (quad ip) (quad (drop 12 ip)) (quad-IsV4 ip v h)
      (quad-IsV4 (drop 12 ip) v (AreBytes-drop 12 ip h)) e

parse_ip-AreBytes : (s : Text) (ip : Ip) → parse_ip s ≡ some ip → AreBytes ip
unfolding parse_ip
parse_ip-AreBytes s ip e =
    let (a, parsed, same) = option_map-eq-some as16 (parse_addr s) e in
    rw (← same) (as16-AreBytes a (parse_addr-IsAddr s a parsed))
  where
    as16-AreBytes : (a : Addr) → IsAddr a → AreBytes (as16 a)
    as16-AreBytes (v4 bytes) h = ground (arith, h.0)
    as16-AreBytes (v6 bytes) h = h

mask_byte_32 : (b : ℕ) → mask_byte 8 b ≡ b
mask_byte_32 b = omega arith

-- A host is written as a network of 32 bits.
host_text : (v : V4) → v4_text v ++ codes "/32" ≡ network_text v 32
unfolding network_text itoa
host_text v = refl

canonical_host-IsCanonical : (s w : Text) → canonical_host s ≡ some w → IsCanonical w
unfolding canonical_host
canonical_host-IsCanonical s w e =
    let (ip, parsed, rest) = and_then-eq-some (parse_ip s) _ e in
    let (v, four, last) = and_then-eq-some (to4 ip) _ rest in
    record {
      ip = v;
      ones = 32;
      bytes = to4-IsV4 ip v (parse_ip-AreBytes s ip parsed) four;
      low = omega arith;
      high = omega arith;
      masked = mask_byte_32 v.d;
      public = public_of ip v four (ground arith);
      reads = ground (arith, host_text v);
    }
  where
    public_of : (ip : Ip) (v : V4) → to4 ip ≡ some v → is_public_ipv4 ip ≡ true → is_public v ≡ true
    public_of ip v four h = unfold is_public_ipv4 in ground arith

cidr_parts-net :
    (parts : Text × Option Text) (p : Ip × IpNet)
    → cidr_parts parts ≡ some p
    → (a : Addr) × (n : ℕ) × IsAddr a × (net_of a n ≡ some p)
cidr_parts-net (addr, none) p e = absurd (ground arith)
cidr_parts-net (addr, some mask) p e =
    let (a, parsed, rest) = and_then-eq-some (parse_addr addr) _ e in
    let (n, size, net) = and_then-eq-some (mask_size mask) _ rest in
    (a, n, parse_addr-IsAddr addr a parsed, net)

abbrev v4_net : V4 → ℕ → IpNet
v4_net v n = record { ip = mask_bytes n (v.a ∷ v.b ∷ v.c ∷ v.d ∷ []); ones = n; bits = 32 }

abbrev pub v4_bytes : V4 → List ℕ
v4_bytes v = v.a ∷ v.b ∷ v.c ∷ v.d ∷ []

abbrev masked_v4 : V4 → ℕ → V4
masked_v4 v n = record v { d = mask_byte (min (n - 24) 8) v.d }

to4-quad : (a b c d : ℕ) → to4 (a ∷ b ∷ c ∷ d ∷ []) ≡ some (record { a = a; b = b; c = c; d = d })
unfolding to4
to4-quad a b c d = refl

to4-as16 :
    (a b c d : ℕ)
    → to4 (as16 (v4 (a ∷ b ∷ c ∷ d ∷ []))) ≡ some (record { a = a; b = b; c = c; d = d })
unfolding to4 text_eq
to4-as16 a b c d = refl

last_bytes_high :
    (a b c d ones : ℕ)
    → 24 ≤ ones
    → last_bytes ones (a ∷ b ∷ c ∷ d ∷ []) ≡ a ∷ b ∷ c ∷ or_not_mask (min (ones - 24) 8) d ∷ []
unfolding last_bytes
last_bytes_high a b c d ones h =
    let e1 : min ones 8 ≡ 8 = omega arith in
    let e2 : min (ones - 8) 8 ≡ 8 = omega arith in
    let e3 : min (ones - 8 - 8) 8 ≡ 8 = omega arith in
    let e4 : ones - 8 - 8 - 8 ≡ ones - 24 = omega arith in rw (e1, e2, e3, e4) (ground arith)

-- The last byte does not enter the tests.
pub is_public_of_prefix : (v w : V4) → v.a ≡ w.a → v.b ≡ w.b → v.c ≡ w.c → is_public v ≡ is_public w
unfolding is_public
is_public_of_prefix v w p q r = rw (p, q, r) refl

is_public_ipv4-quad :
    (a b c d : ℕ)
    → is_public_ipv4 (a ∷ b ∷ c ∷ d ∷ []) ≡ is_public (record { a = a; b = b; c = c; d = d })
unfolding is_public_ipv4
is_public_ipv4-quad a b c d = rw (to4-quad, is_public_ipv4)

-- `canonical_net` on an IPv4 address and its network
canonical_net-v4 :
    (v : V4) (n : ℕ)
    → canonical_net (as16 (v4 (v4_bytes v))) (v4_net v n)
      ≡ (if ltb n 24 || not (is_public v) then none else some (network_text (masked_v4 v n) n))
unfolding canonical_net last_ipv4
canonical_net-v4 v n = elim (Bool-cases (ltb n 24)) [
  | inl small ↦ rw (to4-as16, small) refl
  | inr big ↦
      let h : 24 ≤ n = ground arith in
      let low = mask_byte (min (n - 24) 8) v.d in
      let top = or_not_mask (min (n - 24) 8) low in
      rw
        (
          to4-as16,
          big,
          mask_bytes_high v.a v.b v.c v.d n h,
          last_bytes_high v.a v.b v.c low n h,
          is_public_ipv4-quad v.a v.b v.c low,
          is_public_ipv4-quad v.a v.b v.c top,
          to4-quad v.a v.b v.c low,
          is_public_of_prefix (masked_v4 v n) v refl refl refl,
          is_public_of_prefix (record v { d = top }) v refl refl refl,
        )
        (ground arith)
]

canonical_net-of_v4 :
    (v : V4) (n : ℕ) (p : Ip × IpNet) (w : Text)
    → net_of (v4 (v4_bytes v)) n ≡ some p
    → canonical_net p.0 p.1 ≡ some w
    → (n ≤ 32) × (24 ≤ n) × (is_public v ≡ true) × (w ≡ network_text (masked_v4 v n) n)
unfolding net_of
canonical_net-of_v4 v n p w net e = elim (Bool-cases (ltb 32 n)) [
  | inl large ↦ absurd (ground arith)
  | inr small ↦
      let same : some (as16 (v4 (v4_bytes v)), v4_net v n) ≡ some p = ground arith in
      let q = some-injective _ _ same in
      let given = sym (canonical_net-v4 v n) ∙ rw (← q) at e in
      (ground arith, ground arith, ground arith, ground arith)
]

canonical_net-IsCanonical :
    (a : Addr) (n : ℕ) (p : Ip × IpNet) (w : Text)
    → IsAddr a
    → net_of a n ≡ some p
    → canonical_net p.0 p.1 ≡ some w
    → IsCanonical w
canonical_net-IsCanonical (v6 bytes) n p w h net e =
    absurd (unfold net_of canonical_net in ground arith)
canonical_net-IsCanonical (v4 (a ∷ b ∷ c ∷ d ∷ [])) n p w h net e =
    let v : V4 = record { a = a; b = b; c = c; d = d } in
    let (high, low, public, reads) = canonical_net-of_v4 v n p w net e in
    record {
      ip = masked_v4 v n;
      ones = n;
      bytes = record {
        a_lt = h.0.0;
        b_lt = omega arith;
        c_lt = omega arith;
        d_lt = omega (arith, mask_byte-le (min (n - 24) 8) d);
      };
      low = low;
      high = high;
      masked = mask_byte_idem (min (n - 24) 8) d;
      public = is_public_of_prefix (masked_v4 v n) v refl refl refl ∙ public;
      reads = reads;
    }
canonical_net-IsCanonical (v4 _) n p w h net e = absurd (ground arith)

canonical_cidr-IsCanonical : (s w : Text) → canonical_cidr s ≡ some w → IsCanonical w
unfolding canonical_cidr parse_cidr
canonical_cidr-IsCanonical s w e =
    let (p, parsed, rest) = and_then-eq-some (parse_cidr s) _ e in
    let (a, n, h, net) = cidr_parts-net (cut s b'/') p parsed in
    canonical_net-IsCanonical a n p w h net rest

canonical_trimmed-IsCanonical : (s w : Text) → canonical_trimmed s ≡ some w → IsCanonical w
unfolding canonical_trimmed
canonical_trimmed-IsCanonical s w e =
    ground (arith, canonical_host-IsCanonical s w, canonical_cidr-IsCanonical s w)

-- Whatever `CanonicalNetwork` returns is in canonical form.
pub canonical_network-IsCanonical : (raw w : Text) → canonical_network raw ≡ some w → IsCanonical w
unfolding canonical_network
canonical_network-IsCanonical raw w e = canonical_trimmed-IsCanonical (trim_space raw) w e

-- The other way: a canonical text is read as the network that it names.
parse_cidr-network_text :
    (ip : V4) (n : ℕ)
    → IsV4 ip
    → n ≤ 32
    → parse_cidr (network_text ip n) ≡ some (as16 (v4 (v4_bytes ip)), v4_net ip n)
unfolding parse_cidr network_text net_of
parse_cidr-network_text ip n h k =
    rw (cut-v4_text ip (itoa n) h, parse_addr-v4_text ip h, mask_size-itoa n k) (ground arith)

canonical_cidr-network_text :
    (ip : V4) (n : ℕ)
    → IsV4 ip
    → 24 ≤ n
    → n ≤ 32
    → mask_byte (min (n - 24) 8) ip.d ≡ ip.d
    → is_public ip ≡ true
    → canonical_cidr (network_text ip n) ≡ some (network_text ip n)
unfolding canonical_cidr
canonical_cidr-network_text ip n h low high m p =
    let same : masked_v4 ip n ≡ ip = ground arith in
    rw (parse_cidr-network_text ip n h high) (canonical_net-v4 ip n ∙ rw same (ground arith))

trim_space-network_text :
    (ip : V4) (n : ℕ) → IsV4 ip → trim_space (network_text ip n) ≡ network_text ip n
unfolding network_text v4_text
trim_space-network_text ip n h =
    let (c, s, starts, dc) = itoa_head ip.a (b'.' ∷ tail) (ground (arith, h.a_lt)) in
    let (t, d, ends, dd) = itoa_last n in
    let whole = starts_at c s starts in
    rw whole (
      trim_space_digits c d (s ++ (b'/' ∷ itoa n)) ((c ∷ s) ++ (b'/' ∷ t)) dc dd
        (rw ends (sym (append_assoc (c ∷ s) (b'/' ∷ t) (d ∷ [])))))
  where
    tail : Text
    tail = itoa ip.b ++ (b'.' ∷ (itoa ip.c ++ (b'.' ∷ itoa ip.d)))

    starts_at :
        (c : ℕ) (s : Text)
        → itoa ip.a ++ (b'.' ∷ tail) ≡ c ∷ s
        → (itoa ip.a ++ (b'.' ∷ tail)) ++ (b'/' ∷ itoa n) ≡ c ∷ (s ++ (b'/' ∷ itoa n))
    starts_at c s e = rw e refl

-- A text in canonical form is its own canonical form.
pub canonical_network_of_canonical : (w : Text) → IsCanonical w → canonical_network w ≡ some w
unfolding canonical_network canonical_trimmed
canonical_network_of_canonical w c =
    rw (c.reads, trim_space-network_text c.ip c.ones c.bytes)
      (rw (not_empty, slashed)
        (canonical_cidr-network_text c.ip c.ones c.bytes c.low c.high c.masked c.public))
  where
    slashed : contains_byte (network_text c.ip c.ones) b'/' ≡ true
    slashed = unfold network_text in contains_byte-append (v4_text c.ip) (itoa c.ones) b'/'

    not_empty : text_eq (network_text c.ip c.ones) [] ≡ false
    not_empty =
        unfold contains_byte in ground (arith, text_eq→eq (network_text c.ip c.ones) [], slashed)

-- The canonical form of a text, if it has one, is its own canonical form.
pub canonical_network_idem :
    (raw w : Text) → canonical_network raw ≡ some w → canonical_network w ≡ some w
canonical_network_idem raw w e =
    canonical_network_of_canonical w (canonical_network-IsCanonical raw w e)
