-- ===== src/Net.antt =====
-- The parts of Go's `net` package that the program calls: `ParseIP`, `IP.To4`, `ParseCIDR`,
-- `IP.String` and `IPNet.String`. An `IP` is the list of its 4 or 16 bytes.
pub mod Bytes
pub mod RoundTrip
use Prim.Native.Nat.{min}
use netflix_pbrd.Base.{
  ℕ, zero, suc, ◌+◌, ◌-◌, ◌*◌, ◌/◌, ◌%◌, ◌^◌, Bool, true, false, not, ◌&&◌, ◌||◌, List, [], ◌∷◌,
  ◌++◌, Option, none, some, Text, length, take, drop, replicate, ltb, leb, ◌==◌, if◌then◌else◌,
  is_some, and_then, option_map,
}
use netflix_pbrd.Text.{text_eq, contains_byte, cut, itoa}

abbrev pub Ip : Type 0
Ip = List ℕ

pub record V4 : Type 0 where
  pub a : ℕ
  pub b : ℕ
  pub c : ℕ
  pub d : ℕ

abbrev pub is_digit : ℕ → Bool
is_digit c = leb 48 c && leb c 57

abbrev is_empty {ℓ} : {A : Type ℓ} → List A → Bool
is_empty [] = true
is_empty (_ ∷ _) = false

-- `netip.parseIPv4` from inside a field: its value, its digits so far and the fields before it.
unfoldable pub v4_fields : Text → ℕ → ℕ → List ℕ → Option (List ℕ)
v4_fields [] val digits fields = if ltb (length fields) 3 then none else some (fields ++ (val ∷ []))
v4_fields (c ∷ s) val digits fields =
    let more = v4_fields s (val * 10 + (c - 48)) (digits + 1) fields in
    let next = v4_fields s 0 0 (fields ++ (val ∷ [])) in
    if is_digit c
    then if digits == 1 && val == 0
      then none
      else if ltb 255 (val * 10 + (c - 48))
      then none
      else more
    else if c == b'.'
    then if digits == 0 || is_empty s then none else if length fields == 3 then none else next
    else none

unfoldable pub parse_v4 : Text → Option (List ℕ)
unfolding v4_fields
parse_v4 s = v4_fields s 0 0 []

abbrev hex_value : ℕ → Option ℕ
hex_value c =
    if is_digit c
    then some (c - 48)
    else if leb b'a' c && leb c b'f'
    then some (c - 87)
    else if leb b'A' c && leb c b'F'
    then some (c - 55)
    else none

-- One group of hex digits: its value, the number of its digits, and the text behind it.
unfoldable pub hex_group : Text → ℕ → ℕ → Option (ℕ × ℕ × Text)
hex_group [] acc off = some (acc, off, [])
hex_group (c ∷ s) acc off = elim (hex_value c) [
  | none ↦ some (acc, off, c ∷ s)
  | some d ↦
      let more = hex_group s (acc * 16 + d) (off + 1) in
      if ltb 3 off then none else if ltb 65535 (acc * 16 + d) then none else more
]

abbrev starts_with_dot : Text → Bool
starts_with_dot [] = false
starts_with_dot (c ∷ s) = c == b'.'

abbrev V6State : Type 0
V6State = List ℕ × Option ℕ × Text

-- What follows a group: the end, or a colon and more, or the ellipsis.
unfoldable pub after_group :
    (Text → List ℕ → Option ℕ → Option V6State) → Text → List ℕ → Option ℕ → Option V6State
after_group next [] ip ellipsis = some (ip, ellipsis, [])
after_group next (c ∷ []) ip ellipsis = none
after_group next (c ∷ d ∷ s) ip ellipsis =
    if not (c == b':')
    then none
    else if not (d == b':')
    then next (d ∷ s) ip ellipsis
    else if is_some ellipsis
    then none
    else if is_empty s
    then some (ip, some (length ip), [])
    else next s ip (some (length ip))

-- The groups that are left of the eight. A dot behind a group makes it the start of an embedded
-- IPv4 address.
unfoldable pub v6_groups : ℕ → Text → List ℕ → Option ℕ → Option V6State
unfolding hex_group after_group parse_v4
v6_groups zero s ip ellipsis = some (ip, ellipsis, s)
v6_groups (suc k) s ip ellipsis = elim (hex_group s 0 0) [
  | none ↦ none
  | some (acc, off, rest) ↦
      let more = after_group (v6_groups k) rest (ip ++ (acc / 256 ∷ acc % 256 ∷ [])) ellipsis in
      if off == 0
      then none
      else if not (starts_with_dot rest)
      then more
      else if not (is_some ellipsis) && not (length ip == 12)
      then none
      else if ltb 16 (length ip + 4)
      then none
      else option_map (λ quad. (ip ++ quad, ellipsis, [])) (parse_v4 s)
]

-- All text is used, and the ellipsis stands for at least one group of zeros.
unfoldable pub v6_finish : V6State → Option (List ℕ)
v6_finish (ip, ellipsis, (c ∷ s)) = none
v6_finish (ip, none, []) = if ltb (length ip) 16 then none else some ip
v6_finish (ip, some at, []) =
    if ltb (length ip) 16
    then some (take at ip ++ (replicate (16 - length ip) 0 ++ drop at ip))
    else none

unfoldable pub v6_start : Text → Option V6State
unfolding v6_groups
v6_start (b ∷ c ∷ s) =
    if b == b':' && c == b':'
    then if is_empty s then some ([], some 0, []) else v6_groups 8 s [] (some 0)
    else v6_groups 8 (b ∷ c ∷ s) [] none
v6_start s = v6_groups 8 s [] none

-- `netip.parseIPv6`. The callers refuse an address with a zone.
unfoldable pub parse_v6 : Text → Option (List ℕ)
unfolding contains_byte v6_start v6_finish
parse_v6 s = if contains_byte s b'%' then none else and_then (v6_start s) v6_finish

pub data Addr : Type 0 where
  v4 : List ℕ → Addr
  v6 : List ℕ → Addr

-- `netip.ParseAddr`: the first of the three marks decides.
unfoldable pub addr_by_mark : Text → Text → Option Addr
unfolding parse_v4 parse_v6
addr_by_mark whole [] = none
addr_by_mark whole (c ∷ s) =
    if c == b'.'
    then option_map v4 (parse_v4 whole)
    else if c == b':'
    then option_map v6 (parse_v6 whole)
    else if c == b'%'
    then none
    else addr_by_mark whole s

unfoldable pub parse_addr : Text → Option Addr
unfolding addr_by_mark
parse_addr s = addr_by_mark s s

abbrev pub v4_in_v6 : List ℕ
v4_in_v6 = replicate 10 0 ++ (255 ∷ 255 ∷ [])

abbrev pub as16 : Addr → Ip
as16 (v4 bytes) = v4_in_v6 ++ bytes
as16 (v6 bytes) = bytes

unfoldable pub parse_ip : Text → Option Ip
parse_ip s = option_map as16 (parse_addr s)

abbrev pub quad : List ℕ → Option V4
quad (a ∷ b ∷ c ∷ d ∷ []) = some (record { a = a; b = b; c = c; d = d })
quad _ = none

-- `IP.To4`
unfoldable pub to4 : Ip → Option V4
to4 ip =
    if length ip == 4
    then quad ip
    else if length ip == 16 && text_eq (take 12 ip) v4_in_v6
    then quad (drop 12 ip)
    else none

-- `IP.String` of an IPv4 address
unfoldable pub v4_text : V4 → Text
unfolding itoa
v4_text ip = itoa ip.a ++ (b'.' ∷ (itoa ip.b ++ (b'.' ∷ (itoa ip.c ++ (b'.' ∷ itoa ip.d)))))

-- A network: its masked address, and the two sizes of its mask (`Mask.Size`).
pub record IpNet : Type 0 where
  pub ip : Ip
  pub ones : ℕ
  pub bits : ℕ

-- A byte under the mask byte whose first `t` bits are set, and with the complement of it set.
abbrev pub mask_byte : ℕ → ℕ → ℕ
mask_byte t b = b / 2 ^ (8 - t) * 2 ^ (8 - t)

abbrev pub or_not_mask : ℕ → ℕ → ℕ
or_not_mask t b = mask_byte t b + (2 ^ (8 - t) - 1)

unfoldable pub mask_bytes : ℕ → List ℕ → List ℕ
mask_bytes ones [] = []
mask_bytes ones (b ∷ bs) = mask_byte (min ones 8) b ∷ mask_bytes (ones - 8) bs

-- `dtoi`, on a text that must be digits to its end
unfoldable pub dtoi : Text → ℕ → Option ℕ
dtoi [] n = some n
dtoi (c ∷ s) n =
    let more = dtoi s (n * 10 + (c - 48)) in
    if is_digit c then if leb 0xFFFFFF (n * 10 + (c - 48)) then none else more else none

unfoldable pub mask_size : Text → Option ℕ
unfolding dtoi
mask_size [] = none
mask_size (c ∷ s) = dtoi (c ∷ s) 0

unfoldable pub net_of : Addr → ℕ → Option (Ip × IpNet)
net_of (v4 bytes) n =
    if ltb 32 n
    then none
    else some (as16 (v4 bytes), record { ip = mask_bytes n bytes; ones = n; bits = 32 })
net_of (v6 bytes) n =
    if ltb 128 n
    then none
    else some (bytes, record { ip = mask_bytes n bytes; ones = n; bits = 128 })

abbrev pub cidr_parts : Text × Option Text → Option (Ip × IpNet)
cidr_parts (addr, none) = none
cidr_parts (addr, some mask) =
    and_then (parse_addr addr) (λ a. and_then (mask_size mask) (λ n. net_of a n))

unfoldable pub parse_cidr : Text → Option (Ip × IpNet)
parse_cidr s = cidr_parts (cut s b'/')
