-- ===== src/Networks.antt =====
-- internal/pbr/networks.go: the canonical form of a network, sets of networks and state files.
pub mod Canonical
pub mod Public
pub mod Merging
pub mod Validation
pub mod Files
pub mod Saved
use netflix_pbrd.Base.{
  ℕ, zero, suc, ◌+◌, ◌-◌, ◌*◌, ◌^◌, Bool, true, false, not, ◌&&◌, ◌||◌, List, [], ◌∷◌, ◌++◌, Option,
  none, some, Text, length, ltb, leb, ◌==◌, if◌then◌else◌, is_some, and_then, option_map, Result,
  ok, err, Error, quoted, numbered, codes,
}
use netflix_pbrd.Text.{
  text_eq, has_suffix, contains_byte, cut, trim_space, itoa, contains, set_add, sort_strings, join,
}
use netflix_pbrd.Net.{
  Ip, V4, IpNet, quad, or_not_mask, to4, v4_text, parse_ip, parse_cidr, parse_addr, mask_size,
  net_of, mask_bytes,
}
use Prim.Native.Nat.{min}

abbrev pub default_max_networks : ℕ
default_max_networks = 4096

abbrev pub minimum_prefix_bits : ℕ
minimum_prefix_bits = 24

-- The tests of `isPublicIPv4`, on the four bytes
unfoldable pub is_public : V4 → Bool
is_public v =
    not (v.a == 0 || v.a == 10 || v.a == 127 || leb 224 v.a)
    && not (
        v.a == 100 && leb 64 v.b && leb v.b 127
        || v.a == 169 && v.b == 254
        || v.a == 172 && leb 16 v.b && leb v.b 31
        || v.a == 192 && (v.b == 0 || v.b == 168)
        || v.a == 198 && (v.b == 18 || v.b == 19 || v.b == 51 && v.c == 100)
        || v.a == 203 && v.b == 0 && v.c == 113)

unfoldable pub is_public_ipv4 : Ip → Bool
is_public_ipv4 ip = elim (to4 ip) [ none ↦ false | some v ↦ is_public v ]

unfoldable pub last_bytes : ℕ → List ℕ → List ℕ
last_bytes ones [] = []
last_bytes ones (b ∷ bs) = or_not_mask (min ones 8) b ∷ last_bytes (ones - 8) bs

-- Called on a network with a mask of 4 bytes, so its address has 4 bytes too.
unfoldable pub last_ipv4 : IpNet → Ip
last_ipv4 network = last_bytes network.ones network.ip

-- `IPNet.String` of an IPv4 network
unfoldable pub network_text : V4 → ℕ → Text
unfolding v4_text itoa
network_text ip ones = v4_text ip ++ (b'/' ∷ itoa ones)

unfoldable pub canonical_host : Text → Option Text
canonical_host value = and_then (parse_ip value) λ ip.
    and_then (to4 ip) λ v. if not (is_public_ipv4 ip) then none else some (v4_text v ++ codes "/32")

unfoldable pub canonical_net : Ip → IpNet → Option Text
canonical_net ip network =
    if not (is_some (to4 ip))
    then none
    else if not (network.bits == 32)
        || ltb network.ones minimum_prefix_bits
        || not (is_public_ipv4 network.ip)
        || not (is_public_ipv4 (last_ipv4 network))
    then none
    else option_map (λ v. network_text v network.ones) (to4 network.ip)

unfoldable pub canonical_cidr : Text → Option Text
canonical_cidr value = and_then (parse_cidr value) (λ p. canonical_net p.0 p.1)

unfoldable pub canonical_trimmed : Text → Option Text
canonical_trimmed value =
    if text_eq value []
    then none
    else if not (contains_byte value b'/')
    then canonical_host value
    else canonical_cidr value

unfoldable pub canonical_network : Text → Option Text
canonical_network value = canonical_trimmed (trim_space value)

unfoldable pub add_canonical : List Text → List Text → List Text
add_canonical [] set = set
add_canonical (raw ∷ group) set =
    add_canonical group
      (elim (canonical_network raw) [ none ↦ set | some value ↦ set_add value set ])

unfoldable pub add_groups : List (List Text) → List Text → List Text
add_groups [] set = set
add_groups (group ∷ groups) set = add_groups groups (add_canonical group set)

unfoldable pub merge : List (List Text) → List Text
merge groups = sort_strings (add_groups groups [])

abbrev pub invalid_network : Text → Error
invalid_network raw = quoted (codes "invalid public IPv4 network ") raw

abbrev pub needs_host : Text → Error
needs_host raw = quoted (codes "agent reports require /32 hosts: ") raw

abbrev pub limit_exceeded : ℕ → Error
limit_exceeded max = numbered (codes "network limit exceeded: ") max

abbrev pub host_suffix : Text
host_suffix = codes "/32"

-- The loop of `ValidateNetworks`, over the set so far.
unfoldable pub validate_loop : List Text → Bool → ℕ → List Text → Result (List Text)
validate_loop [] hosts_only max set = ok set
validate_loop (raw ∷ values) hosts_only max set = elim (canonical_network raw) [
  | none ↦ err (invalid_network raw)
  | some value ↦
      let rest = validate_loop values hosts_only max (set_add value set) in
      if hosts_only && not (has_suffix value host_suffix)
      then err (needs_host raw)
      else if ltb max (length (set_add value set))
      then err (limit_exceeded max)
      else rest
]

abbrev pub effective_max : ℕ → ℕ
effective_max max = if max == 0 then default_max_networks else max

abbrev sorted_result : Result (List Text) → Result (List Text)
sorted_result (ok set) = ok (sort_strings set)
sorted_result (err e) = err e

unfoldable pub validate_networks : List Text → Bool → ℕ → Result (List Text)
validate_networks values hosts_only max =
    sorted_result (validate_loop values hosts_only (effective_max max) [])

unfoldable pub equal : List Text → List Text → Bool
unfolding text_eq
equal [] [] = true
equal (x ∷ xs) (y ∷ ys) = text_eq x y && equal xs ys
equal _ _ = false

-- The content that `SaveState` writes: `strings.Join(values, "\n") + "\n"`.
unfoldable pub state_content : List Text → Text
unfolding join
state_content values = join values (codes "\n") ++ codes "\n"

-- The lines that `bufio.Scanner` yields: `bufio.ScanLines`, which drops one carriage return at the
-- end of a line, and yields no line behind the last newline. The first argument is the line so far.
abbrev drop_cr : Text → Text
drop_cr [] = []
drop_cr (c ∷ []) = if c == 13 then [] else c ∷ []
drop_cr (c ∷ d ∷ s) = c ∷ drop_cr (d ∷ s)

unfoldable pub scan_lines : Text → Text → List Text
scan_lines [] [] = []
scan_lines (c ∷ line) [] = drop_cr (c ∷ line) ∷ []
scan_lines line (c ∷ s) =
    let rest = scan_lines [] s in
    let more = scan_lines (line ++ (c ∷ [])) s in if c == 10 then drop_cr line ∷ rest else more

-- Everything that the canonical form computes with, for runs on concrete texts.
unfoldable pub run_canonical : Text → Option Text
unfolding canonical_network trim_space canonical_trimmed text_eq contains_byte canonical_host
    canonical_cidr parse_ip to4 is_public_ipv4 is_public parse_cidr cut parse_addr mask_size net_of
    mask_bytes canonical_net last_ipv4 last_bytes network_text
run_canonical = canonical_network

unfoldable pub run_merge : List (List Text) → List Text
unfolding run_canonical merge add_groups add_canonical set_add sort_strings
run_merge = merge

unfoldable pub run_validate : List Text → Bool → ℕ → Result (List Text)
unfolding run_canonical validate_networks validate_loop has_suffix set_add sort_strings
run_validate = validate_networks
