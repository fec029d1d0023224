-- ===== src/Net/Bytes.antt =====
-- What `net` parses consists of bytes.
use netflix_pbrd.Base.{
  ℕ, zero, suc, ◌+◌, ◌-◌, ◌*◌, ◌/◌, ◌%◌, ◌≤◌, ◌<◌, ◌≡◌, refl, ◌∙◌, List, [], ◌∷◌, ◌++◌, Option,
  none, some, Text, length, take, drop, replicate, All, All-append, arith, ltb, and_then-eq-some,
  option_map, option_map-eq-some, Bool-cases, Option-cases, inl, inr, length-append,
}
use netflix_pbrd.Net.{
  Addr, v4, v6, v4_fields, parse_v4, hex_group, hex_value, after_group, v6_groups, V6State,
  v6_finish, v6_start, parse_v6, addr_by_mark, parse_addr,
}
use netflix_pbrd.Text.{contains_byte}

abbrev pub IsByte : ℕ → Type 0
IsByte b = b < 256

abbrev pub AreBytes : List ℕ → Type 0
AreBytes = All IsByte

v4_fields-AreBytes :
    (s : Text) (val digits : ℕ) (fields : List ℕ) {r : List ℕ}
    → AreBytes fields
    → val < 256
    → length fields ≤ 3
    → v4_fields s val digits fields ≡ some r
    → AreBytes r × (length r ≡ 4)
unfolding v4_fields
v4_fields-AreBytes [] val digits fields {r} hf hv hl e = elim (Bool-cases (ltb (length fields) 3)) [
  | inl few ↦ absurd (ground arith)
  | inr all ↦
      let given : fields ++ (val ∷ []) ≡ r = ground arith in
      rw (← given) (
        All-append IsByte fields (val ∷ []) hf (hv, tt),
        length-append fields (val ∷ []) ∙ ground arith,
      )
]
v4_fields-AreBytes (c ∷ s) val digits fields {r} hf hv hl e = ground (
  arith,
  v4_fields-AreBytes s (val * 10 + (c - 48)) (digits + 1) fields {r = r} hf,
  v4_fields-AreBytes s 0 0 (fields ++ (val ∷ [])) {r = r}
      (All-append IsByte fields (val ∷ []) hf (hv, tt)),
  length-append fields (val ∷ []),
)

pub parse_v4-AreBytes : (s : Text) {r : List ℕ} → parse_v4 s ≡ some r → AreBytes r × (length r ≡ 4)
unfolding parse_v4
parse_v4-AreBytes s e = v4_fields-AreBytes s 0 0 [] tt (omega arith) (omega arith) e

hex_group-lt :
    (s : Text) (acc off a o : ℕ) (r : Text)
    → acc < 65536
    → hex_group s acc off ≡ some (a, o, r)
    → a < 65536
unfolding hex_group
hex_group-lt [] acc off a o r h e = ground arith
hex_group-lt (c ∷ s) acc off a o r h e = elim (Option-cases (hex_value c)) [
  | inl stop ↦ ground arith
  | inr (d, digit) ↦ ground (arith, hex_group-lt s (acc * 16 + d) (off + 1) a o r)
]

-- What a continuation returns holds only bytes, if what it is given does.
abbrev KeepsBytes : (Text → List ℕ → Option ℕ → Option V6State) → Type 0
KeepsBytes next =
    (t : Text) (ip : List ℕ) (at : Option ℕ) (st : V6State)
    → AreBytes ip
    → next t ip at ≡ some st
    → AreBytes st.0

after_group-KeepsBytes :
    (next : Text → List ℕ → Option ℕ → Option V6State)
    → KeepsBytes next
    → KeepsBytes (after_group next)
unfolding after_group
after_group-KeepsBytes next keep [] ip at st h e = ground arith
after_group-KeepsBytes next keep (c ∷ []) ip at st h e = absurd (ground arith)
after_group-KeepsBytes next keep (c ∷ d ∷ s) ip at st h e =
    ground (arith, keep (d ∷ s) ip at st h, keep s ip (some (length ip)) st h)

v6_groups-KeepsBytes : (k : ℕ) → KeepsBytes (v6_groups k)
unfolding v6_groups
v6_groups-KeepsBytes zero s ip at st h e = ground arith
v6_groups-KeepsBytes (suc k) s ip at st h e =
    step (v6_groups-KeepsBytes k) (hex_group s 0 0) refl (parse_v4 s) refl
  where
    chunk : ℕ → List ℕ
    chunk acc = ip ++ (acc / 256 ∷ acc % 256 ∷ [])

    chunk-AreBytes :
        (acc off : ℕ) (rest : Text) → hex_group s 0 0 ≡ some (acc, off, rest) → AreBytes (chunk acc)
    chunk-AreBytes acc off rest g =
        let lt = hex_group-lt s 0 0 acc off rest (omega arith) g in
        All-append IsByte ip (acc / 256 ∷ acc % 256 ∷ []) h (omega arith, (omega arith, tt))

    step :
        KeepsBytes (v6_groups k)
        → (g : Option (ℕ × ℕ × Text)) → hex_group s 0 0 ≡ g
        → (q : Option (List ℕ)) → parse_v4 s ≡ q
        → AreBytes st.0
    step keep none g q v = absurd (ground arith)
    step keep (some (acc, off, rest)) g none v = ground (
      arith,
      after_group-KeepsBytes (v6_groups k) keep rest (chunk acc) at st
          (chunk-AreBytes acc off rest g),
    )
    step keep (some (acc, off, rest)) g (some quad) v = ground (
      arith,
      after_group-KeepsBytes (v6_groups k) keep rest (chunk acc) at st
          (chunk-AreBytes acc off rest g),
      All-append IsByte ip quad h (parse_v4-AreBytes s v).0,
    )

AreBytes-take : (n : ℕ) (xs : List ℕ) → AreBytes xs → AreBytes (take n xs)
AreBytes-take zero xs h = tt
AreBytes-take (suc n) [] h = tt
AreBytes-take (suc n) (x ∷ xs) h = (h.0, AreBytes-take n xs h.1)

pub AreBytes-drop : (n : ℕ) (xs : List ℕ) → AreBytes xs → AreBytes (drop n xs)
AreBytes-drop zero xs h = h
AreBytes-drop (suc n) [] h = tt
AreBytes-drop (suc n) (x ∷ xs) h = AreBytes-drop n xs h.1

AreBytes-replicate : (n : ℕ) → AreBytes (replicate n 0)
AreBytes-replicate zero = tt
AreBytes-replicate (suc n) = (omega arith, AreBytes-replicate n)

v6_finish-AreBytes :
    (st : V6State) {r : List ℕ} → AreBytes st.0 → v6_finish st ≡ some r → AreBytes r
unfolding v6_finish
v6_finish-AreBytes (ip, at, (c ∷ s)) h e = absurd (ground arith)
v6_finish-AreBytes (ip, none, []) h e = ground arith
v6_finish-AreBytes (ip, some at, []) h e = ground (
  arith,
  All-append IsByte (take at ip) (replicate (16 - length ip) 0 ++ drop at ip)
      (AreBytes-take at ip h)
      (All-append IsByte (replicate (16 - length ip) 0) (drop at ip)
        (AreBytes-replicate (16 - length ip)) (AreBytes-drop at ip h)),
)

v6_start-AreBytes : (s : Text) (st : V6State) → v6_start s ≡ some st → AreBytes st.0
unfolding v6_start
v6_start-AreBytes [] st e = v6_groups-KeepsBytes 8 [] [] none st tt e
v6_start-AreBytes (b ∷ []) st e = v6_groups-KeepsBytes 8 (b ∷ []) [] none st tt e
v6_start-AreBytes (b ∷ c ∷ s) st e = ground (
  arith,
  v6_groups-KeepsBytes 8 s [] (some 0) st tt,
  v6_groups-KeepsBytes 8 (b ∷ c ∷ s) [] none st tt,
)

pub parse_v6-AreBytes : (s : Text) {r : List ℕ} → parse_v6 s ≡ some r → AreBytes r
unfolding parse_v6
parse_v6-AreBytes s e = elim (Bool-cases (contains_byte s b'%')) [
  | inl zone ↦ absurd (ground arith)
  | inr plain ↦
      let (st, started, ended) = and_then-eq-some (v6_start s) v6_finish (rw plain at e) in
      v6_finish-AreBytes st (v6_start-AreBytes s st started) ended
]

-- The bytes of an address: four of them for IPv4.
abbrev pub IsAddr : Addr → Type 0
IsAddr (v4 bytes) = AreBytes bytes × (length bytes ≡ 4)
IsAddr (v6 bytes) = AreBytes bytes

v4-IsAddr : (s : Text) (a : Addr) → option_map v4 (parse_v4 s) ≡ some a → IsAddr a
v4-IsAddr s a e =
    let (q, p, same) = option_map-eq-some v4 (parse_v4 s) e in rw (← same) (parse_v4-AreBytes s p)

v6-IsAddr : (s : Text) (a : Addr) → option_map v6 (parse_v6 s) ≡ some a → IsAddr a
v6-IsAddr s a e =
    let (q, p, same) = option_map-eq-some v6 (parse_v6 s) e in rw (← same) (parse_v6-AreBytes s p)

addr_by_mark-IsAddr : (whole s : Text) (a : Addr) → addr_by_mark whole s ≡ some a → IsAddr a
unfolding addr_by_mark
addr_by_mark-IsAddr whole [] a e = absurd (ground arith)
addr_by_mark-IsAddr whole (c ∷ s) a e =
    ground (arith, v4-IsAddr whole a, v6-IsAddr whole a, addr_by_mark-IsAddr whole s a)

pub parse_addr-IsAddr : (s : Text) (a : Addr) → parse_addr s ≡ some a → IsAddr a
unfolding parse_addr
parse_addr-IsAddr s a e = addr_by_mark-IsAddr s s a e
