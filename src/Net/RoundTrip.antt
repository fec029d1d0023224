-- ===== src/Net/RoundTrip.antt =====
-- What `net` prints it parses back.
use netflix_pbrd.Base.{
  ℕ, ◌+◌, ◌≤◌, ◌<◌, ◌≡◌, refl, ap, ◌∙◌, false, List, [], ◌∷◌, ◌++◌, some, Text, append-nil,
  option_map, length, arith, ltb, le→leb, ◌==◌, ◌&&◌, ◌*◌, ◌-◌, ◌/◌, ◌%◌, if◌then◌else◌, Bool-cases,
  inl, inr,
}
use netflix_pbrd.Text.{itoa, contains_byte, cut}
use netflix_pbrd.Text.Laws.{cut-append}
use netflix_pbrd.Net.{
  V4, v4, v4_fields, parse_v4, addr_by_mark, parse_addr, v4_text, mask_size, dtoi, is_empty,
}

-- The number of decimal digits.
abbrev width : ℕ → ℕ
width n = if ltb n 10 then 1 else if ltb n 100 then 2 else 3

v4_fields-digit :
    (d : ℕ) (s : Text) (val digits : ℕ) (fields : List ℕ)
    → d < 10
    → (digits == 1 && val == 0) ≡ false
    → val * 10 + d < 256
    → v4_fields ((48 + d) ∷ s) val digits fields ≡ v4_fields s (val * 10 + d) (digits + 1) fields
unfolding v4_fields
v4_fields-digit d s val digits fields h k m =
    rw (e, le→leb 48 (48 + d) (omega arith), le→leb (48 + d) 57 (omega arith), k) (ground arith)
  where
    e : 48 + d - 48 ≡ d
    e = omega arith

v4_fields-itoa :
    (n : ℕ) (rest : Text) (fields : List ℕ)
    → n < 256
    → v4_fields (itoa n ++ rest) 0 0 fields ≡ v4_fields rest n (width n) fields
unfolding itoa
v4_fields-itoa n rest fields h = elim (Bool-cases (ltb n 10)) [
  | inl one ↦
      rw one
        (v4_fields-digit n rest 0 0 fields (ground arith) refl (omega arith) ∙ at 1 (ground arith))
  | inr more ↦ elim (Bool-cases (ltb n 100)) [
    | inl two ↦
        rw (more, two)
          (v4_fields-digit (n / 10) _ 0 0 fields (ground arith) refl (ground arith)
            ∙ v4_fields-digit (n % 10) rest _ _ fields (omega arith) (ground arith) (omega arith)
            ∙ at 2 (omega arith))
    | inr three ↦
        rw (more, three)
          (v4_fields-digit (n / 100) _ 0 0 fields (omega arith) refl (omega arith)
            ∙ v4_fields-digit (n / 10 % 10) _ _ _ fields (omega arith) (ground arith) (omega arith)
            ∙ v4_fields-digit (n % 10) rest _ _ fields (omega arith) (ground arith) (omega arith)
            ∙ at 3 (omega arith))
  ]
]
  where
    at : {v : ℕ} (w : ℕ) → v ≡ n → v4_fields rest v w fields ≡ v4_fields rest n w fields
    at w e = ap (λ u. v4_fields rest u w fields) e

-- What the four bytes of a parsed address satisfy.
pub record IsV4 (ip : V4) : Type 0 where
  pub a_lt : ip.a < 256
  pub b_lt : ip.b < 256
  pub c_lt : ip.c < 256
  pub d_lt : ip.d < 256

v4_fields-dot :
    (n : ℕ) (t : Text) (fields : List ℕ)
    → is_empty t ≡ false
    → length fields < 3
    → v4_fields (b'.' ∷ t) n (width n) fields ≡ v4_fields t 0 0 (fields ++ (n ∷ []))
unfolding v4_fields
v4_fields-dot n t fields e h = ground arith

is_empty-itoa : (n : ℕ) (rest : Text) → is_empty (itoa n ++ rest) ≡ false
unfolding itoa
is_empty-itoa n rest = ground arith

-- One field and the dot behind it.
v4_fields_field :
    (n m : ℕ) (rest : Text) (fields : List ℕ)
    → n < 256
    → length fields < 3
    → v4_fields (itoa n ++ (b'.' ∷ (itoa m ++ rest))) 0 0 fields
      ≡ v4_fields (itoa m ++ rest) 0 0 (fields ++ (n ∷ []))
v4_fields_field n m rest fields h k =
    v4_fields-itoa n _ fields h ∙ v4_fields-dot n _ fields (is_empty-itoa m rest) k

v4_fields_last :
    (n : ℕ) (fields : List ℕ)
    → n < 256
    → length fields ≡ 3
    → v4_fields (itoa n) 0 0 fields ≡ some (fields ++ (n ∷ []))
unfolding v4_fields
v4_fields_last n fields h k =
    rw (← append-nil (itoa n)) (v4_fields-itoa n [] fields h ∙ ground arith)

pub parse_v4-v4_text :
    (ip : V4) → IsV4 ip → parse_v4 (v4_text ip) ≡ some (ip.a ∷ ip.b ∷ ip.c ∷ ip.d ∷ [])
unfolding parse_v4 v4_text
parse_v4-v4_text ip h =
    v4_fields_field ip.a ip.b _ [] h.a_lt (omega arith)
    ∙ v4_fields_field ip.b ip.c _ _ h.b_lt (omega arith)
    ∙ rw (← append-nil (itoa ip.d)) (
        v4_fields_field ip.c ip.d [] _ h.c_lt (omega arith)
        ∙ rw append-nil (v4_fields_last ip.d _ h.d_lt refl))

addr_by_mark-itoa :
    (whole : Text) (n : ℕ) (rest : Text)
    → n < 256
    → addr_by_mark whole (itoa n ++ rest) ≡ addr_by_mark whole rest
unfolding addr_by_mark itoa
addr_by_mark-itoa whole n rest h = ground arith

addr_by_mark-v4_text :
    (whole : Text) (ip : V4)
    → IsV4 ip
    → addr_by_mark whole (v4_text ip) ≡ option_map v4 (parse_v4 whole)
unfolding v4_text addr_by_mark
addr_by_mark-v4_text whole ip h = addr_by_mark-itoa whole ip.a _ h.a_lt

pub parse_addr-v4_text :
    (ip : V4) → IsV4 ip → parse_addr (v4_text ip) ≡ some (v4 (ip.a ∷ ip.b ∷ ip.c ∷ ip.d ∷ []))
unfolding parse_addr
parse_addr-v4_text ip h = addr_by_mark-v4_text (v4_text ip) ip h ∙ rw (parse_v4-v4_text ip h)

contains_byte-itoa :
    (n : ℕ) (rest : Text) → n < 256 → contains_byte (itoa n ++ rest) b'/' ≡ contains_byte rest b'/'
unfolding contains_byte itoa
contains_byte-itoa n rest h = ground arith

contains_byte-v4_text : (ip : V4) → IsV4 ip → contains_byte (v4_text ip) b'/' ≡ false
unfolding v4_text contains_byte
contains_byte-v4_text ip h =
    contains_byte-itoa ip.a _ h.a_lt
    ∙ contains_byte-itoa ip.b _ h.b_lt
    ∙ contains_byte-itoa ip.c _ h.c_lt
    ∙ rw (← append-nil (itoa ip.d)) (contains_byte-itoa ip.d [] h.d_lt)

pub cut-v4_text :
    (ip : V4) (rest : Text)
    → IsV4 ip
    → cut (v4_text ip ++ (b'/' ∷ rest)) b'/' ≡ (v4_text ip, some rest)
cut-v4_text ip rest h = cut-append (v4_text ip) rest b'/' (contains_byte-v4_text ip h)

pub mask_size-itoa : (n : ℕ) → n ≤ 32 → mask_size (itoa n) ≡ some n
unfolding mask_size itoa dtoi
mask_size-itoa n h = ground arith
