-- ===== src/Text/Trim.antt =====
-- A text that begins and ends in a digit is not trimmed.
use mathlib.Core.List.{reverse, reverse-append, reverse-reverse}
use netflix_pbrd.Base.{
  ℕ, ◌+◌, ◌/◌, ◌%◌, ◌≡◌, refl, ap, ◌∙◌, true, Bool, ◌&&◌, [], ◌∷◌, ◌++◌, Text, arith, ltb, leb,
  Bool-cases, inl, inr,
}
use netflix_pbrd.Text.{space_width, space_width_back, skip_spaces, trim_space, itoa}

abbrev pub is_decimal : ℕ → Bool
is_decimal c = leb 48 c && leb c 57

space_width-digit : (c : ℕ) (s : Text) → is_decimal c ≡ true → space_width (c ∷ s) ≡ 0
unfolding space_width
space_width-digit c [] h = ground arith
space_width-digit c (d ∷ []) h = ground arith
space_width-digit c (d ∷ e ∷ s) h = ground arith

space_width_back-digit : (c : ℕ) (s : Text) → is_decimal c ≡ true → space_width_back (c ∷ s) ≡ 0
unfolding space_width_back
space_width_back-digit c [] h = ground arith
space_width_back-digit c (d ∷ []) h = ground arith
space_width_back-digit c (d ∷ e ∷ s) h = ground arith

skip_spaces_none :
    (width : Text → ℕ) (c : ℕ) (s : Text) → width (c ∷ s) ≡ 0 → skip_spaces width 0 (c ∷ s) ≡ c ∷ s
unfolding skip_spaces
skip_spaces_none width c s h = rw h

pub trim_space_digits :
    (c d : ℕ) (s t : Text)
    → is_decimal c ≡ true
    → is_decimal d ≡ true
    → c ∷ s ≡ t ++ (d ∷ [])
    → trim_space (c ∷ s) ≡ c ∷ s
unfolding trim_space
trim_space_digits c d s t hc hd e =
    let turned : reverse (c ∷ s) ≡ d ∷ reverse t = ap reverse e ∙ reverse-append t (d ∷ []) in
    rw
      (
        skip_spaces_none space_width c s (space_width-digit c s hc),
        turned,
        skip_spaces_none space_width_back d (reverse t) (space_width_back-digit d (reverse t) hd),
        ← turned,
      )
      (reverse-reverse (c ∷ s))

-- The digits of a number begin and end in a digit.
pub itoa_head :
    (n : ℕ) (rest : Text)
    → ltb n 1000 ≡ true
    → (c : ℕ) × (s : Text) × (itoa n ++ rest ≡ c ∷ s) × (is_decimal c ≡ true)
unfolding itoa
itoa_head n rest h = elim (Bool-cases (ltb n 10)) [
  | inl one ↦ (48 + n, rest, rw one refl, ground arith)
  | inr more ↦ elim (Bool-cases (ltb n 100)) [
    | inl two ↦ (48 + n / 10, (48 + n % 10) ∷ rest, rw (more, two) refl, ground arith)
    | inr three ↦ (
      48 + n / 100,
      (48 + n / 10 % 10) ∷ (48 + n % 10) ∷ rest,
      rw (more, three) refl,
      ground arith,
    )
  ]
]

pub itoa_last : (n : ℕ) → (t : Text) × (d : ℕ) × (itoa n ≡ t ++ (d ∷ [])) × (is_decimal d ≡ true)
unfolding itoa
itoa_last n = elim (Bool-cases (ltb n 10)) [
  | inl one ↦ ([], 48 + n, rw one refl, ground arith)
  | inr more ↦ elim (Bool-cases (ltb n 100)) [
    | inl two ↦ ((48 + n / 10) ∷ [], 48 + n % 10, rw (more, two) refl, ground arith)
    | inr three ↦
        ((48 + n / 100) ∷ (48 + n / 10 % 10) ∷ [], 48 + n % 10, rw (more, three) refl, ground arith)
  ]
]
