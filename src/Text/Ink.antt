-- ===== src/Text/Ink.antt =====
-- Printable texts of ASCII without white space: they survive `strings.Fields` and splitting at
-- newlines.
use netflix_pbrd.Base.{
  ℕ, zero, ◌≤◌, ◌<◌, ◌≡◌, refl, ap, ◌∙◌, false, List, [], ◌∷◌, ◌++◌, Text, All, All-append,
  append_assoc, append-nil, arith, codes, ◌==◌,
}
use netflix_pbrd.Text.{space_width, contains_byte, itoa, join}
use netflix_pbrd.Text.Words.{end_word, fields_from, fields, split_at, split_lines}

abbrev pub IsInk : Text → Type 0
IsInk s = All (λ c. (33 ≤ c) × (c ≤ 126)) s

pub append-IsInk : (s t : Text) → IsInk s → IsInk t → IsInk (s ++ t)
append-IsInk s t h k = All-append (λ c. (33 ≤ c) × (c ≤ 126)) s t h k

pub contains_byte-IsInk : (s : Text) (b : ℕ) → b < 33 → IsInk s → contains_byte s b ≡ false
unfolding contains_byte
contains_byte-IsInk [] b l h = refl
contains_byte-IsInk (c ∷ s) b l h = ground (arith, h.0, contains_byte-IsInk s b l h.1)

pub itoa-IsInk : (n : ℕ) → n < 1000 → IsInk (itoa n)
unfolding itoa
itoa-IsInk n h = ground arith

space_width-ink : (c : ℕ) (s : Text) → 33 ≤ c → c ≤ 126 → space_width (c ∷ s) ≡ 0
unfolding space_width
space_width-ink c [] h k = ground arith
space_width-ink c (d ∷ []) h k = ground arith
space_width-ink c (d ∷ e ∷ s) h k = ground arith

-- A word is read to its end.
fields_from-ink :
    (word s rest : Text)
    → IsInk s
    → fields_from zero word (s ++ rest) ≡ fields_from zero (word ++ s) rest
unfolding fields_from
fields_from-ink word [] rest h = rw append-nil
fields_from-ink word (c ∷ s) rest h =
    rw (space_width-ink c (s ++ rest) h.0.0 h.0.1)
      (fields_from-ink (word ++ (c ∷ [])) s rest h.1 ∙ rw (append_assoc word (c ∷ []) s) refl)

space_width-blank : (s : Text) → (space_width (32 ∷ s) ≡ 1) × (space_width (10 ∷ s) ≡ 1)
unfolding space_width
space_width-blank [] = (refl, refl)
space_width-blank (d ∷ []) = (refl, refl)
space_width-blank (d ∷ e ∷ s) = (refl, refl)

fields_from-blank :
    (word rest : Text)
    → (fields_from zero word (32 ∷ rest) ≡ end_word word (fields_from zero [] rest))
      × (fields_from zero word (10 ∷ rest) ≡ end_word word (fields_from zero [] rest))
unfolding fields_from
fields_from-blank word rest =
    (rw (space_width-blank rest).0 refl, rw (space_width-blank rest).1 refl)

-- A word: ink, and at least one byte.
abbrev pub IsWord : Text → Type 0
IsWord [] = ⊥
IsWord (c ∷ s) = IsInk (c ∷ s)

word_ended : (s : Text) (rest : List Text) → IsWord s → end_word s rest ≡ s ∷ rest
word_ended [] rest h = absurd h
word_ended (c ∷ s) rest h = refl

IsWord-IsInk : (s : Text) → IsWord s → IsInk s
IsWord-IsInk [] h = tt
IsWord-IsInk (c ∷ s) h = h

-- Words joined by blanks, with a newline behind them, are read back.
pub fields-join : (xs : List Text) → All IsWord xs → fields (join xs (codes " ") ++ codes "\n") ≡ xs
unfolding fields join
fields-join [] h = (fields_from-blank [] []).1 ∙ unfold fields_from in refl
fields-join (x ∷ []) h =
    fields_from-ink [] x (10 ∷ []) (IsWord-IsInk x h.0)
    ∙ (fields_from-blank x []).1
    ∙ word_ended x _ h.0
    ∙ unfold fields_from in refl
fields-join (x ∷ y ∷ xs) h =
    ap (fields_from zero []) (append_assoc x (32 ∷ join (y ∷ xs) (codes " ")) (10 ∷ []))
    ∙ fields_from-ink [] x _ (IsWord-IsInk x h.0)
    ∙ (fields_from-blank x (join (y ∷ xs) (codes " ") ++ codes "\n")).0
    ∙ word_ended x _ h.0
    ∙ ap (λ rest. x ∷ rest) (fields-join (y ∷ xs) h.1)

split_at-line :
    (word s rest : Text)
    → contains_byte s 10 ≡ false
    → split_at 10 word (s ++ (10 ∷ rest)) ≡ (word ++ s) ∷ split_at 10 [] rest
unfolding split_at contains_byte
split_at-line word [] rest h = rw (append-nil word) refl
split_at-line word (c ∷ s) rest h =
    let other : (c == 10) ≡ false = ground arith in
    rw other (
      split_at-line (word ++ (c ∷ [])) s rest (ground arith)
      ∙ rw (append_assoc word (c ∷ []) s) refl)

-- The first line of a text.
pub split_lines-line :
    (s rest : Text)
    → contains_byte s 10 ≡ false
    → split_lines (s ++ (10 ∷ rest)) ≡ s ∷ split_lines rest
unfolding split_lines
split_lines-line s rest h = split_at-line [] s rest h
