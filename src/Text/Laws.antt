-- ===== src/Text/Laws.antt =====
-- Laws of equality, prefixes, suffixes and of a cut text.
use netflix_pbrd.Base.{
  ℕ, zero, suc, ◌-◌, ◌≡◌, refl, sym, ap, ◌∙◌, ◌↔◌, true, false, [], ◌∷◌, ◌++◌, some, Text, length,
  take, drop, arith, length-append,
}
use netflix_pbrd.Text.{text_eq, has_suffix, contains_byte, cut}

pub text_eq→eq : (s t : Text) → text_eq s t ≡ true → s ≡ t
unfolding text_eq
text_eq→eq [] [] h = refl
text_eq→eq (x ∷ xs) (y ∷ ys) h = ground (arith, text_eq→eq xs ys)
text_eq→eq [] (y ∷ ys) h = ground arith
text_eq→eq (x ∷ xs) [] h = ground arith

pub text_eq_refl : (s : Text) → text_eq s s ≡ true
unfolding text_eq
text_eq_refl [] = refl
text_eq_refl (x ∷ xs) = ground (arith, text_eq_refl xs)

pub text_eq_iff : (s t : Text) → (text_eq s t ≡ true) ↔ (s ≡ t)
text_eq_iff s t = (text_eq→eq s t, λ e. rw (← e) (text_eq_refl s))

pub take-append-drop : (n : ℕ) (s : Text) → take n s ++ drop n s ≡ s
take-append-drop zero s = refl
take-append-drop (suc n) [] = refl
take-append-drop (suc n) (c ∷ s) = rw (take-append-drop n s)

pub drop-append : (s t : Text) → drop (length s) (s ++ t) ≡ t
drop-append [] t = refl
drop-append (c ∷ s) t = drop-append s t

-- A text ends in a suffix exactly if it is some text with the suffix behind it.
pub has_suffix-append : (s t : Text) → has_suffix (s ++ t) t ≡ true
unfolding has_suffix
has_suffix-append s t =
    let e : length (s ++ t) - length t ≡ length s = omega (arith, length-append s t) in
    rw (e, drop-append s t, text_eq_refl t) (ground (arith, length-append s t))

pub has_suffix→append : (s t : Text) → has_suffix s t ≡ true → (before : Text) × (s ≡ before ++ t)
unfolding has_suffix
has_suffix→append s t h =
    let k : ℕ = length s - length t in
    (
      take k s,
      sym (take-append-drop k s) ∙ ap (λ u. take k s ++ u) (text_eq→eq (drop k s) t (ground arith)),
    )

pub cut-append : (s t : Text) (b : ℕ) → contains_byte s b ≡ false → cut (s ++ b ∷ t) b ≡ (s, some t)
unfolding cut contains_byte
cut-append [] t b h = ground arith
cut-append (c ∷ s) t b h = ground (arith, cut-append s t b)

pub contains_byte-append : (s t : Text) (b : ℕ) → contains_byte (s ++ b ∷ t) b ≡ true
unfolding contains_byte
contains_byte-append [] t b = ground arith
contains_byte-append (c ∷ s) t b = ground (arith, contains_byte-append s t b)
