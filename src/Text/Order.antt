-- ===== src/Text/Order.antt =====
-- The order of `sort.Strings` is a strict total order.
use netflix_pbrd.Base.{◌≡◌, refl, ◌⊎◌, inl, inr, true, false, [], ◌∷◌, Text, arith}
use netflix_pbrd.Text.{text_lt}

pub text_lt_irrefl : (s : Text) → text_lt s s ≡ false
unfolding text_lt
text_lt_irrefl [] = refl
text_lt_irrefl (c ∷ s) = ground (arith, text_lt_irrefl s)

pub text_lt_trans : (s t u : Text) → text_lt s t ≡ true → text_lt t u ≡ true → text_lt s u ≡ true
unfolding text_lt
text_lt_trans [] [] u h k = ground arith
text_lt_trans [] (y ∷ t) [] h k = ground arith
text_lt_trans [] (y ∷ t) (z ∷ u) h k = refl
text_lt_trans (x ∷ s) [] u h k = ground arith
text_lt_trans (x ∷ s) (y ∷ t) [] h k = ground arith
text_lt_trans (x ∷ s) (y ∷ t) (z ∷ u) h k = ground (arith, text_lt_trans s t u)

pub text_lt_total : (s t : Text) → (text_lt s t ≡ true) ⊎ ((s ≡ t) ⊎ (text_lt t s ≡ true))
unfolding text_lt
text_lt_total [] [] = inr (inl refl)
text_lt_total [] (y ∷ t) = inl refl
text_lt_total (x ∷ s) [] = inr (inr refl)
text_lt_total (x ∷ s) (y ∷ t) = ground (arith, text_lt_total s t)
