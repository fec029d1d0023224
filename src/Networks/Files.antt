-- ===== src/Networks/Files.antt =====
-- State files: what `SaveState` writes and `LoadState` reads back.
use netflix_pbrd.Base.{
  ◌≡◌, refl, ◌∙◌, true, false, List, [], ◌∷◌, ◌++◌, Text, All, arith, append_assoc, append-nil,
  codes,
}
use netflix_pbrd.Text.{contains_byte, join}
use netflix_pbrd.Text.Laws.{text_eq→eq, text_eq_refl}
use netflix_pbrd.Networks.{scan_lines, state_content, drop_cr, equal}

-- A text that is one line of a file: no newline, and no carriage return at its end.
abbrev pub IsLine : Text → Type 0
IsLine s = (contains_byte s 10 ≡ false) × (drop_cr s ≡ s)

scan_lines-line :
    (read s rest : Text)
    → contains_byte s 10 ≡ false
    → scan_lines read (s ++ (10 ∷ rest)) ≡ drop_cr (read ++ s) ∷ scan_lines [] rest
unfolding scan_lines contains_byte
scan_lines-line [] [] rest h = refl
scan_lines-line (c ∷ read) [] rest h = rw append-nil refl
scan_lines-line [] (d ∷ s) rest h = ground (arith, scan_lines-line (d ∷ []) s rest)
scan_lines-line (c ∷ read) (d ∷ s) rest h =
    ground (arith, scan_lines-line (c ∷ (read ++ (d ∷ []))) s rest, append_assoc read (d ∷ []) s)

-- The lines that `LoadState` reads from the file that `SaveState` wrote are the values saved, if
-- there is a value and each is one line.
pub scan_lines-state_content :
    (x : Text) (xs : List Text)
    → All IsLine (x ∷ xs)
    → scan_lines [] (state_content (x ∷ xs)) ≡ x ∷ xs
unfolding state_content join
scan_lines-state_content x [] h =
    scan_lines-line [] x [] h.0.0 ∙ rw h.0.1 (unfold scan_lines in refl)
scan_lines-state_content x (y ∷ xs) h =
    rw (append_assoc x (codes "\n" ++ join (y ∷ xs) (codes "\n")) (codes "\n"))
      (scan_lines-line [] x _ h.0.0 ∙ rw (h.0.1, scan_lines-state_content y xs h.1))

-- An empty list of values is not read back: the file holds one newline, which is one empty line.
pub scan_lines-empty : scan_lines [] (state_content []) ≡ [] ∷ []
unfolding scan_lines state_content
scan_lines-empty = refl

pub equal→eq : (xs ys : List Text) → equal xs ys ≡ true → xs ≡ ys
unfolding equal
equal→eq [] [] h = refl
equal→eq (x ∷ xs) (y ∷ ys) h = ground (arith, equal→eq xs ys, text_eq→eq x y)
equal→eq [] (y ∷ ys) h = ground arith
equal→eq (x ∷ xs) [] h = ground arith

pub equal_refl : (xs : List Text) → equal xs xs ≡ true
unfolding equal
equal_refl [] = refl
equal_refl (x ∷ xs) = rw (text_eq_refl x) (equal_refl xs)
