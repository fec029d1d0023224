-- ===== src/Text/Words.antt =====
-- `strings.Fields`, `strings.Split` at a newline, and command lines as lists of words.
use netflix_pbrd.Base.{
  ℕ, zero, suc, ◌-◌, List, [], ◌∷◌, ◌++◌, String, Text, codes, ◌==◌, if◌then◌else◌,
}
use netflix_pbrd.Text.{space_width}

-- A word that has ended, if it has a byte.
abbrev pub end_word : Text → List Text → List Text
end_word [] rest = rest
end_word (c ∷ word) rest = (c ∷ word) ∷ rest

-- The bytes of a space that are still to be skipped, and the word so far.
unfoldable pub fields_from : ℕ → Text → Text → List Text
unfolding space_width
fields_from k word [] = end_word word []
fields_from (suc k) word (c ∷ s) = fields_from k word s
fields_from zero word (c ∷ s) =
    let more = fields_from zero (word ++ (c ∷ [])) s in
    let rest = fields_from (space_width (c ∷ s) - 1) [] s in
    if space_width (c ∷ s) == 0 then more else end_word word rest

unfoldable pub fields : Text → List Text
unfolding fields_from
fields s = fields_from zero [] s

unfoldable pub split_at : ℕ → Text → Text → List Text
split_at b word [] = word ∷ []
split_at b word (c ∷ s) =
    let next = split_at b [] s in
    let more = split_at b (word ++ (c ∷ [])) s in if c == b then word ∷ next else more

-- `strings.Split(s, "\n")`
unfoldable pub split_lines : Text → List Text
unfolding split_at
split_lines s = split_at 10 [] s

-- The words of a literal, by its single spaces.
unfoldable pub words : String → List Text
unfolding split_at
words s = split_at 32 [] (codes s)

-- Pieces of text put together.
abbrev pub text_of : List Text → Text
text_of [] = []
text_of (x ∷ xs) = x ++ text_of xs
