-- ===== src/Text.antt =====
-- The functions of Go's `strings` package (and `sort.Strings`, `strconv`) that the program calls,
-- over the bytes of a string. A map of strings to nothing is a list with no repetition.
pub mod Order
pub mod Sets
pub mod Laws
pub mod Trim
pub mod Words
pub mod Ink
use mathlib.Core.List.{reverse}
use netflix_pbrd.Base.{
  ℕ, zero, suc, ◌+◌, ◌-◌, ◌*◌, ◌/◌, ◌%◌, Bool, true, false, ◌&&◌, ◌||◌, List, [], ◌∷◌, ◌++◌, Option,
  none, some, Text, length, take, drop, ltb, leb, ◌==◌, if◌then◌else◌,
}

unfoldable pub text_eq : Text → Text → Bool
text_eq [] [] = true
text_eq (x ∷ xs) (y ∷ ys) = x == y && text_eq xs ys
text_eq _ _ = false

unfoldable pub has_prefix : Text → Text → Bool
has_prefix s [] = true
has_prefix [] (p ∷ ps) = false
has_prefix (c ∷ s) (p ∷ ps) = c == p && has_prefix s ps

unfoldable pub has_suffix : Text → Text → Bool
unfolding text_eq
has_suffix s suffix =
    leb (length suffix) (length s) && text_eq (drop (length s - length suffix) s) suffix

unfoldable pub trim_prefix : Text → Text → Text
unfolding has_prefix
trim_prefix s prefix = if has_prefix s prefix then drop (length prefix) s else s

unfoldable pub trim_suffix : Text → Text → Text
unfolding has_suffix
trim_suffix s suffix = if has_suffix s suffix then take (length s - length suffix) s else s

-- `strings.Contains`, for a text and for one byte.
unfoldable pub contains_text : Text → Text → Bool
unfolding has_prefix
contains_text [] part = has_prefix [] part
contains_text (c ∷ s) part = has_prefix (c ∷ s) part || contains_text s part

unfoldable pub contains_byte : Text → ℕ → Bool
contains_byte [] b = false
contains_byte (c ∷ s) b = c == b || contains_byte s b

-- The text before the first `b`, and the text behind it if there is a `b`.
unfoldable pub cut : Text → ℕ → Text × Option Text
cut [] b = ([], none)
cut (c ∷ s) b = if c == b then ([], some s) else (c ∷ (cut s b).0, (cut s b).1)

-- White space of ASCII, and the width in bytes of a white space character (`unicode.IsSpace`) at
-- the head of a text, 0 if there is none.
abbrev ascii_space : ℕ → Bool
ascii_space c = leb 9 c && leb c 13 || c == 32

abbrev wide_space : ℕ → ℕ → ℕ → Bool
wide_space c d e =
    c == 0xE1 && d == 0x9A && e == 0x80
    || c == 0xE2 && d == 0x80 && (leb 0x80 e && leb e 0x8A || e == 0xA8 || e == 0xA9 || e == 0xAF)
    || c == 0xE2 && d == 0x81 && e == 0x9F
    || c == 0xE3 && d == 0x80 && e == 0x80

abbrev two_byte_space : ℕ → ℕ → Bool
two_byte_space c d = c == 0xC2 && (d == 0x85 || d == 0xA0)

unfoldable pub space_width : Text → ℕ
space_width [] = 0
space_width (c ∷ []) = if ascii_space c then 1 else 0
space_width (c ∷ d ∷ []) = if ascii_space c then 1 else if two_byte_space c d then 2 else 0
space_width (c ∷ d ∷ e ∷ s) =
    if ascii_space c then 1 else if two_byte_space c d then 2 else if wide_space c d e then 3 else 0

-- The same at the end of a text whose bytes are given in reverse.
unfoldable pub space_width_back : Text → ℕ
space_width_back [] = 0
space_width_back (c ∷ []) = if ascii_space c then 1 else 0
space_width_back (d ∷ c ∷ []) = if ascii_space d then 1 else if two_byte_space c d then 2 else 0
space_width_back (e ∷ d ∷ c ∷ s) =
    if ascii_space e then 1 else if two_byte_space d e then 2 else if wide_space c d e then 3 else 0

-- The first argument counts the bytes of a space that are still to be skipped.
unfoldable pub skip_spaces : (Text → ℕ) → ℕ → Text → Text
skip_spaces width k [] = []
skip_spaces width (suc k) (c ∷ s) = skip_spaces width k s
skip_spaces width zero (c ∷ s) =
    let rest = skip_spaces width (width (c ∷ s) - 1) s in if width (c ∷ s) == 0 then c ∷ s else rest

unfoldable pub trim_space : Text → Text
unfolding skip_spaces space_width space_width_back
trim_space s = reverse (skip_spaces space_width_back 0 (reverse (skip_spaces space_width 0 s)))

-- `strconv.Itoa` on a number below 1000, by its decimal digits (`net` prints octets alike).
unfoldable pub itoa : ℕ → Text
itoa n =
    if ltb n 10
    then (48 + n) ∷ []
    else if ltb n 100
    then (48 + n / 10) ∷ (48 + n % 10) ∷ []
    else (48 + n / 100) ∷ (48 + n / 10 % 10) ∷ (48 + n % 10) ∷ []

unfoldable pub join : List Text → Text → Text
join [] sep = []
join (x ∷ []) sep = x
join (x ∷ y ∷ xs) sep = x ++ (sep ++ join (y ∷ xs) sep)

-- Sets of texts, and `sort.Strings` (by bytes).
unfoldable pub contains : List Text → Text → Bool
unfolding text_eq
contains [] x = false
contains (y ∷ ys) x = text_eq y x || contains ys x

unfoldable pub set_add : Text → List Text → List Text
unfolding contains
set_add x set = if contains set x then set else x ∷ set

unfoldable pub text_lt : Text → Text → Bool
text_lt [] [] = false
text_lt [] (y ∷ ys) = true
text_lt (x ∷ xs) [] = false
text_lt (x ∷ xs) (y ∷ ys) = ltb x y || x == y && text_lt xs ys

unfoldable pub insert_sorted : Text → List Text → List Text
unfolding text_lt
insert_sorted x [] = x ∷ []
insert_sorted x (y ∷ ys) = if text_lt y x then y ∷ insert_sorted x ys else x ∷ y ∷ ys

unfoldable pub sort_strings : List Text → List Text
unfolding insert_sorted
sort_strings [] = []
sort_strings (x ∷ xs) = insert_sorted x (sort_strings xs)
