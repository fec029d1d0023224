-- ===== src/Base/Results.antt =====
-- Go errors as values, and the results of fallible code.
use Prim.Native.Nat.{ℕ}
use Prim.Native.Char.{code}
use Prim.Native.String.{String}
use mathlib.Core.Path.{◌≡◌, refl}
use mathlib.Core.List.{List, [], ◌∷◌}

-- A Go string: its bytes.
abbrev pub Text : Type 0
Text = List ℕ

-- A text literal of the source, which is ASCII. `String` has its own `[]` and `∷`.
abbrev pub codes : String → Text
codes String.[] = []
codes (String.◌∷◌ c s) = code c ∷ codes s

-- `errors.New` or an error of the system by its text; `fmt.Errorf` with one `%q`, one `%d`, or an
-- inner error behind a prefix.
pub data Error : Type 0 where
  text : Text → Error
  quoted : Text → Text → Error
  numbered : Text → ℕ → Error
  wrapped : Text → Error → Error

pub data Result {ℓ} (A : Type ℓ) : Type ℓ where
  ok : A → Result A
  err : Error → Result A

pub data Outcome {ℓ} {A : Type ℓ} (r : Result A) : Type ℓ where
  is_ok : (a : A) → r ≡ ok a → Outcome r
  is_err : (e : Error) → r ≡ err e → Outcome r

-- To split on a computed result and keep the equation.
pub Result-cases {ℓ} : {A : Type ℓ} (r : Result A) → Outcome r
Result-cases (ok a) = is_ok a refl
Result-cases (err e) = is_err e refl
