-- ===== src/Base/Effects.antt =====
-- Code that acts on a state and may fail: the state that it leaves is kept also on an error.
use mathlib.Core.Path.{◌≡◌, refl}
use mathlib.Core.Logic.{◌⊎◌, inl, inr}
use mathlib.Core.Bool.{Bool, true, false}
use native.Mathlib.Omega.{arith}
use netflix_pbrd.Base.Tests.{if◌then◌else◌}
use netflix_pbrd.Base.Results.{Result, ok, err, Error, wrapped, Text}

abbrev pub Io : Type 0 → Type 0 → Type 0
Io W A = W → W × Result A

abbrev pub then_io : {W A B : Type 0} → (A → Io W B) → W × Result A → W × Result B
then_io f (w, ok a) = f a w
then_io f (w, err e) = (w, err e)

infixl 5 ◌>>=◌ ◌>>◌
abbrev pub ◌>>=◌ : {W A B : Type 0} → (W → W × Result A) → (A → W → W × Result B) → W → W × Result B
◌>>=◌ m f w = then_io f (m w)

abbrev pub ◌>>◌ :
    {W B : Type 0} → (W → W × Result (Unit {0})) → (W → W × Result B) → W → W × Result B
◌>>◌ m k w = then_io (λ _. k) (m w)

abbrev pub pure : {W A : Type 0} → A → W → W × Result A
pure a w = (w, ok a)

abbrev pub fail : {W A : Type 0} → Error → W → W × Result A
fail e w = (w, err e)

abbrev pub lift : {W A : Type 0} → Result A → W → W × Result A
lift r w = (w, r)

abbrev pub when : {W : Type 0} → Bool → (W → W × Result (Unit {0})) → W → W × Result (Unit {0})
when true m w = m w
when false m w = (w, ok tt)

-- `fmt.Errorf` around the error of a call.
abbrev wrap_result : {W A : Type 0} → Text → W × Result A → W × Result A
wrap_result prefix (w, ok a) = (w, ok a)
wrap_result prefix (w, err e) = (w, err (wrapped prefix e))

abbrev pub wrap_error : {W A : Type 0} → Text → (W → W × Result A) → W → W × Result A
wrap_error prefix m w = wrap_result prefix (m w)

-- A call whose error is a value of the code: `err := f()`.
abbrev caught : {W A : Type 0} → W × Result A → W × Result (Result A)
caught (w, r) = (w, ok r)

abbrev pub catch : {W A : Type 0} → (W → W × Result A) → W → W × Result (Result A)
catch m w = caught (m w)

-- The parts of a run that succeeds.
pub >>=-eq-ok :
    {W A B : Type 0} (m : Io W A) (f : A → Io W B) (w : W) {w' : W} {b : B}
    → (m >>= f) w ≡ (w', ok b)
    → (a : A) × (v : W) × (m w ≡ (v, ok a)) × (f a v ≡ (w', ok b))
>>=-eq-ok {W} {A} {B} m f w {w'} {b} h = split (m w) refl h
  where
    split :
        (r : W × Result A)
        → m w ≡ r
        → then_io f r ≡ (w', ok b)
        → (a : A) × (v : W) × (m w ≡ (v, ok a)) × (f a v ≡ (w', ok b))
    split (v, ok a) e k = (a, v, e, k)
    split (v, err x) e k = absurd (ground arith)

-- A predicate on the state that a piece of code keeps, whatever its result.
abbrev pub Keeps : {W A : Type 0} → (W → Type 0) → (W → W × Result A) → Type 0
Keeps {W} P m = (w : W) → P w → P (m w).0

pub Keeps->>= :
    {W A B : Type 0} (P : W → Type 0) (m : Io W A) (f : A → Io W B)
    → Keeps P m
    → ((a : A) → Keeps P (f a))
    → Keeps P (m >>= f)
Keeps->>= {W} {A} P m f hm hf w p = split (m w) (hm w p)
  where
    split : (r : W × Result A) → P r.0 → P (then_io f r).0
    split (v, ok a) q = hf a v q
    split (v, err e) q = q

pub Keeps->> :
    {W B : Type 0} (P : W → Type 0) (m : Io W (Unit {0})) (k : Io W B)
    → Keeps P m
    → Keeps P k
    → Keeps P (m >> k)
Keeps->> P m k hm hk = Keeps->>= P m (λ _. k) hm (λ _. hk)

-- A sequence either goes on behind its first part, or ends with the error of it.
pub >>=-cases :
    {W A B : Type 0} (m : Io W A) (f : A → Io W B) (w : W)
    → ((a : A) × (v : W) × (m w ≡ (v, ok a)) × ((m >>= f) w ≡ f a v))
      ⊎ ((e : Error) × (v : W) × (m w ≡ (v, err e)) × ((m >>= f) w ≡ (v, err e)))
>>=-cases {W} {A} {B} m f w = split (m w) refl
  where
    split :
        (r : W × Result A)
        → m w ≡ r
        → ((a : A) × (v : W) × (m w ≡ (v, ok a)) × (then_io f r ≡ f a v))
          ⊎ ((e : Error) × (v : W) × (m w ≡ (v, err e)) × (then_io f r ≡ (v, err e)))
    split (v, ok a) e = inl (a, v, e, refl)
    split (v, err x) e = inr (x, v, e, refl)

pub Keeps-if :
    {W A : Type 0} (P : W → Type 0) (b : Bool) (f g : W → W × Result A)
    → Keeps P f
    → Keeps P g
    → Keeps P (if b then f else g)
Keeps-if P true f g hf hg w p = hf w p
Keeps-if P false f g hf hg w p = hg w p

pub Keeps-when :
    {W : Type 0} (P : W → Type 0) (b : Bool) (f : W → W × Result (Unit {0}))
    → Keeps P f
    → Keeps P (when b f)
Keeps-when P true f h w p = h w p
Keeps-when P false f h w p = p

pub Keeps-catch :
    {W A B : Type 0} (P : W → Type 0) (m : Io W A) (f : Result A → Io W B)
    → Keeps P m
    → ((r : Result A) → Keeps P (f r))
    → Keeps P (catch m >>= f)
Keeps-catch P m f h k w p = k (m w).1 (m w).0 (h w p)
