-- ===== src/Drivers/Journal.antt =====
-- A runner that also writes a journal of the commands it runs, newest first, and rules for what a
-- driver leaves in it. The driver's code is the same: it takes any runner.
use netflix_pbrd.Base.{
  Bool, true, false, List, [], ◌∷◌, Text, Io, ◌>>=◌, ◌>>◌, pure, when, catch, Result, ok, err,
  then_io,
}
use netflix_pbrd.Runner.{Runner}
use netflix_pbrd.Drivers.Commands.{is_success, succeeds}

pub record Entry : Type 0 where
  pub name : Text
  pub args : List Text
  pub input : Text
  pub succeeded : Bool

abbrev pub Journal : Type 0
Journal = List Entry

module _ {W : Type 0} where
  abbrev pub written :
      {A : Type 0} → Text → List Text → Text → Journal → W × Result A → (Journal × W) × Result A
  written name args input journal (w, r) = (
    ((record { name = name; args = args; input = input; succeeded = is_success r }) ∷ journal, w),
    r,
  )

  abbrev pub unwritten : {A : Type 0} → Journal → W × Result A → (Journal × W) × Result A
  unwritten journal (w, r) = ((journal, w), r)

  abbrev pub journaled : Runner W → Runner (Journal × W)
  journaled runner = record {
    run = λ name args s. written name args [] s.0 (runner.run name args s.1);
    run_input =
        λ input name args s. written name args input s.0 (runner.run_input input name args s.1);
    output = λ name args s. written name args [] s.0 (runner.output name args s.1);
    look_path = λ name s. unwritten s.0 (runner.look_path name s.1);
    exists = λ path s. runner.exists path s.1;
  }

-- What holds of a journal, of these entries or of others, behind a run: one predicate if it succeeded, another if it failed.
abbrev pub Outcome :
    {E W A : Type 0} → (List E → Type 0) → (List E → Type 0) → (List E × W) × Result A → Type 0
Outcome Q R ((journal, w), ok a) = Q journal
Outcome Q R ((journal, w), err e) = R journal

-- A run from a journal with `P` has that outcome.
abbrev pub Leads :
    {E W A : Type 0}
    → (List E → Type 0)
    → (List E → Type 0)
    → (List E → Type 0)
    → Io (List E × W) A
    → Type 0
Leads {E} {W} P Q R m = (journal : List E) (w : W) → P journal → Outcome Q R (m (journal, w))

module _ {E W : Type 0} where
  pub Leads->>= :
      {A B : Type 0} (P Q S R : List E → Type 0) (m : Io (List E × W) A) (f : A → Io (List E × W) B)
      → Leads P Q R m
      → ((a : A) → Leads Q S R (f a))
      → Leads P S R (m >>= f)
  Leads->>= {A} {B} P Q S R m f hm hf journal w p = split (m (journal, w)) (hm journal w p)
    where
      split : (r : (List E × W) × Result A) → Outcome Q R r → Outcome S R (then_io f r)
      split ((j, v), ok a) q = hf a j v q
      split ((j, v), err e) q = q

  pub Leads->> :
      {B : Type 0} (P Q S R : List E → Type 0) (m : Io (List E × W) (Unit {0}))
      (k : Io (List E × W) B)
      → Leads P Q R m
      → Leads Q S R k
      → Leads P S R (m >> k)
  Leads->> P Q S R m k hm hk = Leads->>= P Q S R m (λ _. k) hm (λ _. hk)

  pub Leads-when :
      (P R : List E → Type 0) (b : Bool) (m : Io (List E × W) (Unit {0}))
      → Leads P P R m
      → Leads P P R (when b m)
  Leads-when P R true m h journal w p = h journal w p
  Leads-when P R false m h journal w p = p

  pub Leads-pure : {A : Type 0} (P R : List E → Type 0) (a : A) → Leads {W = W} P P R (pure a)
  Leads-pure P R a journal w p = p

module _ {W : Type 0} (runner : Runner W) where
  -- A command that may succeed or fail.
  pub Leads-run :
      (P Q R : Journal → Type 0) (name : Text) (args : List Text)
      → ((journal : Journal)
          → P journal
          → Q ((record { name = name; args = args; input = []; succeeded = true }) ∷ journal))
      → ((journal : Journal)
          → P journal
          → R ((record { name = name; args = args; input = []; succeeded = false }) ∷ journal))
      → Leads P Q R ((journaled runner).run name args)
  Leads-run P Q R name args good bad journal w p = split (runner.run name args w)
    where
      split : (r : W × Result (Unit {0})) → Outcome Q R (written name args [] journal r)
      split (v, ok u) = good journal p
      split (v, err e) = bad journal p

  pub Leads-run_input :
      (P Q R : Journal → Type 0) (input name : Text) (args : List Text)
      → ((journal : Journal)
          → P journal
          → Q ((record { name = name; args = args; input = input; succeeded = true }) ∷ journal))
      → ((journal : Journal)
          → P journal
          → R ((record { name = name; args = args; input = input; succeeded = false }) ∷ journal))
      → Leads P Q R ((journaled runner).run_input input name args)
  Leads-run_input P Q R input name args good bad journal w p =
      split (runner.run_input input name args w)
    where
      split : (r : W × Result (Unit {0})) → Outcome Q R (written name args input journal r)
      split (v, ok u) = good journal p
      split (v, err e) = bad journal p

  pub Leads-output :
      (P Q R : Journal → Type 0) (name : Text) (args : List Text)
      → ((journal : Journal)
          → P journal
          → Q ((record { name = name; args = args; input = []; succeeded = true }) ∷ journal))
      → ((journal : Journal)
          → P journal
          → R ((record { name = name; args = args; input = []; succeeded = false }) ∷ journal))
      → Leads P Q R ((journaled runner).output name args)
  Leads-output P Q R name args good bad journal w p = split (runner.output name args w)
    where
      split : (r : W × Result Text) → Outcome Q R (written name args [] journal r)
      split (v, ok u) = good journal p
      split (v, err e) = bad journal p

  -- A probe: whether a command succeeds. It cannot fail.
  pub Leads-succeeds :
      (P R : Journal → Type 0) (name : Text) (args : List Text)
      → ((journal : Journal) (b : Bool)
          → P journal
          → P ((record { name = name; args = args; input = []; succeeded = b }) ∷ journal))
      → Leads P P R (succeeds (journaled runner) name args)
  unfolding succeeds
  Leads-succeeds P R name args keep journal w p = split (runner.run name args w)
    where
      split :
          (r : W × Result (Unit {0}))
          → Outcome P R (
              then_io
                (λ x. pure (is_success x))
                (catch (λ (s : Journal × W). written name args [] journal r) (journal, w)))
      split (v, ok u) = keep journal true p
      split (v, err e) = keep journal false p
