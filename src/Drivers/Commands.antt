-- ===== src/Drivers/Commands.antt =====
-- The helpers of the drivers.
use netflix_pbrd.Base.{
  Bool, true, false, not, ◌||◌, List, [], ◌∷◌, ◌++◌, Text, Io, ◌>>=◌, pure, fail, when, catch,
  Result, ok, err, text, codes, if◌then◌else◌,
}
use netflix_pbrd.Text.{text_eq, join}
use netflix_pbrd.Text.Words.{words}
use netflix_pbrd.Config.{ApplyConfig}
use netflix_pbrd.Runner.{Runner}

abbrev pub or_default : Text → Text → Text
or_default [] fallback = fallback
or_default (c ∷ value) fallback = c ∷ value

abbrev pub is_success : {A : Type 0} → Result A → Bool
is_success (ok a) = true
is_success (err e) = false

abbrev pub some_default : List Text → Bool
some_default [] = false
some_default (base ∷ bases) = text_eq base (codes "0.0.0.0/0") || some_default bases

unfoldable pub allowed : ApplyConfig → List Text → Text
unfolding join text_eq
allowed c nets =
    if some_default c.base_allowed
    then join c.base_allowed (codes ",")
    else join (c.base_allowed ++ nets) (codes ",")

abbrev pub table_args : Text → List Text
table_args table = if text_eq table (codes "filter") then [] else codes "-t" ∷ table ∷ []

module _ {W : Type 0} (runner : Runner W) where
  open runner use {run, run_input, look_path, exists}

  unfoldable pub succeeds : Text → List Text → Io W Bool
  succeeds name args = do r ← catch (run name args); pure (is_success r)

  unfoldable pub route_batch : List Text → Io W (Unit {0})
  unfolding join words
  route_batch [] = pure tt
  route_batch (line ∷ lines) =
      run_input (join (line ∷ lines) (codes "\n") ++ codes "\n") (codes "ip")
        (words "-force -batch -")

  -- Android's iptables, where there is no iptables-restore.
  abbrev pub restore_fallback : Text → Io W (Unit {0})
  restore_fallback input w =
      if exists (codes "/system/bin/xtables-multi") w
      then run_input input (codes "/system/bin/xtables-multi")
          (codes "iptables-restore" ∷ codes "--noflush" ∷ []) w
      else fail (text (codes "iptables-restore not found")) w

  abbrev pub restore_with : Text → Result Text → Io W (Unit {0})
  restore_with input (ok path) = run_input input path (codes "--noflush" ∷ [])
  restore_with input (err e) = restore_fallback input

  unfoldable pub restore_iptables : Text → Io W (Unit {0})
  restore_iptables input = do
    found ← catch (look_path (codes "iptables-restore"))
    restore_with input found

  unfoldable pub ensure_chain : Text → Text → Io W (Unit {0})
  unfolding succeeds text_eq
  ensure_chain table chain = do
    present ← succeeds (codes "iptables") (table_args table ++ (codes "-S" ∷ chain ∷ []))
    when (not present) (run (codes "iptables") (table_args table ++ (codes "-N" ∷ chain ∷ [])))
