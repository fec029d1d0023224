-- ===== src/Runner.antt =====
-- internal/pbr/runner.go: the interface through which the program runs commands, and ExecRunner,
-- which starts processes. Each method acts on a world that the model knows nothing of.
use netflix_pbrd.Base.{
  Bool, true, false, List, [], ◌∷◌, Text, Io, Option, none, some, Result, ok, err, Error, text,
  codes, ◌>>=◌, pure,
}
use netflix_pbrd.Text.{join, trim_space}
use netflix_pbrd.Text.Words.{text_of}

pub record Runner (W : Type 0) : Type 0 where
  pub run : Text → List Text → Io W (Unit {0})
  pub run_input : Text → Text → List Text → Io W (Unit {0})
  pub output : Text → List Text → Io W Text
  pub look_path : Text → Io W Text
  pub exists : Text → W → Bool

-- Processes: `CombinedOutput` with an input, whose output comes beside an error, `exec.LookPath`,
-- `os.Stat`, and the text of an error.
pub record Processes (W : Type 0) : Type 0 where
  pub combined_output : Text → Text → List Text → W → W × (Text × Option Error)
  pub find : Text → Io W Text
  pub stat : Text → W → Option Error
  pub describe : Error → Text

module _ {W : Type 0} (processes : Processes W) where
  unfoldable pub command_error : Text → List Text → Error → Text → Error
  unfolding join trim_space
  command_error name args e out = text (
      text_of (
        name
        ∷ codes " "
        ∷ join args (codes " ")
        ∷ codes ": "
        ∷ processes.describe e
        ∷ codes ": "
        ∷ trim_space out
        ∷ []))

  abbrev pub finished : Text → List Text → W × (Text × Option Error) → W × Result Text
  finished name args (w, (out, none)) = (w, ok out)
  finished name args (w, (out, some e)) = (w, err (command_error name args e out))

  abbrev pub exec_output : Text → Text → List Text → Io W Text
  exec_output input name args w = finished name args (processes.combined_output input name args w)

  abbrev pub is_there : Option Error → Bool
  is_there none = true
  is_there (some e) = false

  unfoldable pub exec_runner : Runner W
  exec_runner = record {
    run = λ name args. exec_output [] name args >>= λ out. pure tt;
    run_input = λ input name args. exec_output input name args >>= λ out. pure tt;
    output = exec_output [];
    look_path = processes.find;
    exists = λ path w. is_there (processes.stat path w);
  }
