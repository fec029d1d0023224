-- ===== src/Operations/Machine.antt =====
-- What the operations ask of the operating system beside files and commands: users, processes, file
-- removal and copies. Each acts on a world of which the model knows nothing.
use netflix_pbrd.Base.{ℕ, Bool, Text, Io, Error, Result, ok, err}
use netflix_pbrd.Config.{Config}
use netflix_pbrd.Config.Load.{Parsers, load_config}
use netflix_pbrd.System.{System, FileRead, missing, failed, content, read_failure}
use netflix_pbrd.Status.{OperationalStatus}
use netflix_pbrd.Runner.{Runner}
use netflix_pbrd.Drivers.Rules.{RuleParsers}

-- `os.Remove`: done, `os.IsNotExist`, or another error.
pub data Removal : Type 0 where
  removed : Removal
  absent : Removal
  kept : Error → Removal

-- `syscall.Kill`: sent, ESRCH, or another error.
pub data Signal : Type 0 where
  sent : Signal
  no_process : Signal
  refused : Error → Signal

pub record Machine (W : Type 0) : Type 0 where
  pub system : System W
  pub runner : Runner W
  pub user : ℕ
  pub path_exists : Text → W → Bool
  pub remove : Text → W → W × Removal
  pub kill : ℕ → ℕ → W → W × Signal
  pub sleep : ℕ → W → W
  pub read_link : Text → W → Result Text
  pub eval_symlinks : Text → W → Result Text
  -- `os.Executable`
  pub executable : Result Text
  -- Files by a descriptor: `os.Open`, `os.OpenFile` to write anew, `io.Copy`, `Close`, `os.Chmod`
  pub open_file : Text → Io W ℕ
  pub create_file : Text → ℕ → Io W ℕ
  pub copy_bytes : ℕ → ℕ → Io W (Unit {0})
  pub close_file : ℕ → Io W (Unit {0})
  pub chmod : Text → ℕ → Io W (Unit {0})
  -- The clock as a text of a file name, `20060102T150405Z`
  pub stamp : W → W × Text
  -- JSON, and the text of an error, of a number and of a text in `%q`
  pub rule_parsers : RuleParsers
  pub parsers : Parsers
  pub decode_config : Text → Result (Text × Config)
  pub decode_status : Text → Result OperationalStatus
  pub error_text : Error → Text
  pub number_text : ℕ → Text
  pub quote : Text → Text
  pub unicode_lower : Text → Text

abbrev pub loaded : Parsers → Result (Text × Config) → Result Config
loaded parsers (ok (role, c)) = load_config parsers role c
loaded parsers (err e) = err e

abbrev pub load_bytes : Parsers → (Text → Result (Text × Config)) → Text → FileRead → Result Config
load_bytes parsers decode path missing = err (read_failure path)
load_bytes parsers decode path (failed e) = err e
load_bytes parsers decode path (content bytes) = loaded parsers (decode bytes)

-- `LoadConfig`
unfoldable pub load_config_file : {W : Type 0} → Machine W → Text → W → Result Config
load_config_file m path w = load_bytes m.parsers m.decode_config path (m.system.read_file path w)
