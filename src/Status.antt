-- ===== src/Status.antt =====
-- internal/pbr/status.go: the status that the daemon publishes in a file. Its JSON encoding is a
-- parameter.
use netflix_pbrd.Base.{ℕ, Bool, Text, Io, Result, err, lift, codes, ◌++◌, ◌>>=◌, ◌>>◌}
use netflix_pbrd.Config.{Role}
use netflix_pbrd.System.{System, FileRead, missing, failed, content, read_failure}

pub record OperationalStatus : Type 0 where
  pub version : ℕ
  pub role : Role
  pub pid : ℕ
  pub updated : ℕ
  pub desired : ℕ
  pub learned : ℕ
  pub applied : ℕ
  pub reported : ℕ
  pub applied_known : Bool
  pub last_apply : ℕ
  pub last_report : ℕ
  pub last_error : Text
  pub last_error_at : ℕ

abbrev pub runtime_status_file : Text → Text
runtime_status_file state_file = state_file ++ codes ".runtime.json"

unfoldable pub save_operational_status :
    {W : Type 0}
    → System W
    → (OperationalStatus → Result Text)
    → Text
    → OperationalStatus
    → Io W (Unit {0})
save_operational_status sys encode path status = do
  sys.make_parent path
  bytes ← lift (encode status)
  sys.write_file (path ++ codes ".tmp") (bytes ++ codes "\n")
  sys.rename (path ++ codes ".tmp") path

-- The status that a file holds, decoded.
abbrev pub decoded_status :
    (Text → Result OperationalStatus) → Text → FileRead → Result OperationalStatus
decoded_status decode path missing = err (read_failure path)
decoded_status decode path (failed e) = err e
decoded_status decode path (content bytes) = decode bytes

unfoldable pub load_operational_status :
    {W : Type 0}
    → System W
    → (Text → Result OperationalStatus)
    → Text
    → W
    → Result OperationalStatus
load_operational_status sys decode path w = decoded_status decode path (sys.read_file path w)
