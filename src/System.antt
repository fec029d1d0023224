-- ===== src/System.antt =====
-- What the daemon asks of the operating system, of HTTP and of JSON: the clock, files, the exchange
-- with the controller. Each acts on a world of which the model knows nothing.
use netflix_pbrd.Base.{ℕ, List, Text, Io, Error, text, Result, codes, ◌++◌, ◌>>◌}
use netflix_pbrd.Config.{ApplyConfig}

-- What a file yields: `os.IsNotExist`, another error, or its content.
pub data FileRead : Type 0 where
  missing : FileRead
  failed : Error → FileRead
  content : Text → FileRead

-- The error of `ioutil.ReadFile` on a missing file.
abbrev pub read_failure : Text → Error
read_failure path = text (codes "open " ++ (path ++ codes ": no such file or directory"))

pub record ApiResponse : Type 0 where
  pub version : ℕ
  pub updated : ℕ
  pub networks : List Text

-- A request of the client: its bearer token, and the payload of a report.
pub data Request : Type 0 where
  get_networks : Text → Text → Request
  post_networks : Text → Text → ApiResponse → Request

-- The status of an answer, and the payload that its body decodes to.
pub record Response : Type 0 where
  pub status : ℕ
  pub status_line : Text
  pub payload : Result ApiResponse

pub record System (W : Type 0) : Type 0 where
  pub now : W → W × ℕ
  pub pid : ℕ
  pub read_file : Text → W → FileRead
  -- `os.MkdirAll(filepath.Dir(path))`, `ioutil.WriteFile`, `os.Rename`
  pub make_parent : Text → Io W (Unit {0})
  pub write_file : Text → Text → Io W (Unit {0})
  pub rename : Text → Text → Io W (Unit {0})
  pub send : Request → Io W Response

-- The drivers, as the daemon calls them: `applyNetworks` and `reapplyNetworks`.
pub record Applier (W : Type 0) : Type 0 where
  pub apply_networks : ApplyConfig → List Text → Io W (Unit {0})
  pub reapply_networks : ApplyConfig → List Text → Io W (Unit {0})

-- The write of a file through a temporary file beside it, as in `SaveState` and
-- `saveOperationalStatus`.
unfoldable pub replace_file : {W : Type 0} → System W → Text → Text → Io W (Unit {0})
replace_file sys path bytes = do
  sys.make_parent path
  sys.write_file (path ++ codes ".tmp") bytes
  sys.rename (path ++ codes ".tmp") path
