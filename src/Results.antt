-- ===== src/Results.antt =====
-- Results of resolved blocks and their files: include/mergebot/server/vo/ResolutionResultVO.h and
-- marshalResolutionResult of src/core/sa_utility.cpp. Reading back what was written as JSON is taken
-- to give the same value.
use mergebot.Prelude.{ℕ, Bool, List, ◌++◌, if◌then◌else◌}
use mergebot.Bytes.{Bytes, bytes_eq}

-- The confidence is counted in hundredths.
pub record BlockResolutionResult : Type 0 where
  pub index : ℕ
  pub desc : Bytes
  pub code : Bytes
  pub confidence : ℕ

pub record FileResolutionResult : Type 0 where
  pub filepath : Bytes
  pub resolutions : List BlockResolutionResult

-- What stands at a path of the resolutions' directory: no file, one that is not JSON, or a result.
pub data Entry : Type 0 where
  absent garbage : Entry
  results : FileResolutionResult → Entry

abbrev pub Store : Type 0
Store = Bytes → Entry

-- The file system: the path of a file relative to the project, whether a write succeeds, and what a
-- failed write leaves behind.
pub record Disk : Type 0 where
  pub relative : Bytes → Bytes
  pub writes : Bytes → Bool
  pub failed : Bytes → Entry → Entry

unfoldable pub set_entry : Bytes → Entry → Store → Store
set_entry name e store = λ path. if bytes_eq path name then e else store path

-- The new contents of a file of results.
unfoldable pub merged : Entry → Bytes → List BlockResolutionResult → Entry
merged absent file_name rs = results (record { filepath = file_name; resolutions = rs })
merged garbage file_name rs = results (record { filepath = file_name; resolutions = rs })
merged (results fr) file_name rs = results (record fr { resolutions = fr.resolutions ++ rs })

unfoldable pub marshal_resolution_result :
    Disk → Bytes → Bytes → List BlockResolutionResult → Store → Store
unfolding set_entry merged
marshal_resolution_result disk dest file_name rs store =
    let new = merged (store dest) file_name rs in
    set_entry dest (if disk.writes dest then new else disk.failed dest (store dest)) store
