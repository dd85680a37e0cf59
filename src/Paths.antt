-- ===== src/Paths.antt =====
-- Names of the files of results: `pathToName` and `nameToPath` of src/core/sa_utility.cpp. Paths are
-- POSIX paths, whose generic form is the path itself.
use mergebot.Prelude.{ℕ, true, ◌||◌, [], ◌∷◌, ◌==◌, if◌then◌else◌}
pub mod RoundTrip
mod Tests
use mergebot.Bytes.{Bytes, codes, contains}
use mergebot.StringOps.Split.{string_split, string_join}

-- `std::replace`.
unfoldable pub replace : ℕ → ℕ → Bytes → Bytes
replace old new [] = []
replace old new (c ∷ s) = (if c == old then new else c) ∷ replace old new s

unfoldable pub path_to_name : Bytes → Bytes
unfolding replace
path_to_name path =
    let sep = if contains path (codes "/") then codes "/" else codes "\\" in
    replace b':' b'#' (string_join (string_split path sep true) (codes "@"))

-- The pieces that `std::getline` reads are those of a split that keeps empty ones: none stands behind
-- a separator at the end.
unfoldable pub name_to_path : Bytes → Bytes
unfolding replace
name_to_path name =
    let windows = contains name (codes "#") || contains name (codes "@@") in
    let sep = if windows then codes "\\" else codes "/" in
    let replaced = replace b'#' b':' (replace b'@' b'/' name) in
    string_join (string_split replaced (codes "/") true) sep
