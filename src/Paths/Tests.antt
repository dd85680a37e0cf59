-- ===== src/Paths/Tests.antt =====
-- Names of paths.
use mergebot.Prelude.{◌≡◌, refl, [], ◌∷◌, arith}
use mergebot.Bytes.{codes}
use mergebot.StringOps.Split.{string_split, string_join}
use mergebot.StringOps.Split.Join.{intercalate}
use mergebot.Bytes.{find, contains}
use mergebot.Paths.{path_to_name, name_to_path, replace}
use mergebot.Paths.RoundTrip.{name_to_path-path_to_name}

name_of_source : path_to_name (codes "/src/a.c") ≡ codes "@src@a.c"
unfolding path_to_name replace string_split string_join find contains
name_of_source = refl

name_to_path-path_to_name_example :
    let path = intercalate (codes "/") ([] ∷ codes "s" ∷ codes "a.c" ∷ []) in
    name_to_path (path_to_name path) ≡ path
name_to_path-path_to_name_example =
    name_to_path-path_to_name [] (codes "s") (codes "a.c" ∷ [])
      (
        (tt, tt, tt, tt),
        (
          (omega arith, omega arith, omega arith, omega arith),
          ((omega arith, omega arith, omega arith, omega arith), tt),
        ),
      )
      ((λ q. cc), ((λ q. cc), tt))
