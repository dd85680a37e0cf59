-- ===== src/Similarity/Tests.antt =====
-- The distance of small texts.
use mergebot.Prelude.{ℕ, ◌≤◌, ◌≡◌, refl, []}
use mergebot.Bytes.{codes}
use mergebot.Similarity.{fill, first_row, last_entry, rows, levenshtein_distance}
use mergebot.Similarity.Scripts.{read, Script}
use mergebot.Similarity.Least.{levenshtein_distance-least}

kitten : levenshtein_distance (codes "kitten") (codes "sitting") ≡ 3
unfolding levenshtein_distance rows fill first_row last_entry
kitten = refl

nothing_to_text : levenshtein_distance [] (codes "abc") ≡ 3
unfolding levenshtein_distance rows fill first_row last_entry
nothing_to_text = refl

levenshtein_distance-least_example :
    Script
      (read (codes "kitten") [])
      (read (codes "sitting") [])
      (levenshtein_distance (codes "kitten") (codes "sitting"))
    × ((n : ℕ)
        → Script (read (codes "kitten") []) (read (codes "sitting") []) n
        → levenshtein_distance (codes "kitten") (codes "sitting") ≤ n)
levenshtein_distance-least_example = levenshtein_distance-least (codes "kitten") (codes "sitting")
