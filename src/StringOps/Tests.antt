-- ===== src/StringOps/Tests.antt =====
-- The string utilities at small inputs.
use mergebot.Prelude.{◌≡◌, refl, true, none, [], ◌∷◌, ◌++◌, arith, suc, ◌+◌, length}
use mergebot.Bytes.{Bytes, codes}
use mergebot.Bytes.Lines.{newline}
use mergebot.StringOps.Deflate.{remove_comments_and_spaces, slash}
use mergebot.StringOps.Deflate.Comments.{run, deflate_line_comment}
use mergebot.StringOps.Split.{string_split, string_join}
use mergebot.StringOps.Split.RoundTrip.{split-join}
use mergebot.StringOps.Macro.{replace_from, replace_all}
use mergebot.StringOps.Macro.Fuel.{replace_all_complete}

abbrev a_line : Bytes
a_line = codes "a = 'b';" ++ newline ∷ []

deflate_line_comment_example :
    remove_comments_and_spaces (a_line ++ (slash ∷ slash ∷ (codes " w" ++ newline ∷ codes "c")))
    ≡ remove_comments_and_spaces (a_line ++ codes "c")
unfolding run
deflate_line_comment_example =
    deflate_line_comment a_line (codes " w") (codes "c") refl refl
      ((omega arith, refl), ((omega arith, refl), tt))

split-join_example :
    string_split (string_join (codes "ab" ∷ [] ∷ codes "c" ∷ []) (codes ",")) (codes ",") true
    ≡ codes "ab" ∷ [] ∷ codes "c" ∷ []
split-join_example = split-join b',' (codes "ab" ∷ [] ∷ codes "c" ∷ []) (omega arith) (λ q. cc)

replace_all_complete_example :
    replace_from (suc (length (codes "xAx A")) + 3) (codes "A") (codes "BAB") none (codes "xAx A")
    ≡ replace_all (codes "A") (codes "BAB") (codes "xAx A")
replace_all_complete_example =
    replace_all_complete 3 (codes "A") (codes "BAB") (codes "xAx A") (λ q. cc)
