-- ===== src/Semantic.antt =====
-- What GraphMerger (src/core/semantic/GraphMerger.cpp) does with texts and with lists of texts. The
-- textual merge of git, `util::git_merge_textual`, is a parameter.
use mergebot.Prelude.{
  ℕ, suc, Bool, true, false, ◌||◌, Option, none, some, List, [], ◌∷◌, ◌++◌, ltb, if◌then◌else◌,
  length, take, drop, map,
}
pub mod Union
pub mod Total
pub mod Lists
mod Tests
use mergebot.Bytes.{Bytes, codes, bytes_eq, is_empty, contains}
use mergebot.Bytes.Lines.{newline}
use mergebot.Conflict.{ours, base, theirs, end, enum_name}
use mergebot.StringOps.Split.{string_split, string_join}
use mergebot.Text.Checks.{lower}

-- Whether an element is in `Seen`.
unfoldable pub seen_in : Bytes → List Bytes → Bool
seen_in x [] = false
seen_in x (y ∷ ys) = bytes_eq x y || seen_in x ys

-- `Fences[x]`: the last position of `x` in the first list.
unfoldable pub fence : Bytes → List Bytes → Option ℕ
fence x [] = none
fence x (y ∷ ys) = elim (fence x ys) [
  | some i ↦ some (suc i)
  | none ↦ if bytes_eq x y then some 0 else none
]

-- `Ret.insert(Ret.begin() + pos, …)`, which has no meaning where the position is behind the end.
unfoldable pub insert_at : ℕ → List Bytes → List Bytes → Option (List Bytes)
insert_at pos xs ret =
    if ltb (length ret) pos then none else some (take pos ret ++ (xs ++ drop pos ret))

-- The insertion of `TmpList`, which is left out where the list is empty.
unfoldable pub flush : ℕ → List Bytes → List Bytes → Option (List Bytes)
unfolding insert_at
flush pos tmp ret = if is_empty tmp then some ret else insert_at pos tmp ret

-- The loop over one of the other lists: `fences` is the first list, the state `Ret`, `TmpList` and
-- `InsertPos`. It gives `Ret` and `InsertPos`.
unfoldable pub walk :
    List Bytes → List Bytes → List Bytes → List Bytes → ℕ → Option (List Bytes × ℕ)
unfolding fence flush
walk fences [] ret tmp pos = some (if is_empty tmp then ret else ret ++ tmp, pos)
walk fences (x ∷ vec) ret tmp pos = elim (fence x fences) [
  | none ↦ walk fences vec ret (tmp ++ x ∷ []) pos
  | some i ↦ elim (flush pos tmp ret) [
    | none ↦ none
    | some longer ↦ walk fences vec longer [] (suc i)
  ]
]

-- `remove_if` with the set `Seen`.
unfoldable pub remove_seen : List Bytes → List Bytes → List Bytes
unfolding seen_in
remove_seen seen [] = []
remove_seen seen (x ∷ xs) = elim (seen_in x seen) [
  | true ↦ remove_seen seen xs
  | false ↦ x ∷ remove_seen (x ∷ seen) xs
]

-- `InsertPos` goes on from the second list to the third.
unfoldable pub merge_str_vec_by_union : List Bytes → List Bytes → List Bytes → Option (List Bytes)
unfolding walk remove_seen
merge_str_vec_by_union v1 v2 v3 = elim (walk v1 v2 v1 [] 0) [
  | none ↦ none
  | some (ret, pos) ↦ elim (walk v1 v3 ret [] pos) [
    | none ↦ none
    | some (all, _) ↦ some (remove_seen [] all)
  ]
]

-- The text of our side, of the base and of their side, and the merge of git.
unfoldable pub merge_text : (Bytes → Bytes → Bytes → Bytes) → Bytes → Bytes → Bytes → Bytes
merge_text git our_text base_text their_text =
    if bytes_eq our_text base_text
    then their_text
    else if bytes_eq their_text base_text
    then our_text
    else git our_text base_text their_text

-- A line with a mark stands between newlines.
unfoldable pub set_apart : Bytes → Bytes
set_apart sv =
    if contains sv (enum_name ours)
      || (contains sv (enum_name base)
          || (contains sv (enum_name theirs) || contains sv (enum_name end)))
    then newline ∷ (sv ++ newline ∷ [])
    else sv

unfoldable pub merge_list_textually :
    (Bytes → Bytes → Bytes → Bytes) → List Bytes → List Bytes → List Bytes → List Bytes
unfolding merge_text set_apart
merge_list_textually git our_list base_list their_list =
    let our_string = string_join our_list (newline ∷ []) in
    let base_string = string_join base_list (newline ∷ []) in
    let their_string = string_join their_list (newline ∷ []) in
    map set_apart
      (string_split (merge_text git our_string base_string their_string) (newline ∷ []) false)

pub data OrderInfavour : Type 0 where
  in_ours : OrderInfavour
  in_theirs : OrderInfavour

-- `OrderInFavour` behind the call, from the value of MERGEBOT_MERGE_ORDER_IN_FAVOUR; `none` where the
-- field keeps the value that it had, which no initialiser gave it.
unfoldable pub init_order_in_favour : Option Bytes → Option OrderInfavour
unfolding lower
init_order_in_favour none = some in_ours
init_order_in_favour (some order) =
    if bytes_eq (lower order) (codes "ours")
    then some in_ours
    else if bytes_eq (lower order) (codes "theirs")
    then some in_theirs
    else none
