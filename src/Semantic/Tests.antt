-- ===== src/Semantic/Tests.antt =====
-- Unions and textual merges of small lists.
use mergebot.Prelude.{◌≡◌, refl, some, [], ◌∷◌, List, ◌||◌, none, ◌++◌, All, arith}
use mergebot.Bytes.{Bytes, codes, contains, find}
use mergebot.Bytes.Lines.{newline}
use mergebot.Conflict.{ours, base, theirs, end}
use mergebot.Semantic.{
  seen_in, fence, insert_at, flush, walk, remove_seen, merge_str_vec_by_union, init_order_in_favour,
  in_theirs, merge_list_textually,
}
use mergebot.Text.Checks.{lower}
use mergebot.StringOps.Split.Words.{IsWord}
use mergebot.Semantic.Lists.{IsPlain, merge_list_textually-one_side}
use mergebot.Semantic.Total.{NoRepeat, merge_str_vec_by_union-total}

abbrev our_parameters : List Bytes
our_parameters = codes "int a" ∷ codes "int b" ∷ []

abbrev base_parameters : List Bytes
base_parameters = codes "int a" ∷ []

abbrev their_parameters : List Bytes
their_parameters = codes "int c" ∷ codes "int a" ∷ codes "int d" ∷ []

-- The new element in front of the fence goes to the insertion position that the second list left,
-- which is behind the fence.
union_of_parameters :
    merge_str_vec_by_union our_parameters base_parameters their_parameters
    ≡ some (codes "int a" ∷ codes "int c" ∷ codes "int b" ∷ codes "int d" ∷ [])
unfolding merge_str_vec_by_union walk fence flush insert_at remove_seen seen_in
union_of_parameters = refl

merge_str_vec_by_union-total_example :
    (r : List Bytes) × ((merge_str_vec_by_union our_parameters base_parameters their_parameters
        ≡ some r)
      × (NoRepeat r
          × ((z : Bytes)
              → seen_in z r ≡ (
                  seen_in z our_parameters
                  || (seen_in z base_parameters || seen_in z their_parameters)))))
merge_str_vec_by_union-total_example =
    merge_str_vec_by_union-total our_parameters base_parameters their_parameters

abbrev join_sides : Bytes → Bytes → Bytes → Bytes
join_sides our_text base_text their_text = our_text ++ their_text

abbrev new_list : List Bytes
new_list = codes "a" ∷ codes "b" ∷ []

new_list-IsWord : All (IsWord newline) new_list
new_list-IsWord = (((ground arith, tt), λ e. absurd cc), (((ground arith, tt), λ e. absurd cc), tt))

a-IsPlain : IsPlain (codes "a")
unfolding contains find
a-IsPlain ours = refl
a-IsPlain base = refl
a-IsPlain theirs = refl
a-IsPlain end = refl

b-IsPlain : IsPlain (codes "b")
unfolding contains find
b-IsPlain ours = refl
b-IsPlain base = refl
b-IsPlain theirs = refl
b-IsPlain end = refl

merge_list_textually-one_side_example :
    (merge_list_textually join_sides base_parameters base_parameters new_list ≡ new_list)
    × (merge_list_textually join_sides new_list base_parameters base_parameters ≡ new_list)
merge_list_textually-one_side_example =
    merge_list_textually-one_side join_sides base_parameters new_list new_list-IsWord
      (a-IsPlain, (b-IsPlain, tt))

-- The case of the letters does not matter.
order_theirs : init_order_in_favour (some (codes "Theirs")) ≡ some in_theirs
unfolding init_order_in_favour lower
order_theirs = refl

-- Another value sets nothing.
order_base : init_order_in_favour (some (codes "base")) ≡ none
unfolding init_order_in_favour lower
order_base = refl
