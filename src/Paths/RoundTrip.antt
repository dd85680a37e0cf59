-- ===== src/Paths/RoundTrip.antt =====
-- Names of result files and paths, there and back.
use mergebot.Prelude.{
  ℕ, ◌≡◌, ◌≢◌, refl, true, false, none, List, [], ◌∷◌, ◌++◌, arith, All, Lacks, All-append, ◌==◌,
  if◌then◌else◌, ◌∙◌, ap, sym, ==_refl,
}
use mergebot.Bytes.{Bytes, codes, find, contains}
use mergebot.StringOps.Split.{string_split}
use mergebot.StringOps.Split.Join.{intercalate, string_join_lem}
use mergebot.StringOps.Split.RoundTrip.{split-join, EndsNonEmpty}
use mergebot.Paths.{replace, path_to_name, name_to_path}

contains-slash : (a b : Bytes) (c : ℕ) → contains (a ++ c ∷ b) (c ∷ []) ≡ true
unfolding contains find
contains-slash [] b c = ground (arith, ==_refl c)
contains-slash (d ∷ a) b c = ground (arith, contains-slash a b c)

find-lacking : (s : Bytes) (c : ℕ) (t : Bytes) → Lacks c s → find s (c ∷ t) ≡ none
unfolding find
find-lacking [] c t h = ground arith
find-lacking (d ∷ s) c t (hd, h) = ground (arith, find-lacking s c t h)

-- No `@@` begins inside a text without `@`.
find-prefix :
    (x r : Bytes) → Lacks b'@' x → find r (codes "@@") ≡ none → find (x ++ r) (codes "@@") ≡ none
unfolding find
find-prefix [] r h e = e
find-prefix (c ∷ x) r (hc, h) e = ground (arith, find-prefix x r h e)

find-at :
    (c : ℕ) (r : Bytes)
    → c ≢ b'@'
    → find (c ∷ r) (codes "@@") ≡ none
    → find (b'@' ∷ c ∷ r) (codes "@@") ≡ none
unfolding find
find-at c r h e = ground (arith, e)

replace-lacking : (o n : ℕ) (s : Bytes) → Lacks o s → replace o n s ≡ s
unfolding replace
replace-lacking o n [] h = refl
replace-lacking o n (c ∷ s) (hc, h) = ground (arith, replace-lacking o n s h)

replace-append : (o n : ℕ) (s t : Bytes) → replace o n (s ++ t) ≡ replace o n s ++ replace o n t
unfolding replace
replace-append o n [] t = refl
replace-append o n (c ∷ s) t = ap (λ l. (if c == o then n else c) ∷ l) (replace-append o n s t)

replace-head : (o n : ℕ) (s : Bytes) → replace o n (o ∷ s) ≡ n ∷ replace o n s
unfolding replace
replace-head o n s = rw (==_refl o) refl

-- Components of a path as the names can carry them: none holds `/`, `@`, `#` or `:`, and only the
-- first one may be empty.
abbrev pub IsClean : Bytes → Type 0
IsClean s = Lacks b'/' s × Lacks b'@' s × Lacks b'#' s × Lacks b':' s

abbrev pub NonEmpty : Bytes → Type 0
NonEmpty s = s ≢ []

Lacks-intercalate :
    (c : ℕ) (sep : ℕ) (x : Bytes) (xs : List Bytes)
    → sep ≢ c
    → All (Lacks c) (x ∷ xs)
    → Lacks c (intercalate (sep ∷ []) (x ∷ xs))
Lacks-intercalate c sep x [] n (h, _) = h
Lacks-intercalate c sep x (y ∷ xs) n (h, w) =
    All-append (λ d. d ≢ c) x (sep ∷ intercalate (sep ∷ []) (y ∷ xs)) h
      (n, Lacks-intercalate c sep y xs n w)

-- Joined by `@`, they hold no `@@`.
no_double :
    (x : Bytes) (xs : List Bytes)
    → All (Lacks b'@') (x ∷ xs)
    → All NonEmpty xs
    → find (intercalate (codes "@") (x ∷ xs)) (codes "@@") ≡ none
no_double x [] (h, _) e = find-lacking x b'@' (codes "@") h
no_double x ([] ∷ xs) (h, w) (n, e) = absurd (n refl)
no_double x ((c ∷ y) ∷ []) (h, ((hc, hy), _)) (n, e) =
    find-prefix x (b'@' ∷ c ∷ y) h (find-at c y hc (find-lacking (c ∷ y) b'@' (codes "@") (hc, hy)))
no_double x ((c ∷ y) ∷ z ∷ xs) (h, ((hc, hy), w)) (n, e) =
    find-prefix x _ h (find-at c _ hc (no_double (c ∷ y) (z ∷ xs) ((hc, hy), w) e))

-- Replacing the separator of a join is joining with the other one.
replace-intercalate :
    (o n : ℕ) (x : Bytes) (xs : List Bytes)
    → All (Lacks o) (x ∷ xs)
    → replace o n (intercalate (o ∷ []) (x ∷ xs)) ≡ intercalate (n ∷ []) (x ∷ xs)
replace-intercalate o n x [] (h, _) = replace-lacking o n x h
replace-intercalate o n x (y ∷ xs) (h, w) =
    replace-append o n x (o ∷ intercalate (o ∷ []) (y ∷ xs))
    ∙ (ap (λ l. l ++ replace o n (o ∷ intercalate (o ∷ []) (y ∷ xs))) (replace-lacking o n x h)
        ∙ ap (λ l. x ++ l) (replace-head o n _ ∙ ap (λ l. n ∷ l) (replace-intercalate o n y xs w)))

All-map : {P Q : Bytes → Type 0} (xs : List Bytes) → ((x : Bytes) → P x → Q x) → All P xs → All Q xs
All-map [] f h = tt
All-map (x ∷ xs) f (h, w) = (f x h, All-map xs f w)

EndsNonEmpty-all :
    (c : ℕ) (x y : Bytes) (ys : List Bytes) → All NonEmpty (y ∷ ys) → EndsNonEmpty c (x ∷ y ∷ ys)
EndsNonEmpty-all c x y [] (h, _) = h
EndsNonEmpty-all c x y (z ∷ ys) (h, w) = EndsNonEmpty-all c y z ys w

contains-none : (s t : Bytes) → find s t ≡ none → contains s t ≡ false
unfolding contains
contains-none s t e = rw (contains, e) refl

module _ (x y : Bytes) (ys : List Bytes) (clean : All IsClean (x ∷ y ∷ ys))
    (full : All NonEmpty (y ∷ ys)) where
  abbrev joined : ℕ → Bytes
  joined c = intercalate (c ∷ []) (x ∷ y ∷ ys)

  Lacks-slash : All (Lacks b'/') (x ∷ y ∷ ys)
  Lacks-slash = All-map (x ∷ y ∷ ys) (λ s h. h.0) clean

  Lacks-at : All (Lacks b'@') (x ∷ y ∷ ys)
  Lacks-at = All-map (x ∷ y ∷ ys) (λ s h. h.1) clean

  Lacks-hash : All (Lacks b'#') (x ∷ y ∷ ys)
  Lacks-hash = All-map (x ∷ y ∷ ys) (λ s h. h.2) clean

  Lacks-colon : All (Lacks b':') (x ∷ y ∷ ys)
  Lacks-colon = All-map (x ∷ y ∷ ys) (λ s h. h.3) clean

  split_back : string_split (joined b'/') (codes "/") true ≡ x ∷ y ∷ ys
  split_back =
      ap (λ s. string_split s (codes "/") true) (sym (string_join_lem (x ∷ y ∷ ys) b'/').0)
      ∙ split-join b'/' (x ∷ y ∷ ys) Lacks-slash (EndsNonEmpty-all b'/' x y ys full)

  name_of_path : path_to_name (joined b'/') ≡ joined b'@'
  unfolding path_to_name
  name_of_path =
      rw
        (
          contains-slash x (intercalate (codes "/") (y ∷ ys)) b'/',
          split_back,
          (string_join_lem (x ∷ y ∷ ys) b'@').0,
        )
        (replace-lacking b':' b'#' (joined b'@')
          (Lacks-intercalate b':' b'@' x (y ∷ ys) (omega arith) Lacks-colon))

  path_of_name : name_to_path (joined b'@') ≡ joined b'/'
  unfolding name_to_path
  path_of_name =
      rw
        (
          contains-none (joined b'@') (codes "#") (
              find-lacking (joined b'@') b'#' []
                (Lacks-intercalate b'#' b'@' x (y ∷ ys) (omega arith) Lacks-hash)),
          contains-none (joined b'@') (codes "@@") (no_double x (y ∷ ys) Lacks-at full),
          replace-intercalate b'@' b'/' x (y ∷ ys) Lacks-at,
          replace-lacking b'#' b':' (joined b'/')
              (Lacks-intercalate b'#' b'/' x (y ∷ ys) (omega arith) Lacks-hash),
          split_back,
        )
        ((string_join_lem (x ∷ y ∷ ys) b'/').0)

-- A path of two components or more, none with `/`, `@`, `#` or `:` in it and none but the first one
-- empty, comes back from its name: absolute paths and relative ones alike.
pub name_to_path-path_to_name :
    (x y : Bytes) (ys : List Bytes)
    → All IsClean (x ∷ y ∷ ys)
    → All NonEmpty (y ∷ ys)
    → let path = intercalate (codes "/") (x ∷ y ∷ ys) in name_to_path (path_to_name path) ≡ path
name_to_path-path_to_name x y ys clean full =
    ap name_to_path (name_of_path x y ys clean full) ∙ path_of_name x y ys clean full
