-- ===== src/StringOps/Split/RoundTrip.antt =====
-- Splitting and joining undo each other.
use mergebot.Prelude.{
  ℕ, ◌≡◌, ◌≢◌, refl, true, false, List, [], ◌∷◌, ◌++◌, arith, ◌∙◌, ap, append_assoc, append-nil,
  ◌==◌, sym, ==_refl, Lacks, All,
}
use mergebot.Bytes.{Bytes, is_empty}
use mergebot.StringOps.Split.{emit, split_from, string_split, string_join}
use mergebot.StringOps.Split.Join.{intercalate, string_join_lem}

module _ (c : ℕ) where
  split_lacking :
      (piece x s : Bytes)
      → Lacks c x
      → split_from (c ∷ []) true piece (x ++ s) ≡ split_from (c ∷ []) true (piece ++ x) s
  unfolding split_from
  split_lacking piece [] s h = rw append-nil
  split_lacking piece (d ∷ x) s (hd, h) =
      let e : (d == c) ≡ false = ground arith in
      rw (e, split_from)
        (split_lacking (piece ++ d ∷ []) x s h
          ∙ ap (λ p. split_from (c ∷ []) true p s) (append_assoc piece (d ∷ []) x))

  split_at :
      (piece s : Bytes)
      → is_empty s ≡ false
      → split_from (c ∷ []) true piece (c ∷ s) ≡ piece ∷ split_from (c ∷ []) true [] s
  unfolding split_from
  split_at piece s h = let e : (c == c) ≡ true = ==_refl c in rw (e, split_from, h) (go piece)
    where
      go :
          (q : Bytes)
          → emit true q ++ split_from (c ∷ []) true [] s ≡ q ∷ split_from (c ∷ []) true [] s
      go [] = refl
      go (d ∷ q) = refl

  -- The last element is not empty.
  abbrev pub EndsNonEmpty : List Bytes → Type 0
  EndsNonEmpty [] = Unit
  EndsNonEmpty (x ∷ []) = x ≢ []
  EndsNonEmpty (x ∷ y ∷ xs) = EndsNonEmpty (y ∷ xs)

  intercalate_not_empty :
      (x : Bytes) (xs : List Bytes)
      → EndsNonEmpty (x ∷ xs)
      → is_empty (intercalate (c ∷ []) (x ∷ xs)) ≡ false
  intercalate_not_empty [] [] h = absurd (h refl)
  intercalate_not_empty (d ∷ x) [] h = refl
  intercalate_not_empty [] (y ∷ xs) h = refl
  intercalate_not_empty (d ∷ x) (y ∷ xs) h = refl

  split-intercalate :
      (x : Bytes) (xs : List Bytes)
      → All (Lacks c) (x ∷ xs)
      → EndsNonEmpty (x ∷ xs)
      → split_from (c ∷ []) true [] (intercalate (c ∷ []) (x ∷ xs)) ≡ x ∷ xs
  split-intercalate [] [] h e = absurd (e refl)
  split-intercalate (d ∷ x) [] (h, _) e =
      ap (split_from (c ∷ []) true []) (sym (append-nil (d ∷ x)))
      ∙ (split_lacking [] (d ∷ x) [] h ∙ unfold split_from in refl)
  split-intercalate x (y ∷ xs) (h, hs) e =
      let rest = intercalate (c ∷ []) (y ∷ xs) in
      split_lacking [] x (c ∷ rest) h
      ∙ (split_at x rest (intercalate_not_empty y xs e)
          ∙ ap (λ l. x ∷ l) (split-intercalate y xs hs e))

-- Elements that lack the separator, the last of them not empty, come back from their join when it
-- is split with the empty elements kept.
pub split-join :
    (c : ℕ) (xs : List Bytes)
    → All (Lacks c) xs
    → EndsNonEmpty c xs
    → string_split (string_join xs (c ∷ [])) (c ∷ []) true ≡ xs
unfolding string_split
split-join c [] h e = unfold string_join in refl
split-join c (x ∷ xs) h e =
    rw ((string_join_lem (x ∷ xs) c).0, intercalate_not_empty c x xs e)
      (split-intercalate c x xs h e)
