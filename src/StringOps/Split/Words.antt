-- ===== src/StringOps/Split/Words.antt =====
-- Elements that are not empty come back from a split that leaves empty ones out.
use mergebot.Prelude.{
  ℕ, ◌≡◌, ◌≢◌, refl, true, false, List, [], ◌∷◌, ◌++◌, arith, ◌∙◌, ap, append_assoc, append-nil,
  ◌==◌, sym, ==_refl, Lacks, All,
}
use mergebot.Bytes.{Bytes, is_empty}
use mergebot.StringOps.Split.{split_from, string_split, string_join}
use mergebot.StringOps.Split.Join.{intercalate, string_join_lem}

module _ (c : ℕ) where
  -- An element that lacks the separator and is not empty.
  abbrev pub IsWord : Bytes → Type 0
  IsWord x = Lacks c x × (x ≢ [])

  split_word :
      (piece x s : Bytes)
      → Lacks c x
      → split_from (c ∷ []) false piece (x ++ s) ≡ split_from (c ∷ []) false (piece ++ x) s
  unfolding split_from
  split_word piece [] s h = rw append-nil
  split_word piece (d ∷ x) s (hd, h) =
      let e : (d == c) ≡ false = ground arith in
      rw (e, split_from)
        (split_word (piece ++ d ∷ []) x s h
          ∙ ap (λ p. split_from (c ∷ []) false p s) (append_assoc piece (d ∷ []) x))

  split_here :
      (piece s : Bytes)
      → piece ≢ []
      → is_empty s ≡ false
      → split_from (c ∷ []) false piece (c ∷ s) ≡ piece ∷ split_from (c ∷ []) false [] s
  unfolding split_from
  split_here [] s n h = absurd (n refl)
  split_here (d ∷ q) s n h = let e : (c == c) ≡ true = ==_refl c in rw (e, split_from, h) refl

  words_not_empty :
      (x : Bytes) (xs : List Bytes) → x ≢ [] → is_empty (intercalate (c ∷ []) (x ∷ xs)) ≡ false
  words_not_empty [] xs h = absurd (h refl)
  words_not_empty (d ∷ x) [] h = refl
  words_not_empty (d ∷ x) (y ∷ xs) h = refl

  split_words :
      (x : Bytes) (xs : List Bytes)
      → All IsWord (x ∷ xs)
      → split_from (c ∷ []) false [] (intercalate (c ∷ []) (x ∷ xs)) ≡ x ∷ xs
  split_words [] [] ((_, e), _) = absurd (e refl)
  split_words (d ∷ x) [] ((h, e), _) =
      ap (split_from (c ∷ []) false []) (sym (append-nil (d ∷ x)))
      ∙ (split_word [] (d ∷ x) [] h ∙ unfold split_from in refl)
  split_words x (y ∷ xs) ((h, e), (hy, hs)) =
      let rest = intercalate (c ∷ []) (y ∷ xs) in
      split_word [] x (c ∷ rest) h
      ∙ (split_here x rest e (words_not_empty y xs hy.1)
          ∙ ap (λ l. x ∷ l) (split_words y xs (hy, hs)))

  pub split-join_words :
      (xs : List Bytes) → All IsWord xs → string_split (string_join xs (c ∷ [])) (c ∷ []) false ≡ xs
  unfolding string_split
  split-join_words [] h = unfold string_join in refl
  split-join_words (x ∷ xs) (h, hs) =
      rw ((string_join_lem (x ∷ xs) c).0, words_not_empty x xs h.1) (split_words x xs (h, hs))
