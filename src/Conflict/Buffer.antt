-- ===== src/Conflict/Buffer.antt =====
-- When the scan stays inside its buffer.
use mergebot.Prelude.{
  ℕ, zero, suc, ◌+◌, ◌≡◌, ◌<◌, refl, true, false, Bool-cases, inl, inr, ◌⊎◌, List, [], ◌∷◌, ◌++◌,
  arith, length, tail,
}
use mergebot.Bytes.{Bytes}
use mergebot.Bytes.Lines.{newline, line_of, rest_of, EndsLine, rest_of-EndsLine}
use mergebot.Conflict.{
  ConflictBlock, ours, end, has_mark, Scan, ok, Collect, closed, unclosed, collect, scan,
  push_block, new_block, construct_conflict_file,
}

-- What the inner loop gives within whole lines: it never leaves the buffer.
abbrev Stays : Bytes → Collect → Type 0
Stays cur r =
    (r ≡ unclosed)
    ⊎ ((range rest : Bytes) × (r ≡ closed range (newline ∷ rest))
        × EndsLine rest
        × (length rest < length cur))

collect_at_end :
    (f c : ℕ) (seen s rest : Bytes)
    → rest_of (c ∷ s) ≡ newline ∷ rest
    → has_mark end (line_of (c ∷ s)) ≡ true
    → collect (suc f) seen (c ∷ s)
      ≡ closed (seen ++ (line_of (c ∷ s) ++ newline ∷ [])) (newline ∷ rest)
unfolding collect
collect_at_end f c seen s rest r e = rw (r, e)

collect_on :
    (f c : ℕ) (seen s rest : Bytes)
    → rest_of (c ∷ s) ≡ newline ∷ rest
    → has_mark end (line_of (c ∷ s)) ≡ false
    → collect (suc f) seen (c ∷ s) ≡ collect f (seen ++ (line_of (c ∷ s) ++ newline ∷ [])) rest
unfolding collect
collect_on f c seen s rest r e = rw (r, e)

Stays-mono :
    (small cur : Bytes) (r : Collect) → length small < length cur → Stays small r → Stays cur r
Stays-mono small cur r lt (inl e) = inl e
Stays-mono small cur r lt (inr (range, rest, e, h, k)) = inr (range, rest, e, h, omega arith)

collect_lines :
    (f : ℕ) (seen cur : Bytes) → EndsLine cur → length cur < f → Stays cur (collect f seen cur)
collect_lines zero seen cur h lt = elim lt [ ]
collect_lines (suc f) seen [] h lt = unfold collect in inl refl
collect_lines (suc f) seen (c ∷ s) h lt =
    let (at, whole, shorter) = rest_of-EndsLine (c ∷ s) h (λ q. cc) in
    let rest : Bytes = tail (rest_of (c ∷ s)) in
    let seen' : Bytes = seen ++ (line_of (c ∷ s) ++ newline ∷ []) in
    elim (Bool-cases (has_mark end (line_of (c ∷ s)))) [
      | inl e ↦ inr (seen', rest, collect_at_end f c seen s rest at e, whole, shorter)
      | inr e ↦ rw (collect_on f c seen s rest at e) (
          Stays-mono rest (c ∷ s) (collect f seen' rest) shorter
            (collect_lines f seen' rest whole (omega arith)))
    ]

scan_on :
    (f index c : ℕ) (s rest : Bytes)
    → rest_of (c ∷ s) ≡ newline ∷ rest
    → has_mark ours (line_of (c ∷ s)) ≡ false
    → scan (suc f) index (c ∷ s) ≡ scan f index rest
unfolding scan
scan_on f index c s rest r e = rw (r, e)

scan_unclosed :
    (f index c : ℕ) (s rest : Bytes)
    → rest_of (c ∷ s) ≡ newline ∷ rest
    → has_mark ours (line_of (c ∷ s)) ≡ true
    → collect (suc (length (c ∷ s))) [] (c ∷ s) ≡ unclosed
    → scan (suc f) index (c ∷ s) ≡ ok []
unfolding scan
scan_unclosed f index c s rest r e u = rw (r, e, u)

scan_closed :
    (f index c : ℕ) (s rest range after : Bytes)
    → rest_of (c ∷ s) ≡ newline ∷ rest
    → has_mark ours (line_of (c ∷ s)) ≡ true
    → collect (suc (length (c ∷ s))) [] (c ∷ s) ≡ closed range (newline ∷ after)
    → scan (suc f) index (c ∷ s)
      ≡ push_block (new_block (index + 1) range) (scan f (index + 1) after)
unfolding scan
scan_closed f index c s rest range after r e u = rw (r, e, u)

abbrev Finds : Scan → Type 0
Finds r = (bs : List ConflictBlock) × (r ≡ ok bs)

Finds-push_block : (b : ConflictBlock) (r : Scan) → Finds r → Finds (push_block b r)
Finds-push_block b r (bs, e) = rw e (b ∷ bs, refl)

scan_lines :
    (f index : ℕ) (text : Bytes) → EndsLine text → length text < f → Finds (scan f index text)
scan_lines zero index text h lt = elim lt [ ]
scan_lines (suc f) index [] h lt = unfold scan in ([], refl)
scan_lines (suc f) index (c ∷ s) h lt =
    let (at, whole, shorter) = rest_of-EndsLine (c ∷ s) h (λ q. cc) in
    let rest : Bytes = tail (rest_of (c ∷ s)) in
    elim (Bool-cases (has_mark ours (line_of (c ∷ s)))) [
      | inr e ↦ rw (scan_on f index c s rest at e) (scan_lines f index rest whole (omega arith))
      | inl e ↦ elim (collect_lines (suc (length (c ∷ s))) [] (c ∷ s) h (omega arith)) [
        | inl u ↦ rw (scan_unclosed f index c s rest at e u) ([], refl)
        | inr (range, after, u, h', k) ↦ rw (scan_closed f index c s rest range after at e u) (
            Finds-push_block (new_block (index + 1) range) (scan f (index + 1) after)
              (scan_lines f (index + 1) after h' (omega arith)))
      ]
    ]

-- A buffer that is empty or ends with a newline is scanned without a read outside of it, whatever
-- marks it holds.
pub construct_conflict_file_total :
    (buffer : Bytes)
    → EndsLine buffer
    → (bs : List ConflictBlock) × (construct_conflict_file buffer ≡ ok bs)
unfolding construct_conflict_file
construct_conflict_file_total buffer h = scan_lines (suc (length buffer)) 0 buffer h (omega arith)
