-- ===== src/Conflict/Unterminated.antt =====
-- What the scan does with a block that is not closed by a whole line.
use mergebot.Prelude.{
  ℕ, zero, suc, ◌≡◌, ◌≢◌, refl, true, false, List, [], ◌∷◌, ◌++◌, arith, length, Lacks, All, ◌∙◌,
  All-append, append_assoc, length-append, ap, ◌<◌, ◌+◌,
}
use mergebot.Bytes.{Bytes}
use mergebot.Bytes.Lines.{newline, line_of-append, rest_of-append, rest_of_lacking}
use mergebot.Conflict.{
  ours, end, enum_name, has_mark, overrun, past_end, collect, scan, push_block, new_block,
  construct_conflict_file,
}
use mergebot.Conflict.Segments.{
  Segment, plain, block, render, IsWhole, block_text, unlines, collect_step, mark_start,
  mark_start_end, line_not_empty, scan_plain, scan_block, collect-block, length-le-render,
  length-le-unlines,
}

collect_last :
    (f : ℕ) (seen last : Bytes)
    → last ≢ []
    → Lacks newline last
    → collect (suc f) seen last ≡ past_end
unfolding collect
collect_last f seen [] ne h = absurd (ne refl)
collect_last f seen (c ∷ last) ne h = rw (rest_of_lacking (c ∷ last) h)

collect_open :
    (f : ℕ) (seen : Bytes) (body : List Bytes) (last : Bytes)
    → length body < f
    → All (λ l. Lacks newline l × (has_mark end l ≡ false)) body
    → last ≢ []
    → Lacks newline last
    → collect f seen (unlines body last) ≡ past_end
collect_open zero seen body last lt w ne h = elim lt [ ]
collect_open (suc f) seen [] last lt w ne h = collect_last f seen last ne h
collect_open (suc f) seen (l ∷ body) last lt ((hn, hm), w) ne h =
    collect_step f seen l (unlines body last) hn hm
    ∙ collect_open f (seen ++ (l ++ newline ∷ [])) body last (omega arith) w ne h

scan_open :
    (f index : ℕ) (l r : Bytes)
    → Lacks newline l
    → has_mark ours l ≡ true
    → collect (suc (length (l ++ newline ∷ r))) [] (l ++ newline ∷ r) ≡ past_end
    → scan (suc f) index (l ++ newline ∷ r) ≡ overrun
unfolding scan
scan_open f index l r h m c =
    rw (line_not_empty l r, line_of-append l r h, rest_of-append l r h, m, c)

-- A block whose last line has no newline.
abbrev pub open_block : Bytes → List Bytes → Bytes → Bytes
open_block label body last = (enum_name ours ++ label) ++ newline ∷ unlines body last

-- No line but the last, whose newline is missing, can be the end line of the block.
abbrev pub IsOpen : Bytes → List Bytes → Bytes → Type 0
IsOpen label body last =
    Lacks newline label
    × All (λ l. Lacks newline l × (has_mark end l ≡ false)) body
    × (last ≢ [])
    × Lacks newline last

scan-open_block :
    (g index : ℕ) (label : Bytes) (body : List Bytes) (last : Bytes)
    → IsOpen label body last
    → length (open_block label body last) < g
    → scan g index (open_block label body last) ≡ overrun
scan-open_block zero index label body last w lt = elim lt [ ]
scan-open_block (suc g) index label body last (hl, w, ne, h) lt =
    let first = enum_name ours ++ label in
    let whole : Lacks newline first =
      All-append (λ x. x ≢ newline) (enum_name ours) label (omega arith) hl in
    scan_open g index first (unlines body last) whole (mark_start label) (
      collect_open _ [] (first ∷ body) last
        (omega
          (arith, length-append label (newline ∷ unlines body last), length-le-unlines body last))
        ((whole, mark_start_end label), w) ne h)

unlines-append : (ls : List Bytes) (r q : Bytes) → unlines ls r ++ q ≡ unlines ls (r ++ q)
unlines-append [] r q = refl
unlines-append (l ∷ ls) r q =
    append_assoc l (newline ∷ unlines ls r) q ∙ ap (λ t. l ++ newline ∷ t) (unlines-append ls r q)

block_text-append :
    (o : Bytes) (body : List Bytes) (c r q : Bytes)
    → block_text o body c r ++ q ≡ block_text o body c (r ++ q)
block_text-append o body c r q =
    let last = enum_name end ++ c in
    unlines-append ((enum_name ours ++ o) ∷ body) (last ++ newline ∷ r) q
    ∙ ap (λ t. (enum_name ours ++ o) ++ newline ∷ unlines body t)
        (append_assoc last (newline ∷ r) q)

-- What a scan meets behind whole lines and closed blocks decides it.
scan-behind :
    (f index : ℕ) (segs : List Segment) (r : Bytes)
    → All IsWhole segs
    → length segs + length r < f
    → ((g i : ℕ) → length r < g → scan g i r ≡ overrun)
    → scan f index (render segs ++ r) ≡ overrun
scan-behind f index [] r w lt last = last f index (omega arith)
scan-behind zero index (seg ∷ segs) r w lt last = elim lt [ ]
scan-behind (suc f) index (plain l ∷ segs) r ((hn, hm), w) lt last =
    ap (scan (suc f) index) (append_assoc l (newline ∷ render segs) r)
    ∙ (scan_plain f index l (render segs ++ r) hn hm
        ∙ scan-behind f index segs r w (omega arith) last)
scan-behind (suc f) index (block o body c ∷ segs) r (wb, w) lt last =
    let t = render segs ++ r in
    ap (scan (suc f) index) (block_text-append o body c (render segs) r)
    ∙ (scan_block f index (enum_name ours ++ o) (unlines body ((enum_name end ++ c) ++ newline ∷ t))
          (block_text o body c []) (newline ∷ t)
          (All-append (λ x. x ≢ newline) (enum_name ours) o (omega arith) wb.0) (mark_start o)
          (collect-block _ o body c t wb (
            omega (
              arith,
              length-append o (newline ∷ unlines body ((enum_name end ++ c) ++ newline ∷ t)),
              length-le-unlines body ((enum_name end ++ c) ++ newline ∷ t),
            )))
        ∙ ap (push_block (new_block (index + 1) (block_text o body c [])))
            (scan-behind f (index + 1) segs r w (omega arith) last))

-- Behind any plain lines and closed blocks, a block of which no line with a newline is the end line
-- is read past the end of the buffer, if the last line of the buffer is not empty and has no newline,
-- be it the block's end line or not. The read is the code's and no lack of fuel, which has a result of
-- its own.
pub construct_conflict_file_unterminated :
    (segs : List Segment) (label : Bytes) (body : List Bytes) (last : Bytes)
    → All IsWhole segs
    → IsOpen label body last
    → construct_conflict_file (render segs ++ open_block label body last) ≡ overrun
unfolding construct_conflict_file
construct_conflict_file_unterminated segs label body last whole w =
    scan-behind (suc (length (render segs ++ open_block label body last))) 0 segs
      (open_block label body last) whole
      (omega
        (arith, length-append (render segs) (open_block label body last), length-le-render segs))
      (λ g i lt. scan-open_block g i label body last w lt)
