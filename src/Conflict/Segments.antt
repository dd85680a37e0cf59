-- ===== src/Conflict/Segments.antt =====
-- The scan of a file that is made of plain lines and of closed conflict blocks.
use mergebot.Prelude.{
  ℕ, zero, suc, ◌+◌, ◌≡◌, ◌<◌, ◌≤◌, ◌≢◌, refl, true, false, List, [], ◌∷◌, ◌++◌, arith, length,
  tail, Lacks, All, ◌∙◌, ap, append_assoc, All-append, length-append,
}
use mergebot.Bytes.{Bytes, is_empty}
use mergebot.Bytes.Lines.{newline, line_of-append, rest_of-append}
use mergebot.Conflict.{
  ConflictBlock, ours, end, enum_name, has_mark, ok, closed, collect, scan, push_block, new_block,
  construct_conflict_file,
}

-- A line that is no conflict, or a block: the rest of its first line, its lines, the rest of its last.
pub data Segment : Type 0 where
  plain : Bytes → Segment
  block : Bytes → List Bytes → Bytes → Segment

-- Lines in front of a text.
abbrev pub unlines : List Bytes → Bytes → Bytes
unlines [] r = r
unlines (l ∷ ls) r = l ++ newline ∷ unlines ls r

abbrev pub block_text : Bytes → List Bytes → Bytes → Bytes → Bytes
block_text open_label body close_label r =
    (enum_name ours ++ open_label)
    ++ newline ∷ unlines body ((enum_name end ++ close_label) ++ newline ∷ r)

abbrev pub render : List Segment → Bytes
render [] = []
render (plain l ∷ segs) = l ++ newline ∷ render segs
render (block open_label body close_label ∷ segs) =
    block_text open_label body close_label (render segs)

-- The blocks, numbered from `index + 1`.
abbrev pub blocks_of : ℕ → List Segment → List ConflictBlock
blocks_of index [] = []
blocks_of index (plain l ∷ segs) = blocks_of index segs
blocks_of index (block open_label body close_label ∷ segs) =
    new_block (index + 1) (block_text open_label body close_label []) ∷ blocks_of (index + 1) segs

-- A plain line opens no block, and no line of a block closes it early.
abbrev pub IsWhole : Segment → Type 0
IsWhole (plain l) = Lacks newline l × (has_mark ours l ≡ false)
IsWhole (block open_label body close_label) =
    Lacks newline open_label
    × All (λ l. Lacks newline l × (has_mark end l ≡ false)) body
    × Lacks newline close_label

pub line_not_empty : (l r : Bytes) → is_empty (l ++ newline ∷ r) ≡ false
line_not_empty [] r = refl
line_not_empty (c ∷ l) r = refl

pub collect_step :
    (f : ℕ) (seen l r : Bytes)
    → Lacks newline l
    → has_mark end l ≡ false
    → collect (suc f) seen (l ++ newline ∷ r) ≡ collect f (seen ++ (l ++ newline ∷ [])) r
unfolding collect
collect_step f seen l r h m = rw (line_not_empty l r, line_of-append l r h, rest_of-append l r h, m)

collect_stop :
    (f : ℕ) (seen l r : Bytes)
    → Lacks newline l
    → has_mark end l ≡ true
    → collect (suc f) seen (l ++ newline ∷ r) ≡ closed (seen ++ (l ++ newline ∷ [])) (newline ∷ r)
unfolding collect
collect_stop f seen l r h m = rw (line_not_empty l r, line_of-append l r h, rest_of-append l r h, m)

collect_body :
    (f : ℕ) (seen : Bytes) (body : List Bytes) (last r : Bytes)
    → length body < f
    → All (λ l. Lacks newline l × (has_mark end l ≡ false)) body
    → Lacks newline last
    → has_mark end last ≡ true
    → collect f seen (unlines body (last ++ newline ∷ r))
      ≡ closed (seen ++ unlines body (last ++ newline ∷ [])) (newline ∷ r)
collect_body zero seen body last r h w hl m = elim h [ ]
collect_body (suc f) seen [] last r h w hl m = collect_stop f seen last r hl m
collect_body (suc f) seen (l ∷ body) last r h ((hn, hm), w) hl m =
    collect_step f seen l (unlines body (last ++ newline ∷ r)) hn hm
    ∙ (collect_body f (seen ++ (l ++ newline ∷ [])) body last r (omega arith) w hl m
        ∙ simp append_assoc)

pub mark_start : (label : Bytes) → has_mark ours (enum_name ours ++ label) ≡ true
mark_start label = ground arith

pub mark_start_end : (label : Bytes) → has_mark end (enum_name ours ++ label) ≡ false
mark_start_end label = ground arith

mark_end : (label : Bytes) → has_mark end (enum_name end ++ label) ≡ true
mark_end label = ground arith

pub length-le-unlines : (ls : List Bytes) (r : Bytes) → length ls ≤ length (unlines ls r)
length-le-unlines [] r = omega arith
length-le-unlines (l ∷ ls) r =
    omega (arith, length-le-unlines ls r, length-append l (newline ∷ unlines ls r))

pub collect-block :
    (f : ℕ) (open_label : Bytes) (body : List Bytes) (close_label r : Bytes)
    → IsWhole (block open_label body close_label)
    → length body + 1 < f
    → collect f [] (block_text open_label body close_label r)
      ≡ closed (block_text open_label body close_label []) (newline ∷ r)
collect-block f open_label body close_label r (ho, hb, hc) h =
    collect_body f [] ((enum_name ours ++ open_label) ∷ body) (enum_name end ++ close_label) r
      (omega arith)
      (
        (
          (All-append (λ x. x ≢ newline) (enum_name ours) open_label (omega arith) ho),
          mark_start_end open_label,
        ),
        hb,
      )
      (All-append (λ x. x ≢ newline) (enum_name end) close_label (omega arith) hc)
      (mark_end close_label)

pub scan_plain :
    (f index : ℕ) (l r : Bytes)
    → Lacks newline l
    → has_mark ours l ≡ false
    → scan (suc f) index (l ++ newline ∷ r) ≡ scan f index r
unfolding scan
scan_plain f index l r h m = rw (line_not_empty l r, line_of-append l r h, rest_of-append l r h, m)

pub scan_block :
    (f index : ℕ) (l r range rest : Bytes)
    → Lacks newline l
    → has_mark ours l ≡ true
    → collect (suc (length (l ++ newline ∷ r))) [] (l ++ newline ∷ r) ≡ closed range rest
    → scan (suc f) index (l ++ newline ∷ r)
      ≡ push_block (new_block (index + 1) range) (scan f (index + 1) (tail rest))
unfolding scan
scan_block f index l r range rest h m c =
    rw (line_not_empty l r, line_of-append l r h, rest_of-append l r h, m, c)

scan_segments :
    (f index : ℕ) (segs : List Segment)
    → length segs < f
    → All IsWhole segs
    → scan f index (render segs) ≡ ok (blocks_of index segs)
scan_segments zero index segs h w = elim h [ ]
scan_segments (suc f) index [] h w = unfold scan in refl
scan_segments (suc f) index (plain l ∷ segs) h ((hn, hm), w) =
    scan_plain f index l (render segs) hn hm ∙ scan_segments f index segs (omega arith) w
scan_segments (suc f) index (block o body c ∷ segs) h (wb, w) =
    scan_block f index (enum_name ours ++ o)
      (unlines body ((enum_name end ++ c) ++ newline ∷ render segs)) (block_text o body c [])
      (newline ∷ render segs) (All-append (λ x. x ≢ newline) (enum_name ours) o (omega arith) wb.0)
      (mark_start o)
      (collect-block _ o body c (render segs) wb (
        omega (
          arith,
          length-append o (newline ∷ unlines body ((enum_name end ++ c) ++ newline ∷ render segs)),
          length-le-unlines body ((enum_name end ++ c) ++ newline ∷ render segs),
        )))
    ∙ ap (push_block (new_block (index + 1) (block_text o body c [])))
        (scan_segments f (index + 1) segs (omega arith) w)

pub rest-le-unlines : (ls : List Bytes) (r : Bytes) → length r ≤ length (unlines ls r)
rest-le-unlines [] r = omega arith
rest-le-unlines (l ∷ ls) r =
    omega (arith, rest-le-unlines ls r, length-append l (newline ∷ unlines ls r))

pub length-le-render : (segs : List Segment) → length segs ≤ length (render segs)
length-le-render [] = omega arith
length-le-render (plain l ∷ segs) =
    omega (arith, length-le-render segs, length-append l (newline ∷ render segs))
length-le-render (block o body c ∷ segs) =
    let last = (enum_name end ++ c) ++ newline ∷ render segs in
    omega (
      arith,
      length-le-render segs,
      length-append o (newline ∷ unlines body last),
      length-append c (newline ∷ render segs),
      rest-le-unlines body last,
    )

-- The scan of a file of plain lines and closed blocks finds these blocks, each with its whole text,
-- numbered from 1 in their order.
pub construct_conflict_file-render :
    (segs : List Segment)
    → All IsWhole segs
    → construct_conflict_file (render segs) ≡ ok (blocks_of 0 segs)
unfolding construct_conflict_file
construct_conflict_file-render segs w =
    scan_segments (suc (length (render segs))) 0 segs (omega (arith, length-le-render segs)) w
