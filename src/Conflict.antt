-- ===== src/Conflict.antt =====
-- Conflict blocks and files: include/mergebot/core/model/ConflictBlock.h, ConflictFile.h and
-- enum/ConflictMark.h, and the functions of src/core/sa_utility.cpp that read them out of a file.
-- Assertions are those of a release build, which checks none.
use mergebot.Prelude.{
  ℕ, zero, suc, ◌+◌, ◌-◌, Bool, true, false, Option, none, some, List, [], ◌∷◌, ◌++◌, ltb, leb,
  if◌then◌else◌, length, take, drop, tail, ◌==◌, not,
}
use mergebot.Bytes.{Bytes, codes, bytes_eq, find, is_empty}
use mergebot.Bytes.Lines.{newline, line_of, rest_of}
pub mod Extract
pub mod Segments
pub mod Buffer
pub mod Unterminated
pub mod Tidy
mod Tests

pub data ConflictMark : Type 0 where
  ours base theirs end : ConflictMark

-- `magic_enum::enum_name`, as customised for the marks.
abbrev pub enum_name : ConflictMark → Bytes
enum_name ours = codes "<<<<<<<"
enum_name base = codes "|||||||"
enum_name theirs = codes "======="
enum_name end = codes ">>>>>>>"

pub record ConflictBlock : Type 0 where
  pub index : ℕ
  pub conflict_range : Bytes
  pub resolved : Bool

pub record ConflictFile : Type 0 where
  pub filename : Bytes
  pub conflict_blocks : List ConflictBlock
  pub resolved : Bool

-- `while (… && Source[StartPos++] != '\n');`: what follows the first newline.
unfoldable pub skip_line : Bytes → Bytes
skip_line s = tail (rest_of s)

unfoldable pub take_until : Bytes → Bytes → Bytes
take_until rest end_marker =
    if is_empty rest then [] else elim (find rest end_marker) [ none ↦ [] | some n ↦ take n rest ]

unfoldable pub extract_code_from_conflict_range : Bytes → Bytes → Bytes → Bytes
unfolding skip_line take_until
extract_code_from_conflict_range source start_mark end_marker = elim (find source start_mark) [
  | none ↦ []
  | some start_pos ↦ take_until (skip_line (drop start_pos source)) end_marker
]

-- What a scan of a buffer gives: the blocks, or a read at or behind the end of the buffer; or the fuel
-- is used up.
pub data Scan : Type 0 where
  ok : List ConflictBlock → Scan
  overrun : Scan
  scan_unfinished : Scan

pub data Collect : Type 0 where
  -- the block's text, and the buffer from the newline of its end line on
  closed : Bytes → Bytes → Collect
  -- the buffer ended, with a newline, before an end line came
  unclosed : Collect
  past_end : Collect
  collect_unfinished : Collect

-- The tests of a line: seven bytes at least, and the mark as the first seven.
abbrev pub has_mark : ConflictMark → Bytes → Bool
has_mark m line = if ltb (length line) 7 then false else bytes_eq (take 7 line) (enum_name m)

-- The inner loop. `seen` is the text from `BlockStart` to `LineStart`, `cur` the buffer from
-- `LineStart` on. `LineStart = ++Pos` at the end of the buffer leaves it, and the next round reads
-- there; so does the range of an end line without newline, which takes one byte more than the line.
pub collect : ℕ → Bytes → Bytes → Collect
collect zero seen cur = collect_unfinished
collect (suc fuel) seen cur =
    let line = line_of cur in
    let after = rest_of cur in
    let next = collect fuel (seen ++ (line ++ newline ∷ [])) (tail after) in
    if is_empty cur
    then unclosed
    else if is_empty after
    then past_end
    else if has_mark end line
    then closed (seen ++ (line ++ newline ∷ [])) after
    else next

abbrev pub push_block : ConflictBlock → Scan → Scan
push_block b (ok bs) = ok (b ∷ bs)
push_block b overrun = overrun
push_block b scan_unfinished = scan_unfinished

abbrev pub new_block : ℕ → Bytes → ConflictBlock
new_block index text = record { index = index; conflict_range = text; resolved = false }

-- The outer loop, at `LineStart == Pos`. The inner loop starts at the newline of the mark's line.
pub scan : ℕ → ℕ → Bytes → Scan
scan zero index text = scan_unfinished
scan (suc fuel) index text =
    let line = line_of text in
    let after = rest_of text in
    let skip = scan fuel index (tail after) in
    let block : Scan = elim (collect (suc (length text)) [] text) [
      | closed range rest ↦
          push_block (new_block (index + 1) range) (scan fuel (index + 1) (tail rest))
      | unclosed ↦ ok []
      | past_end ↦ overrun
      | collect_unfinished ↦ scan_unfinished
    ] in
    if is_empty text
    then ok []
    else if has_mark ours line
    then (if is_empty after then ok [] else block)
    else skip

-- Each round of the outer loop goes on behind a newline, so the buffer's length bounds the rounds.
pub construct_conflict_file : Bytes → Scan
unfolding scan
construct_conflict_file buffer = scan (suc (length buffer)) 0 buffer
