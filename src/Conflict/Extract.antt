-- ===== src/Conflict/Extract.antt =====
-- The sides of a conflict block, read back from its text.
use mergebot.Prelude.{
  ℕ, ◌≡◌, ◌≢◌, refl, none, some, [], ◌∷◌, ◌++◌, arith, length, drop, tail, Lacks, sym, ◌∙◌, ap,
  subst, append_assoc, All-append, take-append_length, drop-append_length, false,
}
use mergebot.Bytes.{Bytes, find, is_empty}
use mergebot.Bytes.Find.{find_lines, find-append_none}
use mergebot.Bytes.Lines.{newline, EndsLine, rest_of-append, rest_of, EndsLine-append}
use mergebot.Conflict.{
  ConflictMark, ours, base, theirs, end, enum_name, skip_line, take_until,
  extract_code_from_conflict_range,
}

-- A line that a mark opens, in front of a text: the mark, a label, a newline.
abbrev pub mark_line : ConflictMark → Bytes → Bytes → Bytes
mark_line m label r = enum_name m ++ (label ++ newline ∷ r)

-- What stands behind the four marks.
pub record Labels : Type 0 where
  pub ours : Bytes
  pub base : Bytes
  pub theirs : Bytes
  pub end : Bytes

-- The text of a block in diff3 style.
abbrev pub diff3 : Labels → Bytes → Bytes → Bytes → Bytes
diff3 l our bas their = mark_line ours l.ours (
    our
    ++ mark_line base l.base (bas ++ mark_line theirs l.theirs (their ++ mark_line end l.end [])))

-- Whole lines in which no mark of the list occurs.
abbrev pub IsFree : ConflictMark → Bytes → Type 0
IsFree m s = EndsLine s × (find s (enum_name m) ≡ none)

mark-Lacks : (m : ConflictMark) → Lacks newline (enum_name m)
mark-Lacks ours = omega arith
mark-Lacks base = omega arith
mark-Lacks theirs = omega arith
mark-Lacks end = omega arith

skip_line-mark_line :
    (m : ConflictMark) (label r : Bytes) → Lacks newline label → skip_line (mark_line m label r) ≡ r
unfolding skip_line
skip_line-mark_line m label r h = ap tail (
    ap rest_of (sym (append_assoc (enum_name m) label (newline ∷ r)))
    ∙ rest_of-append (enum_name m ++ label) r
        (All-append (λ x. x ≢ newline) (enum_name m) label (mark-Lacks m) h))

not_empty :
    (code rest : Bytes) (e : ConflictMark) → is_empty (code ++ (enum_name e ++ rest)) ≡ false
not_empty (c ∷ code) rest e = refl
not_empty [] rest ours = refl
not_empty [] rest base = refl
not_empty [] rest theirs = refl
not_empty [] rest end = refl

take_until-code :
    (e : ConflictMark) (code rest : Bytes)
    → IsFree e code
    → take_until (code ++ (enum_name e ++ rest)) (enum_name e) ≡ code
unfolding take_until
take_until-code e code rest (hc, fc) =
    rw (not_empty code rest e, find_lines (enum_name e) (mark-Lacks e) code rest hc fc)
      (take-append_length code (enum_name e ++ rest))

extract_found :
    (s m e : Bytes) (p : ℕ)
    → find s m ≡ some p
    → extract_code_from_conflict_range s m e ≡ take_until (skip_line (drop p s)) e
unfolding extract_code_from_conflict_range
extract_found s m e p h = rw (h, extract_code_from_conflict_range)

-- One extraction: whole lines free of the start mark, its line, then code free of the end mark.
pub extract_lem :
    (m e : ConflictMark) (before label code rest : Bytes)
    → IsFree m before
    → Lacks newline label
    → IsFree e code
    → extract_code_from_conflict_range
        (before ++ mark_line m label (code ++ (enum_name e ++ rest)))
        (enum_name m)
        (enum_name e)
      ≡ code
extract_lem m e before label code rest (hb, fb) hl free =
    let text = code ++ (enum_name e ++ rest) in
    extract_found (before ++ mark_line m label text) (enum_name m) (enum_name e) (length before)
      (find_lines (enum_name m) (mark-Lacks m) before (label ++ newline ∷ text) hb fb)
    ∙ rw (drop-append_length before (mark_line m label text), skip_line-mark_line m label text hl)
        (take_until-code e code rest free)

IsFree-append : (m : ConflictMark) (a b : Bytes) → IsFree m a → IsFree m b → IsFree m (a ++ b)
IsFree-append m a b (ha, fa) (hb, fb) =
    (EndsLine-append a b ha hb, find-append_none (enum_name m) (mark-Lacks m) a b ha fa fb)

mark_line-append :
    (m : ConflictMark) (label r : Bytes) → mark_line m label [] ++ r ≡ mark_line m label r
mark_line-append m label r = simp append_assoc

-- The conditions under which the sides of a block can be told apart: labels are on one line, and
-- what stands in front of a mark's line holds no such mark.
pub record IsClear (l : Labels) (our bas their : Bytes) : Type 0 where
  pub label_ours : Lacks newline l.ours
  pub label_base : Lacks newline l.base
  pub label_theirs : Lacks newline l.theirs
  pub head_ours_base : IsFree base (mark_line ours l.ours [])
  pub head_ours_theirs : IsFree theirs (mark_line ours l.ours [])
  pub head_base_theirs : IsFree theirs (mark_line base l.base [])
  pub our_base : IsFree base our
  pub our_theirs : IsFree theirs our
  pub bas_theirs : IsFree theirs bas
  pub their_end : IsFree end their

module _ (l : Labels) (our bas their : Bytes) (w : IsClear l our bas their) where
  sides_ours :
      extract_code_from_conflict_range (diff3 l our bas their) (enum_name ours) (enum_name base)
      ≡ our
  unfolding find
  sides_ours = extract_lem ours base [] l.ours our _ (tt, refl) w.label_ours w.our_base

  sides_base :
      extract_code_from_conflict_range (diff3 l our bas their) (enum_name base) (enum_name theirs)
      ≡ bas
  sides_base =
      let before = mark_line ours l.ours [] ++ our in
      let after = mark_line theirs l.theirs (their ++ mark_line end l.end []) in
      let at_base : before ++ mark_line base l.base (bas ++ after) ≡ diff3 l our bas their =
        simp append_assoc in
      subst (λ s. extract_code_from_conflict_range s (enum_name base) (enum_name theirs) ≡ bas)
        at_base
        (extract_lem base theirs before l.base bas _
          (IsFree-append base (mark_line ours l.ours []) our w.head_ours_base w.our_base)
          w.label_base w.bas_theirs)

  sides_theirs :
      extract_code_from_conflict_range (diff3 l our bas their) (enum_name theirs) (enum_name end)
      ≡ their
  sides_theirs =
      let head = mark_line ours l.ours [] ++ our in
      let before = head ++ (mark_line base l.base [] ++ bas) in
      let after = mark_line end l.end [] in
      let at_theirs : before ++ mark_line theirs l.theirs (their ++ after) ≡ diff3 l our bas their =
        simp append_assoc in
      subst (λ s. extract_code_from_conflict_range s (enum_name theirs) (enum_name end) ≡ their)
        at_theirs
        (extract_lem theirs end before l.theirs their _
          (IsFree-append theirs head (mark_line base l.base [] ++ bas)
            (IsFree-append theirs (mark_line ours l.ours []) our w.head_ours_theirs w.our_theirs)
            (IsFree-append theirs (mark_line base l.base []) bas w.head_base_theirs w.bas_theirs))
          w.label_theirs w.their_end)

-- The three sides of a block in diff3 style are read back from its text, if they can be told apart:
-- the labels of the first three marks are on one line each; our side, the base and their side are
-- empty or end in a newline; and a mark does not occur in what stands in front of its line: the
-- base's and their mark not in the first line or in our side, their mark not in the base's line or
-- in the base, and the end mark not in their side.
pub extract-diff3 :
    (l : Labels) (our bas their : Bytes)
    → IsClear l our bas their
    → let text = diff3 l our bas their in
      (extract_code_from_conflict_range text (enum_name ours) (enum_name base) ≡ our)
      × (extract_code_from_conflict_range text (enum_name base) (enum_name theirs) ≡ bas)
      × (extract_code_from_conflict_range text (enum_name theirs) (enum_name end) ≡ their)
extract-diff3 l our bas their w =
    (sides_ours l our bas their w, sides_base l our bas their w, sides_theirs l our bas their w)
