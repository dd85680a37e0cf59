-- ===== src/StringOps/Deflate/Comments.antt =====
-- What is removed, and what is not.
use mergebot.Prelude.{
  ℕ, ◌≡◌, ◌≢◌, refl, Bool, true, false, [], ◌∷◌, ◌++◌, arith, Lacks, All, ◌∙◌, ap, sym,
  append_assoc, append-nil, ◌==◌,
}
use mergebot.Bytes.{Bytes}
use mergebot.Bytes.Lines.{newline, EndsLine}
use mergebot.StringOps.Deflate.{
  Lexer, start, next_of, is_quote, step, loop, remove_comments_and_spaces, slash, single_quote,
}

-- The flags behind a text, with what the loop appends for it.
unfoldable pub run : Lexer → ℕ → Bytes → Lexer × Bytes
unfolding step
run l prev [] = (l, [])
run l prev (c ∷ s) =
    let (l', out) = step l prev c (next_of s) in let (l'', more) = run l' c s in (l'', out ++ more)

-- The last byte of a text, or the byte in front of it.
last_of : ℕ → Bytes → ℕ
last_of prev [] = prev
last_of prev (c ∷ s) = last_of c s

step-newline : (l : Lexer) (prev next : ℕ) → step l prev newline next ≡ step l prev newline 0
unfolding step
step-newline l prev next = ground arith

-- At the end of whole lines no look ahead reaches the text behind.
loop-append :
    (l : Lexer) (prev : ℕ) (a x : Bytes)
    → EndsLine a
    → loop l prev (a ++ x) ≡ (run l prev a).1 ++ loop (run l prev a).0 (last_of prev a) x
unfolding loop run last_of
loop-append l prev [] x h = refl
loop-append l prev (c ∷ []) x h = rw (h, step-newline l prev (next_of x)) (simp append-nil)
loop-append l prev (c ∷ d ∷ a) x h =
    let l' = (step l prev c d).0 in
    ap (λ s. (step l prev c d).1 ++ s) (loop-append l' c (d ∷ a) x h)
    ∙ sym (append_assoc (step l prev c d).1 (run l' c (d ∷ a)).1 _)

abbrev pub IsPlainByte : ℕ → Type 0
IsPlainByte c = (c ≢ newline) × (is_quote c ≡ false)

abbrev in_line_comment : Lexer
in_line_comment = record start { in_single_line_comment = true }

-- Inside a line comment, bytes that are no quotes are dropped up to the newline.
loop_comment :
    (prev : ℕ) (k x : Bytes)
    → All IsPlainByte k
    → loop in_line_comment prev (k ++ newline ∷ x) ≡ loop start newline x
unfolding loop step
loop_comment prev [] x h = refl
loop_comment prev (c ∷ k) x ((h, q), w) =
    let e : (c == newline) ≡ false = ground arith in rw (q, e) (loop_comment c k x w)

open_comment :
    (prev : ℕ) (x : Bytes) → loop start prev (slash ∷ slash ∷ x) ≡ loop in_line_comment slash x
unfolding loop step
open_comment prev x = refl

-- Outside of a string the delimiter of the last one is of no account.
abbrev pub outside : Bool → Bool → Bool → ℕ → Lexer
outside single multi skip d = record {
  in_single_line_comment = single;
  in_multi_line_comment = multi;
  in_string = false;
  string_delimiter = d;
  skip = skip;
}

loop-outside :
    (single multi skip : Bool) (d e prev prev' : ℕ) (s : Bytes)
    → loop (outside single multi skip d) prev s ≡ loop (outside single multi skip e) prev' s
unfolding loop step
loop-outside single multi skip d e prev prev' [] = refl
loop-outside single multi true d e prev prev' (c ∷ s) = loop-outside single multi false d e c c s
loop-outside single true false d e prev prev' (c ∷ s) =
    ground
      (arith, loop-outside single true false d e c c s, loop-outside single false true d e c c s)
loop-outside true false false d e prev prev' (c ∷ s) =
    ground
      (arith, loop-outside true false false d e c c s, loop-outside false false false d e c c s)
loop-outside false false false d e prev prev' (c ∷ s) = ground (
  arith,
  loop-outside false false false d e c c s,
  loop-outside true false true d e c c s,
  loop-outside false true true d e c c s,
)

-- The text leaves no comment and no string open.
abbrev pub IsClosed : Bytes → Type 0
IsClosed a = (run start 0 a).0 ≡ outside false false false (run start 0 a).0.string_delimiter

-- Behind whole lines that leave no comment or string open, a line comment without quotes changes
-- nothing: the text with it and the text without it are deflated alike.
pub deflate_line_comment :
    (a k b : Bytes)
    → EndsLine a
    → IsClosed a
    → All IsPlainByte k
    → remove_comments_and_spaces (a ++ (slash ∷ slash ∷ (k ++ newline ∷ b)))
      ≡ remove_comments_and_spaces (a ++ b)
unfolding remove_comments_and_spaces
deflate_line_comment a k b ha closed hk =
    let out = (run start 0 a).1 in
    let d = (run start 0 a).0.string_delimiter in
    let p = last_of 0 a in
    loop-append start 0 a (slash ∷ slash ∷ (k ++ newline ∷ b)) ha
    ∙ (ap (λ l. out ++ loop l p (slash ∷ slash ∷ (k ++ newline ∷ b))) closed
        ∙ (ap (λ s. out ++ s)
              (loop-outside false false false d 0 p p (slash ∷ slash ∷ (k ++ newline ∷ b))
                ∙ (open_comment p (k ++ newline ∷ b)
                    ∙ (loop_comment slash k b hk ∙ loop-outside false false false 0 d newline p b)))
            ∙ sym (loop-append start 0 a b ha ∙ ap (λ l. out ++ loop l p b) closed)))

loop_string :
    (l : Lexer) (prev : ℕ) (r : Bytes)
    → l.in_string ≡ true
    → l.skip ≡ false
    → Lacks l.string_delimiter r
    → loop l prev r ≡ r
unfolding loop step
loop_string l prev [] s k h = refl
loop_string l prev (c ∷ r) s k (hc, h) =
    let e : (c == l.string_delimiter) ≡ false = ground arith in
    rw (k, s, e)
      (ap (λ t. c ∷ t) (loop_string (record l { in_string = true; skip = false }) c r refl refl h))

loop_comment_prefix :
    (prev : ℕ) (k x : Bytes)
    → All IsPlainByte k
    → loop in_line_comment prev (k ++ x) ≡ loop in_line_comment newline x
unfolding loop step
loop_comment_prefix prev [] x h = loop-outside true false false 0 0 prev newline x
loop_comment_prefix prev (c ∷ k) x ((h, q), w) =
    let e : (c == newline) ≡ false = ground arith in rw (q, e) (loop_comment_prefix c k x w)

quote_in_comment :
    (prev : ℕ) (x : Bytes)
    → Lacks single_quote x
    → loop in_line_comment prev (single_quote ∷ x) ≡ single_quote ∷ x
unfolding loop step
quote_in_comment prev x h =
    ap (λ t. single_quote ∷ t)
      (loop_string (record in_line_comment { in_string = true; string_delimiter = single_quote })
        single_quote x refl refl h)

-- An apostrophe in a line comment opens a string: the rest of the comment and all the code behind
-- it are kept, spaces and newlines included, up to the next apostrophe.
pub deflate_apostrophe :
    (k x : Bytes)
    → All IsPlainByte k
    → Lacks single_quote x
    → remove_comments_and_spaces (slash ∷ slash ∷ (k ++ single_quote ∷ x)) ≡ single_quote ∷ x
unfolding remove_comments_and_spaces
deflate_apostrophe k x hk hx =
    open_comment 0 (k ++ single_quote ∷ x)
    ∙ (loop_comment_prefix slash k (single_quote ∷ x) hk ∙ quote_in_comment newline x hx)
