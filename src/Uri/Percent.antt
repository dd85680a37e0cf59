-- ===== src/Uri/Percent.antt =====
-- Percent encoding and decoding.
use mergebot.Prelude.{
  ℕ, ◌/◌, ◌%◌, ◌<◌, ◌≡◌, ◌≢◌, refl, true, false, [], ◌∷◌, ◌++◌, arith, All, ap, ◌∙◌, Bool-cases,
  inl, inr, ◌==◌, Lacks, append-nil, sym,
}
use mathlib.Core.Path.{ap₂}
use mergebot.Bytes.{Bytes}
use mergebot.StringOps.Hex.{
  hexdigit, is_hex_digit, hex_from_nibbles, is_hex_digit-hexdigit, hex_from_nibbles-hexdigit,
}
use mergebot.Uri.{should_escape, percent_encode, percent_decode, decode_from}

abbrev pub IsBytes : Bytes → Type 0
IsBytes = All (λ c. c < 256)

-- A byte that is no percent sign stands for itself.
decode_plain : (c : ℕ) (s : Bytes) → c ≢ b'%' → decode_from 0 (c ∷ s) ≡ c ∷ decode_from 0 s
unfolding decode_from
decode_plain c [] h = refl
decode_plain c (d ∷ []) h = refl
decode_plain c (d ∷ e ∷ s) h = let n : (c == b'%') ≡ false = ground arith in rw (n, decode_from)

decode_escape :
    (d e : ℕ) (s : Bytes)
    → is_hex_digit d ≡ true
    → is_hex_digit e ≡ true
    → decode_from 0 (b'%' ∷ d ∷ e ∷ s) ≡ hex_from_nibbles d e ∷ decode_from 0 s
unfolding decode_from
decode_escape d e s hd he = rw (hd, he, decode_from)

should_escape-percent : should_escape b'%' ≡ true
unfolding should_escape
should_escape-percent = refl

pub encode_escaped :
    (c : ℕ) (s : Bytes)
    → should_escape c ≡ true
    → percent_encode (c ∷ s) ≡ b'%' ∷ hexdigit (c / 16) ∷ hexdigit (c % 16) ∷ percent_encode s
unfolding percent_encode
encode_escaped c s h = rw h

pub encode_kept :
    (c : ℕ) (s : Bytes) → should_escape c ≡ false → percent_encode (c ∷ s) ≡ c ∷ percent_encode s
unfolding percent_encode
encode_kept c s h = rw h

not_percent : (c : ℕ) → should_escape c ≡ false → c ≢ b'%'
not_percent c h e = cc (should_escape-percent, ap should_escape e)

decode-encode :
    (s r : Bytes) → IsBytes s → decode_from 0 (percent_encode s ++ r) ≡ s ++ decode_from 0 r
decode-encode [] r h = unfold percent_encode in refl
decode-encode (c ∷ s) r (hc, h) = elim (Bool-cases (should_escape c)) [
  | inl e ↦ rw (encode_escaped c s e) (
      decode_escape (hexdigit (c / 16)) (hexdigit (c % 16)) (percent_encode s ++ r)
        (is_hex_digit-hexdigit (c / 16) (omega arith))
        (is_hex_digit-hexdigit (c % 16) (omega arith))
      ∙ ap₂ (λ x xs. x ∷ xs) (hex_from_nibbles-hexdigit c hc) (decode-encode s r h))
  | inr e ↦ rw (encode_kept c s e) (
      decode_plain c (percent_encode s ++ r) (not_percent c e)
      ∙ ap (λ xs. c ∷ xs) (decode-encode s r h))
]

-- Decoding undoes encoding, for every string of bytes.
pub percent_decode-percent_encode : (s : Bytes) → IsBytes s → percent_decode (percent_encode s) ≡ s
unfolding percent_decode
percent_decode-percent_encode s h =
    ap (decode_from 0) (sym (append-nil (percent_encode s)))
    ∙ (decode-encode s [] h ∙ unfold decode_from in append-nil s)

-- A delimiter that is no percent sign and no digit does not come into a text by encoding it.
pub encode-Lacks :
    (x : ℕ) (s : Bytes)
    → x ≢ b'%'
    → ((y : ℕ) → y < 16 → hexdigit y ≢ x)
    → IsBytes s
    → Lacks x s
    → Lacks x (percent_encode s)
encode-Lacks x [] h d _ _ = unfold percent_encode in tt
encode-Lacks x (c ∷ s) h d (hc, b) (n, l) = elim (Bool-cases (should_escape c)) [
  | inl e ↦ rw (encode_escaped c s e) (
    λ q. h (sym q),
    (d (c / 16) (omega arith), (d (c % 16) (omega arith), encode-Lacks x s h d b l)),
  )
  | inr e ↦ rw (encode_kept c s e) (n, encode-Lacks x s h d b l)
]

pub hexdigit-ne-colon : (y : ℕ) → y < 16 → hexdigit y ≢ b':'
unfolding hexdigit
hexdigit-ne-colon y h e = ground arith

pub hexdigit-ne-slash : (y : ℕ) → y < 16 → hexdigit y ≢ b'/'
unfolding hexdigit
hexdigit-ne-slash y h e = ground arith
