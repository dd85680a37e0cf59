-- ===== src/Uri/RoundTrip.antt =====
-- Parsing undoes printing.
use mergebot.Prelude.{
  ℕ, ◌≡◌, ◌≢◌, refl, true, false, some, [], ◌∷◌, ◌++◌, arith, ◌∙◌, sym, subst, Bool-cases, inl, inr,
  ◌⊎◌, Lacks, append_assoc,
}
use mergebot.Bytes.{Bytes, starts_with, codes}
use mergebot.Uri.{
  Uri, percent_encode, to_string, parsed, parse, parse_rest, parse_hierarchy, cut, is_valid_scheme,
  all_scheme, should_escape,
}
use mergebot.Uri.Percent.{
  IsBytes, percent_decode-percent_encode, encode-Lacks, encode_kept, encode_escaped,
  hexdigit-ne-colon, hexdigit-ne-slash,
}

cut_lem : (c : ℕ) (a b : Bytes) → Lacks c a → cut c (a ++ c ∷ b) ≡ some (a, c ∷ b)
unfolding cut
cut_lem c [] b h = ground arith
cut_lem c (d ∷ a) b (hd, h) = ground (arith, cut_lem c a b h)

all_scheme-Lacks : (s : Bytes) → all_scheme s ≡ true → Lacks b':' s
unfolding all_scheme
all_scheme-Lacks [] h = tt
all_scheme-Lacks (c ∷ s) h = (λ e. ground arith, all_scheme-Lacks s (ground arith))

scheme-Lacks : (s : Bytes) → is_valid_scheme s ≡ true → Lacks b':' s
unfolding is_valid_scheme
scheme-Lacks [] h = tt
scheme-Lacks (c ∷ s) h = (λ e. ground arith, all_scheme-Lacks s (ground arith))

-- What `toString` is called on: bytes, a scheme that is valid, an authority without slash, and with
-- an authority a body that begins with a slash (the constructor's assertion).
pub record IsWellFormed (u : Uri) : Type 0 where
  pub scheme_bytes : IsBytes u.scheme
  pub authority_bytes : IsBytes u.authority
  pub body_bytes : IsBytes u.body
  pub valid_scheme : is_valid_scheme u.scheme ≡ true
  pub no_slash : Lacks b'/' u.authority
  pub rooted : (u.authority ≡ []) ⊎ (starts_with u.body (b'/' ∷ []) ≡ true)

pub parse_scheme :
    (s rest : Bytes)
    → IsBytes s
    → is_valid_scheme s ≡ true
    → parse (percent_encode s ++ b':' ∷ rest) ≡ parse_rest s rest
unfolding parse
parse_scheme s rest hs v = rw (
  cut_lem b':' (percent_encode s) rest
      (encode-Lacks b':' s (omega arith) hexdigit-ne-colon hs (scheme-Lacks s v)),
  percent_decode-percent_encode s hs,
  v,
  parse,
)

encode_slash : (b : Bytes) → percent_encode (b'/' ∷ b) ≡ b'/' ∷ percent_encode b
unfolding should_escape
encode_slash b = encode_kept b'/' b refl

pub starts_with_slashes : (r : Bytes) → starts_with (b'/' ∷ b'/' ∷ r) (codes "//") ≡ true
starts_with_slashes r = ground arith

cut_path :
    (auth b : Bytes)
    → IsBytes auth
    → Lacks b'/' auth
    → cut b'/' (percent_encode auth ++ percent_encode (b'/' ∷ b))
      ≡ some (percent_encode auth, percent_encode (b'/' ∷ b))
cut_path auth b ha l = rw (encode_slash b) (
    cut_lem b'/' (percent_encode auth) (percent_encode b)
      (encode-Lacks b'/' auth (omega arith) hexdigit-ne-slash ha l))

parse_slashes :
    (s auth b : Bytes)
    → IsBytes auth
    → IsBytes (b'/' ∷ b)
    → Lacks b'/' auth
    → parse_rest s (b'/' ∷ b'/' ∷ (percent_encode auth ++ percent_encode (b'/' ∷ b)))
      ≡ parsed (record { scheme = s; authority = auth; body = b'/' ∷ b })
unfolding parse_rest parse_hierarchy
parse_slashes s auth b ha hb l = rw (
  starts_with_slashes (percent_encode auth ++ percent_encode (b'/' ∷ b)),
  cut_path auth b ha l,
  percent_decode-percent_encode auth ha,
  percent_decode-percent_encode (b'/' ∷ b) hb,
  parse_hierarchy,
)

-- Encoding keeps a first byte that is no slash from becoming one.
encode_head :
    (c : ℕ) (b : Bytes) → c ≢ b'/' → starts_with (percent_encode (c ∷ b)) (codes "//") ≡ false
encode_head c b h = elim (Bool-cases (should_escape c)) [
  | inl e ↦ rw (encode_escaped c b e) (ground arith)
  | inr e ↦ rw (encode_kept c b e) (ground arith)
]

encode_opaque :
    (b : Bytes)
    → starts_with b (b'/' ∷ []) ≡ false
    → starts_with (percent_encode b) (codes "//") ≡ false
encode_opaque [] h = unfold percent_encode in ground arith
encode_opaque (c ∷ b) h = encode_head c b (λ e. ground arith)

parse_opaque :
    (s b : Bytes)
    → IsBytes b
    → starts_with b (b'/' ∷ []) ≡ false
    → parse_rest s (percent_encode b) ≡ parsed (record { scheme = s; authority = []; body = b })
unfolding parse_rest
parse_opaque s b hb h = rw (encode_opaque b h, percent_decode-percent_encode b hb)

pub starts_with_slash : (b : Bytes) → starts_with (b'/' ∷ b) (b'/' ∷ []) ≡ true
starts_with_slash b = ground arith

abbrev at : Bytes → Bytes → Bytes → Uri
at s a b = record { scheme = s; authority = a; body = b }

print_rooted :
    (s a b : Bytes)
    → to_string (at s a (b'/' ∷ b))
      ≡ percent_encode s ++ b':' ∷ b'/' ∷ b'/' ∷ (percent_encode a ++ percent_encode (b'/' ∷ b))
unfolding to_string
print_rooted s [] b = rw (starts_with_slash b) (simp append_assoc)
print_rooted s (c ∷ a) b = simp append_assoc

print_opaque :
    (s b : Bytes)
    → starts_with b (b'/' ∷ []) ≡ false
    → to_string (at s [] b) ≡ percent_encode s ++ b':' ∷ percent_encode b
unfolding to_string
print_opaque s [] h = unfold percent_encode in refl
print_opaque s (c ∷ b) h = rw h (simp append_assoc)

rooted_case :
    (s a b : Bytes)
    → IsWellFormed (at s a (b'/' ∷ b))
    → parse (to_string (at s a (b'/' ∷ b))) ≡ parsed (at s a (b'/' ∷ b))
rooted_case s a b w =
    let path = percent_encode a ++ percent_encode (b'/' ∷ b) in
    rw (print_rooted s a b) (
      parse_scheme s (b'/' ∷ b'/' ∷ path) w.scheme_bytes w.valid_scheme
      ∙ parse_slashes s a b w.authority_bytes w.body_bytes w.no_slash)

opaque_case :
    (s b : Bytes)
    → IsWellFormed (at s [] b)
    → starts_with b (b'/' ∷ []) ≡ false
    → parse (to_string (at s [] b)) ≡ parsed (at s [] b)
opaque_case s b w h = rw (print_opaque s b h) (
    parse_scheme s (percent_encode b) w.scheme_bytes w.valid_scheme
    ∙ parse_opaque s b w.body_bytes h)

slash_head : (c : ℕ) (b : Bytes) → starts_with (c ∷ b) (b'/' ∷ []) ≡ true → c ≡ b'/'
slash_head c b h = ground arith

body_cases :
    (s a b : Bytes)
    → IsWellFormed (at s a b)
    → (a ≡ []) ⊎ (starts_with b (b'/' ∷ []) ≡ true)
    → (starts_with b (b'/' ∷ []) ≡ true) ⊎ (starts_with b (b'/' ∷ []) ≡ false)
    → parse (to_string (at s a b)) ≡ parsed (at s a b)
body_cases s a [] w r (inl e) = ground arith
body_cases s a (c ∷ b) w r (inl e) =
    let h = slash_head c b e in
    subst (λ d. parse (to_string (at s a (d ∷ b))) ≡ parsed (at s a (d ∷ b))) (sym h)
      (rooted_case s a b (subst (λ d. IsWellFormed (at s a (d ∷ b))) h w))
body_cases s a b w (inl n) (inr e) =
    subst (λ x. parse (to_string (at s x b)) ≡ parsed (at s x b)) (sym n)
      (opaque_case s b (subst (λ x. IsWellFormed (at s x b)) n w) e)
body_cases s a b w (inr q) (inr e) = cc

-- Parsing the printed form of a well-formed URI gives it back: scheme, authority and body.
pub parse-to_string : (u : Uri) → IsWellFormed u → parse (to_string u) ≡ parsed u
parse-to_string u w =
    body_cases u.scheme u.authority u.body w w.rooted (Bool-cases (starts_with u.body (b'/' ∷ [])))
