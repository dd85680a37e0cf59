-- ===== src/Uri/Files.antt =====
-- `URIForFile`: from a file to its URI and back.
use mergebot.Prelude.{
  ℕ, ◌≡◌, refl, true, false, none, [], ◌∷◌, ◌++◌, arith, ap, ◌∙◌, sym, subst, inl, inr, ◌==◌, Lacks,
  drop-append_length, length, ltb,
}
use mergebot.Bytes.{Bytes, starts_with, codes}
use mergebot.Uri.{
  Uri, to_string, parsed, out_of_range, parse, parse_rest, parse_hierarchy, cut, is_valid_scheme,
  create_file, root_name, uri, from_uri, for_file, is_net, native, find_first_component,
  is_network_path, up_to_separator, percent_encode,
}
use mergebot.Uri.Percent.{IsBytes}
use mergebot.Uri.RoundTrip.{parse-to_string, parse_scheme, starts_with_slashes, starts_with_slash}

-- An absolute path that names no network host: one slash, or three and more.
abbrev pub IsLocal : Bytes → Type 0
IsLocal [] = ⊥
IsLocal (c ∷ s) = (c ≡ b'/') × (is_net (c ∷ s) native ≡ false)

first_local :
    (s : Bytes)
    → is_net (b'/' ∷ s) native ≡ false
    → find_first_component (b'/' ∷ s) native ≡ b'/' ∷ []
unfolding find_first_component
first_local s h = rw h

root_name_local : (s : Bytes) → is_net (b'/' ∷ s) native ≡ false → root_name (b'/' ∷ s) native ≡ []
unfolding root_name
root_name_local s h = rw (first_local s h, root_name) refl

not_file : (s : Bytes) → starts_with (b'/' ∷ s) (codes "file://") ≡ false
not_file s = ground arith

create_file_local :
    (s : Bytes)
    → is_net (b'/' ∷ s) native ≡ false
    → create_file (b'/' ∷ s) ≡ record { scheme = codes "file"; authority = []; body = b'/' ∷ s }
unfolding create_file
create_file_local s h = rw (root_name_local s h, not_file s)

file_scheme : is_valid_scheme (codes "file") ≡ true
unfolding is_valid_scheme
file_scheme = refl

from_uri-parsed : (t : Bytes) (u : Uri) → parse t ≡ parsed u → from_uri t ≡ for_file u.body
unfolding from_uri
from_uri-parsed t u h = rw (h, from_uri)

local_back :
    (s : Bytes)
    → is_net (b'/' ∷ s) native ≡ false
    → IsBytes (b'/' ∷ s)
    → from_uri (uri (b'/' ∷ s)) ≡ for_file (b'/' ∷ s)
unfolding uri
local_back s h b =
    let u : Uri = record { scheme = codes "file"; authority = []; body = b'/' ∷ s } in
    rw (create_file_local s h) (
      from_uri-parsed (to_string u) u (
        parse-to_string u (record {
          scheme_bytes = omega arith;
          authority_bytes = tt;
          body_bytes = b;
          valid_scheme = file_scheme;
          no_slash = tt;
          rooted = inl refl;
        })))

-- The URI of an absolute path that names no network host leads back to that path.
pub from_uri-uri :
    (file : Bytes) → IsLocal file → IsBytes file → from_uri (uri file) ≡ for_file file
from_uri-uri [] h b = absurd h
from_uri-uri (c ∷ s) (e, h) b =
    subst
      (λ d.
        is_net (d ∷ s) native ≡ false → IsBytes (d ∷ s) → from_uri (uri (d ∷ s)) ≡ for_file (d ∷ s))
      (sym e) (local_back s) h b

-- The host of a network path comes back as authority only: reading the URI drops it.
up_to_separator-net :
    (net r : Bytes) → Lacks b'/' net → up_to_separator native (net ++ b'/' ∷ r) ≡ net
unfolding up_to_separator
up_to_separator-net [] r h = refl
up_to_separator-net (c ∷ net) r (hc, h) =
    let e : (c == b'/') ≡ false = ground arith in
    rw e (ap (λ l. c ∷ l) (up_to_separator-net net r h))

abbrev net_path : ℕ → Bytes → Bytes → Bytes
net_path c net r = b'/' ∷ b'/' ∷ ((c ∷ net) ++ b'/' ∷ r)

first_net :
    (c : ℕ) (net r : Bytes)
    → Lacks b'/' (c ∷ net)
    → find_first_component (net_path c net r) native ≡ b'/' ∷ b'/' ∷ c ∷ net
unfolding find_first_component
first_net c net r (hc, h) =
    let e : (c == b'/') ≡ false = ground arith in
    rw e (ap (λ l. b'/' ∷ b'/' ∷ c ∷ l) (up_to_separator-net net r h))

long_enough : (c : ℕ) (net : Bytes) → ltb 2 (length (b'/' ∷ b'/' ∷ c ∷ net)) ≡ true
long_enough c net = ground arith

root_name_net :
    (c : ℕ) (net r : Bytes)
    → Lacks b'/' (c ∷ net)
    → root_name (net_path c net r) native ≡ b'/' ∷ b'/' ∷ c ∷ net
unfolding root_name
root_name_net c net r h = rw (first_net c net r h, root_name, long_enough c net) refl

is_network_path_net : (c : ℕ) (net : Bytes) → is_network_path (b'/' ∷ b'/' ∷ c ∷ net) ≡ true
unfolding is_network_path
is_network_path_net c net = rw (long_enough c net) refl

create_file_net :
    (c : ℕ) (net r : Bytes)
    → Lacks b'/' (c ∷ net)
    → create_file (net_path c net r)
      ≡ record { scheme = codes "file"; authority = c ∷ net; body = b'/' ∷ r }
unfolding create_file
create_file_net c net r h = rw (
  root_name_net c net r h,
  is_network_path_net c net,
  drop-append_length (c ∷ net) (b'/' ∷ r),
  not_file r,
)

-- A path that names a network host loses the host on the way through its URI.
pub from_uri_network :
    (c : ℕ) (net r : Bytes)
    → Lacks b'/' (c ∷ net)
    → IsBytes (c ∷ net)
    → IsBytes r
    → from_uri (uri (b'/' ∷ b'/' ∷ ((c ∷ net) ++ b'/' ∷ r))) ≡ for_file (b'/' ∷ r)
unfolding uri
from_uri_network c net r h hn hr =
    let u : Uri = record { scheme = codes "file"; authority = c ∷ net; body = b'/' ∷ r } in
    rw (create_file_net c net r h) (
      from_uri-parsed (to_string u) u (
        parse-to_string u (record {
          scheme_bytes = omega arith;
          authority_bytes = hn;
          body_bytes = (omega arith, hr);
          valid_scheme = file_scheme;
          no_slash = h;
          rooted = inr (starts_with_slash r);
        })))

cut-none : (c : ℕ) (s : Bytes) → Lacks c s → cut c s ≡ none
unfolding cut
cut-none c [] h = refl
cut-none c (d ∷ s) (hd, h) = ground (arith, cut-none c s h)

-- A URI with an authority and no path is not refused: parsing it throws, whatever the host is.
pub parse_no_path :
    (scheme host : Bytes)
    → IsBytes scheme
    → is_valid_scheme scheme ≡ true
    → Lacks b'/' host
    → parse (percent_encode scheme ++ b':' ∷ b'/' ∷ b'/' ∷ host) ≡ out_of_range
unfolding parse_rest parse_hierarchy
parse_no_path scheme host hs v h =
    parse_scheme scheme (b'/' ∷ b'/' ∷ host) hs v
    ∙ rw (starts_with_slashes host, parse_rest, cut-none b'/' host h, parse_hierarchy)
