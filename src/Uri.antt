-- ===== src/Uri.antt =====
-- src/lsp/uri.cpp: URIs. The native path style is POSIX, as on every system but Windows.
use mergebot.Prelude.{
  ℕ, zero, suc, ◌+◌, ◌/◌, ◌%◌, ◌<◌, Bool, true, false, ◌&&◌, ◌||◌, not, Option, none, some, List,
  [], ◌∷◌, ◌++◌, leb, ltb, ◌==◌, if◌then◌else◌, length, take, drop,
}
use mergebot.Bytes.{Bytes, codes, starts_with, is_empty, ends_with}
use mergebot.StringOps.Hex.{hexdigit, is_hex_digit, hex_from_nibbles}
pub mod Percent
pub mod RoundTrip
pub mod Files
mod Tests

pub data Style : Type 0 where
  native posix windows_slash windows_backslash : Style

abbrev pub is_style_posix : Style → Bool
is_style_posix native = true
is_style_posix posix = true
is_style_posix windows_slash = false
is_style_posix windows_backslash = false

abbrev pub is_style_windows : Style → Bool
is_style_windows s = not (is_style_posix s)

abbrev pub is_separator : ℕ → Style → Bool
is_separator value style =
    if value == b'/' then true else if is_style_windows style then value == b'\\' else false

abbrev pub is_alpha : ℕ → Bool
is_alpha c = (leb b'a' c && leb c b'z') || (leb b'A' c && leb c b'Z')

abbrev pub is_digit : ℕ → Bool
is_digit c = leb b'0' c && leb c b'9'

abbrev pub is_alnum : ℕ → Bool
is_alnum c = is_alpha c || is_digit c

-- `path.substr(0, path.find_first_of(separators(style)))`.
pub up_to_separator : Style → Bytes → Bytes
up_to_separator style [] = []
up_to_separator style (c ∷ s) = if is_separator c style then [] else c ∷ up_to_separator style s

is_drive : Bytes → Bool
is_drive [] = false
is_drive (a ∷ []) = false
is_drive (a ∷ b ∷ s) = is_alpha a && b == b':'

pub is_net : Bytes → Style → Bool
is_net [] style = false
is_net (a ∷ []) style = false
is_net (a ∷ b ∷ []) style = false
is_net (a ∷ b ∷ c ∷ s) style = is_separator a style && a == b && not (is_separator c style)

starts_at_separator : Bytes → Style → Bool
starts_at_separator [] style = false
starts_at_separator (a ∷ s) style = is_separator a style

-- `find_first_of(separators(style), 2)` begins behind the two slashes.
pub find_first_component : Bytes → Style → Bytes
unfolding is_drive is_net starts_at_separator up_to_separator
find_first_component path style =
    if is_empty path
    then path
    else if is_style_windows style && is_drive path
    then take 2 path
    else if is_net path style
    then take 2 path ++ up_to_separator style (drop 2 path)
    else if starts_at_separator path style
    then take 1 path
    else up_to_separator style path

same_first_two : Bytes → Style → Bool
same_first_two [] style = false
same_first_two (a ∷ []) style = false
same_first_two (a ∷ b ∷ s) style = is_separator a style && b == a

pub root_name : Bytes → Style → Bytes
unfolding find_first_component same_first_two
root_name path style =
    let first_component = find_first_component path style in
    let has_net = ltb 2 (length first_component) && same_first_two path style in
    let has_drive = is_style_windows style && ends_with first_component (b':' ∷ []) in
    if is_empty path then [] else if has_net || has_drive then first_component else []

-- `Path.size() > 2 && Path[0] == Path[1] && is_separator(Path[0])`.
pub is_network_path : Bytes → Bool
is_network_path [] = false
is_network_path (a ∷ []) = false
is_network_path (a ∷ b ∷ s) = ltb 2 (length (a ∷ b ∷ s)) && (a == b && is_separator a native)

pub is_windows_path : Bytes → Bool
is_windows_path [] = false
is_windows_path (a ∷ []) = false
is_windows_path (a ∷ b ∷ s) = is_alpha a && b == b':'

slashes : Bytes → Bytes
slashes [] = []
slashes (c ∷ s) = (if c == b'\\' then b'/' else c) ∷ slashes s

pub convert_to_slash : Bytes → Style → Bytes
unfolding slashes
convert_to_slash path style = if is_style_posix style then path else slashes path

pub all_scheme : Bytes → Bool
all_scheme [] = true
all_scheme (c ∷ s) = (is_alnum c || (c == b'+' || (c == b'.' || c == b'-'))) && all_scheme s

pub is_valid_scheme : Bytes → Bool
unfolding all_scheme
is_valid_scheme [] = false
is_valid_scheme (c ∷ s) = is_alpha c && all_scheme s

pub record Uri : Type 0 where
  pub scheme : Bytes
  pub authority : Bytes
  pub body : Bytes

-- The unreserved characters, and the two that are kept.
pub should_escape : ℕ → Bool
should_escape ch = not (
    is_alnum ch
    || (ch == b'-' || (ch == b'_' || (ch == b'.' || (ch == b'~' || (ch == b'/' || ch == b':'))))))

-- What `percentEncode` appends to its second argument.
pub percent_encode : Bytes → Bytes
percent_encode [] = []
percent_encode (c ∷ s) =
    (if should_escape c then b'%' ∷ hexdigit (c / 16) ∷ hexdigit (c % 16) ∷ [] else c ∷ [])
    ++ percent_encode s

-- `skip` counts the bytes that `i += 2` passes over.
pub decode_from : ℕ → Bytes → Bytes
decode_from skip [] = []
decode_from (suc skip) (c ∷ s) = decode_from skip s
decode_from zero (c ∷ []) = c ∷ []
decode_from zero (c ∷ d ∷ []) = c ∷ d ∷ []
decode_from zero (c ∷ d ∷ e ∷ s) =
    let escape = c == b'%' && (is_hex_digit d && is_hex_digit e) in
    (if escape then hex_from_nibbles d e else c) ∷ decode_from (if escape then 2 else 0) (d ∷ e ∷ s)

pub percent_decode : Bytes → Bytes
unfolding decode_from
percent_decode content = decode_from 0 content

pub to_string : Uri → Bytes
to_string u =
    let head = percent_encode u.scheme ++ b':' ∷ [] in
    if is_empty u.authority && is_empty u.body
    then head
    else head
      ++ ((if not (is_empty u.authority) || starts_with u.body (b'/' ∷ [])
            then b'/' ∷ b'/' ∷ percent_encode u.authority
            else [])
          ++ percent_encode u.body)

-- `uri.substr(pos)` throws `std::out_of_range` where `pos` is `npos`.
pub data Parsed : Type 0 where
  parsed : Uri → Parsed
  nullopt : Parsed
  out_of_range : Parsed

-- A text cut at the first occurrence of a byte, which stays in front of the second part.
pub cut : ℕ → Bytes → Option (Bytes × Bytes)
cut c [] = none
cut c (d ∷ s) =
    if d == c
    then some ([], d ∷ s)
    else elim (cut c s) [ none ↦ none | some (a, b) ↦ some (d ∷ a, b) ]

pub parse_hierarchy : Bytes → Bytes → Parsed
parse_hierarchy scheme uri = elim (cut b'/' uri) [
  | none ↦ out_of_range
  | some (auth, path) ↦
      parsed
        (record { scheme = scheme; authority = percent_decode auth; body = percent_decode path })
]

pub parse_rest : Bytes → Bytes → Parsed
unfolding parse_hierarchy
parse_rest scheme uri =
    if starts_with uri (codes "//")
    then parse_hierarchy scheme (drop 2 uri)
    else parsed (record { scheme = scheme; authority = []; body = percent_decode uri })

pub parse : Bytes → Parsed
parse orig_uri = elim (cut b':' orig_uri) [
  | none ↦ nullopt
  | some (scheme_str, uri) ↦
      let scheme = percent_decode scheme_str in
      if is_valid_scheme scheme then parse_rest scheme (drop 1 uri) else nullopt
]

-- `URI::createFile`.
pub create_file : Bytes → Uri
unfolding is_network_path is_windows_path convert_to_slash
create_file absolute_path =
    let root = root_name absolute_path native in
    let net = is_network_path root in
    let authority = if net then drop 2 root else [] in
    let path = if net then drop (length root) absolute_path else absolute_path in
    let start = if not net && is_windows_path root then b'/' ∷ [] else [] in
    let body = start ++ convert_to_slash path native in
    record {
      scheme = codes "file";
      authority = authority;
      body = if starts_with body (codes "file://") then drop 7 body else body;
    }

-- `URIForFile`, whose one field is the file.
pub uri : Bytes → Bytes
uri file = to_string (create_file file)

pub data FromUri : Type 0 where
  for_file : Bytes → FromUri
  -- dereferencing an empty `optional`, or the exception of `parse`
  undefined throws : FromUri

pub from_uri : Bytes → FromUri
from_uri u = elim (parse u) [
  | parsed x ↦ for_file x.body
  | nullopt ↦ undefined
  | out_of_range ↦ throws
]
