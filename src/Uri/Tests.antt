-- ===== src/Uri/Tests.antt =====
-- URIs of paths and of hosts.
use mergebot.Prelude.{◌≡◌, refl, inr, arith}
use mergebot.Bytes.{codes}
use mergebot.Uri.{
  Uri, percent_encode, percent_decode, to_string, parse, parsed, uri, for_file, from_uri,
  is_valid_scheme, is_net,
}
use mergebot.Uri.Percent.{percent_decode-percent_encode}
use mergebot.Uri.RoundTrip.{IsWellFormed, parse-to_string}
use mergebot.Uri.Files.{from_uri-uri}

percent_decode-percent_encode_example :
    percent_decode (percent_encode (codes "/a b%25")) ≡ codes "/a b%25"
percent_decode-percent_encode_example =
    percent_decode-percent_encode (codes "/a b%25") (omega arith)

abbrev remote : Uri
remote = record { scheme = codes "ssh"; authority = codes "h:1"; body = codes "/a b" }

remote-IsWellFormed : IsWellFormed remote
unfolding is_valid_scheme
remote-IsWellFormed = record {
  scheme_bytes = omega arith;
  authority_bytes = omega arith;
  body_bytes = omega arith;
  valid_scheme = refl;
  no_slash = omega arith;
  rooted = inr refl;
}

parse-to_string_example : parse (to_string remote) ≡ parsed remote
parse-to_string_example = parse-to_string remote remote-IsWellFormed

from_uri-uri_example : from_uri (uri (codes "/src/a b.cpp")) ≡ for_file (codes "/src/a b.cpp")
unfolding is_net
from_uri-uri_example = from_uri-uri (codes "/src/a b.cpp") (refl, refl) (omega arith)
