-- ===== src/StringOps/Hex.antt =====
-- The hexadecimal digits of stringop.h. `-1U` is written `no_digit`.
use mergebot.Prelude.{
  ℕ, ◌+◌, ◌-◌, ◌*◌, ◌/◌, ◌%◌, ◌^◌, ◌<◌, ◌≡◌, Bool, true, ◌&&◌, ◌||◌, Option, none, some, arith, leb,
  ◌==◌, if◌then◌else◌, not,
}

abbrev pub no_digit : ℕ
no_digit = 2 ^ 32 - 1

-- The table, as the ranges that its rows hold; all other entries are -1.
unfoldable pub hex_digit_value : ℕ → ℕ
hex_digit_value c =
    if leb b'0' c && leb c b'9'
    then c - b'0'
    else if leb b'A' c && leb c b'F'
    then c - b'A' + 10
    else if leb b'a' c && leb c b'f'
    then c - b'a' + 10
    else no_digit

-- `LUT[X]`, with `LowerCase` at its default.
unfoldable pub hexdigit : ℕ → ℕ
hexdigit x = if leb x 9 then b'0' + x else b'A' + (x - 10)

unfoldable pub is_hex_digit : ℕ → Bool
is_hex_digit c = not (hex_digit_value c == no_digit)

-- `(U1 << 4) | U2`, cut to eight bits; the digits are below 16, so the bits do not meet.
unfoldable pub try_get_hex_from_nibbles : ℕ → ℕ → Option ℕ
try_get_hex_from_nibbles msb lsb =
    if hex_digit_value msb == no_digit || hex_digit_value lsb == no_digit
    then none
    else some ((hex_digit_value msb * 16 + hex_digit_value lsb) % 256)

unfoldable pub hex_from_nibbles : ℕ → ℕ → ℕ
unfolding try_get_hex_from_nibbles
hex_from_nibbles msb lsb = elim (try_get_hex_from_nibbles msb lsb) [ none ↦ 0 | some hex ↦ hex ]

hex_digit_value-hexdigit : (x : ℕ) → x < 16 → hex_digit_value (hexdigit x) ≡ x
unfolding hex_digit_value hexdigit
hex_digit_value-hexdigit x h = ground arith

pub is_hex_digit-hexdigit : (x : ℕ) → x < 16 → is_hex_digit (hexdigit x) ≡ true
unfolding is_hex_digit
is_hex_digit-hexdigit x h = ground (arith, hex_digit_value-hexdigit x)

-- A byte is read back from the two digits that `hexdigit` gives for its halves.
pub hex_from_nibbles-hexdigit :
    (c : ℕ) → c < 256 → hex_from_nibbles (hexdigit (c / 16)) (hexdigit (c % 16)) ≡ c
unfolding hex_from_nibbles
hex_from_nibbles-hexdigit c h =
    ground (arith, hex_digit_value-hexdigit (c / 16), hex_digit_value-hexdigit (c % 16))
