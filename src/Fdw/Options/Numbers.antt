-- ===== src/Fdw/Options/Numbers.antt =====
-- strtol and strtoul of the C library at base 0, as the validator of the options calls them: white
-- space, a sign, and a number that is octal behind 0 and hexadecimal behind 0x.
use oracle_fdw.Base.{
  ℕ, suc, ◌+◌, ◌-◌, ◌*◌, ◌%◌, ◌^◌, Bool, true, false, ◌&&◌, ◌||◌, [], ◌∷◌, Option, none, some,
  Bytes, leb, ltb, ◌==◌, if◌then◌else◌,
}
use oracle_fdw.Base.Int.{ℤ, pos, neg}

-- isspace
abbrev pub is_space : ℕ → Bool
is_space c = c == b' ' || (leb 9 c && leb c 13)

abbrev pub skip_space : Bytes → Bytes
skip_space [] = []
skip_space (c ∷ s) = let rest = skip_space s in if is_space c then rest else c ∷ s

-- The value of a digit or a letter, 36 for another character.
abbrev pub digit_value : ℕ → ℕ
digit_value c =
    if leb b'0' c && leb c b'9'
    then c - b'0'
    else if leb b'a' c && leb c b'z'
    then c - 87
    else if leb b'A' c && leb c b'Z'
    then c - 55
    else 36

abbrev pub scan_base : ℕ → ℕ → Bytes → ℕ × Bytes
scan_base base acc [] = (acc, [])
scan_base base acc (c ∷ s) =
    let more = scan_base base (acc * base + digit_value c) s in
    if ltb (digit_value c) base then more else (acc, c ∷ s)

abbrev hex_mark : ℕ → Bool
hex_mark c = c == b'x' || c == b'X'

-- Behind a zero: hexadecimal if an x and a digit follow, else octal.
abbrev pub scan_zero : Bytes → ℕ × Bytes
scan_zero (x ∷ c ∷ s) =
    if hex_mark x && ltb (digit_value c) 16
    then scan_base 16 0 (c ∷ s)
    else scan_base 8 0 (x ∷ c ∷ s)
scan_zero s = scan_base 8 0 s

-- The magnitude and what follows, or none without a digit.
abbrev pub scan_magnitude : Bytes → Option (ℕ × Bytes)
scan_magnitude [] = none
scan_magnitude (c ∷ s) =
    if c == b'0'
    then some (scan_zero s)
    else if ltb (digit_value c) 10
    then some (scan_base 10 0 (c ∷ s))
    else none

-- A sign, and what follows.
abbrev pub scan_sign : Bytes → Bool × Bytes
scan_sign [] = (false, [])
scan_sign (c ∷ s) =
    if c == b'-' then (true, s) else if c == b'+' then (false, s) else (false, c ∷ s)

-- What a call returns, where *endptr points to, and whether errno is set.
pub record Parsed (A : Type 0) : Type 0 where
  pub value : A
  pub rest : Bytes
  pub errno : Bool

abbrev ulong_max : ℕ
ulong_max = 18446744073709551615

-- A magnitude that unsigned long holds is negated modulo 2 ^ 64.
abbrev unsigned_value : Bool → ℕ → ℕ
unsigned_value negative n =
    if ltb ulong_max n then ulong_max else if negative then (2 ^ 64 - n) % 2 ^ 64 else n

abbrev to_unsigned : Bytes → Bool → Option (ℕ × Bytes) → Parsed ℕ
to_unsigned s negative none = record { value = 0; rest = s; errno = false }
to_unsigned s negative (some (n, rest)) = record {
  value = unsigned_value negative n;
  rest = rest;
  errno = ltb ulong_max n;
}

unfoldable pub strtoul : Bytes → Parsed ℕ
strtoul s =
    let (negative, digits) = scan_sign (skip_space s) in
    to_unsigned s negative (scan_magnitude digits)

abbrev long_max : ℕ
long_max = 9223372036854775807

-- The value is the nearest one that long holds.
abbrev signed_value : Bool → ℕ → ℤ
signed_value true n = neg (if ltb (suc long_max) n then suc long_max else n)
signed_value false n = pos (if ltb long_max n then long_max else n)

abbrev signed_limit : Bool → ℕ
signed_limit negative = if negative then suc long_max else long_max

abbrev to_signed : Bytes → Bool → Option (ℕ × Bytes) → Parsed ℤ
to_signed s negative none = record { value = pos 0; rest = s; errno = false }
to_signed s negative (some (n, rest)) = record {
  value = signed_value negative n;
  rest = rest;
  errno = ltb (signed_limit negative) n;
}

unfoldable pub strtol : Bytes → Parsed ℤ
strtol s =
    let (negative, digits) = scan_sign (skip_space s) in
    to_signed s negative (scan_magnitude digits)
