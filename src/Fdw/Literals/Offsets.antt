-- ===== src/Fdw/Literals/Offsets.antt =====
-- Reading the fields of a date literal, and the offset of a time zone.
use oracle_fdw.Base.{
  on_some, ℕ, zero, suc, ◌+◌, ◌*◌, ◌/◌, ◌%◌, ◌^◌, ◌≤◌, ◌<◌, ◌≡◌, refl, ap, ◌∙◌, Bool, true, false,
  ◌&&◌, not, [], ◌∷◌, ◌++◌, Option, none, some, Bytes, ◌==◌, ==_self, if◌then◌else◌, arith,
}
use oracle_fdw.Base.Int.{ℤ, pos, negsuc, neg, abs, is_pos}
use oracle_fdw.Gis.Srid.Scan.{is_digit, scan_digits}
use oracle_fdw.Text.{decimal_padded, scan_digits-decimal_padded}
use oracle_fdw.Fdw.Literals.{print_offset}

-- A number that is followed by `c`.
abbrev pub expect : ℕ → ℕ × Bytes → Option (ℕ × Bytes)
expect c (n, []) = none
expect c (n, b ∷ rest) = if b == c then some (n, rest) else none

abbrev pub read_field : ℕ → Bytes → Option (ℕ × Bytes)
read_field c s = expect c (scan_digits 0 s)

pub read_field_lem :
    (width n c : ℕ) (rest : Bytes)
    → n < 10 ^ 20
    → is_digit c ≡ false
    → read_field c (decimal_padded width n ++ (c ∷ rest)) ≡ some (n, rest)
read_field_lem width n c rest h s =
    rw (scan_digits-decimal_padded width n c rest h s) (rw (==_self c) refl)

-- A sign.
abbrev pub read_sign : Bytes → Option (Bool × Bytes)
read_sign [] = none
read_sign (c ∷ rest) =
    if c == b'-' then some (true, rest) else if c == b'+' then some (false, rest) else none

-- The offset in seconds east of UTC: hours, minutes, and a space.
abbrev pub read_offset : Bytes → Option (ℤ × Bytes)
read_offset s =
    on_some
      (λ r.
        on_some
          (λ h.
            on_some
              (λ m.
                some
                  ((if r.0 then neg (h.0 * 3600 + m.0 * 60) else pos (h.0 * 3600 + m.0 * 60)), m.1))
              (read_field b' ' h.1))
          (read_field b':' r.1))
      (read_sign s)

-- The offsets that the text can express: whole minutes, and not less than an hour west of UTC.
pub record IsExpressible (tzoffset : ℤ) : Type 0 where
  pub minutes : abs tzoffset % 60 ≡ 0
  pub not_near : is_pos tzoffset ≡ true → 3600 ≤ abs tzoffset
  pub small : abs tzoffset < 2 ^ 31

-- Seconds east of UTC.
abbrev pub east : ℤ → ℤ
east (pos n) = neg n
east (negsuc n) = pos (suc n)

pub is_digit-colon : is_digit b':' ≡ false
unfolding is_digit
is_digit-colon = refl

pub is_digit-space : is_digit b' ' ≡ false
unfolding is_digit
is_digit-space = refl

read_offset-text :
    (west : Bool) (hours minutes : ℕ) (rest : Bytes)
    → hours < 10 ^ 20
    → minutes < 10 ^ 20
    → read_offset (
        (if west then b'-' else b'+')
        ∷ (decimal_padded 2 hours ++ (b':' ∷ (decimal_padded 2 minutes ++ (b' ' ∷ rest)))))
      ≡ some (
        (if west then neg (hours * 3600 + minutes * 60) else pos (hours * 3600 + minutes * 60)),
        rest,
      )
read_offset-text true hours minutes rest h m =
    rw (read_field_lem 2 hours b':' (decimal_padded 2 minutes ++ (b' ' ∷ rest)) h is_digit-colon)
      (rw (read_field_lem 2 minutes b' ' rest m is_digit-space) refl)
read_offset-text false hours minutes rest h m =
    rw (read_field_lem 2 hours b':' (decimal_padded 2 minutes ++ (b' ' ∷ rest)) h is_digit-colon)
      (rw (read_field_lem 2 minutes b' ' rest m is_digit-space) refl)

-- Whether the code prints a minus.
abbrev west : ℤ → Bool
west tzoffset = is_pos tzoffset && not (abs tzoffset / 3600 == 0)

signed_east :
    (tzoffset : ℤ)
    → IsExpressible tzoffset
    → (if west tzoffset then neg (abs tzoffset) else pos (abs tzoffset)) ≡ east tzoffset
signed_east (pos zero) h = refl
signed_east (pos (suc n)) h =
    let nonzero : (suc n == 0) ≡ false = ground arith in
    let far : 3600 ≤ suc n = h.not_near (rw nonzero refl) in
    let hours : (suc n / 3600 == 0) ≡ false = ground (arith, far) in rw nonzero (rw hours refl)
signed_east (negsuc n) h = refl

pub is_digit-point : is_digit b'.' ≡ false
unfolding is_digit
is_digit-point = refl

pub is_digit-quote : is_digit b'\'' ≡ false
unfolding is_digit
is_digit-quote = refl

-- An offset that the text can express is read back.
pub read_offset-print_offset :
    (tzoffset : ℤ) (rest : Bytes)
    → IsExpressible tzoffset
    → read_offset (print_offset tzoffset (b' ' ∷ rest)) ≡ some (east tzoffset, rest)
unfolding print_offset
read_offset-print_offset tzoffset rest h =
    let hours = abs tzoffset / 3600 in
    let minutes = abs tzoffset % 3600 / 60 in
    let all : hours * 3600 + minutes * 60 ≡ abs tzoffset = omega (arith, h.minutes) in
    read_offset-text (west tzoffset) hours minutes rest (omega (arith, h.small))
      (omega (arith, h.small))
    ∙ rw all (ap (λ o. some (o, rest)) (signed_east tzoffset h))

-- Seconds west of UTC up to an hour are shown as seconds east: the sign is lost, since it is taken
-- from the number of hours, which is zero.
pub print_offset-near :
    (n : ℕ) (rest : Bytes) → n < 3600 → print_offset (pos n) rest ≡ print_offset (neg n) rest
unfolding print_offset
print_offset-near zero rest h = refl
print_offset-near (suc n) rest h =
    let nonzero : (suc n == 0) ≡ false = ground arith in
    let none : suc n / 3600 ≡ 0 = omega (arith, h) in rw nonzero (rw none refl)

is_digit-sign : (b : Bool) → is_digit (if b then b'-' else b'+') ≡ false
unfolding is_digit
is_digit-sign true = refl
is_digit-sign false = refl

-- The offset begins with a character that is no digit.
pub print_offset-sign :
    (tzoffset : ℤ) (rest : Bytes)
    → (c : ℕ) × (more : Bytes) × (print_offset tzoffset rest ≡ c ∷ more) × (is_digit c ≡ false)
unfolding print_offset
print_offset-sign tzoffset rest = (_, _, refl, is_digit-sign (west tzoffset))
