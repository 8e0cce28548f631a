-- ===== src/Gis/Srid/Scan.antt =====
-- What sscanf does for one %lu: leading space, a sign, decimal digits, converted as strtoul does.
-- An unsigned long has 64 bits.
use oracle_fdw.Base.{
  ℕ, ◌+◌, ◌-◌, ◌*◌, ◌%◌, ◌^◌, ◌≡◌, ◌≢◌, ◌<◌, refl, Bool, true, false, ◌&&◌, ◌||◌, [], ◌∷◌, ◌++◌,
  Bytes, All, arith, ltb, leb, ◌==◌, if◌then◌else◌,
}

pub data Scanned : Type 0 where
  -- the input ends before a number begins; the input is no number; the number, and what follows it
  eof mismatch : Scanned
  number : ℕ → Bytes → Scanned

unfoldable pub is_space : ℕ → Bool
is_space c = c == b' ' || (leb 9 c && leb c 13)

unfoldable pub is_digit : ℕ → Bool
is_digit c = leb b'0' c && leb c b'9'

pub skip_space : Bytes → Bytes
skip_space [] = []
skip_space (c ∷ cs) = let rest = skip_space cs in if is_space c then rest else c ∷ cs

-- The digits that follow: the value with them appended to `acc`, and the rest of the input.
pub scan_digits : ℕ → Bytes → ℕ × Bytes
scan_digits acc [] = (acc, [])
scan_digits acc (c ∷ cs) =
    let rest = scan_digits (acc * 10 + (c - b'0')) cs in if is_digit c then rest else (acc, c ∷ cs)

-- strtoul: out of range is ULONG_MAX, and a minus sign negates in the unsigned type.
pub to_unsigned_long : Bool → ℕ → ℕ
to_unsigned_long negative n =
    if ltb (2 ^ 64 - 1) n then 2 ^ 64 - 1 else if negative then (2 ^ 64 - n) % 2 ^ 64 else n

scan_unsigned : Bool → Bytes → Scanned
unfolding is_digit scan_digits to_unsigned_long
scan_unsigned negative [] = Scanned.mismatch
scan_unsigned negative (c ∷ cs) =
    if is_digit c
    then (let r = scan_digits 0 (c ∷ cs) in Scanned.number (to_unsigned_long negative r.0) r.1)
    else Scanned.mismatch

scan_sign : Bytes → Scanned
unfolding scan_unsigned
scan_sign [] = Scanned.eof
scan_sign (c ∷ cs) =
    if c == b'-'
    then scan_unsigned true cs
    else if c == b'+'
    then scan_unsigned false cs
    else scan_unsigned false (c ∷ cs)

unfoldable pub scan_number : Bytes → Scanned
unfolding scan_sign skip_space is_space
scan_number s = scan_sign (skip_space s)

-- The value of decimal digits, the first one the highest.
abbrev pub digits_value : ℕ → Bytes → ℕ
digits_value acc [] = acc
digits_value acc (c ∷ cs) = digits_value (acc * 10 + (c - b'0')) cs

-- A digit does not follow.
abbrev pub StopsDigits : Bytes → Type 0
StopsDigits [] = Unit
StopsDigits (c ∷ cs) = is_digit c ≡ false

abbrev pub IsDigits : Bytes → Type 0
IsDigits ds = All (λ c. is_digit c ≡ true) ds

pub scan_digits-append :
    (acc : ℕ) (ds rest : Bytes)
    → IsDigits ds
    → StopsDigits rest
    → scan_digits acc (ds ++ rest) ≡ (digits_value acc ds, rest)
unfolding scan_digits
scan_digits-append acc [] [] h s = refl
scan_digits-append acc [] (c ∷ cs) h s = ground arith
scan_digits-append acc (c ∷ ds) rest h s =
    ground (arith, scan_digits-append (acc * 10 + (c - b'0')) ds rest h.1 s)

pub skip_space-append :
    (sp rest : Bytes) → All (λ c. is_space c ≡ true) sp → skip_space (sp ++ rest) ≡ skip_space rest
unfolding skip_space
skip_space-append [] rest h = refl
skip_space-append (c ∷ sp) rest h = rw h.0 (skip_space-append sp rest h.1)

-- Decimal digits that fit into 64 bits are read as their value.
pub scan_number-digits :
    (ds rest : Bytes)
    → ds ≢ []
    → IsDigits ds
    → StopsDigits rest
    → digits_value 0 ds < 2 ^ 64
    → scan_number (ds ++ rest) ≡ Scanned.number (digits_value 0 ds) rest
unfolding scan_number to_unsigned_long
scan_number-digits [] rest ne h s lt = absurd (ne refl)
scan_number-digits (c ∷ ds) rest ne h s lt = ground (arith, scan_digits-append 0 (c ∷ ds) rest h s)

pub scan_number-space : (s : Bytes) → scan_number (b' ' ∷ s) ≡ scan_number s
unfolding scan_number
scan_number-space s = refl
