-- ===== src/Text.antt =====
-- Texts as the C code builds them with appendStringInfo: "%s" and "%d" with their widths. A text is the
-- list of its bytes.
use Prim.Native.Char.{code}
use Prim.Native.String.{String}
use oracle_fdw.Base.{
  ℕ, zero, suc, ◌+◌, ◌-◌, ◌*◌, ◌/◌, ◌%◌, ◌^◌, ◌<◌, ◌≡◌, refl, ◌∙◌, true, false, [], ◌∷◌, ◌++◌,
  Bytes, length, ltb, if◌then◌else◌, arith, Bool-cases, inl, inr,
}
use oracle_fdw.Gis.Srid.Scan.{is_digit, scan_digits, digits_value, IsDigits, scan_digits-append}

-- The bytes of a literal.
abbrev pub codes : String → Bytes
codes String.[] = []
codes (String.◌∷◌ c s) = code c ∷ codes s

abbrev pub digit : ℕ → ℕ
digit d = b'0' + d

-- The digits of a number, for at most `fuel` of them.
unfoldable pub decimal_digits : ℕ → ℕ → Bytes
decimal_digits zero n = []
decimal_digits (suc fuel) n =
    let higher = decimal_digits fuel (n / 10) in
    if ltb n 10 then digit n ∷ [] else higher ++ (digit (n % 10) ∷ [])

-- "%d" of a number below 10 ^ 20, which 64 bits do not reach.
unfoldable pub decimal : ℕ → Bytes
decimal n = decimal_digits 20 n

unfoldable pub zeros : ℕ → Bytes
zeros zero = []
zeros (suc n) = b'0' ∷ zeros n

-- "%0<width>d"
unfoldable pub decimal_padded : ℕ → ℕ → Bytes
decimal_padded width n = let s = decimal n in zeros (width - length s) ++ s

digits_value-snoc :
    (acc : ℕ) (ds : Bytes) (c : ℕ)
    → digits_value acc (ds ++ (c ∷ [])) ≡ digits_value acc ds * 10 + (c - b'0')
digits_value-snoc acc [] c = refl
digits_value-snoc acc (d ∷ ds) c = digits_value-snoc (acc * 10 + (d - b'0')) ds c

pub digits_value-decimal_digits :
    (fuel n : ℕ) → n < 10 ^ fuel → digits_value 0 (decimal_digits fuel n) ≡ n
unfolding decimal_digits
digits_value-decimal_digits zero n h = omega (arith, h)
digits_value-decimal_digits (suc fuel) n h = elim (Bool-cases (ltb n 10)) [
  | inl e ↦ rw e (omega arith)
  | inr e ↦ rw e (
      digits_value-snoc 0 (decimal_digits fuel (n / 10)) (digit (n % 10))
      ∙ rw (digits_value-decimal_digits fuel (n / 10) (omega (arith, h))) (omega arith))
]

IsDigits-append : (xs ys : Bytes) → IsDigits xs → IsDigits ys → IsDigits (xs ++ ys)
IsDigits-append [] ys h k = k
IsDigits-append (x ∷ xs) ys h k = (h.0, IsDigits-append xs ys h.1 k)

is_digit-digit : (d : ℕ) → d < 10 → is_digit (digit d) ≡ true
unfolding is_digit
is_digit-digit d h = ground (arith, h)

pub IsDigits-decimal_digits : (fuel n : ℕ) → IsDigits (decimal_digits fuel n)
unfolding decimal_digits
IsDigits-decimal_digits zero n = tt
IsDigits-decimal_digits (suc fuel) n = elim (Bool-cases (ltb n 10)) [
  | inl e ↦ rw e (is_digit-digit n (ground (arith, e)), tt)
  | inr e ↦ rw e (
      IsDigits-append (decimal_digits fuel (n / 10)) (digit (n % 10) ∷ [])
        (IsDigits-decimal_digits fuel (n / 10)) (is_digit-digit (n % 10) (omega arith), tt))
]

IsDigits-zeros : (n : ℕ) → IsDigits (zeros n)
unfolding zeros is_digit
IsDigits-zeros zero = tt
IsDigits-zeros (suc n) = (refl, IsDigits-zeros n)

digits_value-zeros : (n : ℕ) (ds : Bytes) → digits_value 0 (zeros n ++ ds) ≡ digits_value 0 ds
unfolding zeros
digits_value-zeros zero ds = refl
digits_value-zeros (suc n) ds = digits_value-zeros n ds

-- A number that is printed and followed by something else than a digit is read back.
pub scan_digits-decimal_padded :
    (width n c : ℕ) (rest : Bytes)
    → n < 10 ^ 20
    → is_digit c ≡ false
    → scan_digits 0 (decimal_padded width n ++ (c ∷ rest)) ≡ (n, c ∷ rest)
unfolding decimal_padded decimal
scan_digits-decimal_padded width n c rest h s =
    let ds = decimal_digits 20 n in
    let pad = zeros (width - length ds) in
    scan_digits-append 0 (pad ++ ds) (c ∷ rest)
      (IsDigits-append pad ds (IsDigits-zeros (width - length ds)) (IsDigits-decimal_digits 20 n)) s
    ∙ rw (digits_value-zeros (width - length ds) ds) (rw (digits_value-decimal_digits 20 n h) refl)

pub scan_digits-decimal :
    (n c : ℕ) (rest : Bytes)
    → n < 10 ^ 20
    → is_digit c ≡ false
    → scan_digits 0 (decimal n ++ (c ∷ rest)) ≡ (n, c ∷ rest)
unfolding decimal
scan_digits-decimal n c rest h s =
    scan_digits-append 0 (decimal_digits 20 n) (c ∷ rest) (IsDigits-decimal_digits 20 n) s
    ∙ rw (digits_value-decimal_digits 20 n h) refl

append-cons : (xs : Bytes) (y : ℕ) → (c : ℕ) × (cs : Bytes) × (xs ++ (y ∷ []) ≡ c ∷ cs)
append-cons [] y = (y, [], refl)
append-cons (x ∷ xs) y = (x, xs ++ (y ∷ []), refl)

head_of : (ds : Bytes) (c : ℕ) (cs : Bytes) → ds ≡ c ∷ cs → IsDigits ds → is_digit c ≡ true
head_of [] c cs e h = absurd (cc e)
head_of (d ∷ ds) c cs e h = ground (arith, e, h.0)

decimal_digits-cons : (fuel n : ℕ) → (c : ℕ) × (cs : Bytes) × (decimal_digits (suc fuel) n ≡ c ∷ cs)
unfolding decimal_digits
decimal_digits-cons fuel n = elim (Bool-cases (ltb n 10)) [
  | inl e ↦ rw e (digit n, [], refl)
  | inr e ↦ rw e (append-cons (decimal_digits fuel (n / 10)) (digit (n % 10)))
]

-- A printed number begins with a digit.
pub decimal-digit : (n : ℕ) → (c : ℕ) × (cs : Bytes) × (decimal n ≡ c ∷ cs) × (is_digit c ≡ true)
unfolding decimal
decimal-digit n =
    let (c, cs, e) = decimal_digits-cons 19 n in
    (c, cs, e, head_of (decimal_digits 20 n) c cs e (IsDigits-decimal_digits 20 n))
