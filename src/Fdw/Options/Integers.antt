-- ===== src/Fdw/Options/Integers.antt =====
-- The numbers that the options take: what strtol and strtoul read from a number that is printed with
-- "%d", and the bounds of the validator.
use oracle_fdw.Base.{
  ℕ, zero, suc, ◌+◌, ◌-◌, ◌*◌, ◌/◌, ◌%◌, ◌^◌, ◌≤◌, ◌<◌, ◌≡◌, refl, ap, ◌∙◌, Bool, true, false, ◌&&◌,
  ◌||◌, not, [], ◌∷◌, ◌++◌, none, some, Bytes, leb, ltb, ◌==◌, if◌then◌else◌, arith, Bool-cases,
  inl, inr,
}
use oracle_fdw.Base.Int.{pos, neg}
use oracle_fdw.Gis.Srid.Scan.{is_digit, digits_value, IsDigits}
use oracle_fdw.Text.{
  codes, decimal_digits, decimal, decimal-digit, digits_value-decimal_digits,
  IsDigits-decimal_digits,
}
use oracle_fdw.Result.{Result, ok, err, invalid_value}
use oracle_fdw.Fdw.Options.Numbers.{
  is_space, skip_space, digit_value, scan_base, scan_magnitude, scan_sign, strtol, strtoul,
}
use oracle_fdw.Fdw.Options.Values.{
  reject_if, is_empty, check_max_long, check_prefetch, check_lob_prefetch,
}

digit_value-digit :
    (c : ℕ) → is_digit c ≡ true → (digit_value c ≡ c - b'0') × (ltb (digit_value c) 10 ≡ true)
unfolding is_digit
digit_value-digit c h = (ground (arith, h), ground (arith, h))

scan_base-digits :
    (acc : ℕ) (ds : Bytes) → IsDigits ds → scan_base 10 acc ds ≡ (digits_value acc ds, [])
scan_base-digits acc [] h = refl
scan_base-digits acc (c ∷ ds) (h, hs) =
    let (v, l) = digit_value-digit c h in
    rw l (rw v (scan_base-digits (acc * 10 + (c - b'0')) ds hs))

-- The first character is a digit above zero.
IsLead : Bytes → Type 0
IsLead [] = true ≡ false
IsLead (c ∷ cs) = (c == b'0') ≡ false

IsLead-append : (xs ys : Bytes) → IsLead xs → IsLead (xs ++ ys)
unfolding IsLead
IsLead-append [] ys h = absurd (cc h)
IsLead-append (x ∷ xs) ys h = h

IsLead-decimal_digits : (fuel n : ℕ) → 0 < n → n < 10 ^ fuel → IsLead (decimal_digits fuel n)
unfolding decimal_digits IsLead
IsLead-decimal_digits zero n p l = absurd (omega (arith, p, l))
IsLead-decimal_digits (suc fuel) n p l = elim (Bool-cases (ltb n 10)) [
  | inl e ↦ rw e (ground (arith, p))
  | inr e ↦ rw e (
      IsLead-append (decimal_digits fuel (n / 10)) _
        (IsLead-decimal_digits fuel (n / 10) (ground (arith, e)) (omega (arith, l))))
]

-- What a run of digits with such a first character is read as.
lead_lem :
    (ds : Bytes) (n : ℕ)
    → IsLead ds
    → IsDigits ds
    → digits_value 0 ds ≡ n
    → (skip_space ds ≡ ds) × (scan_sign ds ≡ (false, ds)) × (scan_magnitude ds ≡ some (n, []))
unfolding IsLead is_digit
lead_lem [] n h d v = absurd (cc h)
lead_lem (c ∷ ds) n h (d, dd) v =
    let (e, l) = digit_value-digit c d in
    let space : is_space c ≡ false = ground (arith, d) in
    let minus : (c == b'-') ≡ false = ground (arith, d) in
    let plus : (c == b'+') ≡ false = ground (arith, d) in
    let whole : scan_base 10 0 (c ∷ ds) ≡ (n, []) =
      scan_base-digits 0 (c ∷ ds) (d, dd) ∙ rw v refl in
    (
      rw space refl,
      rw minus (rw plus refl),
      rw h (ap (λ b. if b then some (scan_base 10 0 (c ∷ ds)) else none) l ∙ ap some whole),
    )

decimal_lem :
    (n : ℕ)
    → n < 2 ^ 64
    → (skip_space (decimal n) ≡ decimal n)
      × (scan_sign (decimal n) ≡ (false, decimal n))
      × (scan_magnitude (decimal n) ≡ some (n, []))
unfolding decimal decimal_digits
decimal_lem zero h = (refl, refl, refl)
decimal_lem (suc n) h =
    lead_lem (decimal_digits 20 (suc n)) (suc n)
      (IsLead-decimal_digits 20 (suc n) (omega arith) (omega (arith, h)))
      (IsDigits-decimal_digits 20 (suc n))
      (digits_value-decimal_digits 20 (suc n) (omega (arith, h)))

strtol-decimal :
    (n : ℕ) → n < 2 ^ 63 → strtol (decimal n) ≡ record { value = pos n; rest = []; errno = false }
unfolding strtol
strtol-decimal n h =
    let (a, b, c) = decimal_lem n (omega (arith, h)) in
    let small : ltb 9223372036854775807 n ≡ false = ground (arith, h) in
    rw a (rw b (rw c (rw small refl)))

strtoul-decimal :
    (n : ℕ) → n < 2 ^ 64 → strtoul (decimal n) ≡ record { value = n; rest = []; errno = false }
unfolding strtoul
strtoul-decimal n h =
    let (a, b, c) = decimal_lem n h in
    let small : ltb 18446744073709551615 n ≡ false = ground (arith, h) in
    rw a (rw b (rw c (rw small refl)))

is_empty-decimal : (n : ℕ) → is_empty (decimal n) ≡ false
is_empty-decimal n = let (c, cs, e, d) = decimal-digit n in rw e refl

-- Whether a number lies within bounds.
abbrev pub accepted : ℕ → ℕ → ℕ → Bytes → Result (Unit {0})
accepted low high n name = if leb low n && leb n high then ok tt else err (invalid_value name)

reject_if-not :
    (b : Bool) (name : Bytes)
    → reject_if (not b) name ≡ (if b then ok tt else err (invalid_value name))
reject_if-not true name = refl
reject_if-not false name = refl

check_prefetch-decimal :
    (n : ℕ) → n < 2 ^ 63 → check_prefetch (decimal n) ≡ accepted 1 10240 n (codes "prefetch")
unfolding check_prefetch
check_prefetch-decimal n h =
    rw (strtol-decimal n h)
      (rw (is_empty-decimal n) (reject_if-not (leb 1 n && leb n 10240) (codes "prefetch")))

check_lob_prefetch-decimal :
    (n : ℕ)
    → n < 2 ^ 63
    → check_lob_prefetch (decimal n) ≡ accepted 0 536870912 n (codes "lob_prefetch")
unfolding check_lob_prefetch
check_lob_prefetch-decimal n h =
    rw (strtol-decimal n h)
      (rw (is_empty-decimal n) (reject_if-not (leb 0 n && leb n 536870912) (codes "lob_prefetch")))

check_max_long-decimal :
    (n : ℕ) → n < 2 ^ 63 → check_max_long (decimal n) ≡ accepted 1 1073741823 n (codes "max_long")
unfolding check_max_long
check_max_long-decimal n h =
    let both : (ltb n 1 || ltb 1073741823 n) ≡ not (leb 1 n && leb n 1073741823) = ground arith in
    rw (strtoul-decimal n (omega (arith, h))) (
      rw (is_empty-decimal n) (
        ap (λ b. reject_if b (codes "max_long")) both
        ∙ reject_if-not (leb 1 n && leb n 1073741823) (codes "max_long")))

-- A number below 2 ^ 63, printed in decimal, is accepted for prefetch from 1 to 10240, for
-- lob_prefetch from 0 to 536870912 and for max_long from 1 to 1073741823, and no other.
pub check_limits :
    (n : ℕ)
    → n < 2 ^ 63
    → (check_prefetch (decimal n) ≡ accepted 1 10240 n (codes "prefetch"))
      × (check_lob_prefetch (decimal n) ≡ accepted 0 536870912 n (codes "lob_prefetch"))
      × (check_max_long (decimal n) ≡ accepted 1 1073741823 n (codes "max_long"))
check_limits n h =
    (check_prefetch-decimal n h, check_lob_prefetch-decimal n h, check_max_long-decimal n h)

-- A minus before a number from 2 ^ 64 - 1073741823 to 2 ^ 64 - 1: max_long is accepted, since strtoul
-- negates the number, but strtol, with which getFdwState reads the same text, finds it out of range.
pub check_max_long-negative :
    (m : ℕ)
    → 1 ≤ m
    → m ≤ 1073741823
    → (check_max_long (b'-' ∷ decimal (2 ^ 64 - m)) ≡ ok tt)
      × (strtol (b'-' ∷ decimal (2 ^ 64 - m))
          ≡ record { value = neg (2 ^ 63); rest = []; errno = true })
unfolding check_max_long strtoul strtol
check_max_long-negative m low high =
    let n = 2 ^ 64 - m in
    let (a, b, c) = decimal_lem n (omega (arith, low, high)) in
    let fits : ltb 18446744073709551615 n ≡ false = ground (arith, low, high) in
    let wraps : (2 ^ 64 - n) % 2 ^ 64 ≡ m = omega (arith, low, high) in
    let above : ltb 9223372036854775808 n ≡ true = ground (arith, low, high) in
    let bounds : (ltb m 1 || ltb 1073741823 m) ≡ false = ground (arith, low, high) in
    (
      rw c (rw fits (rw wraps (ap (λ b. reject_if b (codes "max_long")) bounds))),
      rw c (rw above refl),
    )
