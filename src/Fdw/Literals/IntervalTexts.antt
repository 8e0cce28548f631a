-- ===== src/Fdw/Literals/IntervalTexts.antt =====
-- The text of an interval literal, and how it is read.
use oracle_fdw.Base.{
  on_some, ℕ, zero, suc, ◌+◌, ◌*◌, ◌^◌, ◌<◌, ◌≡◌, refl, Bool, true, false, [], ◌∷◌, ◌++◌, Option,
  none, some, Bytes, ◌==◌, if◌then◌else◌, arith,
}
use oracle_fdw.Base.Int.{ℤ, pos, neg, abs}
use oracle_fdw.Gis.Srid.Scan.{is_digit}
use oracle_fdw.Text.{codes, decimal, scan_digits-decimal, decimal-digit}
use oracle_fdw.Fdw.Literals.{Itm, print_interval}
use oracle_fdw.Fdw.Literals.Offsets.{
  is_digit-colon, is_digit-space, is_digit-point, is_digit-quote, read_field, read_field_lem,
}

abbrev strip : Bytes → Bytes → Option Bytes
strip [] s = some s
strip (p ∷ prefix) [] = none
strip (p ∷ prefix) (c ∷ s) = let rest = strip prefix s in if c == p then rest else none

-- A minus, if there is one.
abbrev read_minus : Bytes → Bool × Bytes
read_minus [] = (false, [])
read_minus (c ∷ s) = if c == b'-' then (true, s) else (false, c ∷ s)

abbrev pub signed : Bool → ℕ → ℤ
signed negative n = if negative then neg n else pos n

-- "D HH:MI:SS.FF'": days and microseconds, and what follows.
abbrev read_body : Bool × Bytes → Option (ℤ × ℤ × Bytes)
read_body (negative, s) =
    on_some
      (λ d.
        on_some
          (λ h.
            on_some
              (λ m.
                on_some
                  (λ x.
                    on_some
                      (λ f. some (
                        signed negative d.0,
                        signed negative (((h.0 * 60 + m.0) * 60 + x.0) * 1000000 + f.0),
                        f.1,
                      ))
                      (read_field b'\'' x.1))
                  (read_field b'.' m.1))
              (read_field b':' h.1))
          (read_field b':' d.1))
      (read_field b' ' s)

abbrev pub read_interval : Bytes → Option (ℤ × ℤ × Bytes)
read_interval s = on_some (λ r. read_body (read_minus r)) (strip (codes "INTERVAL '") s)

abbrev pub sign_text : Bool → Bytes
sign_text negative = if negative then b'-' ∷ [] else []

-- The fields of an interval, with one sign.
abbrev pub itm_of : Bool → ℕ → ℕ → ℕ → ℕ → ℕ → Itm
itm_of negative d h m x f = record {
  year = pos 0;
  mon = pos 0;
  mday = signed negative d;
  hour = signed negative h;
  min = signed negative m;
  sec = signed negative x;
  usec = signed negative f;
}

pub abs-signed : (negative : Bool) (n : ℕ) → abs (signed negative n) ≡ n
abs-signed true zero = refl
abs-signed true (suc n) = refl
abs-signed false n = refl

not_minus : (c : ℕ) → is_digit c ≡ true → (c == b'-') ≡ false
unfolding is_digit
not_minus c h = ground (arith, h)

read_minus-sign :
    (negative : Bool) (d : ℕ) (rest : Bytes)
    → read_minus (sign_text negative ++ (decimal d ++ rest)) ≡ (negative, decimal d ++ rest)
read_minus-sign true d rest = refl
read_minus-sign false d rest =
    let (c, cs, e, h) = decimal-digit d in
    let other : (c == b'-') ≡ false = not_minus c h in rw e (rw other refl)

read_days :
    (n : ℕ) (rest : Bytes)
    → n < 10 ^ 20
    → read_field b' ' (decimal n ++ (b' ' ∷ rest)) ≡ some (n, rest)
read_days n rest h = rw (scan_digits-decimal n b' ' rest h is_digit-space) refl

pub read_interval-print_interval :
    (negative : Bool) (d h m x f : ℕ)
    → d < 10 ^ 20
    → h < 10 ^ 20
    → m < 10 ^ 20
    → x < 10 ^ 20
    → f < 10 ^ 20
    → read_interval (print_interval (sign_text negative) (itm_of negative d h m x f))
      ≡ some (
        signed negative d,
        signed negative (((h * 60 + m) * 60 + x) * 1000000 + f),
        codes " DAY(9) TO SECOND(6)",
      )
unfolding print_interval
read_interval-print_interval negative d h m x f ld lh lm lx lf = rw (abs-signed negative d) (
    rw (abs-signed negative h) (
      rw (abs-signed negative m) (
        rw (abs-signed negative x) (
          rw (abs-signed negative f) (
            rw (read_minus-sign negative d _) (
              rw (read_days d _ ld) (
                rw (read_field_lem 2 h b':' _ lh is_digit-colon) (
                  rw (read_field_lem 2 m b':' _ lm is_digit-colon) (
                    rw (read_field_lem 2 x b'.' _ lx is_digit-point)
                      (rw (read_field_lem 6 f b'\'' _ lf is_digit-quote) refl))))))))))
