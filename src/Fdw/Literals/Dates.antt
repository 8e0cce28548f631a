-- ===== src/Fdw/Literals/Dates.antt =====
-- Date and timestamp literals are read back as the fields that they were made from.
use oracle_fdw.Base.{
  on_some, ℕ, zero, suc, ◌+◌, ◌-◌, ◌^◌, ◌<◌, ◌≡◌, refl, ap, false, [], ◌∷◌, ◌++◌, Option, none,
  some, Bytes, ◌==◌, if◌then◌else◌, arith,
}
use oracle_fdw.Base.Int.{ℤ, pos, negsuc, neg, abs}
use oracle_fdw.Result.{ok}
use oracle_fdw.Gis.Srid.Scan.{is_digit}
use oracle_fdw.Text.{codes}
use oracle_fdw.Fdw.Literals.{
  Tm, shown_year, era, print_date, print_time, deparse_date, deparse_timestamp,
}
use oracle_fdw.Fdw.Literals.Offsets.{
  is_digit-colon, is_digit-space, is_digit-point, read_field, read_field_lem, read_offset,
  read_offset-print_offset, print_offset-near, print_offset-sign, IsExpressible, east,
}

-- The era is the last word: AD or BC.
abbrev pub read_era : ℕ → Bytes → Option ℤ
read_era year [] = none
read_era year (c ∷ rest) =
    if c == b'A' then some (pos year) else if c == b'B' then some (neg (year - 1)) else none

-- "YYYY-MM-DD ": year, month, day, and what follows.
abbrev pub read_day : Bytes → Option (ℕ × ℕ × ℕ × Bytes)
read_day s =
    on_some
      (λ y.
        on_some (λ m. on_some (λ d. some (y.0, m.0, d.0, d.1)) (read_field b' ' m.1))
          (read_field b'-' y.1))
      (read_field b'-' s)

-- "HH24:MI:SS.", the fraction up to `c`, and what follows.
abbrev pub read_clock : ℕ → Bytes → Option (ℕ × ℕ × ℕ × ℕ × Bytes)
read_clock c s =
    on_some
      (λ h.
        on_some
          (λ m.
            on_some (λ x. on_some (λ f. some (h.0, m.0, x.0, f.0, f.1)) (read_field c x.1))
              (read_field b'.' m.1))
          (read_field b':' h.1))
      (read_field b':' s)

pub record IsInRange (tm : Tm) : Type 0 where
  pub year_lt : abs tm.year < 2 ^ 31
  pub mon_lt : tm.mon < 2 ^ 31
  pub mday_lt : tm.mday < 2 ^ 31
  pub hour_lt : tm.hour < 2 ^ 31
  pub min_lt : tm.min < 2 ^ 31
  pub sec_lt : tm.sec < 2 ^ 31
  pub fsec_lt : tm.fsec < 2 ^ 31

is_digit-dash : is_digit b'-' ≡ false
unfolding is_digit
is_digit-dash = refl

shown_year-lt : (year : ℤ) → abs year < 2 ^ 31 → shown_year year < 10 ^ 20
unfolding shown_year
shown_year-lt year h = ground (arith, h)

read_day-print_date :
    (tm : Tm) (rest : Bytes)
    → IsInRange tm
    → read_day (print_date tm (b' ' ∷ rest)) ≡ some (shown_year tm.year, tm.mon, tm.mday, rest)
unfolding print_date
read_day-print_date tm rest r =
    rw
      (read_field_lem 4 (shown_year tm.year) b'-' _ (shown_year-lt tm.year r.year_lt) is_digit-dash)
      (rw (read_field_lem 2 tm.mon b'-' _ (omega (arith, r.mon_lt)) is_digit-dash)
        (rw (read_field_lem 2 tm.mday b' ' rest (omega (arith, r.mday_lt)) is_digit-space) refl))

read_era-era : (year : ℤ) → read_era (shown_year year) (era year) ≡ some year
unfolding shown_year era
read_era-era (pos zero) = refl
read_era-era (pos (suc n)) = let nonzero : (suc n == 0) ≡ false = ground arith in rw nonzero refl
read_era-era (negsuc n) =
    let back : suc n + 1 - 1 ≡ suc n = omega arith in ap (λ k. some (neg k)) back

-- deparseDate of a finite date succeeds, and its text has the year, with the era, the month and the day
-- of that date, and midnight.
pub read_day-deparse_date :
    (tm : Tm)
    → IsInRange tm
    → (s : Bytes) × (year : ℕ) × (word : Bytes) × (deparse_date (some tm) ≡ ok s)
      × (read_day s ≡ some (year, tm.mon, tm.mday, codes "00:00:00 " ++ word))
      × (read_era year word ≡ some tm.year)
unfolding deparse_date
read_day-deparse_date tm r = (
  _,
  shown_year tm.year,
  era tm.year,
  refl,
  read_day-print_date tm (codes "00:00:00 " ++ era tm.year) r,
  read_era-era tm.year,
)

read_clock-print_time :
    (tm : Tm) (c : ℕ) (rest : Bytes)
    → IsInRange tm
    → is_digit c ≡ false
    → (clock : Bytes) × (print_time tm (c ∷ rest) ≡ b' ' ∷ clock)
      × (read_clock c clock ≡ some (tm.hour, tm.min, tm.sec, tm.fsec, rest))
unfolding print_time
read_clock-print_time tm c rest r d = (
  _,
  refl,
  rw (read_field_lem 2 tm.hour b':' _ (omega (arith, r.hour_lt)) is_digit-colon) (
      rw (read_field_lem 2 tm.min b':' _ (omega (arith, r.min_lt)) is_digit-colon) (
        rw (read_field_lem 2 tm.sec b'.' _ (omega (arith, r.sec_lt)) is_digit-point)
          (rw (read_field_lem 6 tm.fsec c rest (omega (arith, r.fsec_lt)) d) refl))),
)

-- deparseTimestamp without a time zone: the text has the date, the time with the microseconds, and the era.
pub read_day-deparse_timestamp :
    (tm : Tm)
    → IsInRange tm
    → (s : Bytes) × (year : ℕ) × (clock : Bytes) × (word : Bytes) × (deparse_timestamp
          (some tm)
          none
        ≡ ok s)
      × (read_day s ≡ some (year, tm.mon, tm.mday, clock))
      × (read_clock b' ' clock ≡ some (tm.hour, tm.min, tm.sec, tm.fsec, word))
      × (read_era year word ≡ some tm.year)
unfolding deparse_timestamp
read_day-deparse_timestamp tm r =
    let (clock, e, c) = read_clock-print_time tm b' ' (era tm.year) r is_digit-space in
    (
      _,
      shown_year tm.year,
      clock,
      era tm.year,
      refl,
      rw e (read_day-print_date tm clock r),
      c,
      read_era-era tm.year,
    )

-- With a time zone: the text has the date, the time, the offset and the era, if the
-- offset is one of whole minutes and not less than an hour west of UTC.
pub read_offset-deparse_timestamp :
    (tm : Tm) (tzoffset : ℤ)
    → IsInRange tm
    → IsExpressible tzoffset
    → (s : Bytes) × (year : ℕ) × (clock : Bytes) × (sign : ℕ) × (offset : Bytes) × (word : Bytes)
      × (deparse_timestamp (some tm) (some tzoffset) ≡ ok s)
      × (read_day s ≡ some (year, tm.mon, tm.mday, clock))
      × (read_clock sign clock ≡ some (tm.hour, tm.min, tm.sec, tm.fsec, offset))
      × (read_offset (sign ∷ offset) ≡ some (east tzoffset, word))
      × (read_era year word ≡ some tm.year)
unfolding deparse_timestamp
read_offset-deparse_timestamp tm tzoffset r x =
    let word = era tm.year in
    let (sign, offset, e, d) = print_offset-sign tzoffset (b' ' ∷ word) in
    let (clock, f, c) = read_clock-print_time tm sign offset r d in
    (
      print_date tm (b' ' ∷ clock),
      shown_year tm.year,
      clock,
      sign,
      offset,
      word,
      rw e (rw f refl),
      read_day-print_date tm clock r,
      c,
      rw e at (read_offset-print_offset tzoffset word x),
      read_era-era tm.year,
    )

-- A timestamp whose offset is less than an hour west of UTC has the same text as the one whose
-- offset is as far east: Oracle reads another point in time.
pub deparse_timestamp-near :
    (tm : Tm) (n : ℕ)
    → n < 3600
    → deparse_timestamp (some tm) (some (pos n)) ≡ deparse_timestamp (some tm) (some (neg n))
unfolding deparse_timestamp
deparse_timestamp-near tm n h =
    ap (λ o. ok (print_date tm (print_time tm o))) (print_offset-near n (b' ' ∷ era tm.year) h)
