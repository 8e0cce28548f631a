-- ===== src/Tests/Literals.antt =====
-- Dates, timestamps, intervals and uuids at concrete values.
use oracle_fdw.Base.{false, ℕ, ◌≡◌, refl, true, [], ◌∷◌, some, Bytes, arith}
use oracle_fdw.Base.Int.{pos, negsuc, neg}
use oracle_fdw.Result.{ok, fault, out_of_bounds}
use oracle_fdw.Text.{codes, decimal, decimal_padded, decimal_digits, zeros}
use oracle_fdw.Fdw.Literals.{
  Tm, deparse_date, deparse_timestamp, print_date, print_time, print_offset, shown_year, era,
  deparse_interval, deparse_itm, interval2itm, limited, print_interval, convert_uuid, uuid_loop,
  uuid_char,
}
use oracle_fdw.Fdw.Literals.Offsets.{IsExpressible, read_offset}
use oracle_fdw.Fdw.Literals.Dates.{
  IsInRange, read_day, read_clock, read_era, read_offset-deparse_timestamp, deparse_timestamp-near,
}
use oracle_fdw.Fdw.Literals.IntervalTexts.{read_interval}
use oracle_fdw.Fdw.Literals.Intervals.{span_of, read_interval-deparse_interval}
use oracle_fdw.Fdw.Literals.Uuid.{convert_uuid_lem}

-- 44 BC, March 15, 12:34:56.5
abbrev ides : Tm
ides = record { year = negsuc 42; mon = 3; mday = 15; hour = 12; min = 34; sec = 56; fsec = 500000 }

ides-IsInRange : IsInRange ides
ides-IsInRange = record {
  year_lt = omega arith;
  mon_lt = omega arith;
  mday_lt = omega arith;
  hour_lt = omega arith;
  min_lt = omega arith;
  sec_lt = omega arith;
  fsec_lt = omega arith;
}

deparse_date-ides : deparse_date (some ides) ≡ ok (codes "0044-03-15 00:00:00 BC")
unfolding deparse_date print_date shown_year era decimal_padded decimal decimal_digits zeros
deparse_date-ides = refl

-- India, 5:30 east of UTC
deparse_timestamp-ides :
    deparse_timestamp (some ides) (some (neg 19800))
    ≡ ok (codes "0044-03-15 12:34:56.500000+05:30 BC")
unfolding deparse_timestamp print_date print_time print_offset shown_year era decimal_padded decimal
    decimal_digits zeros
deparse_timestamp-ides = refl

-- Newfoundland, 3:30 west of UTC
west-IsExpressible : IsExpressible (pos 12600)
west-IsExpressible = record { minutes = refl; not_near = λ h. omega arith; small = omega arith }

read_offset-deparse_timestamp_example :
    (s : Bytes) × (year : ℕ) × (clock : Bytes) × (sign : ℕ) × (offset : Bytes) × (word : Bytes)
    × (deparse_timestamp (some ides) (some (pos 12600)) ≡ ok s)
    × (read_day s ≡ some (year, 3, 15, clock))
    × (read_clock sign clock ≡ some (12, 34, 56, 500000, offset))
    × (read_offset (sign ∷ offset) ≡ some (neg 12600, word))
    × (read_era year word ≡ some (negsuc 42))
read_offset-deparse_timestamp_example =
    read_offset-deparse_timestamp ides (pos 12600) ides-IsInRange west-IsExpressible

-- Monrovia before 1972, 44 minutes west of UTC
deparse_timestamp-near_example :
    deparse_timestamp (some ides) (some (pos 2640))
    ≡ deparse_timestamp (some ides) (some (neg 2640))
deparse_timestamp-near_example = deparse_timestamp-near ides 2640 (omega arith)

deparse_interval-negative :
    deparse_interval (span_of true 1 3723000004)
    ≡ ok (some (codes "INTERVAL '-1 01:02:03.000004' DAY(9) TO SECOND(6)"))
unfolding deparse_interval deparse_itm interval2itm limited print_interval decimal_padded decimal
    decimal_digits zeros
deparse_interval-negative = refl

read_interval-deparse_interval_example :
    (s : Bytes) × (deparse_interval (span_of true 1 3723000004) ≡ ok (some s))
    × (read_interval s ≡ some (negsuc 0, negsuc 3723000003, codes " DAY(9) TO SECOND(6)"))
read_interval-deparse_interval_example =
    read_interval-deparse_interval true 1 3723000004 (omega arith) (omega arith)

convert_uuid_lem_example : convert_uuid (codes "1a-b2-Ff") ≡ ok (codes "1AB2FF")
convert_uuid_lem_example =
    convert_uuid_lem (true, 1) ((true, 10) ∷ [])
      (((true, 11), (true, 2) ∷ []) ∷ ((false, 15), (true, 15) ∷ []) ∷ [])
      (
        (omega arith, (omega arith, tt)),
        ((omega arith, (omega arith, tt)), ((omega arith, (omega arith, tt)), tt)),
      )

-- A letter behind f keeps its case, and a dash at the end is a fault.
convert_uuid-g :
    (convert_uuid (codes "g") ≡ ok (codes "g")) × (convert_uuid (codes "a-") ≡ fault out_of_bounds)
unfolding convert_uuid uuid_loop uuid_char
convert_uuid-g = (refl, refl)
