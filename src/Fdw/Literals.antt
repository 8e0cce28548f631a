-- ===== src/Fdw/Literals.antt =====
-- oracle_fdw.c, deparseDate, deparseTimestamp, deparseInterval, interval2itm and convertUUID: values
-- of PostgreSQL as texts that Oracle can read. j2date and timestamp2tm belong to PostgreSQL: the
-- functions here take the fields that these return, or none for an infinite value.
pub mod Offsets
pub mod Dates
pub mod IntervalTexts
pub mod Intervals
pub mod Uuid
use oracle_fdw.Base.{
  ℕ, suc, ◌+◌, ◌-◌, ◌*◌, ◌/◌, ◌%◌, ◌^◌, ◌≤◌, ◌<◌, ◌≡◌, Bool, true, false, ◌&&◌, ◌||◌, not, List, [],
  ◌∷◌, ◌++◌, Option, none, some, Bytes, ltb, leb, ◌==◌, if◌then◌else◌,
}
use oracle_fdw.Base.Int.{ℤ, pos, negsuc, abs, is_neg, is_pos, tdiv, tmod, with_sign}
use oracle_fdw.Result.{
  Result, ok, err, fault, ◌>>=◌, infinite_date, infinite_timestamp, interval_hour, out_of_bounds,
}
use oracle_fdw.Text.{codes, decimal, decimal_padded}

-- pg_tm with the fraction of a second. Years up to zero are before Christ: 0 is 1 BC.
pub record Tm : Type 0 where
  pub year : ℤ
  pub mon : ℕ
  pub mday : ℕ
  pub hour : ℕ
  pub min : ℕ
  pub sec : ℕ
  pub fsec : ℕ

-- datetime_tm.tm_year > 0 ? datetime_tm.tm_year : -datetime_tm.tm_year + 1
unfoldable pub shown_year : ℤ → ℕ
shown_year year = if is_pos year then abs year else abs year + 1

unfoldable pub era : ℤ → Bytes
era year = if is_pos year then codes "AD" else codes "BC"

-- "%04d-%02d-%02d", and what follows
unfoldable pub print_date : Tm → Bytes → Bytes
print_date tm rest =
    decimal_padded 4 (shown_year tm.year)
    ++ (b'-' ∷ (decimal_padded 2 tm.mon ++ (b'-' ∷ (decimal_padded 2 tm.mday ++ rest))))

unfoldable pub deparse_date : Option Tm → Result Bytes
deparse_date none = err infinite_date
deparse_date (some tm) = ok (print_date tm (codes " 00:00:00 " ++ era tm.year))

-- " %02d:%02d:%02d.%06d", and what follows
unfoldable pub print_time : Tm → Bytes → Bytes
print_time tm rest =
    b' '
    ∷ (decimal_padded 2 tm.hour
        ++ (b':'
            ∷ (decimal_padded 2 tm.min
                ++ (b':'
                    ∷ (decimal_padded 2 tm.sec ++ (b'.' ∷ (decimal_padded 6 tm.fsec ++ rest)))))))

-- "%+03d:%02d" of -tzoffset / 3600 and the minutes, where tzoffset counts seconds west of UTC
unfoldable pub print_offset : ℤ → Bytes → Bytes
print_offset tzoffset rest =
    let hours = abs tzoffset / 3600 in
    let sign = if is_pos tzoffset && not (hours == 0) then b'-' else b'+' in
    sign
    ∷ (decimal_padded 2 hours ++ (b':' ∷ (decimal_padded 2 (abs tzoffset % 3600 / 60) ++ rest)))

-- The offset is none without a time zone.
unfoldable pub deparse_timestamp : Option Tm → Option ℤ → Result Bytes
deparse_timestamp none offset = err infinite_timestamp
deparse_timestamp (some tm) none = ok (print_date tm (print_time tm (b' ' ∷ era tm.year)))
deparse_timestamp (some tm) (some tzoffset) =
    ok (print_date tm (print_time tm (print_offset tzoffset (b' ' ∷ era tm.year))))

-- Interval of PostgreSQL: months, days and microseconds
pub record Interval : Type 0 where
  pub month : ℤ
  pub day : ℤ
  pub time : ℤ

-- pg_itm
pub record Itm : Type 0 where
  pub year : ℤ
  pub mon : ℤ
  pub mday : ℤ
  pub hour : ℤ
  pub min : ℤ
  pub sec : ℤ
  pub usec : ℤ

-- After each step the rest has the sign of the time.
unfoldable pub interval2itm : Interval → Itm
interval2itm span =
    let t1 = tmod span.time 3600000000 in
    let t2 = tmod t1 60000000 in
    record {
      year = tdiv span.month 12;
      mon = tmod span.month 12;
      mday = span.day;
      hour = tdiv span.time 3600000000;
      min = tdiv t1 60000000;
      sec = tdiv t2 1000000;
      usec = tmod t2 1000000;
    }

abbrev pub any_of : (ℤ → Bool) → Itm → Bool
any_of test itm = test itm.mday || test itm.hour || test itm.min || test itm.sec || test itm.usec

-- The text of the magnitudes.
unfoldable pub print_interval : Bytes → Itm → Bytes
print_interval sign itm =
    codes "INTERVAL '"
    ++ (sign
        ++ (decimal (abs itm.mday)
            ++ (b' '
                ∷ (decimal_padded 2 (abs itm.hour)
                    ++ (b':'
                        ∷ (decimal_padded 2 (abs itm.min)
                            ++ (b':'
                                ∷ (decimal_padded 2 (abs itm.sec)
                                    ++ (b'.'
                                        ∷ (decimal_padded 6 (abs itm.usec)
                                            ++ codes "' DAY(9) TO SECOND(6)"))))))))))

-- The hour is compared after the sign has been removed.
unfoldable pub limited : Bytes → Itm → Result (Option Bytes)
limited sign itm =
    if ltb 23 (abs itm.hour) then err interval_hour else ok (some (print_interval sign itm))

-- none is NULL: Oracle cannot express the interval.
unfoldable pub deparse_itm : Itm → Result (Option Bytes)
deparse_itm itm =
    if not (abs itm.year == 0) || not (abs itm.mon == 0)
    then ok none
    else if any_of is_neg itm
    then (if any_of is_pos itm then ok none else limited (b'-' ∷ []) itm)
    else limited [] itm

unfoldable pub deparse_interval : Interval → Result (Option Bytes)
deparse_interval span = deparse_itm (interval2itm span)

-- A letter in upper case, up to f.
unfoldable pub uuid_char : ℕ → ℕ
uuid_char c = if leb b'a' c && leb c b'f' then c - 32 else c

-- A dash is skipped without a test on the character behind it (`skipped` says that there was one), so
-- that the loop runs on behind the zero that ends the text if the dash is the last character.
unfoldable pub uuid_loop : Bool → Bytes → Result Bytes
uuid_loop false [] = ok []
uuid_loop true [] = fault out_of_bounds
uuid_loop skipped (c ∷ cs) =
    let dash = not skipped && c == b'-' in
    let later = uuid_loop dash cs in if dash then later else (later >>= λ q. ok (uuid_char c ∷ q))

unfoldable pub convert_uuid : Bytes → Result Bytes
convert_uuid uuid = uuid_loop false uuid
