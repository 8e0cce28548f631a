-- ===== src/Jni/Types.antt =====
-- oracle_utils_jni.c, oraTypeFromNames and valSizeForType: the types of the columns that Java
-- describes, and the sizes of the buffers for their values.
mod Names
use oracle_fdw.Base.{
  ℕ, zero, suc, ◌+◌, ◌*◌, ◌-◌, ◌%◌, ◌^◌, ◌≤◌, ◌<◌, ◌≡◌, refl, ap, Bool, true, false, ◌&&◌, ◌||◌,
  List, [], ◌∷◌, Option, none, some, Bytes, length, leb, ltb, ◌==◌, if◌then◌else◌, arith,
}
use oracle_fdw.Base.Int.{ℤ, pos, negsuc, neg, abs, is_neg, is_pos}
use oracle_fdw.Result.{Result, ok, fault, signed_overflow}
use oracle_fdw.Jni.Hex.{encode_hex, length-encode_hex}
use Names.{
  nvarchar_name, varchar_name, number_name, date_name, char_name, timestamp_name, local_name,
  raw_name, blob_name, clob_name, nclob_name, bfile_name, long_name, long_raw_name,
  sdo_geometry_name, mdsys_name, xmltype_name, public_name, sys_name, float_name, nchar_name,
  interval_day_name, interval_year_name, binary_float_name, binary_double_name,
}

-- oraType
pub data OraType : Type 0 where
  varchar2 char nvarchar2 nchar number float binary_float binary_double raw date timestamp
        timestamp_tz timestamp_ltz :
      OraType
  interval_year_to_month interval_day_to_second blob clob nclob bfile long long_raw geometry xmltype
        other :
      OraType

-- uppercaseAscii
unfoldable pub uppercase_ascii : Bytes → Bytes
uppercase_ascii [] = []
uppercase_ascii (c ∷ cs) = (if leb b'a' c && leb c b'z' then c - 32 else c) ∷ uppercase_ascii cs

-- strcmp(value, other) == 0
abbrev pub equal : Bytes → Bytes → Bool
equal [] [] = true
equal (a ∷ s) (b ∷ t) = a == b && equal s t
equal _ _ = false

-- startsWith
unfoldable pub starts_with : Bytes → Bytes → Bool
starts_with value [] = true
starts_with [] (p ∷ prefix) = false
starts_with (c ∷ value) (p ∷ prefix) = c == p && starts_with value prefix

-- strstr(value, part) != NULL
abbrev contains : Bytes → Bytes → Bool
contains [] part = starts_with [] part
contains (c ∷ value) part = starts_with (c ∷ value) part || contains value part

unfoldable pub timestamp_type : Bytes → OraType
timestamp_type type =
    if ltb (length type) 17
    then OraType.timestamp
    else if contains type local_name
    then OraType.timestamp_ltz
    else OraType.timestamp_tz

-- The chain of tests, on the names in upper case.
unfoldable pub type_of_names : Bytes → Bytes → OraType
type_of_names type owner =
    if starts_with type nvarchar_name
    then OraType.nvarchar2
    else if starts_with type varchar_name
    then OraType.varchar2
    else if equal type number_name
    then OraType.number
    else if equal type date_name
    then OraType.date
    else if equal type char_name
    then OraType.char
    else if starts_with type timestamp_name
    then timestamp_type type
    else if equal type raw_name
    then OraType.raw
    else if equal type blob_name
    then OraType.blob
    else if equal type clob_name
    then OraType.clob
    else if equal type nclob_name
    then OraType.nclob
    else if equal type bfile_name
    then OraType.bfile
    else if equal type long_name
    then OraType.long
    else if equal type long_raw_name
    then OraType.long_raw
    else if equal type sdo_geometry_name && equal owner mdsys_name
    then OraType.geometry
    else if equal type xmltype_name && (equal owner public_name || equal owner sys_name)
    then OraType.xmltype
    else if equal type float_name
    then OraType.float
    else if equal type nchar_name
    then OraType.nchar
    else if starts_with type interval_day_name
    then OraType.interval_day_to_second
    else if starts_with type interval_year_name
    then OraType.interval_year_to_month
    else if equal type binary_float_name
    then OraType.binary_float
    else if equal type binary_double_name
    then OraType.binary_double
    else OraType.other

-- The copy of a name, empty for a NULL pointer.
abbrev text_of : Option Bytes → Bytes
text_of none = []
text_of (some s) = s

unfoldable pub ora_type_from_names : Option Bytes → Option Bytes → OraType
ora_type_from_names type owner =
    type_of_names (uppercase_ascii (text_of type)) (uppercase_ascii (text_of owner))

-- The description: a name in lower case.
abbrev pub lowercase : Bytes → Bytes
lowercase [] = []
lowercase (c ∷ cs) = (if leb b'A' c && leb c b'Z' then c + 32 else c) ∷ lowercase cs

uppercase_ascii-lowercase : (s : Bytes) → uppercase_ascii (lowercase s) ≡ uppercase_ascii s
unfolding uppercase_ascii
uppercase_ascii-lowercase [] = refl
uppercase_ascii-lowercase (c ∷ cs) = ground (arith, uppercase_ascii-lowercase cs)

-- The type does not depend on the case in which Java gives the names of the type and of its owner.
pub ora_type_from_names-lowercase :
    (type owner : Bytes)
    → ora_type_from_names (some (lowercase type)) (some (lowercase owner))
      ≡ ora_type_from_names (some type) (some owner)
unfolding ora_type_from_names
ora_type_from_names-lowercase type owner =
    rw (uppercase_ascii-lowercase type) (rw (uppercase_ascii-lowercase owner) refl)

-- A value of type int.
abbrev int_of : ℕ → Result ℤ
int_of n = if ltb n (2 ^ 31) then ok (pos n) else fault signed_overflow

-- (int)max_long: the low 32 bits, of which the highest counts as -2 ^ 31
unfoldable pub int_of_long : ℤ → ℤ
int_of_long x =
    let low = if is_neg x then (2 ^ 32 - abs x % 2 ^ 32) % 2 ^ 32 else abs x % 2 ^ 32 in
    if ltb low (2 ^ 31) then pos low else neg (2 ^ 32 - low)

-- x + 4 of an int
abbrev plus_four : ℤ → Result ℤ
plus_four (pos n) = int_of (n + 4)
plus_four (negsuc n) = if ltb n 4 then ok (pos (3 - n)) else ok (negsuc (n - 4))

-- value > 0 ? value : default_value
abbrev positive_or : ℕ → ℤ → ℕ
positive_or default_value value = if is_pos value then abs value else default_value

-- The arguments are int, but for max_long, which is long; `pointer` and `geom` are the sizes of a
-- pointer and of an ora_geometry. An int that overflows is a fault.
unfoldable pub val_size_for_type : ℕ → ℕ → OraType → ℤ → ℤ → ℤ → ℤ → Result ℤ
val_size_for_type pointer geom OraType.number len precision scale max_long = ok (pos 64)
val_size_for_type pointer geom OraType.binary_float len precision scale max_long = ok (pos 42)
val_size_for_type pointer geom OraType.binary_double len precision scale max_long = ok (pos 310)
val_size_for_type pointer geom OraType.date len precision scale max_long = ok (pos 32)
val_size_for_type pointer geom OraType.timestamp len precision scale max_long = ok (pos 64)
val_size_for_type pointer geom OraType.timestamp_tz len precision scale max_long = ok (pos 64)
val_size_for_type pointer geom OraType.timestamp_ltz len precision scale max_long = ok (pos 64)
val_size_for_type pointer geom OraType.interval_year_to_month len precision scale max_long =
    int_of (positive_or 9 precision + 5)
val_size_for_type pointer geom OraType.interval_day_to_second len precision scale max_long =
    int_of (positive_or 9 precision + positive_or 6 scale + 12)
val_size_for_type pointer geom OraType.raw len precision scale max_long =
    if is_pos len then int_of (2 * abs len + 1) else ok (pos 1)
val_size_for_type pointer geom OraType.long_raw len precision scale max_long =
    plus_four (int_of_long max_long)
val_size_for_type pointer geom OraType.blob len precision scale max_long = ok (pos pointer)
val_size_for_type pointer geom OraType.clob len precision scale max_long = ok (pos pointer)
val_size_for_type pointer geom OraType.nclob len precision scale max_long = ok (pos pointer)
val_size_for_type pointer geom OraType.bfile len precision scale max_long = ok (pos pointer)
val_size_for_type pointer geom OraType.long len precision scale max_long =
    plus_four (int_of_long max_long)
val_size_for_type pointer geom OraType.xmltype len precision scale max_long =
    plus_four (int_of_long max_long)
val_size_for_type pointer geom OraType.geometry len precision scale max_long = ok (pos geom)
val_size_for_type pointer geom _ len precision scale max_long =
    if is_pos len then int_of (abs len + 1) else ok (pos 1)

-- For a RAW column with a declared length below 2 ^ 30, the size does not overflow, and a buffer of that
-- size holds the hexadecimal text of each value up to the declared length, with the zero that ends it.
pub val_size_for_type-raw :
    (pointer geom len : ℕ) (precision scale max_long : ℤ) (value : Bytes)
    → len < 2 ^ 30
    → length value ≤ len
    → (size : ℕ) × (val_size_for_type pointer geom OraType.raw (pos len) precision scale max_long
        ≡ ok (pos size))
      × (length (encode_hex value) + 1 ≤ size)
unfolding val_size_for_type
val_size_for_type-raw pointer geom zero precision scale max_long value l h =
    (1, refl, omega (arith, h, length-encode_hex value))
val_size_for_type-raw pointer geom (suc len) precision scale max_long value l h =
    let positive : (suc len == 0) ≡ false = ground arith in
    let fits : ltb (2 * suc len + 1) (2 ^ 31) ≡ true = ground (arith, l) in
    (2 * suc len + 1, rw positive (rw fits refl), omega (arith, h, length-encode_hex value))
