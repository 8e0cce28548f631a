-- ===== src/Jni/Types/Names.antt =====
-- The names and prefixes that oraTypeFromNames compares with.
use oracle_fdw.Base.{[], ◌∷◌, Bytes}

abbrev pub nvarchar_name : Bytes
nvarchar_name = b'N' ∷ b'V' ∷ b'A' ∷ b'R' ∷ b'C' ∷ b'H' ∷ b'A' ∷ b'R' ∷ []

abbrev pub varchar_name : Bytes
varchar_name = b'V' ∷ b'A' ∷ b'R' ∷ b'C' ∷ b'H' ∷ b'A' ∷ b'R' ∷ []

abbrev pub number_name : Bytes
number_name = b'N' ∷ b'U' ∷ b'M' ∷ b'B' ∷ b'E' ∷ b'R' ∷ []

abbrev pub date_name : Bytes
date_name = b'D' ∷ b'A' ∷ b'T' ∷ b'E' ∷ []

abbrev pub char_name : Bytes
char_name = b'C' ∷ b'H' ∷ b'A' ∷ b'R' ∷ []

abbrev pub timestamp_name : Bytes
timestamp_name = b'T' ∷ b'I' ∷ b'M' ∷ b'E' ∷ b'S' ∷ b'T' ∷ b'A' ∷ b'M' ∷ b'P' ∷ []

abbrev pub local_name : Bytes
local_name = b'L' ∷ b'O' ∷ b'C' ∷ b'A' ∷ b'L' ∷ []

abbrev pub raw_name : Bytes
raw_name = b'R' ∷ b'A' ∷ b'W' ∷ []

abbrev pub blob_name : Bytes
blob_name = b'B' ∷ b'L' ∷ b'O' ∷ b'B' ∷ []

abbrev pub clob_name : Bytes
clob_name = b'C' ∷ b'L' ∷ b'O' ∷ b'B' ∷ []

abbrev pub nclob_name : Bytes
nclob_name = b'N' ∷ b'C' ∷ b'L' ∷ b'O' ∷ b'B' ∷ []

abbrev pub bfile_name : Bytes
bfile_name = b'B' ∷ b'F' ∷ b'I' ∷ b'L' ∷ b'E' ∷ []

abbrev pub long_name : Bytes
long_name = b'L' ∷ b'O' ∷ b'N' ∷ b'G' ∷ []

abbrev pub long_raw_name : Bytes
long_raw_name = b'L' ∷ b'O' ∷ b'N' ∷ b'G' ∷ b' ' ∷ b'R' ∷ b'A' ∷ b'W' ∷ []

abbrev pub sdo_geometry_name : Bytes
sdo_geometry_name =
    b'S' ∷ b'D' ∷ b'O' ∷ b'_' ∷ b'G' ∷ b'E' ∷ b'O' ∷ b'M' ∷ b'E' ∷ b'T' ∷ b'R' ∷ b'Y' ∷ []

abbrev pub mdsys_name : Bytes
mdsys_name = b'M' ∷ b'D' ∷ b'S' ∷ b'Y' ∷ b'S' ∷ []

abbrev pub xmltype_name : Bytes
xmltype_name = b'X' ∷ b'M' ∷ b'L' ∷ b'T' ∷ b'Y' ∷ b'P' ∷ b'E' ∷ []

abbrev pub public_name : Bytes
public_name = b'P' ∷ b'U' ∷ b'B' ∷ b'L' ∷ b'I' ∷ b'C' ∷ []

abbrev pub sys_name : Bytes
sys_name = b'S' ∷ b'Y' ∷ b'S' ∷ []

abbrev pub float_name : Bytes
float_name = b'F' ∷ b'L' ∷ b'O' ∷ b'A' ∷ b'T' ∷ []

abbrev pub nchar_name : Bytes
nchar_name = b'N' ∷ b'C' ∷ b'H' ∷ b'A' ∷ b'R' ∷ []

abbrev pub interval_day_name : Bytes
interval_day_name =
    b'I' ∷ b'N' ∷ b'T' ∷ b'E' ∷ b'R' ∷ b'V' ∷ b'A' ∷ b'L' ∷ b' ' ∷ b'D' ∷ b'A' ∷ b'Y' ∷ []

abbrev pub interval_year_name : Bytes
interval_year_name =
    b'I' ∷ b'N' ∷ b'T' ∷ b'E' ∷ b'R' ∷ b'V' ∷ b'A' ∷ b'L' ∷ b' ' ∷ b'Y' ∷ b'E' ∷ b'A' ∷ b'R' ∷ []

abbrev pub binary_float_name : Bytes
binary_float_name =
    b'B' ∷ b'I' ∷ b'N' ∷ b'A' ∷ b'R' ∷ b'Y' ∷ b'_' ∷ b'F' ∷ b'L' ∷ b'O' ∷ b'A' ∷ b'T' ∷ []

abbrev pub binary_double_name : Bytes
binary_double_name =
    b'B' ∷ b'I' ∷ b'N' ∷ b'A' ∷ b'R' ∷ b'Y' ∷ b'_' ∷ b'D' ∷ b'O' ∷ b'U' ∷ b'B' ∷ b'L' ∷ b'E' ∷ []
