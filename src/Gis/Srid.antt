-- ===== src/Gis/Srid.antt =====
-- oracle_gis.c, initSRIDMap, epsgFromOracle and epsgToOracle: the file srid.map and the table that
-- is read from it, once, when the first SRID is converted.
pub mod Scan
pub mod Loading
pub mod Reading
pub mod Lookup
use oracle_fdw.Base.{
  ℕ, ◌≤◌, Bool, true, false, ◌||◌, List, [], ◌∷◌, ◌++◌, Option, none, some, Bytes, length, ltb, leb,
  ◌==◌, if◌then◌else◌,
}
use oracle_fdw.Result.{
  Result, ok, err, ◌>>=◌, srid_open, srid_line_too_long, srid_scan, srid_not_two_numbers, srid_zero,
  srid_too_large, srid_read,
}
use Scan.{Scanned, scan_number}

-- mapEntry, without the entry with from = 0 that ends the array
pub record MapEntry : Type 0 where
  pub from : ℕ
  pub to : ℕ

-- The static variable srid_map: none for NULL.
abbrev pub SridMap : Type 0
SridMap = Option (List MapEntry)

-- What the file system answers: no such file, another failure of fopen, or the bytes that fgetc
-- returns up to EOF and whether errno is set after the last of them.
pub data SridFile : Type 0 where
  missing unreadable : SridFile
  readable : Bytes → Bool → SridFile

-- The checks on the two numbers of a line; `number too large` compares unsigned longs.
check_entry : ℕ → ℕ → Result MapEntry
check_entry from to =
    if from == 0 || to == 0
    then err srid_zero
    else if ltb 0xffffffff from || ltb 0xffffffff to
    then err srid_too_large
    else ok (record { from = from; to = to })

-- sscanf(line, "%lu %lu", &from, &to) and the tests on its result: after the first number
scan_second : ℕ → Scanned → Result MapEntry
scan_second from (Scanned.number to _) = check_entry from to
scan_second from _ = err srid_not_two_numbers

scan_first : Scanned → Result MapEntry
unfolding scan_second
scan_first Scanned.eof = err srid_scan
scan_first Scanned.mismatch = err srid_not_two_numbers
scan_first (Scanned.number from rest) = scan_second from (scan_number rest)

-- The C string that an array of characters holds.
c_string : Bytes → Bytes
c_string [] = []
c_string (c ∷ cs) = let rest = c_string cs in if c == 0 then [] else c ∷ rest

-- The text of a line, which is ignored where it is empty; an entry goes to the end of the map.
add_text : Bytes → List MapEntry → Result (List MapEntry)
unfolding scan_first check_entry
add_text [] entries = ok entries
add_text (c ∷ cs) entries = scan_first (scan_number (c ∷ cs)) >>= λ e. ok (entries ++ (e ∷ []))

pub add_line : Bytes → List MapEntry → Result (List MapEntry)
unfolding add_text c_string
add_line line entries = add_text (c_string line) entries

-- The two loops, a character at a time: `line` is what stands in the buffer of 20 bytes.
pub load : Bytes → Bytes → List MapEntry → Result (List MapEntry)
load [] line entries = add_line line entries
load (c ∷ cs) line entries = elim (c == b'\n') [
  | true ↦ add_line line entries >>= λ entries'. load cs [] entries'
  | false ↦ elim (leb 19 (length line)) [
    | true ↦ err srid_line_too_long
    | false ↦ load cs (line ++ (c ∷ [])) entries
  ]
]

pub init_srid_map : SridFile → Result (List MapEntry)
init_srid_map missing = ok []
init_srid_map unreadable = err srid_open
init_srid_map (readable bytes failed) =
    load bytes [] [] >>= λ entries. if failed then err srid_read else ok entries

-- The map that a conversion works with: it is read if it is NULL.
unfoldable pub loaded : SridFile → SridMap → Result (List MapEntry)
unfolding init_srid_map
loaded file none = init_srid_map file
loaded file (some entries) = ok entries

unfoldable pub find_from : ℕ → List MapEntry → ℕ
find_from srid [] = srid
find_from srid (e ∷ es) = let rest = find_from srid es in if e.from == srid then e.to else rest

unfoldable pub find_to : ℕ → List MapEntry → ℕ
find_to srid [] = srid
find_to srid (e ∷ es) = let rest = find_to srid es in if e.to == srid then e.from else rest

-- Both return the SRID and the value of srid_map after the call.
unfoldable pub epsg_from_oracle : SridFile → SridMap → ℕ → Result (ℕ × SridMap)
unfolding loaded find_from
epsg_from_oracle file m srid =
    loaded file m >>= λ entries. ok (find_from srid entries, some entries)

pub epsg_to_oracle : SridFile → SridMap → ℕ → Result (ℕ × SridMap)
unfolding loaded find_to
epsg_to_oracle file m srid = loaded file m >>= λ entries. ok (find_to srid entries, some entries)
