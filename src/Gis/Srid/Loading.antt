-- ===== src/Gis/Srid/Loading.antt =====
-- What is in the table after initSRIDMap.
use oracle_fdw.Base.{
  ℕ, ◌≤◌, ◌<◌, ◌≡◌, true, false, inl, inr, List, [], ◌∷◌, ◌++◌, Bytes, All, arith, Bool-cases,
  length, ◌==◌, leb,
}
use oracle_fdw.Result.{Result, ok, err, fault, ◌>>=◌, srid_line_too_long}
use oracle_fdw.Gis.Srid.Scan.{Scanned, scan_number}
use oracle_fdw.Gis.Srid.{
  MapEntry, SridFile, check_entry, scan_second, scan_first, c_string, add_text, add_line, load,
  init_srid_map,
}

-- An SRID that the table may hold.
pub record IsValid (e : MapEntry) : Type 0 where
  pub from_pos : 0 < e.from
  pub from_max : e.from ≤ 0xffffffff
  pub to_pos : 0 < e.to
  pub to_max : e.to ≤ 0xffffffff

abbrev pub AreValid : Result (List MapEntry) → Type 0
AreValid (ok entries) = All IsValid entries
AreValid _ = Unit

abbrev EntryIsValid : Result MapEntry → Type 0
EntryIsValid (ok e) = IsValid e
EntryIsValid _ = Unit

check_entry-IsValid : (from to : ℕ) → EntryIsValid (check_entry from to)
unfolding check_entry
check_entry-IsValid from to = ground arith

scan_second-IsValid : (from : ℕ) (s : Scanned) → EntryIsValid (scan_second from s)
unfolding scan_second
scan_second-IsValid from Scanned.eof = tt
scan_second-IsValid from Scanned.mismatch = tt
scan_second-IsValid from (Scanned.number to _) = check_entry-IsValid from to

scan_first-IsValid : (s : Scanned) → EntryIsValid (scan_first s)
unfolding scan_first
scan_first-IsValid Scanned.eof = tt
scan_first-IsValid Scanned.mismatch = tt
scan_first-IsValid (Scanned.number from rest) = scan_second-IsValid from (scan_number rest)

All-concat :
    (entries : List MapEntry) (e : MapEntry)
    → All IsValid entries
    → IsValid e
    → All IsValid (entries ++ (e ∷ []))
All-concat [] e h v = (v, tt)
All-concat (x ∷ xs) e h v = (h.0, All-concat xs e h.1 v)

append-IsValid :
    (r : Result MapEntry) (entries : List MapEntry)
    → EntryIsValid r
    → All IsValid entries
    → AreValid (r >>= λ e. ok (entries ++ (e ∷ [])))
append-IsValid (ok e) entries v h = All-concat entries e h v
append-IsValid (err _) entries v h = tt
append-IsValid (fault _) entries v h = tt

add_text-IsValid :
    (text : Bytes) (entries : List MapEntry)
    → All IsValid entries
    → AreValid (add_text text entries)
unfolding add_text
add_text-IsValid [] entries h = h
add_text-IsValid (c ∷ cs) entries h =
    append-IsValid (scan_first (scan_number (c ∷ cs))) entries
      (scan_first-IsValid (scan_number (c ∷ cs))) h

bind-AreValid :
    (r : Result (List MapEntry)) (f : List MapEntry → Result (List MapEntry))
    → AreValid r
    → ((entries : List MapEntry) → All IsValid entries → AreValid (f entries))
    → AreValid (r >>= f)
bind-AreValid (ok entries) f h k = k entries h
bind-AreValid (err _) f h k = tt
bind-AreValid (fault _) f h k = tt

-- The three ways in which the loop goes on.
pub load-newline :
    (c : ℕ) (cs line : Bytes) (entries : List MapEntry)
    → (c == b'\n') ≡ true
    → load (c ∷ cs) line entries ≡ (add_line line entries >>= λ es. load cs [] es)
unfolding load
load-newline c cs line entries e = ground arith

pub load-long :
    (c : ℕ) (cs line : Bytes) (entries : List MapEntry)
    → (c == b'\n') ≡ false
    → leb 19 (length line) ≡ true
    → load (c ∷ cs) line entries ≡ err srid_line_too_long
unfolding load
load-long c cs line entries e l = ground arith

pub load-char :
    (c : ℕ) (cs line : Bytes) (entries : List MapEntry)
    → (c == b'\n') ≡ false
    → leb 19 (length line) ≡ false
    → load (c ∷ cs) line entries ≡ load cs (line ++ (c ∷ [])) entries
unfolding load
load-char c cs line entries e l = ground arith

add_line-IsValid :
    (line : Bytes) (entries : List MapEntry)
    → All IsValid entries
    → AreValid (add_line line entries)
unfolding add_line
add_line-IsValid line entries h = add_text-IsValid (c_string line) entries h

load-IsValid :
    (bytes line : Bytes) (entries : List MapEntry)
    → All IsValid entries
    → AreValid (load bytes line entries)
load-IsValid [] line entries h = unfold load in add_line-IsValid line entries h
load-IsValid (c ∷ cs) line entries h = elim (Bool-cases (c == b'\n')) [
  | inl e ↦ rw (load-newline c cs line entries e) (
      bind-AreValid (add_line line entries) (λ es. load cs [] es) (add_line-IsValid line entries h)
        (λ es v. load-IsValid cs [] es v))
  | inr n ↦ elim (Bool-cases (leb 19 (length line))) [
    | inl long ↦ rw (load-long c cs line entries n long) tt
    | inr short ↦
        rw (load-char c cs line entries n short) (load-IsValid cs (line ++ (c ∷ [])) entries h)
  ]
]

-- Whatever the file holds, an entry that initSRIDMap puts into the table has two numbers that are
-- not zero and fit into 32 bits.
pub init_srid_map-IsValid : (file : SridFile) → AreValid (init_srid_map file)
unfolding init_srid_map
init_srid_map-IsValid SridFile.missing = tt
init_srid_map-IsValid SridFile.unreadable = tt
init_srid_map-IsValid (SridFile.readable bytes failed) =
    bind-AreValid (load bytes [] []) _ (load-IsValid bytes [] [] tt) (λ es v. ground arith)
