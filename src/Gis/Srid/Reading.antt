-- ===== src/Gis/Srid/Reading.antt =====
-- A well-formed srid.map is read entry by entry.
use oracle_fdw.Base.{
  ℕ, ◌+◌, ◌≤◌, ◌≡◌, ◌≢◌, refl, ◌∙◌, false, List, [], ◌∷◌, ◌++◌, Bytes, All, arith, length,
  length-append, append_assoc, append-nil, ◌==◌, map,
}
use oracle_fdw.Result.{ok, ◌>>=◌}
use oracle_fdw.Gis.Srid.Scan.{
  is_digit, scan_number, digits_value, StopsDigits, IsDigits, scan_number-digits, scan_number-space,
}
use oracle_fdw.Gis.Srid.{
  MapEntry, SridFile, check_entry, scan_second, scan_first, c_string, add_text, add_line, load,
  init_srid_map,
}
use oracle_fdw.Gis.Srid.Loading.{IsValid, load-newline, load-char}

-- The digits of the two numbers, and what stands behind them.
pub record TextLine : Type 0 where
  pub first : Bytes
  pub second : Bytes
  pub tail : Bytes

abbrev pub text : TextLine → Bytes
text t = t.first ++ (b' ' ∷ (t.second ++ t.tail))

abbrev pub entry : TextLine → MapEntry
entry t = record { from = digits_value 0 t.first; to = digits_value 0 t.second }

abbrev IsPlain : ℕ → Type 0
IsPlain c = ((c == b'\n') ≡ false) × ((c == 0) ≡ false)

pub record IsWellFormed (t : TextLine) : Type 0 where
  pub first_digits : IsDigits t.first
  pub first_ne_nil : t.first ≢ []
  pub second_digits : IsDigits t.second
  pub second_ne_nil : t.second ≢ []
  pub tail_stops : StopsDigits t.tail
  pub tail_plain : All IsPlain t.tail
  pub in_range : IsValid (entry t)
  pub fits : length (text t) ≤ 19

abbrev pub file_text : List TextLine → Bytes
file_text [] = []
file_text (t ∷ ts) = text t ++ (b'\n' ∷ file_text ts)

check_entry-IsValid : (e : MapEntry) → IsValid e → check_entry e.from e.to ≡ ok e
unfolding check_entry
check_entry-IsValid e v = ground arith

scan_first-text : (t : TextLine) → IsWellFormed t → scan_first (scan_number (text t)) ≡ ok (entry t)
unfolding scan_first scan_second is_digit
scan_first-text t w =
    rw
      (scan_number-digits t.first (b' ' ∷ (t.second ++ t.tail)) w.first_ne_nil w.first_digits refl
        (omega (arith, w.in_range.from_max)))
      (rw (scan_number-space (t.second ++ t.tail)) (
        rw
          (scan_number-digits t.second t.tail w.second_ne_nil w.second_digits w.tail_stops
            (omega (arith, w.in_range.to_max)))
          (check_entry-IsValid (entry t) w.in_range)))

c_string-plain : (s : Bytes) → All IsPlain s → c_string s ≡ s
unfolding c_string
c_string-plain [] h = refl
c_string-plain (c ∷ cs) h = ground (arith, c_string-plain cs h.1)

load-plain :
    (s rest line : Bytes) (entries : List MapEntry)
    → All IsPlain s
    → length line + length s ≤ 19
    → load (s ++ rest) line entries ≡ load rest (line ++ s) entries
load-plain [] rest line entries h l = rw append-nil
load-plain (c ∷ s) rest line entries h l =
    load-char c (s ++ rest) line entries h.0.0 (ground arith)
    ∙ load-plain s rest (line ++ (c ∷ [])) entries h.1 (omega (arith, length-append line (c ∷ [])))
    ∙ rw append_assoc

IsPlain-digits : (ds rest : Bytes) → IsDigits ds → All IsPlain rest → All IsPlain (ds ++ rest)
unfolding is_digit
IsPlain-digits [] rest h r = r
IsPlain-digits (c ∷ ds) rest h r =
    ((ground (arith, h.0), ground (arith, h.0)), IsPlain-digits ds rest h.1 r)

IsPlain-text : (t : TextLine) → IsWellFormed t → All IsPlain (text t)
IsPlain-text t w =
    IsPlain-digits t.first (b' ' ∷ (t.second ++ t.tail)) w.first_digits
      ((refl, refl), IsPlain-digits t.second t.tail w.second_digits w.tail_plain)

add_text-ne_nil :
    (s : Bytes) (entries : List MapEntry)
    → s ≢ []
    → add_text s entries ≡ (scan_first (scan_number s) >>= λ e. ok (entries ++ (e ∷ [])))
unfolding add_text
add_text-ne_nil [] entries ne = absurd (ne refl)
add_text-ne_nil (c ∷ cs) entries ne = refl

append-ne_nil : (ds rest : Bytes) → ds ≢ [] → ds ++ rest ≢ []
append-ne_nil [] rest ne e = ne refl
append-ne_nil (c ∷ ds) rest ne e = cc

add_line-text :
    (t : TextLine) (entries : List MapEntry)
    → IsWellFormed t
    → add_line (text t) entries ≡ ok (entries ++ (entry t ∷ []))
unfolding add_line
add_line-text t entries w = rw (c_string-plain (text t) (IsPlain-text t w)) (
    add_text-ne_nil (text t) entries (append-ne_nil t.first _ w.first_ne_nil)
    ∙ rw (scan_first-text t w))

load-file_text :
    (ts : List TextLine) (entries : List MapEntry)
    → All IsWellFormed ts
    → load (file_text ts) [] entries ≡ ok (entries ++ map entry ts)
load-file_text [] entries h = unfold load add_line c_string add_text in rw append-nil
load-file_text (t ∷ ts) entries h =
    load-plain (text t) (b'\n' ∷ file_text ts) [] entries (IsPlain-text t h.0)
      (omega (arith, h.0.fits))
    ∙ load-newline b'\n' (file_text ts) (text t) entries refl
    ∙ rw (add_line-text t entries h.0)
        (load-file_text ts (entries ++ (entry t ∷ [])) h.1 ∙ rw append_assoc)

-- A file of well-formed lines, each ended by a newline and at most 19 characters long, is read as
-- the list of its entries, in order.
pub init_srid_map-file_text :
    (ts : List TextLine)
    → All IsWellFormed ts
    → init_srid_map (SridFile.readable (file_text ts) false) ≡ ok (map entry ts)
unfolding init_srid_map
init_srid_map-file_text ts h = rw (load-file_text ts [] h)
