-- ===== src/Fdw/Literals/Uuid.antt =====
-- convertUUID on the text of a uuid: groups of hexadecimal digits.
use oracle_fdw.Base.{
  ℕ, ◌+◌, ◌-◌, ◌<◌, ◌≡◌, refl, Bool, true, false, List, [], ◌∷◌, ◌++◌, Bytes, ltb, ◌==◌,
  if◌then◌else◌, All, arith,
}
use oracle_fdw.Result.{ok}
use oracle_fdw.Fdw.Literals.{uuid_char, uuid_loop, convert_uuid}

-- A digit by its value, which is below 16, and whether it is written with a small letter.
abbrev pub HexDigit : Type 0
HexDigit = Bool × ℕ

abbrev pub small_digit : ℕ → ℕ
small_digit v = if ltb v 10 then b'0' + v else b'a' + (v - 10)

abbrev pub capital_digit : ℕ → ℕ
capital_digit v = if ltb v 10 then b'0' + v else b'A' + (v - 10)

abbrev pub written : List HexDigit → Bytes
written [] = []
written ((small, v) ∷ ds) = (if small then small_digit v else capital_digit v) ∷ written ds

abbrev pub in_capitals : List HexDigit → Bytes
in_capitals [] = []
in_capitals ((small, v) ∷ ds) = capital_digit v ∷ in_capitals ds

abbrev pub IsHexDigit : HexDigit → Type 0
IsHexDigit d = d.1 < 16

-- A group has at least one digit.
abbrev pub Group : Type 0
Group = HexDigit × List HexDigit

abbrev pub IsGroup : Group → Type 0
IsGroup (d, ds) = IsHexDigit d × All IsHexDigit ds

-- The groups behind the first one, each with a dash before it.
abbrev pub dashed : List Group → Bytes
dashed [] = []
dashed ((d, ds) ∷ gs) = b'-' ∷ (written (d ∷ ds) ++ dashed gs)

abbrev pub joined : List Group → Bytes
joined [] = []
joined ((d, ds) ∷ gs) = in_capitals (d ∷ ds) ++ joined gs

uuid_char-small :
    (v : ℕ)
    → v < 16
    → (uuid_char (small_digit v) ≡ capital_digit v) × ((small_digit v == b'-') ≡ false)
unfolding uuid_char
uuid_char-small v h = (ground (arith, h), ground (arith, h))

uuid_char-capital :
    (v : ℕ)
    → v < 16
    → (uuid_char (capital_digit v) ≡ capital_digit v) × ((capital_digit v == b'-') ≡ false)
unfolding uuid_char
uuid_char-capital v h = (ground (arith, h), ground (arith, h))

uuid_loop-dashed :
    (ds : List HexDigit) (gs : List Group)
    → All IsHexDigit ds
    → All IsGroup gs
    → uuid_loop false (written ds ++ dashed gs) ≡ ok (in_capitals ds ++ joined gs)
unfolding uuid_loop
uuid_loop-dashed ((true, v) ∷ ds) gs (h, hs) ks =
    let (c, n) = uuid_char-small v h in rw n (rw (uuid_loop-dashed ds gs hs ks) (rw c refl))
uuid_loop-dashed ((false, v) ∷ ds) gs (h, hs) ks =
    let (c, n) = uuid_char-capital v h in rw n (rw (uuid_loop-dashed ds gs hs ks) (rw c refl))
uuid_loop-dashed [] [] hs ks = refl
uuid_loop-dashed [] (((true, v), ds) ∷ gs) hs ((k, l), ks) =
    let (c, n) = uuid_char-small v k in rw (uuid_loop-dashed ds gs l ks) (rw c refl)
uuid_loop-dashed [] (((false, v), ds) ∷ gs) hs ((k, l), ks) =
    let (c, n) = uuid_char-capital v k in rw (uuid_loop-dashed ds gs l ks) (rw c refl)

-- Groups of hexadecimal digits, in small or capital letters, with one dash between them: convertUUID
-- returns all the digits, in order, with the letters A to F, without the dashes.
pub convert_uuid_lem :
    (d : HexDigit) (ds : List HexDigit) (gs : List Group)
    → All IsGroup ((d, ds) ∷ gs)
    → convert_uuid (written (d ∷ ds) ++ dashed gs) ≡ ok (joined ((d, ds) ∷ gs))
unfolding convert_uuid
convert_uuid_lem d ds gs ((h, hs), ks) = uuid_loop-dashed (d ∷ ds) gs (h, hs) ks
