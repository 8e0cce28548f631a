-- ===== src/Jni/Hex.antt =====
-- oracle_utils_jni.c, hexDigitValue and decodeHex: binary values come from Java as hexadecimal text.
use oracle_fdw.Base.{
  ℕ, suc, ◌+◌, ◌-◌, ◌*◌, ◌/◌, ◌%◌, ◌<◌, ◌≡◌, refl, ap, ◌&&◌, [], ◌∷◌, Option, none, some, Bytes,
  length, All, leb, ltb, ◌==◌, if◌then◌else◌, arith, Bool-cases, inl, inr,
}
use oracle_fdw.Result.{Result, ok, err, ◌>>=◌, hex_length, hex_value}

-- none is -1.
unfoldable pub hex_digit_value : ℕ → Option ℕ
hex_digit_value ch =
    if leb b'0' ch && leb ch b'9'
    then some (ch - b'0')
    else if leb b'a' ch && leb ch b'f'
    then some (ch - b'a' + 10)
    else if leb b'A' ch && leb ch b'F'
    then some (ch - b'A' + 10)
    else none

-- The digits at offset `i`, and what the loop does behind them.
unfoldable pub hex_byte : ℕ → Option ℕ → Option ℕ → Result Bytes → Result Bytes
hex_byte i (some high) (some low) later = later >>= λ rest. ok ((16 * high + low) ∷ rest)
hex_byte i _ _ later = err (hex_value i)

-- The loop, at offset `i`. The character behind the last one is the zero that ends the text.
unfoldable pub decode_pairs : ℕ → Bytes → Result Bytes
decode_pairs i [] = ok []
decode_pairs i (h ∷ []) = hex_byte i (hex_digit_value h) (hex_digit_value 0) (ok [])
decode_pairs i (h ∷ l ∷ hex) =
    let later = decode_pairs (i + 2) hex in hex_byte i (hex_digit_value h) (hex_digit_value l) later

-- The bytes that are written to `dest`; none is a NULL pointer.
unfoldable pub decode_hex : Option Bytes → Result Bytes
decode_hex none = ok []
decode_hex (some hex) =
    if length hex % 2 == 0 then decode_pairs 0 hex else err (hex_length (length hex))

-- The description: two digits for a byte, the letters in upper case.
abbrev pub hex_digit : ℕ → ℕ
hex_digit d = if ltb d 10 then b'0' + d else b'A' + (d - 10)

abbrev pub encode_hex : Bytes → Bytes
encode_hex [] = []
encode_hex (b ∷ bs) = hex_digit (b / 16) ∷ hex_digit (b % 16) ∷ encode_hex bs

hex_digit_value-hex_digit : (d : ℕ) → d < 16 → hex_digit_value (hex_digit d) ≡ some d
unfolding hex_digit_value
hex_digit_value-hex_digit d h = ground arith

decode_pairs-encode_hex :
    (i : ℕ) (bs : Bytes) → All (λ b. b < 256) bs → decode_pairs i (encode_hex bs) ≡ ok bs
unfolding decode_pairs hex_byte
decode_pairs-encode_hex i [] h = refl
decode_pairs-encode_hex i (b ∷ bs) h =
    let same : 16 * (b / 16) + b % 16 ≡ b = omega arith in
    rw (hex_digit_value-hex_digit (b / 16) (omega (arith, h.0))) (
      rw (hex_digit_value-hex_digit (b % 16) (omega arith))
        (rw (decode_pairs-encode_hex (i + 2) bs h.1) (ap (λ c. ok (c ∷ bs)) same)))

pub length-encode_hex : (bs : Bytes) → length (encode_hex bs) ≡ 2 * length bs
length-encode_hex [] = refl
length-encode_hex (b ∷ bs) = omega (arith, length-encode_hex bs)

-- decodeHex reads the text of two hexadecimal digits for each byte, as Java writes it, back as these
-- bytes.
pub decode_hex-encode_hex :
    (bs : Bytes) → All (λ b. b < 256) bs → decode_hex (some (encode_hex bs)) ≡ ok bs
unfolding decode_hex
decode_hex-encode_hex bs h =
    let even : length (encode_hex bs) % 2 ≡ 0 = omega (arith, length-encode_hex bs) in
    rw even (decode_pairs-encode_hex 0 bs h)

-- What decodeHex writes fits into half the length of its input.
abbrev pub FitsHalf : ℕ → Result Bytes → Type 0
FitsHalf n (ok bs) = (2 * length bs ≡ n) × All (λ b. b < 256) bs
FitsHalf n _ = Unit

hex_digit_value-lt : (ch d : ℕ) → hex_digit_value ch ≡ some d → d < 16
unfolding hex_digit_value
hex_digit_value-lt ch d h = ground (arith, h)

FitsHalf-hex_byte :
    (i n : ℕ) (high low : Option ℕ) (later : Result Bytes)
    → ((d : ℕ) → high ≡ some d → d < 16)
    → ((d : ℕ) → low ≡ some d → d < 16)
    → FitsHalf n later
    → FitsHalf (suc (suc n)) (hex_byte i high low later)
unfolding hex_byte
FitsHalf-hex_byte i n none low later hh hl f = tt
FitsHalf-hex_byte i n (some high) none later hh hl f = tt
FitsHalf-hex_byte i n (some high) (some low) (ok bs) hh hl f =
    (omega (arith, f.0), (omega (arith, hh high refl, hl low refl), f.1))
FitsHalf-hex_byte i n (some high) (some low) _ hh hl f = tt

hex_digit_value-zero : hex_digit_value 0 ≡ none
unfolding hex_digit_value
hex_digit_value-zero = refl

FitsHalf-none : (i : ℕ) (high : Option ℕ) → FitsHalf 1 (hex_byte i high none (ok []))
unfolding hex_byte
FitsHalf-none i none = tt
FitsHalf-none i (some high) = tt

decode_pairs-FitsHalf : (i : ℕ) (hex : Bytes) → FitsHalf (length hex) (decode_pairs i hex)
unfolding decode_pairs
decode_pairs-FitsHalf i [] = (refl, tt)
decode_pairs-FitsHalf i (h ∷ []) = rw hex_digit_value-zero (FitsHalf-none i (hex_digit_value h))
decode_pairs-FitsHalf i (h ∷ l ∷ hex) =
    FitsHalf-hex_byte i (length hex) (hex_digit_value h) (hex_digit_value l)
      (decode_pairs (i + 2) hex) (hex_digit_value-lt h) (hex_digit_value-lt l)
      (decode_pairs-FitsHalf (i + 2) hex)

-- Whatever text decodeHex is given, if it returns, it has written exactly one byte for each two
-- characters, so that a buffer of half the length is enough.
pub decode_hex-FitsHalf : (hex : Bytes) → FitsHalf (length hex) (decode_hex (some hex))
unfolding decode_hex
decode_hex-FitsHalf hex = elim (Bool-cases (length hex % 2 == 0)) [
  | inl e ↦ rw e (decode_pairs-FitsHalf 0 hex)
  | inr e ↦ rw e tt
]
