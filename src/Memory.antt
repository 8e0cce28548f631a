-- ===== src/Memory.antt =====
-- Byte buffers as oracle_gis.c reads and writes them: a pointer that is read from is the list of the
-- bytes from there to the end of the buffer, and a routine that writes returns the bytes it writes.
-- `unsigned` has 32 bits and `double` 64, both stored with the low byte first (the code copies the
-- machine's own representation); a double is its bit pattern, since the code never computes with one.
pub mod Laws
use oracle_fdw.Base.{ℕ, zero, suc, ◌+◌, ◌*◌, ◌/◌, ◌%◌, ◌^◌, [], ◌∷◌, Bytes}
use oracle_fdw.Result.{Result, ok, fault, out_of_bounds, ◌>>=◌}

-- The value of an `unsigned` expression.
abbrev pub u32 : ℕ → ℕ
u32 n = n % 2 ^ 32

-- memcpy of the low `k` bytes of `n`.
unfoldable pub le_bytes : ℕ → ℕ → Bytes
le_bytes zero n = []
le_bytes (suc k) n = (n % 256) ∷ le_bytes k (n / 256)

-- The number in the next `k` bytes, and the pointer behind them.
pub read_le : ℕ → Bytes → Result (ℕ × Bytes)
read_le zero rest = ok (0, rest)
read_le (suc k) [] = fault out_of_bounds
read_le (suc k) (b ∷ bs) = read_le k bs >>= λ r. ok (b + 256 * r.0, r.1)

-- unsignedFill
unfoldable pub unsigned_fill : ℕ → Bytes
unsigned_fill i = le_bytes 4 i

-- doubleFill
unfoldable pub double_fill : ℕ → Bytes
double_fill x = le_bytes 8 x

-- *((unsigned *)data), then data += sizeof(unsigned)
pub read_unsigned : Bytes → Result (ℕ × Bytes)
read_unsigned = read_le 4

-- *((double *)data), then data += sizeof(double)
pub read_double : Bytes → Result (ℕ × Bytes)
read_double = read_le 8

-- data += n, for a pointer that stays inside its buffer
pub advance : ℕ → Bytes → Result Bytes
advance zero rest = ok rest
advance (suc n) [] = fault out_of_bounds
advance (suc n) (b ∷ bs) = advance n bs
