-- ===== src/Memory/Laws.antt =====
-- What is written is read back, and how much is written.
use oracle_fdw.Base.{
  ℕ, zero, suc, ◌/◌, ◌^◌, ◌<◌, ◌≡◌, refl, ap, [], ◌∷◌, ◌++◌, arith, Bytes, length,
}
use native.Mathlib.Nat.{pow-suc}
use oracle_fdw.Result.{ok}
use oracle_fdw.Memory.{
  le_bytes, read_le, unsigned_fill, double_fill, read_unsigned, read_double, advance,
}

pub length-le_bytes : (k n : ℕ) → length (le_bytes k n) ≡ k
unfolding le_bytes
length-le_bytes zero n = refl
length-le_bytes (suc k) n = ap suc (length-le_bytes k (n / 256))

div-lt : (k n : ℕ) → n < 256 ^ suc k → n / 256 < 256 ^ k
div-lt k n h = omega (arith, pow-suc 256 k)

pub read_le-le_bytes :
    (k n : ℕ) (rest : Bytes) → n < 256 ^ k → read_le k (le_bytes k n ++ rest) ≡ ok (n, rest)
unfolding read_le le_bytes
read_le-le_bytes zero n rest h = ground arith
read_le-le_bytes (suc k) n rest h =
    rw (read_le-le_bytes k (n / 256) rest (div-lt k n h)) (ap (λ m. ok (m, rest)) (omega arith))

pub read_unsigned-fill :
    (n : ℕ) (rest : Bytes) → n < 2 ^ 32 → read_unsigned (unsigned_fill n ++ rest) ≡ ok (n, rest)
unfolding read_unsigned unsigned_fill
read_unsigned-fill n rest h = read_le-le_bytes 4 n rest (omega arith)

pub read_double-fill :
    (x : ℕ) (rest : Bytes) → x < 2 ^ 64 → read_double (double_fill x ++ rest) ≡ ok (x, rest)
unfolding read_double double_fill
read_double-fill x rest h = read_le-le_bytes 8 x rest (omega arith)

pub advance-append : (xs rest : Bytes) → advance (length xs) (xs ++ rest) ≡ ok rest
unfolding advance
advance-append [] rest = refl
advance-append (x ∷ xs) rest = advance-append xs rest

pub length-unsigned_fill : (n : ℕ) → length (unsigned_fill n) ≡ 4
unfolding unsigned_fill
length-unsigned_fill n = length-le_bytes 4 n

pub length-double_fill : (x : ℕ) → length (double_fill x) ≡ 8
unfolding double_fill
length-double_fill x = length-le_bytes 8 x

pub read_le-byte : (b : ℕ) (rest : Bytes) → read_le 1 (b ∷ rest) ≡ ok (b, rest)
unfolding read_le
read_le-byte b rest = ap (λ n. ok (n, rest)) (omega arith)

pub advance-byte : (b : ℕ) (rest : Bytes) → advance 1 (b ∷ rest) ≡ ok rest
unfolding advance
advance-byte b rest = refl
