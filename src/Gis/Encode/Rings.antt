-- ===== src/Gis/Encode/Rings.antt =====
-- How the Fill and Len routines walk over the unpacked arrays: the rings (or lines) of SDO_ELEM_INFO
-- and the coordinates of each.
use oracle_fdw.Base.{
  ℕ, zero, suc, ◌+◌, ◌-◌, ◌*◌, ◌^◌, true, false, [], ◌++◌, Option, Bytes, ◌==◌, if◌then◌else◌,
}
use oracle_fdw.Memory.{u32, unsigned_fill, double_fill}
use oracle_fdw.Result.{Result, ok, ◌>>=◌}
use oracle_fdw.Gis.Geometry.{Unpacked, divide, num_coords, elem_at, coord_at}
use oracle_fdw.Gis.Unpack.{pred32, rounds}

-- doubleFill of the coordinates k, k + 1, ..., `n` of them
unfoldable pub fill_coords : ℕ → ℕ → Option Unpacked → Result Bytes
fill_coords zero k u = ok []
fill_coords (suc n) k u = do
  x ← coord_at u k
  rest ← fill_coords n (k + 1) u
  ok (double_fill x ++ rest)

-- coord_b
unfoldable pub ring_begin : ℕ → Option Unpacked → Result ℕ
ring_begin j u = elem_at u (j * 3) >>= λ e. ok (pred32 e)

-- coord_e, for the ring `j` of `total`
unfoldable pub ring_end : ℕ → ℕ → Option Unpacked → Result ℕ
ring_end total j u = if j + 1 == total then ok (num_coords u) else ring_begin (j + 1) u

-- numPoints of that ring: the subtraction is one of unsigned numbers
unfoldable pub ring_points : ℕ → ℕ → ℕ → Option Unpacked → Result ℕ
ring_points dim total j u = do
  b ← ring_begin j u
  e ← ring_end total j u
  divide (u32 (e + 2 ^ 32 - b)) dim

-- The coordinates of that ring.
unfoldable pub fill_ring : ℕ → ℕ → Option Unpacked → Result Bytes
fill_ring total j u = do b ← ring_begin j u; e ← ring_end total j u; fill_coords (rounds b e) b u

-- unsignedFill of the numbers of points of `n` rings from ring `j` on
unfoldable pub fill_ring_sizes : ℕ → ℕ → ℕ → ℕ → Option Unpacked → Result Bytes
fill_ring_sizes zero dim total j u = ok []
fill_ring_sizes (suc n) dim total j u = do
  points ← ring_points dim total j u
  rest ← fill_ring_sizes n dim total (j + 1) u
  ok (unsigned_fill points ++ rest)

-- Their coordinates.
unfoldable pub fill_rings : ℕ → ℕ → ℕ → Option Unpacked → Result Bytes
fill_rings zero total j u = ok []
fill_rings (suc n) total j u = do
  ring ← fill_ring total j u
  rest ← fill_rings n total (j + 1) u
  ok (ring ++ rest)

-- The number of exterior rings among `n` rings from ring `i` on.
unfoldable pub count_exterior : ℕ → ℕ → Option Unpacked → Result ℕ
count_exterior zero i u = ok 0
count_exterior (suc n) i u = do
  etype ← elem_at u (i * 3 + 1)
  rest ← count_exterior n (i + 1) u
  ok ((if etype == 1003 then 1 else 0) + rest)

-- The loop that moves j, with `n` rings left, to the next exterior ring or the end. It returns j and
-- numRings.
unfoldable pub next_exterior : ℕ → ℕ → ℕ → Option Unpacked → Result (ℕ × ℕ)
next_exterior zero j rings u = ok (j, rings)
next_exterior (suc n) j rings u = elem_at u (j * 3 + 1) >>= λ etype. elim (etype == 1003) [
  | true ↦ ok (j, rings)
  | false ↦ next_exterior n (j + 1) (rings + 1) u
]
