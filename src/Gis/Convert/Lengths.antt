-- ===== src/Gis/Convert/Lengths.antt =====
-- The Len routines give the length of what the description of the format lays out.
use oracle_fdw.Base.{
  ℕ, ◌+◌, ◌*◌, ◌/◌, ◌%◌, ◌^◌, ◌<◌, ◌≡◌, refl, ap, List, [], ◌∷◌, ◌++◌, some, arith, length,
  length-append, Bytes,
}
use oracle_fdw.Memory.{unsigned_fill, double_fill}
use oracle_fdw.Memory.Laws.{length-unsigned_fill, length-double_fill}
use oracle_fdw.Gis.Ewkb.{
  Element, polygon_elements, polygons_elements, coord_array, doubles, sizes, padding, print_point,
  print_line, print_polygon, print_all, concat,
}
use oracle_fdw.Gis.Ewkb.Arrays.{
  coord_array-append, coord_array-ring_elements, length-elem_array, length-ring_elements,
}
use oracle_fdw.Gis.Geometry.{num_triples, coords_size}
use oracle_fdw.Gis.Decode.Rings.{length-sizes, length-padding}
use oracle_fdw.Gis.Convert.Unpacking.{unpacked_of}
use oracle_fdw.Gis.Convert.MultiPolygons.{odd_polygons}

length-doubles : (xs : List ℕ) → length (doubles xs) ≡ 8 * length xs
length-doubles [] = refl
length-doubles (x ∷ xs) =
    rw (length-append (double_fill x) (doubles xs))
      (omega (arith, length-double_fill x, length-doubles xs))

-- Two unsigned numbers, and what follows.
pub length-two :
    (a b : ℕ) (xs : Bytes) → length (unsigned_fill a ++ unsigned_fill b ++ xs) ≡ 8 + length xs
length-two a b xs =
    rw length-append
      (rw length-append (omega (arith, length-unsigned_fill a, length-unsigned_fill b)))

pub length-print_point : (c : List ℕ) → length (print_point c) ≡ 8 + 8 * length c
length-print_point c = omega (arith, length-two 1 1 (doubles c), length-doubles c)

pub length-print_line : (dim : ℕ) (c : List ℕ) → length (print_line dim c) ≡ 8 + 8 * length c
length-print_line dim c = omega (arith, length-two 2 (length c / dim) (doubles c), length-doubles c)

pub length-print_polygon :
    (dim : ℕ) (rs : List (List ℕ))
    → length (print_polygon dim rs) ≡ 8 + (length rs + length rs % 2) * 4 + 8 * length (concat rs)
length-print_polygon dim rs =
    let n = length rs in
    let head = unsigned_fill 3 ++ unsigned_fill n in
    rw (length-append (head ++ sizes dim rs ++ padding n) (doubles (concat rs))) (
      rw (length-append (head ++ sizes dim rs) (padding n)) (
        rw (length-append head (sizes dim rs)) (
          rw (length-append (unsigned_fill 3) (unsigned_fill n)) (
            omega (
              arith,
              length-unsigned_fill 3,
              length-unsigned_fill n,
              length-sizes dim rs,
              length-padding n,
              length-doubles (concat rs),
            )))))

pub length-points :
    (ps : List (List ℕ))
    → length (print_all print_point ps) ≡ 8 * length ps + 8 * length (concat ps)
length-points [] = refl
length-points (p ∷ ps) =
    rw (length-append (print_point p) (print_all print_point ps))
      (omega (arith, length-print_point p, length-points ps, length-append p (concat ps)))

pub length-lines :
    (dim : ℕ) (ls : List (List ℕ))
    → length (print_all (print_line dim) ls) ≡ 8 * length ls + 8 * length (concat ls)
length-lines dim [] = refl
length-lines dim (c ∷ cs) =
    rw (length-append (print_line dim c) (print_all (print_line dim) cs))
      (omega (arith, length-print_line dim c, length-lines dim cs, length-append c (concat cs)))

pub length-polygons :
    (dim : ℕ) (ps : List (List (List ℕ)))
    → length (print_all (print_polygon dim) ps)
      ≡ 8 * length ps
        + 4 * (length (polygons_elements ps) + odd_polygons ps)
        + 8 * length (coord_array (polygons_elements ps))
length-polygons dim [] = refl
length-polygons dim (rs ∷ ps) =
    let es = polygon_elements rs in
    let coords = ap length (coord_array-append es (polygons_elements ps)) in
    rw (length-append (print_polygon dim rs) (print_all (print_polygon dim) ps)) (
      omega (
        arith,
        length-print_polygon dim rs,
        length-polygons dim ps,
        length-append es (polygons_elements ps),
        length-ring_elements 1003 rs,
        coords,
        length-append (coord_array es) (coord_array (polygons_elements ps)),
        ap length (coord_array-ring_elements 1003 rs),
      ))

pub num_triples_lem : (es : List Element) → num_triples (some (unpacked_of es)) ≡ length es
unfolding num_triples
num_triples_lem es = omega (arith, length-elem_array 0 es)

pub coords_size_lem :
    (es : List Element)
    → length (coord_array es) < 2 ^ 31
    → coords_size (some (unpacked_of es)) ≡ 8 * length (coord_array es)
unfolding coords_size
coords_size_lem es h = omega arith
