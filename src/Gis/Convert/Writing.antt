-- ===== src/Gis/Convert/Writing.antt =====
-- The Len and Fill routines on a geometry that stands for a shape.
use oracle_fdw.Base.{
  ℕ, ◌*◌, ◌/◌, ◌^◌, ◌<◌, ◌≡◌, refl, ap, ◌∙◌, inl, inr, List, [], ◌∷◌, ◌++◌, some, Option, arith,
  length, length-append, All, append-nil,
}
use oracle_fdw.Oci.{Oci}
use oracle_fdw.Result.{ok}
use oracle_fdw.Gis.Ewkb.{
  Shape, IsShape, IsDim, IsSequence, elements, elements_of, polygon_elements, polygons_elements,
  elem_array, coord_array, print_point, print_line, print_polygon, print_all, print_shape, concat,
  type_number,
}
use oracle_fdw.Gis.Ewkb.Arrays.{
  coord_array-ring_elements, coord_array-elements_of, length-ring_elements, length-elements_of,
}
use oracle_fdw.Gis.Geometry.{Geometry, Unpacked, sdo_dimension}
use oracle_fdw.Gis.Encode.{shape_len, shape_fill}
use oracle_fdw.Gis.Encode.Shapes.{
  point_len, line_len, polygon_len, multi_point_len, multi_line_len, multi_polygon_len, line_fill,
  polygon_fill, multi_point_fill, multi_line_fill, multi_polygon_fill,
}
use oracle_fdw.Gis.Convert.Unpacking.{unpacked_of}
use oracle_fdw.Gis.Convert.Rings.{rings_of, divide-IsDim, fill_coords_all, num_coords_lem}
use oracle_fdw.Gis.Convert.Walks.{fill_ring_sizes_lem, fill_lines_lem, fill_points_lem}
use oracle_fdw.Gis.Convert.Polygons.{AreNonempty, rings_of-ring_elements, count_exterior-polygons}
use oracle_fdw.Gis.Convert.MultiPolygons.{sum_padding_lem, fill_polygons_lem}
use oracle_fdw.Gis.Convert.Lengths.{
  length-two, length-print_point, length-print_line, length-print_polygon, length-points,
  length-lines, length-polygons, num_triples_lem, coords_size_lem,
}

-- What ewkbLineLen and the others compute for a shape that is no point.
abbrev pub IsStored : Shape → Option Unpacked → Type 0
IsStored (Shape.point c) u = Unit
IsStored s u = u ≡ some (unpacked_of (elements s))

length-concat :
    (dim : ℕ) (ps : List (List ℕ))
    → All (λ p. length p ≡ dim) ps
    → length (concat ps) ≡ length ps * dim
length-concat dim [] h = omega arith
length-concat dim (p ∷ ps) h = grind (arith, length-append p (concat ps), length-concat dim ps h.1)

rings_of-elements_of : (etype : ℕ) (cs : List (List ℕ)) → rings_of (elements_of etype cs) ≡ cs
rings_of-elements_of etype [] = refl
rings_of-elements_of etype (c ∷ cs) = rw (rings_of-elements_of etype cs)

quotient : (dim n : ℕ) → IsDim dim → n * dim / dim ≡ n
quotient dim n (inl d) = rw d (omega arith)
quotient dim n (inr d) = rw d (omega arith)

nonempty :
    (dim : ℕ) (ps : List (List (List ℕ)))
    → All (λ rs. All (IsSequence dim) rs × (0 < length rs)) ps
    → AreNonempty ps
nonempty dim [] h = tt
nonempty dim (rs ∷ ps) h = (h.0.1, nonempty dim ps h.1)

module _ (o : Oci) (dim : ℕ) (d : IsDim dim) (g : Geometry o)
    (gd : sdo_dimension o g ≡ ok dim) where
  pub shape_len_lem :
      (s : Shape)
      → IsShape dim s
      → IsStored s g.unpacked
      → length (coord_array (elements s)) < 2 ^ 31
      → length (print_shape dim s) < 2 ^ 32
      → shape_len o (type_number s) g ≡ ok (length (print_shape dim s))
  unfolding shape_len point_len line_len polygon_len multi_point_len multi_line_len
      multi_polygon_len
  shape_len_lem (Shape.point c) w u small fits =
      rw gd (ap ok (omega (arith, length-print_point c, fits, w)))
  shape_len_lem (Shape.line c) w u small fits = rw u (
      rw (coords_size_lem (elements (Shape.line c)) small)
        (ap ok (omega (arith, length-print_line dim c, length-append c [], fits))))
  shape_len_lem (Shape.polygon rs) w u small fits = rw u (
      rw (coords_size_lem (polygon_elements rs) small) (
        rw (num_triples_lem (polygon_elements rs)) (
          rw (length-ring_elements 1003 rs) (
            ap ok (
              omega (
                arith,
                length-print_polygon dim rs,
                ap length (coord_array-ring_elements 1003 rs),
                fits,
              ))))))
  shape_len_lem (Shape.multi_point ps) w u small fits =
      let n = length ps in
      let count : length (concat ps ++ []) ≡ n * dim =
        length-append (concat ps) [] ∙ omega (arith, length-concat dim ps w.0) in
      let points : length (concat ps ++ []) / dim ≡ n = rw count (quotient dim n d) in
      rw gd (
        rw u (
          rw (num_coords_lem (elements (Shape.multi_point ps))) (
            rw (divide-IsDim (length (concat ps ++ [])) dim d) (
              rw points (
                ap ok (
                  omega (
                    arith,
                    length-two 4 n (print_all print_point ps),
                    length-points ps,
                    length-append (concat ps) [],
                    fits,
                  )))))))
  shape_len_lem (Shape.multi_line ls) w u small fits = rw u (
      rw (coords_size_lem (elements_of 2 ls) small) (
        rw (num_triples_lem (elements_of 2 ls)) (
          rw (length-elements_of 2 ls) (
            ap ok (
              omega (
                arith,
                length-two 5 (length ls) (print_all (print_line dim) ls),
                length-lines dim ls,
                ap length (coord_array-elements_of 2 ls),
                fits,
              ))))))
  shape_len_lem (Shape.multi_polygon ps) w u small fits =
      let es = polygons_elements ps in
      let ne = nonempty dim ps w.0 in
      rw u (
        rw (num_triples_lem es) (
          rw (count_exterior-polygons ps ne) (
            rw (sum_padding_lem [] ps 0 (length es) ne refl refl) (
              rw (coords_size_lem es small) (
                ap ok (
                  omega (
                    arith,
                    length-two 6 (length ps) (print_all (print_polygon dim) ps),
                    length-polygons dim ps,
                    fits,
                  )))))))

  -- The shapes that are no points.
  pub shape_fill_lem :
      (s : Shape)
      → IsShape dim s
      → g.unpacked ≡ some (unpacked_of (elements s))
      → 0 < length (elements s)
      → length (coord_array (elements s)) < 2 ^ 31
      → shape_fill o (type_number s) g ≡ ok (print_shape dim s)
  unfolding shape_fill line_fill polygon_fill multi_point_fill multi_line_fill multi_polygon_fill
  shape_fill_lem (Shape.point c) w u p small = absurd (omega (arith, p))
  shape_fill_lem (Shape.line c) w u p small =
      let es = elements (Shape.line c) in
      rw gd (
        rw u (
          rw (num_coords_lem es) (
            rw (divide-IsDim (length (c ++ [])) dim d)
              (rw (fill_coords_all (c ++ []) (elem_array 0 es)) (rw (append-nil c))))))
  shape_fill_lem (Shape.polygon rs) w u p small =
      let es = polygon_elements rs in
      let whole = append-nil es in
      let rings = length-ring_elements 1003 rs in
      rw gd (
        rw u (
          rw (num_triples_lem es) (
            rw
              (rw whole at (
                fill_ring_sizes_lem dim d [] es [] 0 (length es) (rw whole small) refl
                  (rw whole refl)))
              (rw (num_coords_lem es) (
                rw (fill_coords_all (coord_array es) (elem_array 0 es)) (
                  rw rings (
                    rw (coord_array-ring_elements 1003 rs)
                      (rw (rings_of-ring_elements 1003 rs)))))))))
  shape_fill_lem (Shape.multi_point ps) w u p small =
      let n = length ps in
      let es = elements (Shape.multi_point ps) in
      let count : length (concat ps ++ []) ≡ n * dim =
        length-append (concat ps) [] ∙ omega (arith, length-concat dim ps w.0) in
      let points : length (concat ps ++ []) / dim ≡ n = rw count (quotient dim n d) in
      rw gd (
        rw u (
          rw (num_coords_lem es) (
            rw (divide-IsDim (length (concat ps ++ [])) dim d) (
              rw points
                (rw (fill_points_lem dim ps [] [] (elem_array 0 es) 0 w.0 (omega arith)) refl)))))
  shape_fill_lem (Shape.multi_line ls) w u p small =
      let es = elements_of 2 ls in
      let whole = append-nil es in
      rw gd (
        rw u (
          rw (num_triples_lem es) (
            rw
              (rw whole at
                (fill_lines_lem dim d [] es [] 0 (length es) (rw whole small) refl (rw whole refl)))
              (rw (length-elements_of 2 ls) (rw (rings_of-elements_of 2 ls))))))
  shape_fill_lem (Shape.multi_polygon ps) w u p small =
      let es = polygons_elements ps in
      let ne = nonempty dim ps w.0 in
      rw gd (
        rw u (
          rw (num_triples_lem es) (
            rw (count_exterior-polygons ps ne)
              (rw (fill_polygons_lem dim [] ps 0 (length es) d ne small refl refl) refl))))
