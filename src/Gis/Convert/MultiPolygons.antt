-- ===== src/Gis/Convert/MultiPolygons.antt =====
-- ewkbMultiPolygonFill and the paddings of ewkbMultiPolygonLen, polygon after polygon.
use oracle_fdw.Base.{
  ℕ, ◌+◌, ◌-◌, ◌%◌, ◌^◌, ◌<◌, ◌≡◌, refl, ◌∙◌, List, [], ◌∷◌, ◌++◌, some, arith, length,
  length-append, append_assoc,
}
use oracle_fdw.Result.{ok}
use oracle_fdw.Gis.Ewkb.{
  Element, coord_array, ring_elements, polygon_elements, polygons_elements, IsDim, print_polygon,
  print_all,
}
use oracle_fdw.Gis.Ewkb.Arrays.{coord_array-ring_elements, length-ring_elements}
use oracle_fdw.Gis.Encode.Rings.{next_exterior}
use oracle_fdw.Gis.Encode.Shapes.{fill_polygon, fill_polygons, sum_padding}
use oracle_fdw.Gis.Convert.Unpacking.{unpacked_of}
use oracle_fdw.Gis.Convert.Walks.{fill_ring_sizes_lem, fill_rings_lem}
use oracle_fdw.Gis.Convert.Polygons.{AreNonempty, rings_of-ring_elements, next_exterior_lem}

fill_polygon_lem :
    (dim : ℕ) (before after : List Element) (rs : List (List ℕ)) (j total : ℕ)
    → IsDim dim
    → length (coord_array (before ++ (polygon_elements rs ++ after))) < 2 ^ 31
    → j ≡ length before
    → total ≡ length (before ++ (polygon_elements rs ++ after))
    → fill_polygon
        (length rs)
        dim
        total
        j
        (some (unpacked_of (before ++ (polygon_elements rs ++ after))))
      ≡ ok (print_polygon dim rs)
unfolding fill_polygon
fill_polygon_lem dim before after rs j total d small h t =
    let count = length-ring_elements 1003 rs in
    rw
      (rw count at (fill_ring_sizes_lem dim d before (polygon_elements rs) after j total small h t))
      (rw (rw count at (fill_rings_lem before (polygon_elements rs) after j total small h t))
        (rw (rings_of-ring_elements 1003 rs) (rw (coord_array-ring_elements 1003 rs))))

-- The step from the exterior ring of a polygon to the next one.
step_lem :
    (before : List Element) (r : List ℕ) (rs : List (List ℕ)) (ps : List (List (List ℕ)))
    (j total : ℕ)
    → AreNonempty ps
    → j ≡ length before
    → total ≡ length (before ++ (polygon_elements (r ∷ rs) ++ polygons_elements ps))
    → next_exterior
        (total - (j + 1))
        (j + 1)
        1
        (some (unpacked_of (before ++ (polygon_elements (r ∷ rs) ++ polygons_elements ps))))
      ≡ ok (j + length (r ∷ rs), length (r ∷ rs))
step_lem before r rs ps j total ne h t =
    let e : Element = record { etype = 1003; coords = r } in
    let rest = ring_elements 2003 rs ++ polygons_elements ps in
    let found =
      next_exterior_lem (before ++ (e ∷ [])) rs ps (total - (j + 1)) (j + 1) 1 ne
        (omega (arith, h, length-append before (e ∷ [])))
        (omega (arith, t, h, length-append before (e ∷ rest))) in
    rw (append_assoc before (e ∷ []) rest) at found ∙ ground arith

pub fill_polygons_lem :
    (dim : ℕ) (before : List Element) (ps : List (List (List ℕ))) (j total : ℕ)
    → IsDim dim
    → AreNonempty ps
    → length (coord_array (before ++ polygons_elements ps)) < 2 ^ 31
    → j ≡ length before
    → total ≡ length (before ++ polygons_elements ps)
    → fill_polygons (length ps) dim total j (some (unpacked_of (before ++ polygons_elements ps)))
      ≡ ok (print_all (print_polygon dim) ps)
unfolding fill_polygons
fill_polygons_lem dim before [] j total d ne small h t = refl
fill_polygons_lem dim before ([] ∷ ps) j total d ne small h t = absurd (omega (arith, ne.0))
fill_polygons_lem dim before ((r ∷ rs) ∷ ps) j total d ne small h t =
    let es = polygon_elements (r ∷ rs) in
    let moved = append_assoc before es (polygons_elements ps) in
    let next =
      fill_polygons_lem dim (before ++ es) ps (j + length (r ∷ rs)) total d ne.1 (rw moved small)
        (omega (arith, h, length-append before es, length-ring_elements 1003 (r ∷ rs)))
        (rw moved t) in
    let back : j + length (r ∷ rs) - length (r ∷ rs) ≡ j = omega arith in
    rw (step_lem before r rs ps j total ne.1 h t) (
      rw back (
        rw (fill_polygon_lem dim before (polygons_elements ps) (r ∷ rs) j total d small h t)
          (rw (rw moved at next) refl)))

-- One number of padding for each polygon with an odd number of rings.
abbrev pub odd_polygons : List (List (List ℕ)) → ℕ
odd_polygons [] = 0
odd_polygons (rs ∷ ps) = length rs % 2 + odd_polygons ps

pub sum_padding_lem :
    (before : List Element) (ps : List (List (List ℕ))) (j total : ℕ)
    → AreNonempty ps
    → j ≡ length before
    → total ≡ length (before ++ polygons_elements ps)
    → sum_padding (length ps) total j (some (unpacked_of (before ++ polygons_elements ps)))
      ≡ ok (odd_polygons ps)
unfolding sum_padding
sum_padding_lem before [] j total ne h t = refl
sum_padding_lem before ([] ∷ ps) j total ne h t = absurd (omega (arith, ne.0))
sum_padding_lem before ((r ∷ rs) ∷ ps) j total ne h t =
    let es = polygon_elements (r ∷ rs) in
    let moved = append_assoc before es (polygons_elements ps) in
    let next =
      sum_padding_lem (before ++ es) ps (j + length (r ∷ rs)) total ne.1
        (omega (arith, h, length-append before es, length-ring_elements 1003 (r ∷ rs)))
        (rw moved t) in
    rw (step_lem before r rs ps j total ne.1 h t) (rw (rw moved at next) refl)
