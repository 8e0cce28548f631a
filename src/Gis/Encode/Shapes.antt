-- ===== src/Gis/Encode/Shapes.antt =====
-- ewkbPointLen and the other Len routines, ewkbPointFill and the other Fill routines.
use oracle_fdw.Base.{
  ℕ, zero, suc, ◌+◌, ◌-◌, ◌*◌, ◌%◌, Bool, true, ◌&&◌, ◌||◌, [], ◌++◌, Option, none, some, Bytes,
  length, ltb, ◌==◌, if◌then◌else◌,
}
use oracle_fdw.Memory.{u32, unsigned_fill, double_fill}
use oracle_fdw.Oci.{Oci}
use oracle_fdw.Result.{
  Result, ok, err, ◌>>=◌, elem_info_null, ordinates_null, elem_info_short, point_etype,
  point_interpretation, point_null_coordinate,
}
use oracle_fdw.Gis.Geometry.{
  Geometry, Unpacked, is_null, number_to_double, sdo_dimension, divide, num_triples, num_coords,
  coords_size, elem_at, coord_at, point_type, line_type, polygon_type, multi_point_type,
  multi_line_type, multi_polygon_type,
}
use oracle_fdw.Gis.Unpack.{pred32}
use oracle_fdw.Gis.Encode.Rings.{
  fill_coords, fill_ring, ring_points, fill_ring_sizes, fill_rings, count_exterior, next_exterior,
}

-- geom->num_elems < 3, a signed comparison
abbrev short_elems : Option Unpacked → Bool
short_elems none = true
short_elems (some u) = ltb (length u.elem) 3

-- The bytes of a third coordinate, if there is one.
abbrev when_3d : ℕ → Result Bytes → Result Bytes
when_3d dim r = if dim == 3 then r else ok []

-- The loop over the points of a multipoint, at point `i`.
unfoldable pub fill_points : ℕ → ℕ → ℕ → Option Unpacked → Result Bytes
fill_points zero i dim u = ok []
fill_points (suc n) i dim u = do
  point ← fill_coords dim (i * dim) u
  rest ← fill_points n (i + 1) dim u
  ok (unsigned_fill point_type ++ unsigned_fill 1 ++ point ++ rest)

-- The loop over the lines of a multiline, at line `i`.
unfoldable pub fill_lines : ℕ → ℕ → ℕ → ℕ → Option Unpacked → Result Bytes
fill_lines zero dim total i u = ok []
fill_lines (suc n) dim total i u = do
  points ← ring_points dim total i u
  line ← fill_ring total i u
  rest ← fill_lines n dim total (i + 1) u
  ok (unsigned_fill line_type ++ unsigned_fill points ++ line ++ rest)

-- A polygon of a multipolygon, whose rings are `rings` rings from ring `j` on.
unfoldable pub fill_polygon : ℕ → ℕ → ℕ → ℕ → Option Unpacked → Result Bytes
fill_polygon rings dim total j u = do
  sizes ← fill_ring_sizes rings dim total j u
  coords ← fill_rings rings total j u
  let padding = if rings % 2 == 0 then [] else unsigned_fill 0
  ok (unsigned_fill polygon_type ++ unsigned_fill rings ++ sizes ++ padding ++ coords)

-- The loop over the polygons, the next of which begins at ring `j`.
unfoldable pub fill_polygons : ℕ → ℕ → ℕ → ℕ → Option Unpacked → Result Bytes
fill_polygons zero dim total j u = ok []
fill_polygons (suc n) dim total j u = do
  (end, rings) ← next_exterior (total - (j + 1)) (j + 1) 1 u
  polygon ← fill_polygon rings dim total (end - rings) u
  rest ← fill_polygons n dim total end u
  ok (polygon ++ rest)

-- The loop of ewkbMultiPolygonLen over the polygons: the sum of the paddings.
unfoldable pub sum_padding : ℕ → ℕ → ℕ → Option Unpacked → Result ℕ
sum_padding zero total j u = ok 0
sum_padding (suc n) total j u = do
  (end, rings) ← next_exterior (total - (j + 1)) (j + 1) 1 u
  rest ← sum_padding n total end u
  ok (rings % 2 + rest)

module _ (o : Oci) where
  unfoldable pub point_len : Geometry o → Result ℕ
  point_len g = do dim ← sdo_dimension o g; ok (u32 (2 * 4 + 8 * dim))

  unfoldable pub line_len : Geometry o → Result ℕ
  line_len g = ok (u32 (2 * 4 + coords_size g.unpacked))

  unfoldable pub polygon_len : Geometry o → Result ℕ
  polygon_len g =
      let rings = num_triples g.unpacked in
      ok (u32 ((rings + 2 + rings % 2) * 4 + coords_size g.unpacked))

  unfoldable pub multi_point_len : Geometry o → Result ℕ
  multi_point_len g = do
    dim ← sdo_dimension o g
    points ← divide (num_coords g.unpacked) dim
    ok (u32 (2 * 4 + 2 * 4 * points + 8 * num_coords g.unpacked))

  unfoldable pub multi_line_len : Geometry o → Result ℕ
  multi_line_len g = ok (u32 (2 * 4 + 2 * 4 * num_triples g.unpacked + coords_size g.unpacked))

  unfoldable pub multi_polygon_len : Geometry o → Result ℕ
  multi_polygon_len g = do
    let rings = num_triples g.unpacked
    polygons ← count_exterior rings 0 g.unpacked
    padding ← sum_padding polygons rings 0 g.unpacked
    ok (u32 (2 * 4 + polygons * (2 * 4) + (rings + padding) * 4 + coords_size g.unpacked))

  -- The point from SDO_ORDINATES.
  unfoldable pub fill_ordinates_point : ℕ → Geometry o → Result Bytes
  fill_ordinates_point dim g =
      if is_null g.indicator.sdo_elem_info
      then err elem_info_null
      else if is_null g.indicator.sdo_ordinates
      then err ordinates_null
      else if short_elems g.unpacked
      then err elem_info_short
      else (do
        offset ← elem_at g.unpacked 0
        etype ← elem_at g.unpacked 1
        interpretation ← elem_at g.unpacked 2
        if etype == 1
            then (if interpretation == 1
                then (do
                  x ← coord_at g.unpacked (pred32 offset)
                  y ← coord_at g.unpacked offset
                  z ← when_3d dim (coord_at g.unpacked (offset + 1) >>= λ z. ok (double_fill z))
                  ok (double_fill x ++ double_fill y ++ z))
                else err point_interpretation)
            else err point_etype)

  -- The point from SDO_POINT.
  unfoldable pub fill_sdo_point : ℕ → Geometry o → Result Bytes
  fill_sdo_point dim g =
      if is_null g.indicator.point_x
        || is_null g.indicator.point_y
        || (dim == 3 && is_null g.indicator.point_z)
      then err point_null_coordinate
      else (do
        x ← number_to_double o g.geometry.point_x
        y ← number_to_double o g.geometry.point_y
        z ← when_3d dim (number_to_double o g.geometry.point_z >>= λ z. ok (double_fill z))
        ok (double_fill x ++ double_fill y ++ z))

  unfoldable pub point_fill : Geometry o → Result Bytes
  point_fill g = do
    dim ← sdo_dimension o g
    coords ←
        if is_null g.indicator.point_atomic
        then fill_ordinates_point dim g
        else fill_sdo_point dim g
    ok (unsigned_fill point_type ++ unsigned_fill 1 ++ coords)

  unfoldable pub line_fill : Geometry o → Result Bytes
  line_fill g = do
    dim ← sdo_dimension o g
    points ← divide (num_coords g.unpacked) dim
    coords ← fill_coords (num_coords g.unpacked) 0 g.unpacked
    ok (unsigned_fill line_type ++ unsigned_fill points ++ coords)

  unfoldable pub polygon_fill : Geometry o → Result Bytes
  polygon_fill g = do
    dim ← sdo_dimension o g
    let rings = num_triples g.unpacked
    sizes ← fill_ring_sizes rings dim rings 0 g.unpacked
    let padding = if rings % 2 == 0 then [] else unsigned_fill 0
    coords ← fill_coords (num_coords g.unpacked) 0 g.unpacked
    ok (unsigned_fill polygon_type ++ unsigned_fill rings ++ sizes ++ padding ++ coords)

  unfoldable pub multi_point_fill : Geometry o → Result Bytes
  multi_point_fill g = do
    dim ← sdo_dimension o g
    points ← divide (num_coords g.unpacked) dim
    rest ← fill_points points 0 dim g.unpacked
    ok (unsigned_fill multi_point_type ++ unsigned_fill points ++ rest)

  unfoldable pub multi_line_fill : Geometry o → Result Bytes
  multi_line_fill g = do
    dim ← sdo_dimension o g
    let lines = num_triples g.unpacked
    rest ← fill_lines lines dim lines 0 g.unpacked
    ok (unsigned_fill multi_line_type ++ unsigned_fill lines ++ rest)

  unfoldable pub multi_polygon_fill : Geometry o → Result Bytes
  multi_polygon_fill g = do
    dim ← sdo_dimension o g
    let rings = num_triples g.unpacked
    polygons ← count_exterior rings 0 g.unpacked
    rest ← fill_polygons polygons dim rings 0 g.unpacked
    ok (unsigned_fill multi_polygon_type ++ unsigned_fill polygons ++ rest)
