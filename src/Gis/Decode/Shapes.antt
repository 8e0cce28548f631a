-- ===== src/Gis/Decode/Shapes.antt =====
-- setPoint, setLine and the others: the coordinates go to SDO_POINT or to the end of SDO_ORDINATES,
-- and an entry of three numbers for each element goes to the end of SDO_ELEM_INFO.
use oracle_fdw.Base.{ℕ, zero, suc, ◌+◌, ◌*◌, ◌%◌, ◌==◌, if◌then◌else◌, Bytes}
use oracle_fdw.Memory.{u32, read_unsigned, read_double, advance}
use oracle_fdw.Oci.{not_null, Oci}
use oracle_fdw.Result.{
  Result, ok, err, ◌>>=◌, append_elem_info_failed, append_coord_failed, coll_size_failed,
  empty_shape, empty_point_inside, expected_type,
}
use oracle_fdw.Gis.Geometry.{
  Geometry, or_error, uint_to_number, double_to_number, sdo_dimension, point_type, line_type,
  polygon_type, multi_point_type, multi_line_type, multi_polygon_type,
}

-- The type at `data` must be `type`; data += sizeof(unsigned).
unfoldable pub expect_type : ℕ → Bytes → Result Bytes
expect_type type src = do
  (t, src) ← read_unsigned src
  if t == type then ok src else err (expected_type type t)

-- The number at `data`, which must not be zero.
unfoldable pub read_count : Bytes → Result (ℕ × Bytes)
read_count src = do (n, src) ← read_unsigned src; if n == 0 then err empty_shape else ok (n, src)

module _ (o : Oci) where
  unfoldable pub append_elem_info : Geometry o → ℕ → Result (Geometry o)
  append_elem_info g info = do
    n ← uint_to_number o info
    c ← or_error append_elem_info_failed (o.coll_append n g.geometry.sdo_elem_info)
    ok (record g { geometry = record g.geometry { sdo_elem_info = c } })

  unfoldable pub append_coord : Geometry o → ℕ → Result (Geometry o)
  append_coord g x = do
    n ← double_to_number o x
    c ← or_error append_coord_failed (o.coll_append n g.geometry.sdo_ordinates)
    ok (record g { geometry = record g.geometry { sdo_ordinates = c } })

  unfoldable pub num_coord : Geometry o → Result ℕ
  num_coord g = or_error coll_size_failed (o.coll_size g.geometry.sdo_ordinates)

  -- Three calls of appendElemInfo.
  unfoldable pub append_triple : Geometry o → ℕ → ℕ → ℕ → Result (Geometry o)
  append_triple g offset etype interpretation = do
    g ← append_elem_info g offset
    g ← append_elem_info g etype
    append_elem_info g interpretation

  -- The loop that appends `n` coordinates.
  unfoldable pub append_coords : ℕ → Geometry o → Bytes → Result (Geometry o × Bytes)
  append_coords zero g src = ok (g, src)
  append_coords (suc n) g src = do
    (x, src) ← read_double src
    g ← append_coord g x
    append_coords n g src

  -- An element with its `n` coordinates: the triple has the index of the first one.
  unfoldable pub append_element : ℕ → ℕ → Geometry o → Bytes → Result (Geometry o × Bytes)
  append_element etype n g src = do
    start ← num_coord g
    g ← append_triple g (u32 (start + 1)) etype 1
    append_coords n g src

  -- A coordinate of SDO_POINT.
  unfoldable pub set_z : ℕ → Geometry o → Bytes → Result (Geometry o × Bytes)
  set_z dim g src =
      if dim == 3
      then (do
        (x, src) ← read_double src
        n ← double_to_number o x
        ok (
          record g {
            geometry = record g.geometry { point_z = n };
            indicator = record g.indicator { point_z = not_null };
          },
          src,
        ))
      else ok (g, src)

  unfoldable pub set_point : Geometry o → Bytes → Result (Geometry o × Bytes)
  set_point g src = do
    src ← expect_type point_type src
    (count, src) ← read_unsigned src
    if count == 1
        then (do
          (x, src) ← read_double src
          nx ← double_to_number o x
          (y, src) ← read_double src
          ny ← double_to_number o y
          let g' = record g {
            geometry = record g.geometry { point_x = nx; point_y = ny };
            indicator = record g.indicator {
              point_atomic = not_null;
              point_x = not_null;
              point_y = not_null;
            };
          }
          dim ← sdo_dimension o g'
          set_z dim g' src)
        else err empty_shape

  unfoldable pub set_line : Geometry o → Bytes → Result (Geometry o × Bytes)
  set_line g src = do
    src ← expect_type line_type src
    (count, src) ← read_unsigned src
    dim ← sdo_dimension o g
    if u32 (count * dim) == 0 then err empty_shape else append_element 2 (u32 (count * dim)) g src

  -- The loop over the rings: `sizes` is ringSizeData, `etype` the type of the next ring.
  unfoldable pub set_rings : ℕ → ℕ → ℕ → Geometry o → Bytes → Bytes → Result (Geometry o × Bytes)
  set_rings zero etype dim g sizes src = ok (g, src)
  set_rings (suc n) etype dim g sizes src = do
    (count, sizes) ← read_unsigned sizes
    (g, src) ← append_element etype (u32 (count * dim)) g src
    set_rings n 2003 dim g sizes src

  unfoldable pub set_polygon : Geometry o → Bytes → Result (Geometry o × Bytes)
  set_polygon g src = do
    dim ← sdo_dimension o g
    src ← expect_type polygon_type src
    (rings, sizes) ← read_count src
    src ← advance (u32 (rings + rings % 2) * 4) sizes
    set_rings rings 1003 dim g sizes src

  unfoldable pub set_points : ℕ → ℕ → Geometry o → Bytes → Result (Geometry o × Bytes)
  set_points zero dim g src = ok (g, src)
  set_points (suc n) dim g src = do
    src ← expect_type point_type src
    (count, src) ← read_unsigned src
    (g, src) ← if count == 1 then append_coords dim g src else err empty_point_inside
    set_points n dim g src

  unfoldable pub set_multi_point : Geometry o → Bytes → Result (Geometry o × Bytes)
  set_multi_point g src = do
    dim ← sdo_dimension o g
    src ← expect_type multi_point_type src
    (points, src) ← read_count src
    (g, src) ← set_points points dim g src
    g ← append_triple g 1 1 1
    ok (g, src)

  unfoldable pub set_lines : ℕ → Geometry o → Bytes → Result (Geometry o × Bytes)
  set_lines zero g src = ok (g, src)
  set_lines (suc n) g src = do (g, src) ← set_line g src; set_lines n g src

  unfoldable pub set_multi_line : Geometry o → Bytes → Result (Geometry o × Bytes)
  set_multi_line g src = do
    src ← expect_type multi_line_type src
    (lines, src) ← read_count src
    set_lines lines g src

  unfoldable pub set_polygons : ℕ → Geometry o → Bytes → Result (Geometry o × Bytes)
  set_polygons zero g src = ok (g, src)
  set_polygons (suc n) g src = do (g, src) ← set_polygon g src; set_polygons n g src

  unfoldable pub set_multi_polygon : Geometry o → Bytes → Result (Geometry o × Bytes)
  set_multi_polygon g src = do
    src ← expect_type multi_polygon_type src
    (polygons, src) ← read_count src
    set_polygons polygons g src
