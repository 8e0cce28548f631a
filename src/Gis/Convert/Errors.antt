-- ===== src/Gis/Convert/Errors.antt =====
-- oracle_gis.c on a line without its collections, for whatever OCI answers.
use oracle_fdw.Base.{ℕ, ◌<◌, ◌≡◌, none, arith, Bytes}
use oracle_fdw.Oci.{Oci, null, not_null}
use oracle_fdw.Result.{ok, fault, null_pointer}
use oracle_fdw.Gis.Geometry.{
  Geometry, coords_size, num_coords, divide, coord_at, ewkb_type, sdo_dimension,
}
use oracle_fdw.Gis.Srid.{SridFile, SridMap}
use oracle_fdw.Gis.Encode.{
  header_fill, shape_fill, get_ewkb_len, fill_ewkb, ensure_unpacked, check_elem_info, shape_len,
}
use oracle_fdw.Gis.Encode.Shapes.{line_len, line_fill}
use oracle_fdw.Gis.Encode.Rings.{fill_coords}
use oracle_fdw.Gis.Unpack.{unpack}

module _ (o : Oci) where
  -- A line with an SDO_GTYPE of 2002 or 3002 whose SDO_ELEM_INFO and SDO_ORDINATES are both NULL:
  -- oracleGetEWKBLen takes it for a geometry of 4 bytes, the header without any type, and
  -- oracleFillEWKB dereferences a null pointer.
  pub null_line_lem :
      (file : SridFile) (m : SridMap) (g : Geometry o) (dim size : ℕ) (h : Bytes × SridMap)
      → g.indicator.atomic ≡ not_null
      → g.indicator.sdo_elem_info ≡ null
      → g.indicator.sdo_ordinates ≡ null
      → g.unpacked ≡ none
      → ewkb_type o g ≡ ok 2
      → sdo_dimension o g ≡ ok dim
      → 0 < dim
      → header_fill o file m g ≡ ok h
      → (get_ewkb_len o g ≡ ok (4, g)) × (fill_ewkb o file m g size ≡ fault null_pointer)
  unfolding get_ewkb_len ensure_unpacked unpack check_elem_info shape_len line_len coords_size
      fill_ewkb shape_fill line_fill num_coords divide fill_coords coord_at
  null_line_lem file m g dim size h a ei oi u t d p hd =
      (ground (arith, t), rw hd (rw t (rw d (rw u (ground (arith, p))))))
