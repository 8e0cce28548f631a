-- ===== src/Gis/Encode.antt =====
-- oracle_gis.c, oracleGetEWKBLen and oracleFillEWKB: from an SDO_GEOMETRY to the bytes of a PostGIS
-- geometry. A Fill routine returns the bytes that it writes at `dest`.
pub mod Rings
pub mod Shapes
use oracle_fdw.Base.{
  ℕ, ◌+◌, ◌/◌, ◌%◌, ◌^◌, Bool, true, false, ◌&&◌, ◌||◌, List, [], ◌∷◌, ◌++◌, Option, none, some,
  Bytes, length, ltb, ◌==◌, if◌then◌else◌,
}
use oracle_fdw.Memory.{u32}
use oracle_fdw.Oci.{Ind, null, not_null, Oci}
use oracle_fdw.Result.{
  Result, ok, err, fault, ◌>>=◌, ◌>>◌, null_pointer, out_of_bounds, four_dimensional,
  elem_unsupported, unexpected_type, bytes_written,
}
use oracle_fdw.Gis.Geometry.{
  Geometry, Unpacked, is_null, number_to_uint, ewkb_type, ewkb_is_measured, sdo_dimension,
  point_type, line_type, polygon_type, multi_point_type, multi_line_type, multi_polygon_type,
}
use oracle_fdw.Gis.Srid.{SridFile, SridMap, epsg_from_oracle}
use oracle_fdw.Gis.Unpack.{unpack}
use Shapes.{
  point_len, line_len, polygon_len, multi_point_len, multi_line_len, multi_polygon_len, point_fill,
  line_fill, polygon_fill, multi_point_fill, multi_line_fill, multi_polygon_fill,
}

-- Types and interpretations that oracleGetEWKBLen lets pass.
abbrev pub is_supported : ℕ → ℕ → Bool
is_supported etype interpretation =
    (etype == 1 && interpretation == 1)
    || (etype == 2 && interpretation == 1)
    || (etype == 1003 && interpretation == 1)
    || (etype == 2003 && interpretation == 1)

-- The loop over the entries of SDO_ELEM_INFO.
unfoldable pub check_elems : List ℕ → Result (Unit {0})
check_elems [] = ok tt
check_elems (offset ∷ etype ∷ interpretation ∷ rest) =
    let later = check_elems rest in
    if is_supported etype interpretation then later else err (elem_unsupported etype interpretation)
check_elems _ = fault out_of_bounds

unfoldable pub check_elem_info : Ind → Option Unpacked → Result (Unit {0})
check_elem_info null u = ok tt
check_elem_info not_null none = fault null_pointer
check_elem_info not_null (some u) = check_elems u.elem

-- The three bytes of the SRID.
unfoldable pub srid_bytes : ℕ → Bytes
srid_bytes srid = (srid / 2 ^ 16 % 2 ^ 5) ∷ (srid / 2 ^ 8 % 2 ^ 8) ∷ (srid % 2 ^ 8) ∷ []

-- The byte with the flags.
unfoldable pub flags_of : Bool → ℕ → ℕ
flags_of measured dim = if measured then 2 else if dim == 3 then 1 else 0

abbrev pub header_len : ℕ
header_len = 4

module _ (o : Oci) where
  unfoldable pub ewkb_srid : SridFile → SridMap → Geometry o → Result (ℕ × SridMap)
  ewkb_srid file m g = elim g.indicator.sdo_srid [
    | null ↦ epsg_from_oracle file m 0
    | not_null ↦ number_to_uint o g.geometry.sdo_srid >>= λ srid. epsg_from_oracle file m srid
  ]

  unfoldable pub header_fill : SridFile → SridMap → Geometry o → Result (Bytes × SridMap)
  header_fill file m g = do
    (srid, m) ← ewkb_srid file m g
    dim ← sdo_dimension o g
    if ltb 3 dim then err four_dimensional else (do
      measured ← ewkb_is_measured o g
      ok (srid_bytes srid ++ flags_of measured dim ∷ [], m))

  -- The switch of oracleGetEWKBLen.
  unfoldable pub shape_len : ℕ → Geometry o → Result ℕ
  shape_len type g =
      if type == point_type
      then point_len o g
      else if type == line_type
      then line_len o g
      else if type == polygon_type
      then polygon_len o g
      else if type == multi_point_type
      then multi_point_len o g
      else if type == multi_line_type
      then multi_line_len o g
      else if type == multi_polygon_type
      then multi_polygon_len o g
      else err (unexpected_type type)

  -- if (geom->num_elems == -1) unpack(session, geom)
  unfoldable pub ensure_unpacked : Geometry o → Result (Geometry o)
  ensure_unpacked g = elim g.unpacked [ none ↦ unpack o g | some _ ↦ ok g ]

  -- The length, and the geometry as the call leaves it: unpacked.
  unfoldable pub get_ewkb_len : Geometry o → Result (ℕ × Geometry o)
  get_ewkb_len g = if is_null g.indicator.atomic then ok (0, g) else (do
    g ← ensure_unpacked g
    type ← ewkb_type o g
    check_elem_info g.indicator.sdo_elem_info g.unpacked
    len ← shape_len type g
    ok (u32 (header_len + len), g))

  -- The switch of oracleFillEWKB.
  unfoldable pub shape_fill : ℕ → Geometry o → Result Bytes
  shape_fill type g =
      if type == point_type
      then point_fill o g
      else if type == line_type
      then line_fill o g
      else if type == polygon_type
      then polygon_fill o g
      else if type == multi_point_type
      then multi_point_fill o g
      else if type == multi_line_type
      then multi_line_fill o g
      else if type == multi_polygon_type
      then multi_polygon_fill o g
      else err (unexpected_type type)

  -- The bytes written, the geometry after freeUnpacked and the state of srid_map.
  unfoldable pub fill_ewkb :
      SridFile → SridMap → Geometry o → ℕ → Result (Bytes × Geometry o × SridMap)
  fill_ewkb file m g size = do
    (header, m) ← header_fill file m g
    type ← ewkb_type o g
    shape ← shape_fill type g
    if length (header ++ shape) == size
        then ok (header ++ shape, record g { unpacked = none }, m)
        else err (bytes_written (length (header ++ shape)) size)
