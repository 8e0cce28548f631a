-- ===== src/Gis/Decode.antt =====
-- oracle_gis.c, oracleEWKBToGeom and the functions named set...: from the bytes of a PostGIS
-- geometry to an SDO_GEOMETRY. Each takes the pointer into the input and returns where it points
-- after what has been read.
pub mod Shapes
pub mod Append
pub mod Rings
pub mod Multi
use oracle_fdw.Base.{
  ℕ, zero, suc, ◌+◌, ◌-◌, ◌*◌, ◌/◌, ◌%◌, ◌^◌, Bool, true, false, not, ◌&&◌, ◌||◌, List, [], ◌∷◌,
  Option, none, some, Bytes, length, leb, ltb, ◌==◌, if◌then◌else◌,
}
use oracle_fdw.Memory.{u32, read_unsigned, read_double, read_le, advance}
use oracle_fdw.Oci.{Ind, null, not_null, Indicator, SdoGeometry, Oci}
use oracle_fdw.Result.{
  Result, ok, err, ◌>>=◌, object_new_failed, measure_with_z, geodetic, type_unsupported,
  type_unknown, unexpected_type, bytes_read,
}
use oracle_fdw.Gis.Geometry.{
  Geometry, Unpacked, or_error, uint_to_number, number_to_uint, sdo_dimension, ewkb_type,
  point_type, line_type, polygon_type, multi_point_type, multi_line_type, multi_polygon_type,
}
use oracle_fdw.Gis.Srid.{SridFile, SridMap, epsg_to_oracle}
use Shapes.{set_point, set_line, set_polygon, set_multi_point, set_multi_line, set_multi_polygon}

-- data[0] & 2 ^ k
abbrev bit : ℕ → ℕ → Bool
bit k byte = byte / 2 ^ k % 2 == 1

-- The three bytes of the SRID, of which 21 bits are kept: (srid<<11)>>11 on an unsigned.
unfoldable pub srid_of_bytes : ℕ → ℕ → ℕ → ℕ
srid_of_bytes b0 b1 b2 = u32 ((b0 * 2 ^ 16 + b1 * 2 ^ 8 + b2) * 2 ^ 11) / 2 ^ 11

-- SDO_GTYPE without the type, from the byte with the flags.
unfoldable pub gtype_of_flags : ℕ → Result ℕ
gtype_of_flags flags =
    let gtype = if bit 0 flags then 3000 else 2000 in
    if bit 1 flags && leb 4000 (gtype + 1300)
    then err measure_with_z
    else if bit 3 flags
    then err geodetic
    else ok (if bit 1 flags then gtype + 1300 else gtype)

-- How far the flags and the bounding box reach.
unfoldable pub flags_size : ℕ → ℕ → ℕ
flags_size flags gtype = if bit 2 flags then 1 + 2 * (gtype / 1000) * 4 else 1

module _ (o : Oci) where
  -- The SRID, which is NULL for zero.
  unfoldable pub set_srid : Geometry o → ℕ → Result (Geometry o)
  set_srid g srid =
      if srid == 0
      then ok (record g { indicator = record g.indicator { sdo_srid = null } })
      else (do
        n ← uint_to_number o srid
        ok (record g {
          indicator = record g.indicator { sdo_srid = not_null };
          geometry = record g.geometry { sdo_srid = n };
        }))

  unfoldable pub set_gtype : Geometry o → ℕ → Result (Geometry o)
  set_gtype g gtype = do
    n ← uint_to_number o gtype
    ok (record g {
      indicator = record g.indicator { sdo_gtype = not_null };
      geometry = record g.geometry { sdo_gtype = n };
    })

  unfoldable pub set_srid_and_flags :
      SridFile → SridMap → Geometry o → Bytes → Result (Geometry o × Bytes × SridMap)
  set_srid_and_flags file m g src = do
    (b0, src) ← read_le 1 src
    (b1, src) ← read_le 1 src
    (b2, src) ← read_le 1 src
    (srid, m) ← epsg_to_oracle file m (srid_of_bytes b0 b1 b2)
    g ← set_srid g srid
    (flags, _) ← read_le 1 src
    gtype ← gtype_of_flags flags
    src ← advance (flags_size flags gtype) src
    g ← set_gtype g gtype
    ok (g, src, m)

-- What setType adds to SDO_GTYPE.
unfoldable pub gtype_offset : ℕ → Result ℕ
gtype_offset wkb_type =
    if wkb_type == point_type
    then ok 1
    else if wkb_type == line_type
    then ok 2
    else if wkb_type == polygon_type
    then ok 3
    else if wkb_type == multi_point_type
    then ok 5
    else if wkb_type == multi_line_type
    then ok 6
    else if wkb_type == multi_polygon_type
    then ok 7
    else if leb 7 wkb_type && leb wkb_type 15
    then err (type_unsupported wkb_type)
    else err (type_unknown wkb_type)

module _ (o : Oci) where
  -- The caller does not use the pointer that setType returns.
  unfoldable pub set_type : Geometry o → Bytes → Result (Geometry o)
  set_type g src = do
    (wkb_type, _) ← read_unsigned src
    gtype ← number_to_uint o g.geometry.sdo_gtype
    k ← gtype_offset wkb_type
    set_gtype o g (u32 (gtype + k))

  -- oracleGeometryAlloc, and the fields that oracleEWKBToGeom initialises
  unfoldable pub geometry_alloc : Result (Geometry o)
  geometry_alloc = do
    r ← or_error object_new_failed o.object_new
    ok (record { geometry = r.0; indicator = record r.1 { atomic = null }; unpacked = none })

  -- The switch of oracleEWKBToGeom.
  unfoldable pub set_shape : ℕ → Geometry o → Bytes → Result (Geometry o × Bytes)
  set_shape type g src =
      if type == point_type
      then set_point o g src
      else if type == line_type
      then set_line o g src
      else if type == polygon_type
      then set_polygon o g src
      else if type == multi_point_type
      then set_multi_point o g src
      else if type == multi_line_type
      then set_multi_line o g src
      else if type == multi_polygon_type
      then set_multi_polygon o g src
      else err (unexpected_type type)

  -- The indicators of the two collections: NULL for points.
  unfoldable pub mark_arrays : ℕ → Geometry o → Geometry o
  mark_arrays type g =
      let ind = if type == point_type then null else not_null in
      record g { indicator = record g.indicator { sdo_ordinates = ind; sdo_elem_info = ind } }

  -- From the bytes of an EWKB to the object, with the number of the bytes that were read.
  unfoldable pub read_ewkb :
      SridFile → SridMap → Geometry o → Bytes → Result (Geometry o × Bytes × SridMap)
  read_ewkb file m g src = do
    (g, src, m) ← set_srid_and_flags o file m g src
    g ← set_type g src
    type ← ewkb_type o g
    (g, src) ← set_shape type (mark_arrays type g) src
    ok (g, src, m)

  -- `ewkb_data` is none for a NULL pointer. The object comes with the state of srid_map.
  unfoldable pub ewkb_to_geom :
      SridFile → SridMap → ℕ → Option Bytes → Result (Geometry o × SridMap)
  ewkb_to_geom file m ewkb_length none = do g ← geometry_alloc; ok (g, m)
  ewkb_to_geom file m ewkb_length (some ewkb_data) = do
    g ← geometry_alloc
    if ewkb_length == 0 then ok (g, m) else (do
      (g, rest, m) ←
          read_ewkb file m (record g { indicator = record g.indicator { atomic = not_null } })
            ewkb_data
      if length ewkb_data - length rest == ewkb_length
          then ok (g, m)
          else err (bytes_read (length ewkb_data - length rest) ewkb_length))
