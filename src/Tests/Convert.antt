-- ===== src/Tests/Convert.antt =====
-- oracle_gis.c at concrete inputs, with a small implementation of OCI: a NUMBER is a natural
-- number, and a collection is a list without a maximal size.
use oracle_fdw.Base.{
  ℕ, ◌^◌, ◌<◌, ◌≡◌, refl, inl, true, false, List, [], ◌∷◌, ◌++◌, some, none, Option, Bool, ltb,
  ◌&&◌, arith, length, All, get_elem?,
}
use oracle_fdw.Oci.{Oci, OciLaws, SdoGeometry, Indicator, null, not_null}
use oracle_fdw.Memory.{unsigned_fill, double_fill, le_bytes}
use oracle_fdw.Result.{ok, fault, null_pointer, ◌>>=◌}
use oracle_fdw.Gis.Ewkb.{Shape, Layout, Ewkb, IsEwkb, IsShape, print, shape_coords, elements}
use oracle_fdw.Gis.Geometry.{
  Geometry, sdo_dimension, gtype_of, ewkb_is_measured, is_measured_of, ewkb_type, ewkb_type_of,
}
use oracle_fdw.Gis.Store.{IsExact}
use oracle_fdw.Gis.Srid.{
  find_from, SridFile, MapEntry, loaded, find_to, epsg_to_oracle, epsg_from_oracle, init_srid_map,
}
use oracle_fdw.Gis.Srid.Lookup.{HasDistinctFrom, loaded-some, epsg_from_oracle-epsg_to_oracle}
use oracle_fdw.Gis.Srid.Scan.{is_digit}
use oracle_fdw.Gis.Srid.Reading.{TextLine, IsWellFormed, init_srid_map-file_text, file_text}
use oracle_fdw.Gis.Srid.Loading.{AreValid, init_srid_map-IsValid}
use oracle_fdw.Gis.Decode.{ewkb_to_geom}
use oracle_fdw.Gis.Encode.{header_fill, ewkb_srid, srid_bytes, flags_of, get_ewkb_len, fill_ewkb}
use oracle_fdw.Gis.Convert.Reading.{ShapeFits, new_geometry, geometry_of, ewkb_to_geom-print}
use oracle_fdw.Gis.Convert.HeaderFill.{HasHeader}
use oracle_fdw.Gis.Convert.Unpacking.{unpacked_of}
use oracle_fdw.Gis.Convert.Unpacked.{unpack_lem}
use oracle_fdw.Gis.Unpack.{unpack}
use oracle_fdw.Gis.Convert.RoundTrip.{
  HoldsShape, unpacked_geometry, get_ewkb_len-elements, fill_ewkb-elements,
}
use oracle_fdw.Gis.Convert.Errors.{null_line_lem}
use oracle_fdw.Gis.Convert.Whole.{
  fill_ewkb-ewkb_to_geom, HasHeader-geometry_of, HoldsShape-geometry_of,
}

abbrev object : SdoGeometry ℕ (List (Option ℕ))
object = record {
  sdo_gtype = 0;
  sdo_srid = 0;
  point_x = 0;
  point_y = 0;
  point_z = 0;
  sdo_elem_info = [];
  sdo_ordinates = [];
}

abbrev indicator : Indicator
indicator = record {
  atomic = null;
  sdo_gtype = null;
  sdo_srid = null;
  point_atomic = null;
  point_x = null;
  point_y = null;
  point_z = null;
  sdo_elem_info = null;
  sdo_ordinates = null;
}

abbrev oci : Oci
oci = record {
  Number = ℕ;
  Array = List (Option ℕ);
  number_from_int = λ n. some n;
  number_to_int = λ n. some n;
  number_from_real = λ n. some n;
  number_to_real = λ n. some n;
  coll_append = λ n c. some (c ++ (some n ∷ []));
  coll_size = λ c. some (length c);
  coll_get_elem = λ c i. some (get_elem? c i);
  object_new = some (object, indicator);
}

from_some : (x n : ℕ) → some x ≡ some n → n ≡ x
from_some x n h = cc

abbrev oci_laws : OciLaws oci
oci_laws = record {
  int_number = λ n. n;
  from_int = λ n h. refl;
  to_int = λ n h. refl;
  real_number = λ n. n;
  from_real = from_some;
  contents = λ c. c;
  capacity = 1048576;
  capacity-lt = omega arith;
  appended = λ n c. c ++ (some n ∷ []);
  append = λ n c h. refl;
  contents-appended = λ n c. refl;
  size = λ c. refl;
  get_elem = λ c i. refl;
  new_object = object;
  new_indicator = indicator;
  new = refl;
  new_elem_info = refl;
  new_ordinates = refl;
}

-- WGS 84, which Oracle knows as 8307.
abbrev entries : List MapEntry
entries = record { from = 8307; to = 4326 } ∷ []

-- Two triangles, the first one with a hole, with SRID 4326.
abbrev triangles : Shape
triangles = Shape.multi_polygon (
    ((0 ∷ 0 ∷ 9 ∷ 0 ∷ 9 ∷ 9 ∷ 0 ∷ 0 ∷ []) ∷ (2 ∷ 1 ∷ 3 ∷ 1 ∷ 3 ∷ 2 ∷ 2 ∷ 1 ∷ []) ∷ [])
    ∷ ((20 ∷ 0 ∷ 29 ∷ 0 ∷ 29 ∷ 9 ∷ 20 ∷ 0 ∷ []) ∷ [])
    ∷ [])

abbrev ewkb : Ewkb
ewkb = record { srid = 4326; layout = Layout.xy; shape = triangles }

abbrev are_doubles : List ℕ → Bool
are_doubles [] = true
are_doubles (x ∷ xs) = ltb x (2 ^ 64) && are_doubles xs

IsExact-are_doubles : (xs : List ℕ) → are_doubles xs ≡ true → All (IsExact oci oci_laws) xs
IsExact-are_doubles [] h = tt
IsExact-are_doubles (x ∷ xs) h =
    ((ground (arith, h), refl, refl), IsExact-are_doubles xs (ground (arith, h)))

triangles-IsShape : IsShape 2 triangles
triangles-IsShape =
    ((((refl, (refl, tt)), omega arith), (((refl, tt), omega arith), tt)), omega arith)

ewkb-IsEwkb : IsEwkb ewkb
ewkb-IsEwkb = record { srid_lt = omega arith; is_shape = triangles-IsShape }

exact : All (IsExact oci oci_laws) (shape_coords triangles)
exact = IsExact-are_doubles (shape_coords triangles) refl

fits : ShapeFits oci oci_laws triangles (new_geometry oci oci_laws)
fits = record { elem_room = omega arith; coord_room = omega arith }

distinct : HasDistinctFrom entries
distinct = (refl, tt)

find_to-entries : find_to 4326 entries ≡ 8307
unfolding find_to
find_to-entries = refl

find_to-lt : find_to 4326 entries < 2 ^ 32
find_to-lt = omega (arith, find_to-entries)

short : length (print ewkb) < 2 ^ 32
unfolding unsigned_fill double_fill le_bytes
short = omega arith

abbrev new : Geometry oci
new = new_geometry oci oci_laws

fill_ewkb-ewkb_to_geom_example :
    (do
      (g, m) ←
          ewkb_to_geom oci SridFile.missing (some entries) (length (print ewkb)) (some (print ewkb))
      (len, g) ← get_ewkb_len oci g
      (bytes, g, m) ← fill_ewkb oci SridFile.missing m g len
      ok bytes)
    ≡ ok (print ewkb)
fill_ewkb-ewkb_to_geom_example =
    fill_ewkb-ewkb_to_geom oci oci_laws SridFile.missing (some entries) entries ewkb
      (loaded-some SridFile.missing entries) distinct (inl refl) find_to-lt ewkb-IsEwkb short exact
      fits

-- The object that is made from `ewkb`.
abbrev stored : Geometry oci
stored = geometry_of oci oci_laws ewkb 8307 new

stored-HasHeader : HasHeader oci oci_laws ewkb 8307 stored
stored-HasHeader = HasHeader-geometry_of oci oci_laws ewkb 8307

stored-HoldsShape : HoldsShape oci oci_laws triangles stored
stored-HoldsShape =
    HoldsShape-geometry_of oci oci_laws 4326 Layout.xy triangles 8307 (omega arith) exact fits

ewkb_to_geom-print_example :
    ewkb_to_geom oci SridFile.missing (some entries) (length (print ewkb)) (some (print ewkb))
    ≡ ok (geometry_of oci oci_laws ewkb (find_to 4326 entries) new, some entries)
ewkb_to_geom-print_example =
    ewkb_to_geom-print oci oci_laws SridFile.missing (some entries) entries ewkb
      (loaded-some SridFile.missing entries) find_to-lt ewkb-IsEwkb exact fits

get_ewkb_len-elements_example :
    get_ewkb_len oci stored
    ≡ ok (length (print ewkb), unpacked_geometry oci oci_laws triangles stored)
get_ewkb_len-elements_example =
    get_ewkb_len-elements oci oci_laws ewkb 8307 stored stored-HasHeader stored-HoldsShape
      ewkb-IsEwkb short

fill_ewkb-elements_example :
    fill_ewkb oci SridFile.missing
      (some entries)
      (unpacked_geometry oci oci_laws triangles stored)
      (length (print ewkb))
    ≡ ok (print ewkb, record stored { unpacked = none }, some entries)
fill_ewkb-elements_example =
    fill_ewkb-elements oci oci_laws SridFile.missing (some entries) entries ewkb stored
      (loaded-some SridFile.missing entries) distinct (inl refl) find_to-lt ewkb-IsEwkb
      (rw find_to-entries stored-HasHeader) stored-HoldsShape

unpack_lem_example :
    unpack oci stored ≡ ok (record stored { unpacked = some (unpacked_of (elements triangles)) })
unpack_lem_example =
    unpack_lem oci oci_laws (elements triangles) stored stored-HoldsShape.holds (omega arith)
      stored-HoldsShape.elem_info_set stored-HoldsShape.ordinates_set

epsg_from_oracle-epsg_to_oracle_example :
    (t : ℕ) × (epsg_to_oracle SridFile.missing (some entries) 4326 ≡ ok (t, some entries))
    × (epsg_from_oracle SridFile.unreadable (some entries) t ≡ ok (4326, some entries))
epsg_from_oracle-epsg_to_oracle_example =
    epsg_from_oracle-epsg_to_oracle SridFile.missing SridFile.unreadable (some entries) 4326 entries
      (loaded-some SridFile.missing entries) distinct (inl refl)

-- A line with two dimensions and no SRID, without its collections.
abbrev null_line : Geometry oci
null_line = record {
  geometry = record object { sdo_gtype = 2002 };
  indicator = record indicator { atomic = not_null; sdo_gtype = not_null };
  unpacked = none;
}

null_line-header :
    header_fill oci SridFile.missing (some []) null_line ≡ ok (0 ∷ 0 ∷ 0 ∷ 0 ∷ [], some [])
unfolding header_fill ewkb_srid epsg_from_oracle loaded find_from sdo_dimension gtype_of
    ewkb_is_measured is_measured_of srid_bytes flags_of
null_line-header = refl

null_line_lem_example :
    (get_ewkb_len oci null_line ≡ ok (4, null_line))
    × (fill_ewkb oci SridFile.missing (some []) null_line 4 ≡ fault null_pointer)
unfolding ewkb_type ewkb_type_of sdo_dimension gtype_of
null_line_lem_example =
    null_line_lem oci SridFile.missing (some []) null_line 2 4 (0 ∷ 0 ∷ 0 ∷ 0 ∷ [], some []) refl
      refl refl refl refl refl (omega arith) null_line-header

-- A file of two lines.
abbrev lines : List TextLine
lines =
    record {
      first = b'8' ∷ b'3' ∷ b'0' ∷ b'7' ∷ [];
      second = b'4' ∷ b'3' ∷ b'2' ∷ b'6' ∷ [];
      tail = [];
    }
    ∷ record {
      first = b'8' ∷ b'2' ∷ b'0' ∷ b'8' ∷ b'7' ∷ [];
      second = b'2' ∷ b'5' ∷ b'8' ∷ b'3' ∷ b'2' ∷ [];
      tail = [];
    }
    ∷ []

lines-IsWellFormed : All IsWellFormed lines
unfolding is_digit
lines-IsWellFormed = (
  record {
    first_digits = (refl, (refl, (refl, (refl, tt))));
    first_ne_nil = λ e. cc;
    second_digits = (refl, (refl, (refl, (refl, tt))));
    second_ne_nil = λ e. cc;
    tail_stops = tt;
    tail_plain = tt;
    in_range = record {
      from_pos = omega arith;
      from_max = omega arith;
      to_pos = omega arith;
      to_max = omega arith;
    };
    fits = omega arith;
  },
  (
    record {
      first_digits = (refl, (refl, (refl, (refl, (refl, tt)))));
      first_ne_nil = λ e. cc;
      second_digits = (refl, (refl, (refl, (refl, (refl, tt)))));
      second_ne_nil = λ e. cc;
      tail_stops = tt;
      tail_plain = tt;
      in_range = record {
        from_pos = omega arith;
        from_max = omega arith;
        to_pos = omega arith;
        to_max = omega arith;
      };
      fits = omega arith;
    },
    tt,
  ),
)

init_srid_map-file_text_example :
    init_srid_map (SridFile.readable (file_text lines) false)
    ≡ ok (record { from = 8307; to = 4326 } ∷ record { from = 82087; to = 25832 } ∷ [])
init_srid_map-file_text_example = init_srid_map-file_text lines lines-IsWellFormed

init_srid_map-IsValid_example : AreValid (
    init_srid_map
      (SridFile.readable (b'8' ∷ b'3' ∷ b'0' ∷ b'7' ∷ b' ' ∷ b'4' ∷ b'3' ∷ b'2' ∷ b'6' ∷ []) false))
init_srid_map-IsValid_example =
    init_srid_map-IsValid
      (SridFile.readable (b'8' ∷ b'3' ∷ b'0' ∷ b'7' ∷ b' ' ∷ b'4' ∷ b'3' ∷ b'2' ∷ b'6' ∷ []) false)
