-- ===== src/Gis/Geometry.antt =====
-- ora_geometry, and what oracle_gis.c reads from its SDO_GTYPE.
use oracle_fdw.Base.{
  ℕ, ◌-◌, ◌/◌, ◌%◌, ◌^◌, ◌*◌, Bool, List, Option, none, some, length, get_elem?, ◌==◌,
  if◌then◌else◌,
}
use oracle_fdw.Oci.{Ind, null, not_null, Indicator, SdoGeometry, Oci}
use oracle_fdw.Result.{
  Error, Result, ok, err, fault, ◌>>=◌, null_pointer, out_of_bounds, division_by_zero,
  number_to_int, int_to_number, real_to_number, number_to_real, gtype_null, collection_unsupported,
  solid_unsupported, multisolid_unsupported, gtype_unknown, measure_dimension,
}

-- The fields that unpack fills in; num_elems and num_coords are the lengths.
pub record Unpacked : Type 0 where
  pub elem : List ℕ
  pub coord : List ℕ

pub record Geometry (o : Oci) : Type 0 where
  pub geometry : SdoGeometry o.Number o.Array
  pub indicator : Indicator
  -- none while num_elems and num_coords are -1 and the pointers are NULL
  pub unpacked : Option Unpacked

-- POINTTYPE and the other constants
abbrev pub point_type : ℕ
point_type = 1

abbrev pub line_type : ℕ
line_type = 2

abbrev pub polygon_type : ℕ
polygon_type = 3

abbrev pub multi_point_type : ℕ
multi_point_type = 4

abbrev pub multi_line_type : ℕ
multi_line_type = 5

abbrev pub multi_polygon_type : ℕ
multi_polygon_type = 6

-- x != OCI_IND_NOTNULL
abbrev pub is_null : Ind → Bool
is_null null = Bool.true
is_null not_null = Bool.false

-- The result of a call that fails with `e`.
abbrev pub or_error {ℓ} : {A : Type ℓ} → Error → Option A → Result A
or_error e none = err e
or_error e (some a) = ok a

-- An array element that is read; behind the end the memory is not the array's.
abbrev pub at : List ℕ → ℕ → Result ℕ
at xs i = elim (get_elem? xs i) [ none ↦ fault out_of_bounds | some x ↦ ok x ]

-- a / b in C
unfoldable pub divide : ℕ → ℕ → Result ℕ
divide a b = if b == 0 then fault division_by_zero else ok (a / b)

-- geom->num_elems / 3, a signed division, as an unsigned
unfoldable pub num_triples : Option Unpacked → ℕ
num_triples none = 0
num_triples (some u) = length u.elem / 3

-- geom->num_coords as an unsigned: -1 is 2 ^ 32 - 1
unfoldable pub num_coords : Option Unpacked → ℕ
num_coords none = 2 ^ 32 - 1
num_coords (some u) = length u.coord

-- sizeof(double) * geom->num_coords, a size_t: -1 is 2 ^ 64 - 1
unfoldable pub coords_size : Option Unpacked → ℕ
coords_size none = (8 * (2 ^ 64 - 1)) % 2 ^ 64
coords_size (some u) = (8 * length u.coord) % 2 ^ 64

-- geom->elem[i], geom->coord[i]
unfoldable pub elem_at : Option Unpacked → ℕ → Result ℕ
elem_at none i = fault null_pointer
elem_at (some u) i = at u.elem i

unfoldable pub coord_at : Option Unpacked → ℕ → Result ℕ
coord_at none i = fault null_pointer
coord_at (some u) i = at u.coord i

module _ (o : Oci) where
  -- The macros uintToNumber, numberToUint, doubleToNumber and numberToDouble.
  abbrev pub uint_to_number : ℕ → Result o.Number
  uint_to_number n = or_error int_to_number (o.number_from_int n)

  abbrev pub number_to_uint : o.Number → Result ℕ
  number_to_uint n = or_error number_to_int (o.number_to_int n)

  abbrev pub double_to_number : ℕ → Result o.Number
  double_to_number x = or_error real_to_number (o.number_from_real x)

  abbrev pub number_to_double : o.Number → Result ℕ
  number_to_double n = or_error number_to_real (o.number_to_real n)

  -- SDO_GTYPE, zero where it is NULL
  unfoldable pub gtype_of : Geometry o → Result ℕ
  gtype_of g = elim g.indicator.sdo_gtype [
    | null ↦ ok 0
    | not_null ↦ number_to_uint g.geometry.sdo_gtype
  ]

-- The switch of ewkbType.
unfoldable pub ewkb_type_of : ℕ → Result ℕ
ewkb_type_of gtype =
    let t = gtype % 100 in
    if t == 1
    then ok point_type
    else if t == 2
    then ok line_type
    else if t == 3
    then ok polygon_type
    else if t == 4
    then err collection_unsupported
    else if t == 5
    then ok multi_point_type
    else if t == 6
    then ok multi_line_type
    else if t == 7
    then ok multi_polygon_type
    else if t == 8
    then err solid_unsupported
    else if t == 9
    then err multisolid_unsupported
    else err (gtype_unknown gtype)

-- The switch of ewkbIsMeasured.
unfoldable pub is_measured_of : ℕ → Result Bool
is_measured_of gtype =
    let d = gtype % 1000 / 100 in
    if d == 0 then ok Bool.false else if d == 3 then ok Bool.true else err measure_dimension

module _ (o : Oci) where
  unfoldable pub ewkb_type : Geometry o → Result ℕ
  ewkb_type g = elim g.indicator.sdo_gtype [
    | null ↦ err gtype_null
    | not_null ↦ number_to_uint o g.geometry.sdo_gtype >>= ewkb_type_of
  ]

  unfoldable pub ewkb_is_measured : Geometry o → Result Bool
  ewkb_is_measured g = gtype_of o g >>= is_measured_of

  unfoldable pub sdo_dimension : Geometry o → Result ℕ
  sdo_dimension g = gtype_of o g >>= λ gtype. ok (gtype / 1000)
