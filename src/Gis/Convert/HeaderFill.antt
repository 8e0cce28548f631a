-- ===== src/Gis/Convert/HeaderFill.antt =====
-- ewkbHeaderFill, ewkbType and sdoDimension on a geometry with a given SRID and type.
use oracle_fdw.Base.{
  ℕ, ◌+◌, ◌/◌, ◌%◌, ◌^◌, ◌≤◌, ◌<◌, ◌≡◌, refl, ap, true, false, Bool, inl, inr, List, [], ◌∷◌, ◌++◌,
  some, arith, ◌==◌, Bool-cases, ltb_of_le, if◌then◌else◌,
}
use oracle_fdw.Oci.{Oci, OciLaws, null, not_null}
use oracle_fdw.Result.{ok}
use oracle_fdw.Gis.Ewkb.{
  Shape, Layout, Ewkb, IsEwkb, dim_of, gtype_of_ewkb, layout_dim, layout_flags, layout_gtype,
  gtype_digits, type_number, srid_print,
}
use oracle_fdw.Gis.Geometry.{
  Geometry, sdo_dimension, gtype_of, ewkb_type, ewkb_is_measured, is_measured_of,
}
use oracle_fdw.Gis.Srid.{SridFile, SridMap, MapEntry, loaded, find_from, find_to}
use oracle_fdw.Gis.Srid.Lookup.{
  epsg_from_oracle_lem, HasDistinctFrom, IsInvertible, find_from-find_to,
}
use oracle_fdw.Gis.Encode.{srid_bytes, flags_of, ewkb_srid, header_fill}
use oracle_fdw.Gis.Convert.Header.{layout_gtype-lt, gtype_digits-le}
use oracle_fdw.Gis.Convert.Reading.{thousands, ewkb_type_of-gtype}

abbrev is_measured : Layout → Bool
is_measured Layout.xym = true
is_measured _ = false

is_measured_of-gtype :
    (l : Layout) (s : Shape) → is_measured_of (layout_gtype l + gtype_digits s) ≡ ok (is_measured l)
unfolding is_measured_of
is_measured_of-gtype Layout.xy (Shape.point c) = refl
is_measured_of-gtype l s = ground arith

flags_of-layout : (l : Layout) → flags_of (is_measured l) (layout_dim l) ≡ layout_flags l
unfolding flags_of
flags_of-layout Layout.xy = refl
flags_of-layout Layout.xyz = refl
flags_of-layout Layout.xym = refl

pub layout_dim-le : (l : Layout) → layout_dim l ≤ 3
layout_dim-le Layout.xy = omega arith
layout_dim-le Layout.xyz = omega arith
layout_dim-le Layout.xym = omega arith

srid_bytes-print : (srid : ℕ) → srid < 2 ^ 21 → srid_bytes srid ≡ srid_print srid
unfolding srid_bytes
srid_bytes-print srid h =
    let top : srid / 2 ^ 16 % 2 ^ 5 ≡ srid / 65536 = omega arith in
    ap (λ b. b ∷ (srid / 256 % 256) ∷ (srid % 256) ∷ []) top

module _ (o : Oci) (laws : OciLaws o) where
  -- The geometry has the SDO_GTYPE of `w`, and the SRID `srid`, NULL for zero.
  pub record HasHeader (w : Ewkb) (srid : ℕ) (g : Geometry o) : Type 0 where
    pub gtype_set : g.indicator.sdo_gtype ≡ not_null
    pub gtype_is : g.geometry.sdo_gtype ≡ laws.int_number (gtype_of_ewkb w)
    pub srid_set : g.indicator.sdo_srid ≡ (if srid == 0 then null else not_null)
    pub srid_is : (srid == 0) ≡ false → g.geometry.sdo_srid ≡ laws.int_number srid

  gtype_of_lem :
      (w : Ewkb) (srid : ℕ) (g : Geometry o)
      → HasHeader w srid g
      → gtype_of o g ≡ ok (gtype_of_ewkb w)
  unfolding gtype_of
  gtype_of_lem w srid g h =
      let small : gtype_of_ewkb w < 2 ^ 32 =
        omega (arith, layout_gtype-lt w.layout, gtype_digits-le w.shape) in
      ground (arith, h.gtype_set, h.gtype_is, laws.to_int (gtype_of_ewkb w) small)

  pub sdo_dimension_lem :
      (w : Ewkb) (srid : ℕ) (g : Geometry o)
      → HasHeader w srid g
      → sdo_dimension o g ≡ ok (dim_of w)
  unfolding sdo_dimension
  sdo_dimension_lem w srid g h = rw (gtype_of_lem w srid g h) (ap ok (thousands w.layout w.shape))

  ewkb_is_measured_lem :
      (w : Ewkb) (srid : ℕ) (g : Geometry o)
      → HasHeader w srid g
      → ewkb_is_measured o g ≡ ok (is_measured w.layout)
  unfolding ewkb_is_measured
  ewkb_is_measured_lem w srid g h =
      rw (gtype_of_lem w srid g h) (is_measured_of-gtype w.layout w.shape)

  pub ewkb_type_lem :
      (w : Ewkb) (srid : ℕ) (g : Geometry o)
      → HasHeader w srid g
      → ewkb_type o g ≡ ok (type_number w.shape)
  unfolding ewkb_type
  ewkb_type_lem w srid g h =
      let small : gtype_of_ewkb w < 2 ^ 32 =
        omega (arith, layout_gtype-lt w.layout, gtype_digits-le w.shape) in
      ground (
        arith,
        h.gtype_set,
        h.gtype_is,
        laws.to_int (gtype_of_ewkb w) small,
        ewkb_type_of-gtype w.layout w.shape,
      )

  ewkb_srid_lem :
      (file : SridFile) (m : SridMap) (entries : List MapEntry) (w : Ewkb) (srid : ℕ)
      (g : Geometry o)
      → loaded file m ≡ ok entries
      → HasHeader w srid g
      → srid < 2 ^ 32
      → ewkb_srid o file m g ≡ ok (find_from srid entries, some entries)
  unfolding ewkb_srid
  ewkb_srid_lem file m entries w srid g load h lt = elim (Bool-cases (srid == 0)) [
    | inl z ↦ ground (arith, h.srid_set, epsg_from_oracle_lem file m srid load)
    | inr n ↦
        ground (
          arith,
          h.srid_set,
          h.srid_is n,
          laws.to_int srid lt,
          epsg_from_oracle_lem file m srid load,
        )
  ]

  pub header_fill_lem :
      (file : SridFile) (m : SridMap) (entries : List MapEntry) (w : Ewkb) (g : Geometry o)
      → loaded file m ≡ ok entries
      → HasDistinctFrom entries
      → IsInvertible w.srid entries
      → find_to w.srid entries < 2 ^ 32
      → IsEwkb w
      → HasHeader w (find_to w.srid entries) g
      → header_fill o file m g ≡ ok (srid_print w.srid ++ layout_flags w.layout ∷ [], some entries)
  unfolding header_fill
  header_fill_lem file m entries w g load distinct inv lt v h =
      let srid = find_to w.srid entries in
      rw (ewkb_srid_lem file m entries w srid g load h lt) (
        rw (find_from-find_to w.srid entries distinct inv) (
          rw (sdo_dimension_lem w srid g h) (
            rw (ewkb_is_measured_lem w srid g h) (
              rw (flags_of-layout w.layout) (
                rw (srid_bytes-print w.srid v.srid_lt)
                  (rw (ltb_of_le 3 (dim_of w) (layout_dim-le w.layout)) refl))))))
