-- ===== src/Gis/Convert/Header.antt =====
-- setSridAndFlags, setType and the indicators of the collections, on the header of a PostGIS geometry.
use oracle_fdw.Base.{
  ℕ, ◌+◌, ◌/◌, ◌%◌, ◌^◌, ◌≤◌, ◌<◌, ◌≡◌, refl, inl, inr, List, ◌∷◌, ◌++◌, some, arith, Bytes, ◌==◌,
  if◌then◌else◌, Bool-cases,
}
use oracle_fdw.Memory.{unsigned_fill, u32}
use oracle_fdw.Memory.Laws.{read_unsigned-fill, read_le-byte, advance-byte}
use oracle_fdw.Oci.{Oci, OciLaws, null, not_null}
use oracle_fdw.Result.{ok}
use oracle_fdw.Gis.Ewkb.{
  Shape, Layout, layout_flags, layout_gtype, gtype_digits, type_number, srid_print,
}
use oracle_fdw.Gis.Geometry.{Geometry}
use oracle_fdw.Gis.Srid.{SridFile, SridMap, MapEntry, loaded, find_to}
use oracle_fdw.Gis.Srid.Lookup.{epsg_to_oracle_lem}
use oracle_fdw.Gis.Decode.{
  srid_of_bytes, gtype_of_flags, flags_size, set_srid, set_gtype, set_srid_and_flags, gtype_offset,
  set_type,
}

srid_of_bytes-print :
    (srid : ℕ) → srid < 2 ^ 21 → srid_of_bytes (srid / 65536) (srid / 256 % 256) (srid % 256) ≡ srid
unfolding srid_of_bytes
srid_of_bytes-print srid h = omega arith

gtype_of_flags-layout : (l : Layout) → gtype_of_flags (layout_flags l) ≡ ok (layout_gtype l)
unfolding gtype_of_flags
gtype_of_flags-layout Layout.xy = refl
gtype_of_flags-layout Layout.xyz = refl
gtype_of_flags-layout Layout.xym = refl

flags_size-layout : (l : Layout) → flags_size (layout_flags l) (layout_gtype l) ≡ 1
unfolding flags_size
flags_size-layout Layout.xy = refl
flags_size-layout Layout.xyz = refl
flags_size-layout Layout.xym = refl

gtype_offset-type : (s : Shape) → gtype_offset (type_number s) ≡ ok (gtype_digits s)
unfolding gtype_offset
gtype_offset-type (Shape.point c) = refl
gtype_offset-type (Shape.line c) = refl
gtype_offset-type (Shape.polygon rs) = refl
gtype_offset-type (Shape.multi_point ps) = refl
gtype_offset-type (Shape.multi_line ls) = refl
gtype_offset-type (Shape.multi_polygon ps) = refl

pub layout_gtype-lt : (l : Layout) → layout_gtype l < 4000
layout_gtype-lt Layout.xy = omega arith
layout_gtype-lt Layout.xyz = omega arith
layout_gtype-lt Layout.xym = omega arith

pub gtype_digits-le : (s : Shape) → gtype_digits s ≤ 7
gtype_digits-le (Shape.point c) = omega arith
gtype_digits-le (Shape.line c) = omega arith
gtype_digits-le (Shape.polygon rs) = omega arith
gtype_digits-le (Shape.multi_point ps) = omega arith
gtype_digits-le (Shape.multi_line ls) = omega arith
gtype_digits-le (Shape.multi_polygon ps) = omega arith

pub type_number-le : (s : Shape) → type_number s ≤ 6
type_number-le (Shape.point c) = omega arith
type_number-le (Shape.line c) = omega arith
type_number-le (Shape.polygon rs) = omega arith
type_number-le (Shape.multi_point ps) = omega arith
type_number-le (Shape.multi_line ls) = omega arith
type_number-le (Shape.multi_polygon ps) = omega arith

module _ (o : Oci) (laws : OciLaws o) where
  -- The geometry with an SRID, NULL for zero, and with a type.
  abbrev pub with_srid : ℕ → Geometry o → Geometry o
  with_srid srid g = record g {
    indicator = record g.indicator { sdo_srid = if srid == 0 then null else not_null };
    geometry = record g.geometry {
      sdo_srid = if srid == 0 then g.geometry.sdo_srid else laws.int_number srid;
    };
  }

  abbrev pub with_gtype : ℕ → Geometry o → Geometry o
  with_gtype gtype g = record g {
    indicator = record g.indicator { sdo_gtype = not_null };
    geometry = record g.geometry { sdo_gtype = laws.int_number gtype };
  }

  set_srid_lem :
      (g : Geometry o) (srid : ℕ) → srid < 2 ^ 32 → set_srid o g srid ≡ ok (with_srid srid g)
  unfolding set_srid
  set_srid_lem g srid h = elim (Bool-cases (srid == 0)) [
    | inl e ↦ rw e
    | inr e ↦ rw e (rw (laws.from_int srid h) refl)
  ]

  set_gtype_lem :
      (g : Geometry o) (gtype : ℕ) → gtype < 2 ^ 32 → set_gtype o g gtype ≡ ok (with_gtype gtype g)
  unfolding set_gtype
  set_gtype_lem g gtype h = rw (laws.from_int gtype h) refl

  pub set_srid_and_flags_lem :
      (file : SridFile) (m : SridMap) (entries : List MapEntry) (g : Geometry o) (srid : ℕ)
      (l : Layout) (rest : Bytes)
      → loaded file m ≡ ok entries
      → srid < 2 ^ 21
      → find_to srid entries < 2 ^ 32
      → set_srid_and_flags o file m g (srid_print srid ++ layout_flags l ∷ rest)
        ≡ ok (with_gtype (layout_gtype l) (with_srid (find_to srid entries) g), rest, some entries)
  unfolding set_srid_and_flags
  set_srid_and_flags_lem file m entries g srid l rest load h t =
      let to = find_to srid entries in
      let flags = layout_flags l ∷ rest in
      rw (read_le-byte (srid / 65536) ((srid / 256 % 256) ∷ (srid % 256) ∷ flags)) (
        rw (read_le-byte (srid / 256 % 256) ((srid % 256) ∷ flags)) (
          rw (read_le-byte (srid % 256) flags) (
            rw (srid_of_bytes-print srid h) (
              rw (epsg_to_oracle_lem file m srid load) (
                rw (set_srid_lem g to t) (
                  rw (read_le-byte (layout_flags l) rest) (
                    rw (gtype_of_flags-layout l) (
                      rw (flags_size-layout l) (
                        rw (advance-byte (layout_flags l) rest) (
                          rw
                            (set_gtype_lem (with_srid to g) (layout_gtype l)
                              (omega (arith, layout_gtype-lt l)))
                            refl))))))))))

  pub set_type_lem :
      (g : Geometry o) (s : Shape) (gtype : ℕ) (rest : Bytes)
      → gtype < 4000
      → set_type o (with_gtype gtype g) (unsigned_fill (type_number s) ++ rest)
        ≡ ok (with_gtype (gtype + gtype_digits s) g)
  unfolding set_type
  set_type_lem g s gtype rest h =
      let digits = gtype_digits-le s in
      let fits : u32 (gtype + gtype_digits s) ≡ gtype + gtype_digits s = omega (arith, digits) in
      rw (read_unsigned-fill (type_number s) rest (omega (arith, type_number-le s))) (
        rw (laws.to_int gtype (omega arith)) (
          rw (gtype_offset-type s) (
            rw fits (
              set_gtype_lem (with_gtype gtype g) (gtype + gtype_digits s)
                (omega (arith, digits))))))
