-- ===== src/Gis/Convert/RoundTrip.antt =====
-- From the bytes of a PostGIS geometry to an SDO_GEOMETRY and back.
use oracle_fdw.Base.{
  ℕ, ◌+◌, ◌*◌, ◌^◌, ◌<◌, ◌≡◌, refl, List, [], ◌∷◌, ◌++◌, some, none, arith, length, All, append-nil,
  append_assoc, ==_self,
}
use oracle_fdw.Oci.{Oci, OciLaws, Ind, null, not_null}
use oracle_fdw.Result.{ok}
use oracle_fdw.Gis.Ewkb.{
  Shape, Layout, Ewkb, IsEwkb, IsDim, Element, elements, elements_of, ring_elements,
  polygon_elements, polygons_elements, elem_array, dim_of, print_shape, print, print_point,
  layout_dim,
}
use oracle_fdw.Gis.Geometry.{Geometry, sdo_dimension}
use oracle_fdw.Gis.Store.{IsExact}
use oracle_fdw.Gis.Srid.{SridFile, SridMap, MapEntry, loaded, find_to}
use oracle_fdw.Gis.Srid.Lookup.{HasDistinctFrom, IsInvertible}
use oracle_fdw.Gis.Unpack.{unpack}
use oracle_fdw.Gis.Encode.{
  check_elems, check_elem_info, ensure_unpacked, shape_len, get_ewkb_len, fill_ewkb,
}
use oracle_fdw.Gis.Encode.Shapes.{point_fill, fill_sdo_point, point_len}
use oracle_fdw.Gis.Decode.Rings.{store_point}
use oracle_fdw.Gis.Convert.Reading.{IsDim-layout}
use oracle_fdw.Gis.Convert.HeaderFill.{
  HasHeader, sdo_dimension_lem, ewkb_type_lem, header_fill_lem, layout_dim-le,
}
use oracle_fdw.Gis.Convert.Unpacking.{IsKnown, Holds, unpacked_of}
use oracle_fdw.Gis.Convert.Unpacked.{unpack_lem}
use oracle_fdw.Gis.Convert.Writing.{IsStored, shape_len_lem, shape_fill_lem}

-- The elements of a shape have types that oracleGetEWKBLen lets pass.
IsKnown-ring_elements : (rs : List (List ℕ)) → All IsKnown (ring_elements 2003 rs)
IsKnown-ring_elements [] = tt
IsKnown-ring_elements (r ∷ rs) = (refl, IsKnown-ring_elements rs)

IsKnown-polygon_elements : (rs : List (List ℕ)) → All IsKnown (polygon_elements rs)
IsKnown-polygon_elements [] = tt
IsKnown-polygon_elements (r ∷ rs) = (refl, IsKnown-ring_elements rs)

IsKnown-append : (xs ys : List Element) → All IsKnown xs → All IsKnown ys → All IsKnown (xs ++ ys)
IsKnown-append [] ys h k = k
IsKnown-append (x ∷ xs) ys h k = (h.0, IsKnown-append xs ys h.1 k)

IsKnown-polygons_elements : (ps : List (List (List ℕ))) → All IsKnown (polygons_elements ps)
IsKnown-polygons_elements [] = tt
IsKnown-polygons_elements (rs ∷ ps) =
    IsKnown-append (polygon_elements rs) (polygons_elements ps) (IsKnown-polygon_elements rs)
      (IsKnown-polygons_elements ps)

IsKnown-elements_of : (ls : List (List ℕ)) → All IsKnown (elements_of 2 ls)
IsKnown-elements_of [] = tt
IsKnown-elements_of (c ∷ cs) = (refl, IsKnown-elements_of cs)

pub IsKnown-elements : (s : Shape) → All IsKnown (elements s)
IsKnown-elements (Shape.point c) = tt
IsKnown-elements (Shape.line c) = (refl, tt)
IsKnown-elements (Shape.polygon rs) = IsKnown-polygon_elements rs
IsKnown-elements (Shape.multi_point ps) = (refl, tt)
IsKnown-elements (Shape.multi_line ls) = IsKnown-elements_of ls
IsKnown-elements (Shape.multi_polygon ps) = IsKnown-polygons_elements ps

check_elems-known :
    (es : List Element) (start : ℕ) → All IsKnown es → check_elems (elem_array start es) ≡ ok tt
unfolding check_elems
check_elems-known [] start h = refl
check_elems-known (e ∷ es) start h =
    ground (arith, check_elems-known es (start + length e.coords) h.1)

module _ (o : Oci) (laws : OciLaws o) where
  IsStored-elements : (s : Shape) → IsStored s (some (unpacked_of (elements s)))
  IsStored-elements (Shape.point c) = tt
  IsStored-elements s = refl

  -- A geometry that holds the elements of a shape which is no point.
  pub record HoldsShape (s : Shape) (g : Geometry o) : Type 0 where
    pub holds : Holds o laws (elements s) g
    pub nonempty : 0 < length (elements s)
    pub elem_info_set : g.indicator.sdo_elem_info ≡ not_null
    pub ordinates_set : g.indicator.sdo_ordinates ≡ not_null
    pub not_unpacked : g.unpacked ≡ none
    pub not_atomic : g.indicator.atomic ≡ not_null

  abbrev pub unpacked_geometry : Shape → Geometry o → Geometry o
  unpacked_geometry s g = record g { unpacked = some (unpacked_of (elements s)) }

  pub HasHeader-unpacked :
      (w : Ewkb) (srid : ℕ) (g : Geometry o)
      → HasHeader o laws w srid g
      → HasHeader o laws w srid (unpacked_geometry w.shape g)
  HasHeader-unpacked w srid g h = record {
    gtype_set = h.gtype_set;
    gtype_is = h.gtype_is;
    srid_set = h.srid_set;
    srid_is = h.srid_is;
  }

  pub ensure_unpacked_lem :
      (s : Shape) (g : Geometry o)
      → HoldsShape s g
      → ensure_unpacked o g ≡ ok (unpacked_geometry s g)
  unfolding ensure_unpacked
  ensure_unpacked_lem s g h = ground (
    arith,
    h.not_unpacked,
    unpack_lem o laws (elements s) g h.holds h.nonempty h.elem_info_set h.ordinates_set,
  )

  check_elem_info_lem :
      (s : Shape) (i : Ind)
      → i ≡ not_null
      → check_elem_info i (some (unpacked_of (elements s))) ≡ ok tt
  unfolding check_elem_info
  check_elem_info_lem s i e = rw e (check_elems-known (elements s) 0 (IsKnown-elements s))

  pub length-print : (w : Ewkb) → length (print w) ≡ 4 + length (print_shape (dim_of w) w.shape)
  length-print w = omega arith

  -- On an object that has the header of the PostGIS geometry `w` and holds the elements of its
  -- shape, which is no point, oracleGetEWKBLen returns the length of the bytes of `w`, and leaves the
  -- object unpacked. The length must fit an unsigned, and the shape must be one that both formats express.
  pub get_ewkb_len-elements :
      (w : Ewkb) (srid : ℕ) (g : Geometry o)
      → HasHeader o laws w srid g
      → HoldsShape w.shape g
      → IsEwkb w
      → length (print w) < 2 ^ 32
      → get_ewkb_len o g ≡ ok (length (print w), unpacked_geometry w.shape g)
  unfolding get_ewkb_len
  get_ewkb_len-elements w srid g h s v fits =
      let u = unpacked_geometry w.shape g in
      let h' = HasHeader-unpacked w srid g h in
      ground (
        arith,
        s.not_atomic,
        ensure_unpacked_lem w.shape g s,
        ewkb_type_lem o laws w srid u h',
        check_elem_info_lem w.shape g.indicator.sdo_elem_info s.elem_info_set,
        shape_len_lem o (dim_of w) (IsDim-layout w.layout) u (sdo_dimension_lem o laws w srid u h')
            w.shape v.is_shape (IsStored-elements w.shape) s.holds.small
            (omega (arith, fits, length-print w)),
      )

  -- On the unpacked object that oracleGetEWKBLen leaves, called with its length, oracleFillEWKB
  -- writes the bytes of `w` and frees the unpacked arrays. The object has the header of `w`, with
  -- Oracle's SRID, and holds the elements of its shape, which is no point; the entries of srid.map
  -- have distinct first columns and can invert the SRID, and Oracle's SRID fits an unsigned.
  pub fill_ewkb-elements :
      (file : SridFile) (m : SridMap) (entries : List MapEntry) (w : Ewkb) (g : Geometry o)
      → loaded file m ≡ ok entries
      → HasDistinctFrom entries
      → IsInvertible w.srid entries
      → find_to w.srid entries < 2 ^ 32
      → IsEwkb w
      → HasHeader o laws w (find_to w.srid entries) g
      → HoldsShape w.shape g
      → fill_ewkb o file m (unpacked_geometry w.shape g) (length (print w))
        ≡ ok (print w, record g { unpacked = none }, some entries)
  unfolding fill_ewkb
  fill_ewkb-elements file m entries w g load distinct inv lt v h s =
      let u = unpacked_geometry w.shape g in
      let h' = HasHeader-unpacked w (find_to w.srid entries) g h in
      rw (header_fill_lem o laws file m entries w u load distinct inv lt v h') (
        rw (ewkb_type_lem o laws w (find_to w.srid entries) u h') (
          rw
            (shape_fill_lem o (dim_of w) (IsDim-layout w.layout) u
              (sdo_dimension_lem o laws w (find_to w.srid entries) u h') w.shape v.is_shape refl
              s.nonempty s.holds.small)
            (rw (==_self (length (print w))) refl)))

  -- A point: SDO_POINT is set, and the two collections are NULL.
  pub record HoldsPoint (g : Geometry o) : Type 0 where
    pub no_elem_info : g.indicator.sdo_elem_info ≡ null
    pub no_ordinates : g.indicator.sdo_ordinates ≡ null
    pub not_unpacked : g.unpacked ≡ none
    pub not_atomic : g.indicator.atomic ≡ not_null

  pub get_ewkb_len-point :
      (srid oracle_srid : ℕ) (l : Layout) (c : List ℕ) (g : Geometry o)
      → HasHeader o laws (record { srid = srid; layout = l; shape = Shape.point c }) oracle_srid g
      → HoldsPoint g
      → length c ≡ layout_dim l
      → get_ewkb_len o g ≡ ok (8 * length c + 12, g)
  unfolding get_ewkb_len ensure_unpacked check_elem_info unpack shape_len point_len
  get_ewkb_len-point srid oracle_srid l c g h p e = ground (
    arith,
    ewkb_type_lem o laws (record { srid = srid; layout = l; shape = Shape.point c }) oracle_srid g
        h,
    sdo_dimension_lem o laws (record { srid = srid; layout = l; shape = Shape.point c }) oracle_srid
        g h,
    layout_dim-le l,
  )

  pub point_fill_lem :
      (dim : ℕ) (c : List ℕ) (g : Geometry o)
      → IsDim dim
      → sdo_dimension o (store_point o laws c g) ≡ ok dim
      → length c ≡ dim
      → All (IsExact o laws) c
      → point_fill o (store_point o laws c g) ≡ ok (print_point c)
  unfolding point_fill fill_sdo_point
  point_fill_lem dim (x ∷ y ∷ []) g d gd l h =
      rw gd (grind (arith, l, d, h.0.2, h.1.0.2, append_assoc, append-nil))
  point_fill_lem dim (x ∷ y ∷ z ∷ []) g d gd l h =
      rw gd (grind (arith, l, d, h.0.2, h.1.0.2, h.1.1.0.2, append_assoc, append-nil))
  point_fill_lem dim _ g d gd l h = absurd (omega (arith, d))
