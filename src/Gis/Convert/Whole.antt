-- ===== src/Gis/Convert/Whole.antt =====
-- oracleEWKBToGeom, then oracleGetEWKBLen and oracleFillEWKB on its result.
use oracle_fdw.Base.{
  ℕ, ◌+◌, ◌*◌, ◌^◌, ◌≤◌, ◌<◌, ◌≡◌, refl, ap, ◌∙◌, List, [], ◌∷◌, map, some, arith, length, All,
  ◌==◌, ◌⊎◌, inl, inr, true, ==_self,
}
use oracle_fdw.Oci.{Oci, OciLaws}
use oracle_fdw.Result.{ok, ◌>>=◌}
use oracle_fdw.Gis.Ewkb.{
  Shape, Layout, Ewkb, IsEwkb, Element, IsShape, elements, elem_array, coord_array, shape_coords,
  print, gtype_of_ewkb, layout_dim,
}
use oracle_fdw.Gis.Ewkb.Arrays.{length-ring_elements, length-elements_of}
use oracle_fdw.Gis.Geometry.{Geometry}
use oracle_fdw.Gis.Store.{IsExact, contents-append_all, store, coord_size}
use oracle_fdw.Gis.Srid.{SridFile, SridMap, MapEntry, loaded, find_to}
use oracle_fdw.Gis.Srid.Lookup.{loaded-some, HasDistinctFrom, IsInvertible}
use oracle_fdw.Gis.Decode.{ewkb_to_geom}
use oracle_fdw.Gis.Decode.Rings.{store_point}
use oracle_fdw.Gis.Encode.{get_ewkb_len, fill_ewkb, shape_fill}
use oracle_fdw.Gis.Convert.Header.{with_srid, with_gtype}
use oracle_fdw.Gis.Convert.Reading.{
  with_arrays, IsDim-layout, geometry_of, store_shape, ShapeFits, new_geometry, ewkb_to_geom-print,
  length-polygons,
}
use oracle_fdw.Gis.Convert.HeaderFill.{HasHeader, sdo_dimension_lem, ewkb_type_lem, header_fill_lem}
use oracle_fdw.Gis.Convert.Lengths.{length-print_point}
use oracle_fdw.Gis.Convert.Unpacking.{Holds, IsKnown}
use oracle_fdw.Gis.Convert.RoundTrip.{
  IsKnown-elements, HoldsShape, HoldsPoint, get_ewkb_len-elements, fill_ewkb-elements,
  get_ewkb_len-point, point_fill_lem,
}

-- The geometry that reading has made: its header, and what the two collections hold.
module _ (o : Oci) (laws : OciLaws o) where
  -- The object before its shape is set.
  abbrev pub headed : Ewkb → ℕ → Geometry o
  headed w srid =
      with_arrays o laws w.shape
        (with_gtype o laws (gtype_of_ewkb w) (with_srid o laws srid (new_geometry o laws)))

  HasHeader-store_point :
      (w : Ewkb) (c : List ℕ) (srid : ℕ) (g : Geometry o)
      → HasHeader o laws w srid g
      → HasHeader o laws w srid (store_point o laws c g)
  HasHeader-store_point w (x ∷ y ∷ []) srid g h = record {
    gtype_set = h.gtype_set;
    gtype_is = h.gtype_is;
    srid_set = h.srid_set;
    srid_is = h.srid_is;
  }
  HasHeader-store_point w (x ∷ y ∷ z ∷ []) srid g h = record {
    gtype_set = h.gtype_set;
    gtype_is = h.gtype_is;
    srid_set = h.srid_set;
    srid_is = h.srid_is;
  }
  HasHeader-store_point w _ srid g h = h

  HasHeader-store_shape :
      (w : Ewkb) (s : Shape) (srid : ℕ) (g : Geometry o)
      → HasHeader o laws w srid g
      → HasHeader o laws w srid (store_shape o laws s g)
  HasHeader-store_shape w (Shape.point c) srid g h = HasHeader-store_point w c srid g h
  HasHeader-store_shape w s srid g h = record {
    gtype_set = h.gtype_set;
    gtype_is = h.gtype_is;
    srid_set = h.srid_set;
    srid_is = h.srid_is;
  }

  pub HasHeader-headed : (w : Ewkb) (srid : ℕ) → HasHeader o laws w srid (headed w srid)
  HasHeader-headed w srid = record {
    gtype_set = refl;
    gtype_is = refl;
    srid_set = refl;
    srid_is = λ n. rw n;
  }

  pub HasHeader-geometry_of :
      (w : Ewkb) (srid : ℕ)
      → HasHeader o laws w srid (geometry_of o laws w srid (new_geometry o laws))
  HasHeader-geometry_of w srid =
      HasHeader-store_shape w w.shape srid (headed w srid) (HasHeader-headed w srid)

  -- The two collections hold the elements that have been appended to new ones.
  Holds-store :
      (es : List Element) (w : Ewkb) (srid : ℕ)
      → All IsKnown es
      → All (IsExact o laws) (coord_array es)
      → length (coord_array es) ≤ laws.capacity
      → Holds o laws es (
          store o laws
            (elem_array (coord_size o laws (headed w srid)) es)
            (coord_array es)
            (headed w srid))
  Holds-store es w srid known exact room =
      let start : coord_size o laws (headed w srid) ≡ 0 = ap length laws.new_ordinates in
      record {
        elems =
            contents-append_all o laws
              (map laws.int_number (elem_array (coord_size o laws (headed w srid)) es))
              laws.new_object.sdo_elem_info
            ∙ rw laws.new_elem_info (rw start refl);
        coords =
            contents-append_all o laws (map laws.real_number (coord_array es))
              laws.new_object.sdo_ordinates
            ∙ rw laws.new_ordinates refl;
        known = known;
        exact = exact;
        small = omega (arith, room, laws.capacity-lt);
      }

  ==_lem : (m n : ℕ) → m ≡ n → (n == m) ≡ true
  ==_lem m n e = rw e (==_self n)

  nonempty :
      (dim : ℕ) (s : Shape)
      → IsShape dim s
      → (s ≡ Shape.point (shape_coords s)) ⊎ (0 < length (elements s))
  nonempty dim (Shape.point c) h = inl refl
  nonempty dim (Shape.line c) h = inr (omega arith)
  nonempty dim (Shape.polygon rs) h = inr (omega (arith, h.1, length-ring_elements 1003 rs))
  nonempty dim (Shape.multi_point ps) h = inr (omega arith)
  nonempty dim (Shape.multi_line ls) h = inr (omega (arith, h.1, length-elements_of 2 ls))
  nonempty dim (Shape.multi_polygon ps) h = inr (omega (arith, h.1, length-polygons dim ps h.0))

  -- The same two bytes sequences: what Fill writes is what was read.
  abbrev Returns : SridFile → List MapEntry → Ewkb → Geometry o → Type 0
  Returns file entries w g =
      (do
        (len, g) ← get_ewkb_len o g
        (bytes, g, m) ← fill_ewkb o file (some entries) g len
        ok bytes)
      ≡ ok (print w)

  Returns-shape :
      (file : SridFile) (entries : List MapEntry) (w : Ewkb) (g : Geometry o)
      → HasDistinctFrom entries
      → IsInvertible w.srid entries
      → find_to w.srid entries < 2 ^ 32
      → IsEwkb w
      → length (print w) < 2 ^ 32
      → HasHeader o laws w (find_to w.srid entries) g
      → HoldsShape o laws w.shape g
      → Returns file entries w g
  Returns-shape file entries w g distinct inv lt v fits h s =
      rw (get_ewkb_len-elements o laws w (find_to w.srid entries) g h s v fits) (
        rw
          (fill_ewkb-elements o laws file (some entries) entries w g (loaded-some file entries)
            distinct inv lt v h s)
          refl)

  Returns-point :
      (file : SridFile) (entries : List MapEntry) (srid : ℕ) (l : Layout) (c : List ℕ)
      (g : Geometry o)
      → HasDistinctFrom entries
      → IsInvertible srid entries
      → find_to srid entries < 2 ^ 32
      → IsEwkb (record { srid = srid; layout = l; shape = Shape.point c })
      → All (IsExact o laws) c
      → HasHeader o laws
          (record { srid = srid; layout = l; shape = Shape.point c })
          (find_to srid entries)
          g
      → HoldsPoint o laws (store_point o laws c g)
      → Returns file entries
          (record { srid = srid; layout = l; shape = Shape.point c })
          (store_point o laws c g)
  unfolding fill_ewkb shape_fill
  Returns-point file entries srid l c g distinct inv lt v exact h p =
      let w : Ewkb = record { srid = srid; layout = l; shape = Shape.point c } in
      let h' = HasHeader-store_point w c (find_to srid entries) g h in
      let u = store_point o laws c g in
      let gd = sdo_dimension_lem o laws w (find_to srid entries) u h' in
      rw (get_ewkb_len-point o laws srid (find_to srid entries) l c u h' p v.is_shape) (
        rw
          (header_fill_lem o laws file (some entries) entries w u (loaded-some file entries)
            distinct inv lt v h')
          (rw (ewkb_type_lem o laws w (find_to srid entries) u h') (
            rw (point_fill_lem o laws (layout_dim l) c g (IsDim-layout l) gd v.is_shape exact) (
              rw
                (==_lem (8 * length c + 12) (length (print w))
                  (omega (arith, length-print_point c)))
                refl))))

  pub HoldsPoint-store_point :
      (srid : ℕ) (l : Layout) (c : List ℕ) (oracle_srid : ℕ)
      → HoldsPoint o laws (
          store_point o laws c
            (headed (record { srid = srid; layout = l; shape = Shape.point c }) oracle_srid))
  HoldsPoint-store_point srid l (x ∷ y ∷ []) oracle_srid = record {
    no_elem_info = refl;
    no_ordinates = refl;
    not_unpacked = refl;
    not_atomic = refl;
  }
  HoldsPoint-store_point srid l (x ∷ y ∷ z ∷ []) oracle_srid = record {
    no_elem_info = refl;
    no_ordinates = refl;
    not_unpacked = refl;
    not_atomic = refl;
  }
  HoldsPoint-store_point srid l _ oracle_srid = record {
    no_elem_info = refl;
    no_ordinates = refl;
    not_unpacked = refl;
    not_atomic = refl;
  }

  pub HoldsShape-geometry_of :
      (srid : ℕ) (l : Layout) (s : Shape) (oracle_srid : ℕ)
      → 0 < length (elements s)
      → All (IsExact o laws) (shape_coords s)
      → ShapeFits o laws s (new_geometry o laws)
      → HoldsShape o laws s (
          geometry_of o laws
            (record { srid = srid; layout = l; shape = s })
            oracle_srid
            (new_geometry o laws))
  HoldsShape-geometry_of srid l (Shape.point c) oracle_srid p exact room = absurd (omega (arith, p))
  HoldsShape-geometry_of srid l s oracle_srid p exact room =
      let w : Ewkb = record { srid = srid; layout = l; shape = s } in
      record {
        holds =
            Holds-store (elements s) w oracle_srid (IsKnown-elements s) exact
              (omega (arith, room.coord_room));
        nonempty = p;
        elem_info_set = refl;
        ordinates_set = refl;
        not_unpacked = refl;
        not_atomic = refl;
      }

  -- Each case from the shape.
  Returns-decoded :
      (file : SridFile) (entries : List MapEntry) (srid : ℕ) (l : Layout) (s : Shape)
      → HasDistinctFrom entries
      → IsInvertible srid entries
      → find_to srid entries < 2 ^ 32
      → IsEwkb (record { srid = srid; layout = l; shape = s })
      → length (print (record { srid = srid; layout = l; shape = s })) < 2 ^ 32
      → All (IsExact o laws) (shape_coords s)
      → ShapeFits o laws s (new_geometry o laws)
      → Returns file entries
          (record { srid = srid; layout = l; shape = s })
          (geometry_of o laws
            (record { srid = srid; layout = l; shape = s })
            (find_to srid entries)
            (new_geometry o laws))
  Returns-decoded file entries srid l (Shape.point c) distinct inv lt v fits exact room =
      let w : Ewkb = record { srid = srid; layout = l; shape = Shape.point c } in
      Returns-point file entries srid l c (headed w (find_to srid entries)) distinct inv lt v exact
        (HasHeader-headed w (find_to srid entries))
        (HoldsPoint-store_point srid l c (find_to srid entries))
  Returns-decoded file entries srid l s distinct inv lt v fits exact room =
      let w : Ewkb = record { srid = srid; layout = l; shape = s } in
      let t = find_to srid entries in
      Returns-shape file entries w (geometry_of o laws w t (new_geometry o laws)) distinct inv lt v
        fits (HasHeader-geometry_of w t)
        (HoldsShape-geometry_of srid l s t
          (elim (nonempty (layout_dim l) s v.is_shape) [ inl e ↦ absurd (cc e) | inr p ↦ p ]) exact
          room)

  -- Reading the bytes of a PostGIS geometry with oracleEWKBToGeom gives an object from which
  -- oracleGetEWKBLen and oracleFillEWKB make the same bytes again: for a point, a line, a polygon,
  -- and the multi types of these, with two or three dimensions or a measure. The conditions: srid.map loads to
  -- entries with distinct first columns that can invert the SRID, Oracle's SRID fits an unsigned,
  -- nothing in the geometry is empty but a ring, the coordinates have exact Oracle numbers,
  -- the collections have room for them, and the length fits an unsigned.
  pub fill_ewkb-ewkb_to_geom :
      (file : SridFile) (m : SridMap) (entries : List MapEntry) (w : Ewkb)
      → loaded file m ≡ ok entries
      → HasDistinctFrom entries
      → IsInvertible w.srid entries
      → find_to w.srid entries < 2 ^ 32
      → IsEwkb w
      → length (print w) < 2 ^ 32
      → All (IsExact o laws) (shape_coords w.shape)
      → ShapeFits o laws w.shape (new_geometry o laws)
      → (do
        (g, m) ← ewkb_to_geom o file m (length (print w)) (some (print w))
        (len, g) ← get_ewkb_len o g
        (bytes, g, m) ← fill_ewkb o file m g len
        ok bytes)
        ≡ ok (print w)
  fill_ewkb-ewkb_to_geom file m entries w load distinct inv lt v fits exact room =
      rw (ewkb_to_geom-print o laws file m entries w load lt v exact room)
        (Returns-decoded file entries w.srid w.layout w.shape distinct inv lt v fits exact room)
