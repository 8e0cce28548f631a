-- ===== src/Gis/Convert/Reading.antt =====
-- oracleEWKBToGeom on the bytes of a PostGIS geometry.
use oracle_fdw.Base.{
  ℕ, ◌+◌, ◌*◌, ◌/◌, ◌^◌, ◌≤◌, ◌<◌, ◌≡◌, refl, ap, inl, inr, List, [], ◌∷◌, ◌++◌, some, none, arith,
  length, length-append, All, append_assoc, append-nil, Bytes,
}
use oracle_fdw.Memory.{unsigned_fill}
use oracle_fdw.Oci.{Ind, Oci, OciLaws, null, not_null}
use oracle_fdw.Result.{ok, ◌>>=◌, object_new_failed}
use oracle_fdw.Gis.Ewkb.{
  Shape, Layout, Ewkb, IsEwkb, IsShape, IsDim, IsSequence, concat, elements, polygon_elements,
  polygons_elements, elem_array, coord_array, shape_coords, dim_of, gtype_of_ewkb, layout_dim,
  layout_gtype, gtype_digits, type_number, print, print_shape, print_all, print_point, print_line,
  print_polygon, sizes, padding, doubles,
}
use oracle_fdw.Gis.Ewkb.Arrays.{coord_array-elements_of, length-ring_elements, length-elements_of}
use oracle_fdw.Gis.Geometry.{Geometry, or_error, sdo_dimension, gtype_of, ewkb_type, ewkb_type_of}
use oracle_fdw.Gis.Store.{IsExact, store, coord_size, HasRoom}
use oracle_fdw.Gis.Srid.{SridFile, SridMap, MapEntry, loaded, find_to}
use oracle_fdw.Gis.Decode.Rings.{store_point, set_point_lem, set_line_lem}
use oracle_fdw.Gis.Decode.Multi.{
  set_polygon_elements, set_multi_point_lem, set_multi_line_lem, set_multi_polygon_lem,
}
use oracle_fdw.Gis.Decode.{
  set_type, set_shape, mark_arrays, read_ewkb, geometry_alloc, ewkb_to_geom,
}
use oracle_fdw.Gis.Convert.Header.{
  with_srid, with_gtype, set_srid_and_flags_lem, set_type_lem, layout_gtype-lt, gtype_digits-le,
}

pub IsDim-layout : (l : Layout) → IsDim (layout_dim l)
IsDim-layout Layout.xy = inl refl
IsDim-layout Layout.xyz = inr refl
IsDim-layout Layout.xym = inr refl

length-points :
    (dim : ℕ) (ps : List (List ℕ))
    → IsDim dim
    → All (λ p. length p ≡ dim) ps
    → length ps ≤ length (concat ps)
length-points dim [] d h = omega arith
length-points dim (p ∷ ps) d h =
    omega (arith, length-append p (concat ps), length-points dim ps d h.1)

pub length-polygons :
    (dim : ℕ) (ps : List (List (List ℕ)))
    → All (λ rs. All (IsSequence dim) rs × (0 < length rs)) ps
    → length ps ≤ length (polygons_elements ps)
length-polygons dim [] h = omega arith
length-polygons dim (rs ∷ ps) h = omega (
  arith,
  h.0.1,
  length-append (polygon_elements rs) (polygons_elements ps),
  length-ring_elements 1003 rs,
  length-polygons dim ps h.1,
)

pub ewkb_type_of-gtype :
    (l : Layout) (s : Shape) → ewkb_type_of (layout_gtype l + gtype_digits s) ≡ ok (type_number s)
unfolding ewkb_type_of
ewkb_type_of-gtype Layout.xy (Shape.point c) = refl
ewkb_type_of-gtype l s = ground arith

pub thousands : (l : Layout) (s : Shape) → (layout_gtype l + gtype_digits s) / 1000 ≡ layout_dim l
thousands Layout.xy s = omega (arith, gtype_digits-le s)
thousands Layout.xyz s = omega (arith, gtype_digits-le s)
thousands Layout.xym s = omega (arith, gtype_digits-le s)

-- Every shape begins with its type.
print_shape-type :
    (dim : ℕ) (s : Shape)
    → (rest : Bytes) × (print_shape dim s ≡ unsigned_fill (type_number s) ++ rest)
print_shape-type dim (Shape.point c) =
    (_, append_assoc (unsigned_fill 1) (unsigned_fill 1) (doubles c))
print_shape-type dim (Shape.line c) =
    (_, append_assoc (unsigned_fill 2) (unsigned_fill (length c / dim)) (doubles c))
print_shape-type dim (Shape.polygon rs) = (
  unsigned_fill (length rs) ++ (sizes dim rs ++ (padding (length rs) ++ doubles (concat rs))),
  simp append_assoc,
)
print_shape-type dim (Shape.multi_point ps) =
    (_, append_assoc (unsigned_fill 4) (unsigned_fill (length ps)) (print_all print_point ps))
print_shape-type dim (Shape.multi_line ls) =
    (_, append_assoc (unsigned_fill 5) (unsigned_fill (length ls)) (print_all (print_line dim) ls))
print_shape-type dim (Shape.multi_polygon ps) = (
  _,
  append_assoc (unsigned_fill 6) (unsigned_fill (length ps)) (print_all (print_polygon dim) ps),
)

module _ (o : Oci) (laws : OciLaws o) where
  set_type_print :
      (dim : ℕ) (s : Shape) (gtype : ℕ) (g : Geometry o)
      → gtype < 4000
      → set_type o (with_gtype o laws gtype g) (print_shape dim s)
        ≡ ok (with_gtype o laws (gtype + gtype_digits s) g)
  set_type_print dim s gtype g h =
      let (rest, e) = print_shape-type dim s in rw e (set_type_lem o laws g s gtype rest h)

  -- The geometry with a shape.
  abbrev pub store_shape : Shape → Geometry o → Geometry o
  store_shape (Shape.point c) g = store_point o laws c g
  store_shape s g =
      store o laws (elem_array (coord_size o laws g) (elements s)) (coord_array (elements s)) g

  abbrev pub ShapeFits : Shape → Geometry o → Type 0
  ShapeFits s g = HasRoom o laws (3 * length (elements s)) (length (coord_array (elements s))) g

  set_shape_lem :
      (dim : ℕ) (s : Shape) (g : Geometry o) (rest : Bytes)
      → IsDim dim
      → sdo_dimension o g ≡ ok dim
      → IsShape dim s
      → coord_size o laws g ≡ 0
      → All (IsExact o laws) (shape_coords s)
      → ShapeFits s g
      → set_shape o (type_number s) g (print_shape dim s ++ rest) ≡ ok (store_shape s g, rest)
  unfolding set_shape
  set_shape_lem dim (Shape.point c) g rest d gd w z h room =
      set_point_lem o laws dim c g rest d gd w h
  set_shape_lem dim (Shape.line c) g rest d gd w z h room = rw (append-nil c) (
      set_line_lem o laws dim c g rest d gd w.0 w.1 (rw (append-nil c) at h)
        (omega (arith, length-append c [], room.elem_room, room.coord_room)))
  set_shape_lem dim (Shape.polygon rs) g rest d gd w z h room =
      set_polygon_elements o laws dim rs g rest d gd w.0 w.1 h
        (omega (arith, length-ring_elements 1003 rs, room.elem_room, room.coord_room))
  set_shape_lem dim (Shape.multi_point ps) g rest d gd w z h room =
      let same : coord_size o laws g + 1 ≡ 1 = omega arith in
      rw (append-nil (concat ps)) (
        rw same (
          set_multi_point_lem o laws dim ps g rest gd w.0 w.1
            (omega (
              arith,
              length-points dim ps d w.0,
              length-append (concat ps) [],
              room.coord_room,
              laws.capacity-lt,
            ))
            (rw (append-nil (concat ps)) at h)
            (omega (arith, length-append (concat ps) [], room.elem_room, room.coord_room))))
  set_shape_lem dim (Shape.multi_line ls) g rest d gd w z h room =
      rw (coord_array-elements_of 2 ls) (
        set_multi_line_lem o laws dim ls g rest d gd w.0 w.1
          (rw (coord_array-elements_of 2 ls) at h)
          (omega (
            arith,
            length-elements_of 2 ls,
            ap length (coord_array-elements_of 2 ls),
            room.elem_room,
            room.coord_room,
          )))
  set_shape_lem dim (Shape.multi_polygon ps) g rest d gd w z h room =
      set_multi_polygon_lem o laws dim ps g rest d gd w.0 w.1
        (omega (arith, length-polygons dim ps w.0, room.elem_room, laws.capacity-lt)) h room

  -- The indicators of the two collections: NULL for a point, which goes to SDO_POINT.
  abbrev arrays_ind : Shape → Ind
  arrays_ind (Shape.point c) = null
  arrays_ind s = not_null

  abbrev pub with_arrays : Shape → Geometry o → Geometry o
  with_arrays s g = record g {
    indicator = record g.indicator { sdo_ordinates = arrays_ind s; sdo_elem_info = arrays_ind s };
  }

  mark_arrays_lem : (s : Shape) (g : Geometry o) → mark_arrays o (type_number s) g ≡ with_arrays s g
  unfolding mark_arrays
  mark_arrays_lem (Shape.point c) g = refl
  mark_arrays_lem (Shape.line c) g = refl
  mark_arrays_lem (Shape.polygon rs) g = refl
  mark_arrays_lem (Shape.multi_point ps) g = refl
  mark_arrays_lem (Shape.multi_line ls) g = refl
  mark_arrays_lem (Shape.multi_polygon ps) g = refl

  -- The object that stands for `w`, made from the object `g`; `srid` is Oracle's SRID.
  abbrev pub geometry_of : Ewkb → ℕ → Geometry o → Geometry o
  geometry_of w srid g =
      store_shape w.shape
        (with_arrays w.shape (with_gtype o laws (gtype_of_ewkb w) (with_srid o laws srid g)))

  -- What the object must be before: nothing in its collections, and room in them.
  pub record IsFresh (s : Shape) (g : Geometry o) : Type 0 where
    pub no_coords : coord_size o laws g ≡ 0
    pub room : ShapeFits s g

  sdo_dimension-with_arrays :
      (l : Layout) (s : Shape) (g : Geometry o)
      → sdo_dimension o (with_arrays s (with_gtype o laws (layout_gtype l + gtype_digits s) g))
        ≡ ok (layout_dim l)
  unfolding sdo_dimension gtype_of
  sdo_dimension-with_arrays l s g =
      rw
        (laws.to_int (layout_gtype l + gtype_digits s)
          (omega (arith, layout_gtype-lt l, gtype_digits-le s)))
        (ap ok (thousands l s))

  ewkb_type-with_gtype :
      (l : Layout) (s : Shape) (g : Geometry o)
      → ewkb_type o (with_gtype o laws (layout_gtype l + gtype_digits s) g) ≡ ok (type_number s)
  unfolding ewkb_type
  ewkb_type-with_gtype l s g =
      rw
        (laws.to_int (layout_gtype l + gtype_digits s)
          (omega (arith, layout_gtype-lt l, gtype_digits-le s)))
        (ewkb_type_of-gtype l s)

  shape_read :
      (w : Ewkb) (g : Geometry o) (srid : ℕ)
      → IsEwkb w
      → All (IsExact o laws) (shape_coords w.shape)
      → IsFresh w.shape g
      → set_shape o
          (type_number w.shape)
          (mark_arrays o
            (type_number w.shape)
            (with_gtype o laws (gtype_of_ewkb w) (with_srid o laws srid g)))
          (print_shape (dim_of w) w.shape)
        ≡ ok (geometry_of w srid g, [])
  shape_read w g srid v h fresh =
      let marked =
        with_arrays w.shape (with_gtype o laws (gtype_of_ewkb w) (with_srid o laws srid g)) in
      rw (mark_arrays_lem w.shape (with_gtype o laws (gtype_of_ewkb w) (with_srid o laws srid g))) (
        rw (append-nil (print_shape (dim_of w) w.shape)) at (
          set_shape_lem (dim_of w) w.shape marked [] (IsDim-layout w.layout)
            (sdo_dimension-with_arrays w.layout w.shape (with_srid o laws srid g)) v.is_shape
            fresh.no_coords h
            (record { elem_room = fresh.room.elem_room; coord_room = fresh.room.coord_room })))

  read_ewkb_lem :
      (file : SridFile) (m : SridMap) (entries : List MapEntry) (w : Ewkb) (g : Geometry o)
      → loaded file m ≡ ok entries
      → find_to w.srid entries < 2 ^ 32
      → IsEwkb w
      → All (IsExact o laws) (shape_coords w.shape)
      → IsFresh w.shape g
      → read_ewkb o file m g (print w)
        ≡ ok (geometry_of w (find_to w.srid entries) g, [], some entries)
  unfolding read_ewkb
  read_ewkb_lem file m entries w g load t v h fresh =
      let srid = find_to w.srid entries in
      let body = print_shape (dim_of w) w.shape in
      rw (set_srid_and_flags_lem o laws file m entries g w.srid w.layout body load v.srid_lt t) (
        rw
          (set_type_print (dim_of w) w.shape (layout_gtype w.layout) (with_srid o laws srid g)
            (layout_gtype-lt w.layout))
          (rw (ewkb_type-with_gtype w.layout w.shape (with_srid o laws srid g))
            (rw (shape_read w g srid v h fresh) refl)))

  -- The object that OCI creates, not atomically NULL any more.
  abbrev pub new_geometry : Geometry o
  new_geometry = record {
    geometry = laws.new_object;
    indicator = record laws.new_indicator { atomic = not_null };
    unpacked = none;
  }

  geometry_alloc_lem :
      geometry_alloc o
      ≡ ok (record new_geometry { indicator = record laws.new_indicator { atomic = null } })
  unfolding geometry_alloc
  geometry_alloc_lem =
      ap
        (λ r. or_error object_new_failed r >>= λ r.
          ok (record { geometry = r.0; indicator = record r.1 { atomic = null }; unpacked = none }))
        laws.new

  -- From the bytes of a PostGIS geometry, oracleEWKBToGeom makes the object that the two formats'
  -- description prescribes: SDO_GTYPE, SDO_SRID, SDO_POINT for a point and SDO_ELEM_INFO and
  -- SDO_ORDINATES for all else. The conditions: srid.map loads, Oracle's SRID fits an unsigned, the
  -- shape is one that both formats express, its coordinates have exact Oracle numbers, and the
  -- collections have room for them.
  pub ewkb_to_geom-print :
      (file : SridFile) (m : SridMap) (entries : List MapEntry) (w : Ewkb)
      → loaded file m ≡ ok entries
      → find_to w.srid entries < 2 ^ 32
      → IsEwkb w
      → All (IsExact o laws) (shape_coords w.shape)
      → ShapeFits w.shape new_geometry
      → ewkb_to_geom o file m (length (print w)) (some (print w))
        ≡ ok (geometry_of w (find_to w.srid entries) new_geometry, some entries)
  unfolding ewkb_to_geom
  ewkb_to_geom-print file m entries w load t v h room =
      let fresh : IsFresh w.shape new_geometry = record {
        no_coords = ap length laws.new_ordinates;
        room = room;
      } in
      rw geometry_alloc_lem
        (rw (read_ewkb_lem file m entries w new_geometry load t v h fresh) (ground arith))
