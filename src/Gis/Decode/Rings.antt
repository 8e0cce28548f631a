-- ===== src/Gis/Decode/Rings.antt =====
-- setPoint, setLine, setPolygon and their loops, on what the description of the format lays out.
use oracle_fdw.Base.{
  ℕ, ◌+◌, ◌*◌, ◌/◌, ◌%◌, ◌^◌, ◌≤◌, ◌<◌, ◌≡◌, refl, ap, ◌∙◌, inl, inr, List, [], ◌∷◌, ◌++◌, arith,
  length, length-append, All, All-append_left, All-append_right, append_assoc, Bytes,
}
use oracle_fdw.Memory.{unsigned_fill, double_fill, u32, advance}
use oracle_fdw.Memory.Laws.{
  read_unsigned-fill, read_double-fill, advance-append, length-unsigned_fill,
}
use oracle_fdw.Oci.{Oci, OciLaws, not_null}
use oracle_fdw.Result.{ok}
use oracle_fdw.Gis.Ewkb.{
  doubles, sizes, padding, concat, IsDim, IsSequence, print_point, print_line, print_polygon,
  ring_elements, polygon_elements, elem_array,
}
use oracle_fdw.Gis.Geometry.{Geometry, sdo_dimension, gtype_of}
use oracle_fdw.Gis.Store.{
  IsExact, store, coord_size, HasRoom, HasRoom-store, store-store, coord_size-store,
}
use oracle_fdw.Gis.Decode.Append.{expect_type-fill, read_count-fill, append_element_lem}
use oracle_fdw.Gis.Decode.Shapes.{set_point, set_z, set_line, set_rings, set_polygon}

-- A sequence of whole points has its number of coordinates back from its number of points.
pub points-mul : (dim n : ℕ) → IsDim dim → n % dim ≡ 0 → n / dim * dim ≡ n
points-mul dim n (inl d) h = rw d (omega (arith, rw d at h))
points-mul dim n (inr d) h = rw d (omega (arith, rw d at h))

pub points-le : (dim n : ℕ) → IsDim dim → n / dim ≤ n
points-le dim n (inl d) = rw d (omega arith)
points-le dim n (inr d) = rw d (omega arith)

pub doubles-append : (xs ys : List ℕ) → doubles (xs ++ ys) ≡ doubles xs ++ doubles ys
doubles-append [] ys = refl
doubles-append (x ∷ xs) ys = simp (doubles-append xs ys, append_assoc)

module _ (o : Oci) (laws : OciLaws o) where
  -- The geometry with its SDO_POINT set.
  abbrev pub store_point : List ℕ → Geometry o → Geometry o
  store_point (x ∷ y ∷ []) g = record g {
    geometry = record g.geometry { point_x = laws.real_number x; point_y = laws.real_number y };
    indicator = record g.indicator {
      point_atomic = not_null;
      point_x = not_null;
      point_y = not_null;
    };
  }
  store_point (x ∷ y ∷ z ∷ []) g = record g {
    geometry = record g.geometry {
      point_x = laws.real_number x;
      point_y = laws.real_number y;
      point_z = laws.real_number z;
    };
    indicator = record g.indicator {
      point_atomic = not_null;
      point_x = not_null;
      point_y = not_null;
      point_z = not_null;
    };
  }
  store_point _ g = g

  pub set_line_lem :
      (dim : ℕ) (c : List ℕ) (g : Geometry o) (rest : Bytes)
      → IsDim dim
      → sdo_dimension o g ≡ ok dim
      → IsSequence dim c
      → 0 < length c
      → All (IsExact o laws) c
      → HasRoom o laws 3 (length c) g
      → set_line o g (print_line dim c ++ rest)
        ≡ ok (store o laws ((coord_size o laws g + 1) ∷ 2 ∷ 1 ∷ []) c g, rest)
  unfolding set_line
  set_line_lem dim c g rest d gd s p h room =
      let n = length c / dim in
      let fits : u32 (n * dim) ≡ length c =
        rw (points-mul dim (length c) d s) (omega (arith, room.coord_room, laws.capacity-lt)) in
      simp append_assoc (
        rw (expect_type-fill 2 (unsigned_fill n ++ (doubles c ++ rest)) (omega arith)) (
          rw
            (read_unsigned-fill n (doubles c ++ rest)
              (omega (arith, points-le dim (length c) d, room.coord_room, laws.capacity-lt)))
            (rw gd (
              rw fits
                (ground (arith, append_element_lem o laws 2 c g rest (omega arith) h room))))))

  sdo_dimension-store_point :
      (x y : ℕ) (g : Geometry o) → sdo_dimension o (store_point (x ∷ y ∷ []) g) ≡ sdo_dimension o g
  unfolding sdo_dimension gtype_of
  sdo_dimension-store_point x y g = refl

  -- The part of setPoint that all points have in common.
  set_xy :
      (x y : ℕ) (g : Geometry o) (rest : Bytes) (dim : ℕ)
      → sdo_dimension o g ≡ ok dim
      → IsExact o laws x
      → IsExact o laws y
      → set_point o g
          (unsigned_fill 1 ++ (unsigned_fill 1 ++ (double_fill x ++ (double_fill y ++ rest))))
        ≡ set_z o dim (store_point (x ∷ y ∷ []) g) rest
  unfolding set_point
  set_xy x y g rest dim gd hx hy =
      rw
        (expect_type-fill 1 (unsigned_fill 1 ++ (double_fill x ++ (double_fill y ++ rest)))
          (omega arith))
        (rw (read_unsigned-fill 1 (double_fill x ++ (double_fill y ++ rest)) (omega arith)) (
          rw (read_double-fill x (double_fill y ++ rest) hx.0) (
            rw hx.1 (
              rw (read_double-fill y rest hy.0)
                (rw hy.1 (rw (sdo_dimension-store_point x y g ∙ gd) refl))))))

  pub set_point_lem :
      (dim : ℕ) (c : List ℕ) (g : Geometry o) (rest : Bytes)
      → IsDim dim
      → sdo_dimension o g ≡ ok dim
      → length c ≡ dim
      → All (IsExact o laws) c
      → set_point o g (print_point c ++ rest) ≡ ok (store_point c g, rest)
  set_point_lem dim (x ∷ y ∷ []) g rest d gd l h =
      simp append_assoc (set_xy x y g rest 2 (rw l gd) h.0 h.1.0 ∙ unfold set_z in refl)
  set_point_lem dim (x ∷ y ∷ z ∷ []) g rest d gd l h = simp append_assoc (
      set_xy x y g (double_fill z ++ rest) 3 (rw l gd) h.0 h.1.0
      ∙ unfold set_z in rw (read_double-fill z rest h.1.1.0.0) (rw h.1.1.0.1 refl))
  set_point_lem dim _ g rest d gd l h = absurd (omega arith)

  pub set_rings_lem :
      (etype dim : ℕ) (rs : List (List ℕ)) (g : Geometry o) (more rest : Bytes)
      → etype < 2 ^ 32
      → IsDim dim
      → All (IsSequence dim) rs
      → All (IsExact o laws) (concat rs)
      → HasRoom o laws (3 * length rs) (length (concat rs)) g
      → set_rings o (length rs) etype dim g (sizes dim rs ++ more) (doubles (concat rs) ++ rest)
        ≡ ok (
          store o laws (elem_array (coord_size o laws g) (ring_elements etype rs)) (concat rs) g,
          rest,
        )
  unfolding set_rings
  set_rings_lem etype dim [] g more rest he d s h room = refl
  set_rings_lem etype dim (r ∷ rs) g more rest he d s h room =
      let n = length r / dim in
      let start = coord_size o laws g in
      let sum = length-append r (concat rs) in
      let fits : u32 (n * dim) ≡ length r =
        rw (points-mul dim (length r) d s.0)
          (omega (arith, sum, room.coord_room, laws.capacity-lt)) in
      let now : HasRoom o laws 3 (length r) g =
        omega (arith, sum, room.elem_room, room.coord_room) in
      let next = store o laws ((start + 1) ∷ etype ∷ 1 ∷ []) r g in
      let later : HasRoom o laws (3 * length rs) (length (concat rs)) next =
        HasRoom-store o laws ((start + 1) ∷ etype ∷ 1 ∷ []) r g
          (omega (arith, sum, room.elem_room, room.coord_room)) in
      simp (append_assoc, doubles-append)
        (rw
          (read_unsigned-fill n (sizes dim rs ++ more)
            (omega (arith, sum, points-le dim (length r) d, room.coord_room, laws.capacity-lt)))
          (rw fits (
            rw
              (append_element_lem o laws etype r g (doubles (concat rs) ++ rest) he
                (All-append_left (IsExact o laws) r (concat rs) h) now)
              (rw
                (set_rings_lem 2003 dim rs next more rest (omega arith) d s.1
                  (All-append_right (IsExact o laws) r (concat rs) h) later)
                (rw (coord_size-store o laws ((start + 1) ∷ etype ∷ 1 ∷ []) r g) (
                  ap (λ g'. ok (g', rest))
                    (store-store o laws ((start + 1) ∷ etype ∷ 1 ∷ [])
                      (elem_array (start + length r) (ring_elements 2003 rs)) r (concat rs) g)))))))

-- How far the sizes of the rings reach, with their padding.
pub length-sizes : (dim : ℕ) (rs : List (List ℕ)) → length (sizes dim rs) ≡ 4 * length rs
length-sizes dim [] = refl
length-sizes dim (r ∷ rs) =
    rw (length-append (unsigned_fill (length r / dim)) (sizes dim rs))
      (omega (arith, length-unsigned_fill (length r / dim), length-sizes dim rs))

pub length-padding : (n : ℕ) → length (padding n) ≡ 4 * (n % 2)
length-padding n = ground (arith, length-unsigned_fill 0)

advance-sizes :
    (dim : ℕ) (rs : List (List ℕ)) (rest : Bytes)
    → length rs < 2 ^ 31
    → advance (u32 (length rs + length rs % 2) * 4) (sizes dim rs ++ (padding (length rs) ++ rest))
      ≡ ok rest
advance-sizes dim rs rest h =
    let skipped = sizes dim rs ++ padding (length rs) in
    let e : u32 (length rs + length rs % 2) * 4 ≡ length skipped = omega (
      arith,
      length-append (sizes dim rs) (padding (length rs)),
      length-sizes dim rs,
      length-padding (length rs),
    ) in
    rw (← append_assoc (sizes dim rs) (padding (length rs)) rest)
      (rw e (advance-append skipped rest))

module _ (o : Oci) (laws : OciLaws o) where
  pub set_polygon_lem :
      (dim : ℕ) (rs : List (List ℕ)) (g : Geometry o) (rest : Bytes)
      → IsDim dim
      → sdo_dimension o g ≡ ok dim
      → All (IsSequence dim) rs
      → 0 < length rs
      → All (IsExact o laws) (concat rs)
      → HasRoom o laws (3 * length rs) (length (concat rs)) g
      → set_polygon o g (print_polygon dim rs ++ rest)
        ≡ ok (
          store o laws (elem_array (coord_size o laws g) (polygon_elements rs)) (concat rs) g,
          rest,
        )
  unfolding set_polygon
  set_polygon_lem dim rs g rest d gd s p h room =
      let n = length rs in
      let coords = doubles (concat rs) ++ rest in
      let body = sizes dim rs ++ (padding n ++ coords) in
      simp append_assoc (
        rw gd (
          rw (expect_type-fill 3 (unsigned_fill n ++ body) (omega arith)) (
            rw (read_count-fill n body p (omega (arith, room.elem_room, laws.capacity-lt))) (
              rw (advance-sizes dim rs coords (omega (arith, room.elem_room, laws.capacity-lt))) (
                set_rings_lem o laws 1003 dim rs g (padding n ++ coords) rest (omega arith) d s h
                  room)))))
