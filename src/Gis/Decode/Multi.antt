-- ===== src/Gis/Decode/Multi.antt =====
-- setMultiPoint, setMultiLine and setMultiPolygon, on what the description of the format lays out.
use oracle_fdw.Base.{
  ℕ, ◌+◌, ◌*◌, ◌^◌, ◌<◌, ◌≡◌, refl, ap, ◌∙◌, List, [], ◌∷◌, ◌++◌, arith, length, length-append, All,
  All-append_left, All-append_right, append_assoc, Bytes,
}
use oracle_fdw.Memory.{unsigned_fill}
use oracle_fdw.Memory.Laws.{read_unsigned-fill}
use oracle_fdw.Oci.{Oci, OciLaws}
use oracle_fdw.Result.{ok}
use oracle_fdw.Gis.Ewkb.{
  doubles, concat, IsDim, IsSequence, print_all, print_point, print_line, print_polygon,
  elements_of, polygon_elements, polygons_elements, elem_array, coord_array,
}
use oracle_fdw.Gis.Ewkb.Arrays.{
  coord_array-append, elem_array-append, coord_array-ring_elements, length-elem_array,
  length-ring_elements,
}
use oracle_fdw.Gis.Geometry.{Geometry, sdo_dimension}
use oracle_fdw.Gis.Store.{
  IsExact, store, coord_size, HasRoom, HasRoom-store, store-store, coord_size-store,
  sdo_dimension-store,
}
use oracle_fdw.Gis.Decode.Append.{
  expect_type-fill, read_count-fill, append_triple_lem, append_coords_lem,
}
use oracle_fdw.Gis.Decode.Rings.{set_line_lem, set_polygon_lem}
use oracle_fdw.Gis.Decode.Shapes.{
  set_points, set_multi_point, set_polygon, set_lines, set_multi_line, set_polygons,
  set_multi_polygon,
}

module _ (o : Oci) (laws : OciLaws o) where
  set_points_lem :
      (dim : ℕ) (ps : List (List ℕ)) (g : Geometry o) (rest : Bytes)
      → All (λ p. length p ≡ dim) ps
      → All (IsExact o laws) (concat ps)
      → HasRoom o laws 0 (length (concat ps)) g
      → set_points o (length ps) dim g (print_all print_point ps ++ rest)
        ≡ ok (store o laws [] (concat ps) g, rest)
  unfolding set_points
  set_points_lem dim [] g rest l h room = refl
  set_points_lem dim (p ∷ ps) g rest l h room =
      let sum = length-append p (concat ps) in
      let more = print_all print_point ps ++ rest in
      let now : HasRoom o laws 0 (length p) g =
        omega (arith, sum, room.elem_room, room.coord_room) in
      let later : HasRoom o laws 0 (length (concat ps)) (store o laws [] p g) =
        HasRoom-store o laws [] p g (omega (arith, sum, room.elem_room, room.coord_room)) in
      simp append_assoc (
        rw (expect_type-fill 1 (unsigned_fill 1 ++ (doubles p ++ more)) (omega arith)) (
          rw (read_unsigned-fill 1 (doubles p ++ more) (omega arith)) (
            rw
              (rw l.0 at (
                append_coords_lem o laws p g more (All-append_left (IsExact o laws) p (concat ps) h)
                  now))
              (rw
                (set_points_lem dim ps (store o laws [] p g) rest l.1
                  (All-append_right (IsExact o laws) p (concat ps) h) later)
                (ap (λ g'. ok (g', rest)) (store-store o laws [] [] p (concat ps) g))))))

  pub set_multi_point_lem :
      (dim : ℕ) (ps : List (List ℕ)) (g : Geometry o) (rest : Bytes)
      → sdo_dimension o g ≡ ok dim
      → All (λ p. length p ≡ dim) ps
      → 0 < length ps
      → length ps < 2 ^ 32
      → All (IsExact o laws) (concat ps)
      → HasRoom o laws 3 (length (concat ps)) g
      → set_multi_point o g
          (unsigned_fill 4 ++ unsigned_fill (length ps) ++ print_all print_point ps ++ rest)
        ≡ ok (store o laws (1 ∷ 1 ∷ 1 ∷ []) (concat ps) g, rest)
  unfolding set_multi_point
  set_multi_point_lem dim ps g rest gd l p m h room =
      let more = print_all print_point ps ++ rest in
      let now : HasRoom o laws 0 (length (concat ps)) g =
        omega (arith, room.elem_room, room.coord_room) in
      let later : HasRoom o laws 3 0 (store o laws [] (concat ps) g) =
        HasRoom-store o laws [] (concat ps) g (omega (arith, room.elem_room, room.coord_room)) in
      simp append_assoc (
        rw gd (
          rw (expect_type-fill 4 (unsigned_fill (length ps) ++ more) (omega arith)) (
            rw (read_count-fill (length ps) more p m) (
              rw (set_points_lem dim ps g rest l h now) (
                rw
                  (append_triple_lem o laws (store o laws [] (concat ps) g) 1 1 1 (omega arith)
                    (omega arith) (omega arith) later)
                  refl)))))

  set_lines_lem :
      (dim : ℕ) (ls : List (List ℕ)) (g : Geometry o) (rest : Bytes)
      → IsDim dim
      → sdo_dimension o g ≡ ok dim
      → All (λ c. IsSequence dim c × (0 < length c)) ls
      → All (IsExact o laws) (concat ls)
      → HasRoom o laws (3 * length ls) (length (concat ls)) g
      → set_lines o (length ls) g (print_all (print_line dim) ls ++ rest)
        ≡ ok
            (store o laws (elem_array (coord_size o laws g) (elements_of 2 ls)) (concat ls) g, rest)
  unfolding set_lines
  set_lines_lem dim [] g rest d gd s h room = refl
  set_lines_lem dim (c ∷ cs) g rest d gd s h room =
      let start = coord_size o laws g in
      let sum = length-append c (concat cs) in
      let more = print_all (print_line dim) cs ++ rest in
      let next = store o laws ((start + 1) ∷ 2 ∷ 1 ∷ []) c g in
      let now : HasRoom o laws 3 (length c) g =
        omega (arith, sum, room.elem_room, room.coord_room) in
      let later : HasRoom o laws (3 * length cs) (length (concat cs)) next =
        HasRoom-store o laws ((start + 1) ∷ 2 ∷ 1 ∷ []) c g
          (omega (arith, sum, room.elem_room, room.coord_room)) in
      rw (append_assoc (print_line dim c) (print_all (print_line dim) cs) rest) (
        rw
          (set_line_lem o laws dim c g more d gd s.0.0 s.0.1
            (All-append_left (IsExact o laws) c (concat cs) h) now)
          (rw
            (set_lines_lem dim cs next rest d
              (sdo_dimension-store o laws ((start + 1) ∷ 2 ∷ 1 ∷ []) c g ∙ gd) s.1
              (All-append_right (IsExact o laws) c (concat cs) h) later)
            (rw (coord_size-store o laws ((start + 1) ∷ 2 ∷ 1 ∷ []) c g) (
              ap (λ g'. ok (g', rest))
                (store-store o laws ((start + 1) ∷ 2 ∷ 1 ∷ [])
                  (elem_array (start + length c) (elements_of 2 cs)) c (concat cs) g)))))

  pub set_multi_line_lem :
      (dim : ℕ) (ls : List (List ℕ)) (g : Geometry o) (rest : Bytes)
      → IsDim dim
      → sdo_dimension o g ≡ ok dim
      → All (λ c. IsSequence dim c × (0 < length c)) ls
      → 0 < length ls
      → All (IsExact o laws) (concat ls)
      → HasRoom o laws (3 * length ls) (length (concat ls)) g
      → set_multi_line o g
          (unsigned_fill 5 ++ unsigned_fill (length ls) ++ print_all (print_line dim) ls ++ rest)
        ≡ ok
            (store o laws (elem_array (coord_size o laws g) (elements_of 2 ls)) (concat ls) g, rest)
  unfolding set_multi_line
  set_multi_line_lem dim ls g rest d gd s p h room =
      let more = print_all (print_line dim) ls ++ rest in
      simp append_assoc (
        rw (expect_type-fill 5 (unsigned_fill (length ls) ++ more) (omega arith)) (
          rw (read_count-fill (length ls) more p (omega (arith, room.elem_room, laws.capacity-lt)))
            (set_lines_lem dim ls g rest d gd s h room)))

  -- setPolygon in the words of its elements.
  pub set_polygon_elements :
      (dim : ℕ) (rs : List (List ℕ)) (g : Geometry o) (rest : Bytes)
      → IsDim dim
      → sdo_dimension o g ≡ ok dim
      → All (IsSequence dim) rs
      → 0 < length rs
      → All (IsExact o laws) (coord_array (polygon_elements rs))
      → HasRoom o laws (3 * length rs) (length (coord_array (polygon_elements rs))) g
      → set_polygon o g (print_polygon dim rs ++ rest)
        ≡ ok (
          store o laws
              (elem_array (coord_size o laws g) (polygon_elements rs))
              (coord_array (polygon_elements rs))
              g,
          rest,
        )
  set_polygon_elements dim rs g rest d gd s p =
      rw (coord_array-ring_elements 1003 rs) (set_polygon_lem o laws dim rs g rest d gd s p)

  set_polygons_lem :
      (dim : ℕ) (ps : List (List (List ℕ))) (g : Geometry o) (rest : Bytes)
      → IsDim dim
      → sdo_dimension o g ≡ ok dim
      → All (λ rs. All (IsSequence dim) rs × (0 < length rs)) ps
      → All (IsExact o laws) (coord_array (polygons_elements ps))
      → HasRoom o laws
          (3 * length (polygons_elements ps))
          (length (coord_array (polygons_elements ps)))
          g
      → set_polygons o (length ps) g (print_all (print_polygon dim) ps ++ rest)
        ≡ ok (
          store o laws
              (elem_array (coord_size o laws g) (polygons_elements ps))
              (coord_array (polygons_elements ps))
              g,
          rest,
        )
  unfolding set_polygons
  set_polygons_lem dim [] g rest d gd s h room = refl
  set_polygons_lem dim (rs ∷ ps) g rest d gd s h room =
      let start = coord_size o laws g in
      let es = polygon_elements rs in
      let later_es = polygons_elements ps in
      let info = elem_array start es in
      let next = store o laws info (coord_array es) g in
      let more = print_all (print_polygon dim) ps ++ rest in
      let coords = coord_array-append es later_es in
      let count : length (es ++ later_es) ≡ length rs + length later_es =
        length-append es later_es ∙ rw (length-ring_elements 1003 rs) in
      let sum : length (coord_array (es ++ later_es))
          ≡ length (coord_array es) + length (coord_array later_es) =
        rw coords (length-append (coord_array es) (coord_array later_es)) in
      let exact : All (IsExact o laws) (coord_array es ++ coord_array later_es) = rw coords at h in
      let now : HasRoom o laws (3 * length rs) (length (coord_array es)) g =
        omega (arith, sum, count, room.elem_room, room.coord_room) in
      let later : HasRoom o laws (3 * length later_es) (length (coord_array later_es)) next =
        HasRoom-store o laws info (coord_array es) g (
          omega (
            arith,
            sum,
            count,
            length-elem_array start es,
            length-ring_elements 1003 rs,
            room.elem_room,
            room.coord_room,
          )) in
      rw (append_assoc (print_polygon dim rs) (print_all (print_polygon dim) ps) rest) (
        rw
          (set_polygon_elements dim rs g more d gd s.0.0 s.0.1
            (All-append_left (IsExact o laws) (coord_array es) (coord_array later_es) exact) now)
          (rw
            (set_polygons_lem dim ps next rest d
              (sdo_dimension-store o laws info (coord_array es) g ∙ gd) s.1
              (All-append_right (IsExact o laws) (coord_array es) (coord_array later_es) exact)
              later)
            (rw (elem_array-append start es later_es) (
              rw coords (
                rw (coord_size-store o laws info (coord_array es) g) (
                  ap (λ g'. ok (g', rest))
                    (store-store o laws info (elem_array (start + length (coord_array es)) later_es)
                      (coord_array es) (coord_array later_es) g)))))))

  pub set_multi_polygon_lem :
      (dim : ℕ) (ps : List (List (List ℕ))) (g : Geometry o) (rest : Bytes)
      → IsDim dim
      → sdo_dimension o g ≡ ok dim
      → All (λ rs. All (IsSequence dim) rs × (0 < length rs)) ps
      → 0 < length ps
      → length ps < 2 ^ 32
      → All (IsExact o laws) (coord_array (polygons_elements ps))
      → HasRoom o laws
          (3 * length (polygons_elements ps))
          (length (coord_array (polygons_elements ps)))
          g
      → set_multi_polygon o g
          (unsigned_fill 6 ++ unsigned_fill (length ps) ++ print_all (print_polygon dim) ps ++ rest)
        ≡ ok (
          store o laws
              (elem_array (coord_size o laws g) (polygons_elements ps))
              (coord_array (polygons_elements ps))
              g,
          rest,
        )
  unfolding set_multi_polygon
  set_multi_polygon_lem dim ps g rest d gd s p m h room =
      let more = print_all (print_polygon dim) ps ++ rest in
      simp append_assoc (
        rw (expect_type-fill 6 (unsigned_fill (length ps) ++ more) (omega arith)) (
          rw (read_count-fill (length ps) more p m) (set_polygons_lem dim ps g rest d gd s h room)))
