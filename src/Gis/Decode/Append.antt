-- ===== src/Gis/Decode/Append.antt =====
-- The routines that append to the collections, on input that the other direction has written.
use oracle_fdw.Base.{
  ℕ, ◌+◌, ◌^◌, ◌<◌, ◌≡◌, refl, List, [], ◌∷◌, ◌++◌, arith, length, All, append_assoc, Bytes,
}
use oracle_fdw.Memory.{unsigned_fill, double_fill, u32}
use oracle_fdw.Memory.Laws.{read_unsigned-fill, read_double-fill}
use oracle_fdw.Oci.{Oci, OciLaws}
use oracle_fdw.Result.{ok}
use oracle_fdw.Gis.Ewkb.{doubles}
use oracle_fdw.Gis.Geometry.{Geometry}
use oracle_fdw.Gis.Store.{IsExact, store, elem_size, coord_size, HasRoom, HasRoom-store}
use oracle_fdw.Gis.Decode.Shapes.{
  expect_type, read_count, append_elem_info, append_coord, num_coord, append_triple, append_coords,
  append_element,
}

pub expect_type-fill :
    (type : ℕ) (rest : Bytes)
    → type < 2 ^ 32
    → expect_type type (unsigned_fill type ++ rest) ≡ ok rest
unfolding expect_type
expect_type-fill type rest h = rw (read_unsigned-fill type rest h) (ground arith)

pub read_count-fill :
    (n : ℕ) (rest : Bytes)
    → 0 < n
    → n < 2 ^ 32
    → read_count (unsigned_fill n ++ rest) ≡ ok (n, rest)
unfolding read_count
read_count-fill n rest p h = rw (read_unsigned-fill n rest h) (ground arith)

module _ (o : Oci) (laws : OciLaws o) where
  pub append_elem_info_lem :
      (g : Geometry o) (info : ℕ)
      → info < 2 ^ 32
      → elem_size o laws g < laws.capacity
      → append_elem_info o g info ≡ ok (store o laws (info ∷ []) [] g)
  unfolding append_elem_info
  append_elem_info_lem g info h room =
      rw (laws.from_int info h)
        (rw (laws.append (laws.int_number info) g.geometry.sdo_elem_info room) refl)

  pub append_coord_lem :
      (g : Geometry o) (x : ℕ)
      → IsExact o laws x
      → coord_size o laws g < laws.capacity
      → append_coord o g x ≡ ok (store o laws [] (x ∷ []) g)
  unfolding append_coord
  append_coord_lem g x h room =
      rw h.1 (rw (laws.append (laws.real_number x) g.geometry.sdo_ordinates room) refl)

  pub num_coord_lem : (g : Geometry o) → num_coord o g ≡ ok (coord_size o laws g)
  unfolding num_coord
  num_coord_lem g = rw (laws.size g.geometry.sdo_ordinates)

  pub append_triple_lem :
      (g : Geometry o) (a b c : ℕ)
      → a < 2 ^ 32
      → b < 2 ^ 32
      → c < 2 ^ 32
      → HasRoom o laws 3 0 g
      → append_triple o g a b c ≡ ok (store o laws (a ∷ b ∷ c ∷ []) [] g)
  unfolding append_triple
  append_triple_lem g a b c ha hb hc room =
      let r1 =
        HasRoom-store o laws {e = 2} {d = 0} (a ∷ []) [] g
          (omega (arith, room.elem_room, room.coord_room)) in
      let r2 =
        HasRoom-store o laws {e = 1} {d = 0} (a ∷ b ∷ []) [] g
          (omega (arith, room.elem_room, room.coord_room)) in
      rw (append_elem_info_lem g a ha (omega (arith, room.elem_room))) (
        rw (append_elem_info_lem (store o laws (a ∷ []) [] g) b hb (omega (arith, r1.elem_room))) (
          append_elem_info_lem (store o laws (a ∷ b ∷ []) [] g) c hc (omega (arith, r2.elem_room))))

  pub append_coords_lem :
      (xs : List ℕ) (g : Geometry o) (rest : Bytes)
      → All (IsExact o laws) xs
      → HasRoom o laws 0 (length xs) g
      → append_coords o (length xs) g (doubles xs ++ rest) ≡ ok (store o laws [] xs g, rest)
  unfolding append_coords
  append_coords_lem [] g rest h room = refl
  append_coords_lem (x ∷ xs) g rest h room =
      let r =
        HasRoom-store o laws {e = 0} {d = length xs} [] (x ∷ []) g
          (omega (arith, room.elem_room, room.coord_room)) in
      rw (append_assoc (double_fill x) (doubles xs) rest) (
        rw (read_double-fill x (doubles xs ++ rest) h.0.0) (
          rw (append_coord_lem g x h.0 (omega (arith, room.coord_room)))
            (append_coords_lem xs (store o laws [] (x ∷ []) g) rest h.1 r)))

  pub append_element_lem :
      (etype : ℕ) (xs : List ℕ) (g : Geometry o) (rest : Bytes)
      → etype < 2 ^ 32
      → All (IsExact o laws) xs
      → HasRoom o laws 3 (length xs) g
      → append_element o etype (length xs) g (doubles xs ++ rest)
        ≡ ok (store o laws ((coord_size o laws g + 1) ∷ etype ∷ 1 ∷ []) xs g, rest)
  unfolding append_element
  append_element_lem etype xs g rest he h room =
      let start = coord_size o laws g in
      let fits : u32 (start + 1) ≡ start + 1 = omega (arith, room.coord_room, laws.capacity-lt) in
      rw (num_coord_lem g) (
        rw fits (
          rw
            (append_triple_lem g (start + 1) etype 1
              (omega (arith, room.coord_room, laws.capacity-lt)) he (omega arith)
              (omega (arith, room.elem_room, room.coord_room)))
            (append_coords_lem xs (store o laws ((start + 1) ∷ etype ∷ 1 ∷ []) [] g) rest h (
              HasRoom-store o laws {e = 0} {d = length xs} ((start + 1) ∷ etype ∷ 1 ∷ []) [] g
                (omega (arith, room.elem_room, room.coord_room))))))
