-- ===== src/Gis/Unpack.antt =====
-- oracle_gis.c, unpack: the two collections of an SDO_GEOMETRY as plain arrays, without the elements
-- of type 0.
use oracle_fdw.Base.{
  ℕ, zero, suc, ◌+◌, ◌-◌, ◌/◌, ◌%◌, ◌^◌, ◌&&◌, ◌||◌, List, [], ◌∷◌, ◌++◌, Option, none, some,
  length, ltb, ◌==◌, if◌then◌else◌,
}
use oracle_fdw.Memory.{u32}
use oracle_fdw.Oci.{Oci}
use oracle_fdw.Result.{
  Result, ok, err, fault, ◌>>=◌, out_of_bounds, coll_size_failed, coll_get_failed, element_missing,
  element_null, half_null_arrays, elem_info_not_triples, no_element,
}
use oracle_fdw.Gis.Geometry.{
  Geometry, Unpacked, is_null, or_error, number_to_uint, number_to_double,
}

-- a - 1 on an unsigned
abbrev pub pred32 : ℕ → ℕ
pred32 a = u32 (a + 2 ^ 32 - 1)

-- coord_i runs from b to e - 1.
abbrev pub rounds : ℕ → ℕ → ℕ
rounds b e = if ltb b e then e - b else 0

-- What OCICollGetElem found at `i`.
unfoldable pub element {ℓ} : {A : Type ℓ} → ℕ → Option (Option (Option A)) → Result A
element i none = err coll_get_failed
element i (some none) = err (element_missing i)
element i (some (some none)) = err (element_null i)
element i (some (some (some n))) = ok n

module _ (o : Oci) where
  unfoldable pub num_elem_info : Geometry o → Result ℕ
  num_elem_info g = or_error coll_size_failed (o.coll_size g.geometry.sdo_elem_info)

  unfoldable pub num_coord : Geometry o → Result ℕ
  num_coord g = or_error coll_size_failed (o.coll_size g.geometry.sdo_ordinates)

  unfoldable pub elem_info : Geometry o → ℕ → Result ℕ
  elem_info g i = element i (o.coll_get_elem g.geometry.sdo_elem_info i) >>= λ n. number_to_uint o n

  unfoldable pub coord : Geometry o → ℕ → Result ℕ
  coord g i = element i (o.coll_get_elem g.geometry.sdo_ordinates i) >>= λ n. number_to_double o n

  -- The inner loop, at ordinate `i`: geom->coord has room for `room` numbers.
  unfoldable pub copy_ordinates : ℕ → ℕ → ℕ → Geometry o → List ℕ → Result (List ℕ)
  copy_ordinates zero i room g coords = ok coords
  copy_ordinates (suc n) i room g coords = do
    x ← coord g i
    if ltb (length coords) room
        then copy_ordinates n (i + 1) room g (coords ++ (x ∷ []))
        else fault out_of_bounds

  -- next_offset after the element at `i`
  unfoldable pub next_offset : Geometry o → ℕ → ℕ → ℕ → Result ℕ
  next_offset g elem_count coord_count i =
      if ltb (i + 4) elem_count then elem_info g (i + 3) else ok (u32 (coord_count + 1))

  -- The offset of the element at `i`; `next` is what next_offset holds.
  unfoldable pub this_offset : Geometry o → ℕ → ℕ → Result ℕ
  this_offset g next i = if next == 0 then elem_info g i else ok next

  -- One round: the element at `i` is copied unless its type is 0.
  unfoldable pub copy_element : Geometry o → ℕ → ℕ → ℕ → ℕ → ℕ → Unpacked → Result Unpacked
  copy_element g room offset etype interpretation next u = if etype == 0 then ok u else (do
    coords ← copy_ordinates (rounds (pred32 offset) (pred32 next)) (pred32 offset) room g u.coord
    ok (record {
      elem = u.elem ++ (length u.coord + 1) ∷ etype ∷ interpretation ∷ [];
      coord = coords;
    }))

  -- The outer loop: `n` rounds are left, the next element is the one at `i`.
  unfoldable pub unpack_elements : ℕ → Geometry o → ℕ → ℕ → ℕ → ℕ → Unpacked → Result Unpacked
  unpack_elements zero g elem_count coord_count i next u = ok u
  unpack_elements (suc n) g elem_count coord_count i next u = do
    offset ← this_offset g next i
    etype ← elem_info g (i + 1)
    interpretation ← elem_info g (i + 2)
    next' ← next_offset g elem_count coord_count i
    u' ← copy_element g coord_count offset etype interpretation next' u
    unpack_elements n g elem_count coord_count (i + 3) next' u'

  unfoldable pub unpack_arrays : Geometry o → Result (Geometry o)
  unpack_arrays g = do
    elem_count ← num_elem_info g
    coord_count ← num_coord g
    if elem_count % 3 == 0
        then (do
          u ←
              unpack_elements (elem_count / 3) g elem_count coord_count 0 0
                (record { elem = []; coord = [] })
          if length u.elem == 0 then err no_element else ok (record g { unpacked = some u }))
        else err elem_info_not_triples

  unfoldable pub unpack : Geometry o → Result (Geometry o)
  unpack g =
      let no_elems = is_null g.indicator.sdo_elem_info in
      let no_coords = is_null g.indicator.sdo_ordinates in
      if no_elems && no_coords
      then ok g
      else if no_elems || no_coords
      then err half_null_arrays
      else unpack_arrays g
