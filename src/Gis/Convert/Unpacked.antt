-- ===== src/Gis/Convert/Unpacked.antt =====
-- The loop of unpack, and unpack itself, on the collections that a list of elements stands for.
use oracle_fdw.Base.{
  ℕ, ◌+◌, ◌*◌, ◌/◌, ◌<◌, ◌≡◌, refl, ap, ◌⊎◌, inl, inr, List, [], ◌∷◌, ◌++◌, some, arith, length,
  length-append, length-map, All-append_right, append_assoc, append-nil,
}
use oracle_fdw.Oci.{Oci, OciLaws, not_null}
use oracle_fdw.Result.{ok}
use oracle_fdw.Gis.Ewkb.{Element, elem_array, coord_array}
use oracle_fdw.Gis.Ewkb.Arrays.{coord_array-append, length-elem_array}
use oracle_fdw.Gis.Geometry.{Geometry}
use oracle_fdw.Gis.Unpack.{
  num_elem_info, num_coord, elem_info, this_offset, unpack_elements, unpack_arrays, unpack,
}
use oracle_fdw.Gis.Convert.Unpacking.{
  IsKnown, known-lt, Holds, elem_info_lem, elem_at-append, next_offset_lem, copy_element_lem,
  unpacked_of,
}

module _ (o : Oci) (laws : OciLaws o) where
  -- next_offset has not been read, or it is the offset of the element behind `before`.
  abbrev IsNext : List Element → ℕ → Type 0
  IsNext before next = (next ≡ 0) ⊎ (next ≡ length (coord_array before) + 1)

  offset_at :
      (before after : List Element) (e : Element) (g : Geometry o)
      → Holds o laws (before ++ (e ∷ after)) g
      → elem_info o g (3 * length before) ≡ ok (length (coord_array before) + 1)
  offset_at before after e g holds =
      let sum = ap length (coord_array-append before (e ∷ after)) in
      elem_info_lem o laws (elem_array 0 (before ++ (e ∷ after))) g (3 * length before)
        (length (coord_array before) + 1) holds.elems
        (elem_at-append before (e ∷ after) (3 * length before) 0 (omega arith))
        (omega
          (arith, sum, length-append (coord_array before) (coord_array (e ∷ after)), holds.small))

  this_offset_lem :
      (before after : List Element) (e : Element) (next : ℕ) (g : Geometry o)
      → Holds o laws (before ++ (e ∷ after)) g
      → IsNext before next
      → this_offset o g next (3 * length before) ≡ ok (length (coord_array before) + 1)
  unfolding this_offset
  this_offset_lem before after e next g holds (inl n) = rw n (offset_at before after e g holds)
  this_offset_lem before after e next g holds (inr n) = ground (arith, n)

  unpack_elements_lem :
      (before after : List Element) (i next : ℕ) (g : Geometry o)
      → Holds o laws (before ++ after) g
      → i ≡ 3 * length before
      → IsNext before next
      → unpack_elements o
          (length after)
          g
          (3 * length (before ++ after))
          (length (coord_array (before ++ after)))
          i
          next
          (unpacked_of before)
        ≡ ok (unpacked_of (before ++ after))
  unfolding unpack_elements
  unpack_elements_lem before [] i next g holds h n = rw append-nil
  unpack_elements_lem before (e ∷ after) i next g holds h n =
      let all = before ++ (e ∷ after) in
      let now = before ++ (e ∷ []) in
      let moved : now ++ after ≡ all = append_assoc before (e ∷ []) after in
      let known = (All-append_right IsKnown before (e ∷ after) holds.known).0 in
      let count = length-append before (e ∷ []) in
      let later : Holds o laws (now ++ after) g = rw moved holds in
      rw h (
        rw (this_offset_lem before after e next g holds n) (
          rw
            (elem_info_lem o laws (elem_array 0 all) g (3 * length before + 1) e.etype holds.elems
              (elem_at-append before (e ∷ after) (3 * length before + 1) 1 refl)
              (known-lt e.etype known))
            (rw
              (elem_info_lem o laws (elem_array 0 all) g (3 * length before + 2) 1 holds.elems
                (elem_at-append before (e ∷ after) (3 * length before + 2) 2 refl) (omega arith))
              (rw
                (rw moved at (
                  next_offset_lem o laws now after g (3 * length before) later
                    (omega (arith, count)) (omega (arith, count))))
                (rw (copy_element_lem o laws before after e g holds) (
                  rw moved at (
                    unpack_elements_lem now after (3 * length before + 3)
                      (length (coord_array now) + 1) g later (omega (arith, count))
                      (inr refl))))))))

  num_elem_info_lem :
      (es : List Element) (g : Geometry o)
      → Holds o laws es g
      → num_elem_info o g ≡ ok (3 * length es)
  unfolding num_elem_info
  num_elem_info_lem es g holds =
      rw (laws.size g.geometry.sdo_elem_info)
        (rw holds.elems (rw length-map (rw length-map (ap ok (length-elem_array 0 es)))))

  num_coord_lem :
      (es : List Element) (g : Geometry o)
      → Holds o laws es g
      → num_coord o g ≡ ok (length (coord_array es))
  unfolding num_coord
  num_coord_lem es g holds =
      rw (laws.size g.geometry.sdo_ordinates) (rw holds.coords (rw length-map (rw length-map)))

  unpack_arrays_lem :
      (es : List Element) (g : Geometry o)
      → Holds o laws es g
      → 0 < length es
      → unpack_arrays o g ≡ ok (record g { unpacked = some (unpacked_of es) })
  unfolding unpack_arrays
  unpack_arrays_lem es g holds p =
      let rounds : 3 * length es / 3 ≡ length es = omega arith in
      rw (num_elem_info_lem es g holds) (
        rw (num_coord_lem es g holds) (
          rw rounds (
            rw (unpack_elements_lem [] es 0 0 g holds refl (inl refl))
              (ground (arith, length-elem_array 0 es)))))

  -- Where the two collections hold a list of elements that is not empty, all of supported types,
  -- unpack reads them all, in order, with the offsets and the ordinates as they are.
  pub unpack_lem :
      (es : List Element) (g : Geometry o)
      → Holds o laws es g
      → 0 < length es
      → g.indicator.sdo_elem_info ≡ not_null
      → g.indicator.sdo_ordinates ≡ not_null
      → unpack o g ≡ ok (record g { unpacked = some (unpacked_of es) })
  unfolding unpack
  unpack_lem es g holds p ei oi = ground (arith, unpack_arrays_lem es g holds p)
