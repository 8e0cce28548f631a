-- ===== src/Gis/Convert/Rings.antt =====
-- The walks over the unpacked arrays, where these stand for a list of elements.
use oracle_fdw.Base.{
  ℕ, ◌+◌, ◌-◌, ◌*◌, ◌/◌, ◌^◌, ◌<◌, ◌≡◌, refl, ap, inl, inr, List, [], ◌∷◌, ◌++◌, some, arith,
  length, length-append, get_elem?, get_elem?-append_right, append_assoc, append-nil,
}
use oracle_fdw.Memory.{u32}
use oracle_fdw.Result.{ok}
use oracle_fdw.Gis.Ewkb.{Element, elem_array, coord_array, doubles, IsDim}
use oracle_fdw.Gis.Ewkb.Arrays.{coord_array-append}
use oracle_fdw.Gis.Geometry.{Unpacked, divide, num_coords, elem_at, coord_at}
use oracle_fdw.Gis.Encode.Rings.{fill_coords, ring_begin, ring_end, ring_points, fill_ring}
use oracle_fdw.Gis.Convert.Unpacking.{unpacked_of, elem_at-append, pred32-suc, rounds-add}

-- The coordinates of each element.
abbrev pub rings_of : List Element → List (List ℕ)
rings_of [] = []
rings_of (e ∷ es) = e.coords ∷ rings_of es

pub divide-IsDim : (n dim : ℕ) → IsDim dim → divide n dim ≡ ok (n / dim)
unfolding divide
divide-IsDim n dim (inl d) = rw d refl
divide-IsDim n dim (inr d) = rw d refl

coord_at_lem :
    (u : Unpacked) (k : ℕ) {x : ℕ} → get_elem? u.coord k ≡ some x → coord_at (some u) k ≡ ok x
unfolding coord_at
coord_at_lem u k h = ground arith

pub elem_at_lem :
    (u : Unpacked) (k : ℕ) {x : ℕ} → get_elem? u.elem k ≡ some x → elem_at (some u) k ≡ ok x
unfolding elem_at
elem_at_lem u k h = ground arith

pub fill_coords_lem :
    (xs before after : List ℕ) (k : ℕ) (elem : List ℕ)
    → k ≡ length before
    → fill_coords (length xs) k (some (record { elem = elem; coord = before ++ (xs ++ after) }))
      ≡ ok (doubles xs)
unfolding fill_coords
fill_coords_lem [] before after k elem e = refl
fill_coords_lem (x ∷ xs) before after k elem e =
    let next =
      fill_coords_lem xs (before ++ (x ∷ [])) after (k + 1) elem
        (omega (arith, e, length-append before (x ∷ []))) in
    rw
      (coord_at_lem (record { elem = elem; coord = before ++ (x ∷ (xs ++ after)) }) k
        (get_elem?-append_right before (x ∷ (xs ++ after)) k 0 (omega (arith, e))))
      (rw (rw (append_assoc before (x ∷ []) (xs ++ after)) at next) refl)

pub fill_coords_all :
    (xs elem : List ℕ)
    → fill_coords (length xs) 0 (some (record { elem = elem; coord = xs })) ≡ ok (doubles xs)
fill_coords_all xs elem = rw (append-nil xs) at (fill_coords_lem xs [] [] 0 elem refl)

pub num_coords_lem :
    (es : List Element) → num_coords (some (unpacked_of es)) ≡ length (coord_array es)
unfolding num_coords
num_coords_lem es = refl

-- The elements `before`, `e` and `after`, and a bound on their coordinates.
module _ (before after : List Element) (e : Element)
    (small : length (coord_array (before ++ (e ∷ after))) < 2 ^ 31) where
  abbrev all : List Element
  all = before ++ (e ∷ after)

  abbrev split :
      length (coord_array all)
      ≡ length (coord_array before) + (length e.coords + length (coord_array after))
  split = rw (coord_array-append before (e ∷ after)) (rw length-append (rw length-append))

  ring_begin_lem :
      (j : ℕ)
      → j ≡ length before
      → ring_begin j (some (unpacked_of all)) ≡ ok (length (coord_array before))
  unfolding ring_begin
  ring_begin_lem j h =
      rw
        (elem_at_lem (unpacked_of all) (j * 3)
          (elem_at-append before (e ∷ after) (j * 3) 0 (omega (arith, h))))
        (ap ok (pred32-suc (length (coord_array before)) (omega (arith, small, split))))

-- The end of an element is the beginning of the next, or the end of all.
pub ring_end_lem :
    (before after : List Element) (e : Element) (j total : ℕ)
    → length (coord_array (before ++ (e ∷ after))) < 2 ^ 31
    → j ≡ length before
    → total ≡ length (before ++ (e ∷ after))
    → ring_end total j (some (unpacked_of (before ++ (e ∷ after))))
      ≡ ok (length (coord_array before) + length e.coords)
unfolding ring_end num_coords
ring_end_lem before [] e j total small h t =
    ground (arith, split before [] e small, length-append before (e ∷ []))
ring_end_lem before (x ∷ after) e j total small h t =
    let moved = append_assoc before (e ∷ []) (x ∷ after) in
    let next =
      ring_begin_lem (before ++ (e ∷ [])) after x (rw moved small) (j + 1)
        (omega (arith, h, length-append before (e ∷ []))) in
    let size : length (coord_array (before ++ (e ∷ [])))
        ≡ length (coord_array before) + length e.coords =
      rw (coord_array-append before (e ∷ []))
        (rw length-append (omega (arith, length-append e.coords []))) in
    ground (arith, rw moved at next, size, length-append before (e ∷ x ∷ after))

module _ (before after : List Element) (e : Element) (j total : ℕ)
    (small : length (coord_array (before ++ (e ∷ after))) < 2 ^ 31) (here : j ≡ length before)
    (count : total ≡ length (before ++ (e ∷ after))) where
  pub ring_points_lem :
      (dim : ℕ)
      → IsDim dim
      → ring_points dim total j (some (unpacked_of (before ++ (e ∷ after))))
        ≡ ok (length e.coords / dim)
  unfolding ring_points
  ring_points_lem dim d =
      let c = length (coord_array before) in
      let n = length e.coords in
      let wrap : u32 (c + n + 2 ^ 32 - c) ≡ n = omega (arith, small, split before after e small) in
      rw (ring_begin_lem before after e small j here)
        (rw (ring_end_lem before after e j total small here count) (rw wrap (divide-IsDim n dim d)))

  pub fill_ring_lem :
      fill_ring total j (some (unpacked_of (before ++ (e ∷ after)))) ≡ ok (doubles e.coords)
  unfolding fill_ring
  fill_ring_lem =
      let c = length (coord_array before) in
      let n = length e.coords in
      rw (ring_begin_lem before after e small j here) (
        rw (ring_end_lem before after e j total small here count) (
          rw (rounds-add c n) (
            rw (coord_array-append before (e ∷ after)) (
              fill_coords_lem e.coords (coord_array before) (coord_array after) c
                (elem_array 0 (before ++ (e ∷ after))) refl))))
