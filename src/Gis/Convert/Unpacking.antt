-- ===== src/Gis/Convert/Unpacking.antt =====
-- unpack on the collections that an abstract list of elements stands for.
use oracle_fdw.Base.{
  ℕ, ◌+◌, ◌*◌, ◌^◌, ◌≤◌, ◌<◌, ◌≡◌, refl, ap, ◌∙◌, true, List, [], ◌∷◌, ◌++◌, map, some, arith,
  length, length-append, get_elem?, get_elem?-append_right, get_elem?-map, All, ltb_of_lt,
  ltb_of_le, false, All-append_left, All-append_right, append_assoc, append-nil, ◌==◌,
}
use oracle_fdw.Oci.{Oci, OciLaws}
use oracle_fdw.Result.{ok}
use oracle_fdw.Gis.Ewkb.{Element, elem_array, coord_array}
use oracle_fdw.Gis.Ewkb.Arrays.{elem_array-append, coord_array-append, length-elem_array}
use oracle_fdw.Gis.Geometry.{Geometry, Unpacked}
use oracle_fdw.Gis.Store.{IsExact}
use oracle_fdw.Gis.Encode.{is_supported}
use oracle_fdw.Gis.Unpack.{
  pred32, rounds, element, elem_info, coord, copy_ordinates, next_offset, copy_element,
}

abbrev pub IsKnown : Element → Type 0
IsKnown e = is_supported e.etype 1 ≡ true

pub known-ne_zero : (t : ℕ) → is_supported t 1 ≡ true → (t == 0) ≡ false
known-ne_zero t h = ground arith

pub known-lt : (t : ℕ) → is_supported t 1 ≡ true → t < 2 ^ 32
known-lt t h = ground arith

pub pred32-suc : (c : ℕ) → c < 2 ^ 31 → pred32 (c + 1) ≡ c
pred32-suc c h = omega arith

pub rounds-add : (c n : ℕ) → rounds c (c + n) ≡ n
rounds-add c n = ground arith

abbrev pub unpacked_of : List Element → Unpacked
unpacked_of es = record { elem = elem_array 0 es; coord = coord_array es }

-- The numbers of SDO_ELEM_INFO that belong to the element behind `before`.
pub elem_at-append :
    (before : List Element) (after : List Element) (i k : ℕ)
    → i ≡ 3 * length before + k
    → get_elem? (elem_array 0 (before ++ after)) i
      ≡ get_elem? (elem_array (length (coord_array before)) after) k
elem_at-append before after i k e = rw (elem_array-append 0 before after) (
    get_elem?-append_right (elem_array 0 before)
      (elem_array (0 + length (coord_array before)) after) i k
      (omega (arith, e, length-elem_array 0 before))
    ∙ ap (λ n. get_elem? (elem_array n after) k) (omega arith))

module _ (o : Oci) (laws : OciLaws o) where
  -- The collections of `g` hold the elements `es`.
  pub record Holds (es : List Element) (g : Geometry o) : Type 0 where
    pub elems :
        laws.contents g.geometry.sdo_elem_info ≡ map some (map laws.int_number (elem_array 0 es))
    pub coords :
        laws.contents g.geometry.sdo_ordinates ≡ map some (map laws.real_number (coord_array es))
    pub known : All IsKnown es
    pub exact : All (IsExact o laws) (coord_array es)
    pub small : length (coord_array es) < 2 ^ 31

  pub elem_info_lem :
      (es : List ℕ) (g : Geometry o) (i e : ℕ)
      → laws.contents g.geometry.sdo_elem_info ≡ map some (map laws.int_number es)
      → get_elem? es i ≡ some e
      → e < 2 ^ 32
      → elem_info o g i ≡ ok e
  unfolding elem_info element
  elem_info_lem es g i e c at h = rw (laws.get_elem g.geometry.sdo_elem_info i) (
      rw c (
        rw (get_elem?-map some (map laws.int_number es) i (get_elem?-map laws.int_number es i at))
          (rw (laws.to_int e h) refl)))

  coord_lem :
      (xs : List ℕ) (g : Geometry o) (i x : ℕ)
      → laws.contents g.geometry.sdo_ordinates ≡ map some (map laws.real_number xs)
      → get_elem? xs i ≡ some x
      → IsExact o laws x
      → coord o g i ≡ ok x
  unfolding coord element
  coord_lem xs g i x c at h = rw (laws.get_elem g.geometry.sdo_ordinates i) (
      rw c (
        rw (get_elem?-map some (map laws.real_number xs) i (get_elem?-map laws.real_number xs i at))
          (rw h.2 refl)))

  copy_ordinates_lem :
      (xs before after acc : List ℕ) (i room : ℕ) (g : Geometry o)
      → laws.contents g.geometry.sdo_ordinates
        ≡ map some (map laws.real_number (before ++ (xs ++ after)))
      → All (IsExact o laws) xs
      → i ≡ length before
      → length acc + length xs ≤ room
      → copy_ordinates o (length xs) i room g acc ≡ ok (acc ++ xs)
  unfolding copy_ordinates
  copy_ordinates_lem [] before after acc i room g c h e fits = rw append-nil
  copy_ordinates_lem (x ∷ xs) before after acc i room g c h e fits =
      rw
        (coord_lem (before ++ (x ∷ (xs ++ after))) g i x c
          (get_elem?-append_right before (x ∷ (xs ++ after)) i 0 (omega (arith, e))) h.0)
        (ground (
          arith,
          copy_ordinates_lem xs (before ++ (x ∷ [])) after (acc ++ (x ∷ [])) (i + 1) room g
              (c ∙ rw (append_assoc before (x ∷ []) (xs ++ after))) h.1
              (omega (arith, e, length-append before (x ∷ [])))
              (omega (arith, fits, length-append acc (x ∷ []))),
          append_assoc acc (x ∷ []) xs,
        ))

  -- next_offset, behind an element.
  pub next_offset_lem :
      (before after : List Element) (g : Geometry o) (i : ℕ)
      → Holds (before ++ after) g
      → 0 < length before
      → i + 3 ≡ 3 * length before
      → next_offset o g (3 * length (before ++ after)) (length (coord_array (before ++ after))) i
        ≡ ok (length (coord_array before) + 1)
  unfolding next_offset
  next_offset_lem before [] g i holds p e =
      let small : length (coord_array before) < 2 ^ 31 = rw (append-nil before) at holds.small in
      rw (append-nil before) (
        rw (ltb_of_le (i + 4) (3 * length before) (omega (arith, e)))
          (ap ok (omega (arith, small))))
  next_offset_lem before (x ∷ after) g i holds p e =
      let all = before ++ (x ∷ after) in
      let sum = rw (coord_array-append before (x ∷ after)) at holds.small in
      rw (ltb_of_lt (i + 4) (3 * length all) (omega (arith, e, length-append before (x ∷ after)))) (
        elem_info_lem (elem_array 0 all) g (i + 3) (length (coord_array before) + 1) holds.elems
          (elem_at-append before (x ∷ after) (i + 3) 0 (omega (arith, e)))
          (omega (arith, sum, length-append (coord_array before) (coord_array (x ∷ after)))))

  pub copy_element_lem :
      (before after : List Element) (e : Element) (g : Geometry o)
      → Holds (before ++ (e ∷ after)) g
      → copy_element o g
          (length (coord_array (before ++ (e ∷ after))))
          (length (coord_array before) + 1)
          e.etype
          1
          (length (coord_array (before ++ (e ∷ []))) + 1)
          (unpacked_of before)
        ≡ ok (unpacked_of (before ++ (e ∷ [])))
  unfolding copy_element
  copy_element_lem before after e g holds =
      let c = length (coord_array before) in
      let n = length e.coords in
      let all = coord_array-append before (e ∷ after) in
      let now : coord_array (before ++ (e ∷ [])) ≡ coord_array before ++ e.coords =
        coord_array-append before (e ∷ []) ∙ rw (append-nil e.coords) in
      let sum : length (coord_array (before ++ (e ∷ after)))
          ≡ c + (n + length (coord_array after)) =
        rw all (rw length-append (rw length-append)) in
      let same : 0 + c ≡ c = omega arith in
      let this : IsKnown e = (All-append_right IsKnown before (e ∷ after) holds.known).0 in
      let size : length (coord_array (before ++ (e ∷ []))) ≡ c + n = rw now (rw length-append) in
      let exact =
        All-append_right (IsExact o laws) (coord_array before) (e.coords ++ coord_array after)
          (rw all at holds.exact) in
      rw (known-ne_zero e.etype this) (
        rw size (
          rw (pred32-suc c (omega (arith, sum, holds.small))) (
            rw (pred32-suc (c + n) (omega (arith, sum, holds.small))) (
              rw (rounds-add c n) (
                rw
                  (copy_ordinates_lem e.coords (coord_array before) (coord_array after)
                    (coord_array before) c (length (coord_array (before ++ (e ∷ after)))) g
                    (holds.coords ∙ rw all)
                    (All-append_left (IsExact o laws) e.coords (coord_array after) exact) refl
                    (omega (arith, sum)))
                  (rw now (rw (elem_array-append 0 before (e ∷ [])) (rw same))))))))
