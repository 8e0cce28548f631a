-- ===== src/Gis/Convert/Polygons.antt =====
-- The loops over the polygons of a multipolygon, which begin at the exterior rings.
use oracle_fdw.Base.{
  ℕ, zero, suc, ◌+◌, ◌*◌, ◌<◌, ◌≡◌, refl, ap, ◌∙◌, List, [], ◌∷◌, ◌++◌, some, arith, length,
  length-append, All, append_assoc, ◌==◌, if◌then◌else◌,
}
use oracle_fdw.Result.{ok}
use oracle_fdw.Gis.Ewkb.{Element, ring_elements, polygons_elements}
use oracle_fdw.Gis.Geometry.{elem_at}
use oracle_fdw.Gis.Encode.Rings.{count_exterior, next_exterior}
use oracle_fdw.Gis.Convert.Unpacking.{unpacked_of, elem_at-append}
use oracle_fdw.Gis.Convert.Rings.{rings_of, elem_at_lem}

abbrev pub AreNonempty : List (List (List ℕ)) → Type 0
AreNonempty ps = All (λ rs. 0 < length rs) ps

pub rings_of-ring_elements :
    (etype : ℕ) (rs : List (List ℕ)) → rings_of (ring_elements etype rs) ≡ rs
rings_of-ring_elements etype [] = refl
rings_of-ring_elements etype (r ∷ rs) = rw (rings_of-ring_elements 2003 rs)

-- The exterior rings among the elements.
abbrev exteriors : List Element → ℕ
exteriors [] = 0
exteriors (e ∷ es) = (if e.etype == 1003 then 1 else 0) + exteriors es

exteriors-append : (xs ys : List Element) → exteriors (xs ++ ys) ≡ exteriors xs + exteriors ys
exteriors-append [] ys = omega arith
exteriors-append (x ∷ xs) ys = omega (arith, exteriors-append xs ys)

exteriors-interior : (rs : List (List ℕ)) → exteriors (ring_elements 2003 rs) ≡ 0
exteriors-interior [] = refl
exteriors-interior (r ∷ rs) = omega (arith, exteriors-interior rs)

exteriors-polygons :
    (ps : List (List (List ℕ))) → AreNonempty ps → exteriors (polygons_elements ps) ≡ length ps
exteriors-polygons [] h = refl
exteriors-polygons ([] ∷ ps) h = absurd (omega (arith, h.0))
exteriors-polygons ((r ∷ rs) ∷ ps) h = omega (
  arith,
  exteriors-append (ring_elements 2003 rs) (polygons_elements ps),
  exteriors-interior rs,
  exteriors-polygons ps h.1,
)

-- The type of the element behind `before`.
etype_at :
    (before after : List Element) (e : Element) (j : ℕ)
    → j ≡ length before
    → elem_at (some (unpacked_of (before ++ (e ∷ after)))) (j * 3 + 1) ≡ ok e.etype
etype_at before after e j h =
    elem_at_lem (unpacked_of (before ++ (e ∷ after))) (j * 3 + 1)
      (elem_at-append before (e ∷ after) (j * 3 + 1) 1 (omega (arith, h)))

count_exterior_lem :
    (before mid : List Element) (i : ℕ)
    → i ≡ length before
    → count_exterior (length mid) i (some (unpacked_of (before ++ mid))) ≡ ok (exteriors mid)
unfolding count_exterior
count_exterior_lem before [] i h = refl
count_exterior_lem before (e ∷ mid) i h =
    let next =
      count_exterior_lem (before ++ (e ∷ [])) mid (i + 1)
        (omega (arith, h, length-append before (e ∷ []))) in
    rw (etype_at before mid e i h) (rw (rw (append_assoc before (e ∷ []) mid) at next) refl)

pub count_exterior-polygons :
    (ps : List (List (List ℕ)))
    → AreNonempty ps
    → count_exterior (length (polygons_elements ps)) 0 (some (unpacked_of (polygons_elements ps)))
      ≡ ok (length ps)
count_exterior-polygons ps h =
    count_exterior_lem [] (polygons_elements ps) 0 refl ∙ ap ok (exteriors-polygons ps h)

-- From behind the exterior ring, `j` moves over the interior rings.
pub next_exterior_lem :
    (before : List Element) (rs : List (List ℕ)) (ps : List (List (List ℕ))) (n j rings : ℕ)
    → AreNonempty ps
    → j ≡ length before
    → n ≡ length (ring_elements 2003 rs ++ polygons_elements ps)
    → next_exterior n j rings
        (some (unpacked_of (before ++ (ring_elements 2003 rs ++ polygons_elements ps))))
      ≡ ok (j + length rs, rings + length rs)
unfolding next_exterior
next_exterior_lem before [] [] zero j rings ne h t = ground arith
next_exterior_lem before [] [] (suc n) j rings ne h t = absurd (omega (arith, t))
next_exterior_lem before [] ([] ∷ ps) n j rings ne h t = absurd (omega (arith, ne.0))
next_exterior_lem before [] ((r ∷ rs) ∷ ps) zero j rings ne h t = absurd (omega (arith, t))
next_exterior_lem before [] ((r ∷ rs) ∷ ps) (suc n) j rings ne h t =
    rw
      (etype_at before (ring_elements 2003 rs ++ polygons_elements ps)
        (record { etype = 1003; coords = r }) j h)
      (ground arith)
next_exterior_lem before (r ∷ rs) ps zero j rings ne h t = absurd (omega (arith, t))
next_exterior_lem before (r ∷ rs) ps (suc n) j rings ne h t =
    let e : Element = record { etype = 2003; coords = r } in
    let rest = ring_elements 2003 rs ++ polygons_elements ps in
    let next =
      next_exterior_lem (before ++ (e ∷ [])) rs ps n (j + 1) (rings + 1) ne
        (omega (arith, h, length-append before (e ∷ []))) (omega (arith, t)) in
    rw (etype_at before rest e j h) (rw (append_assoc before (e ∷ []) rest) at next ∙ ground arith)
