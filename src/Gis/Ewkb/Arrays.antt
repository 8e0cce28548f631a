-- ===== src/Gis/Ewkb/Arrays.antt =====
-- The arrays of elements that stand one behind the other.
use oracle_fdw.Base.{
  ℕ, suc, ◌+◌, ◌*◌, ◌≡◌, refl, ap, List, [], ◌∷◌, ◌++◌, arith, length, length-append, append_assoc,
}
use oracle_fdw.Gis.Ewkb.{concat, Element, elements_of, ring_elements, elem_array, coord_array}

pub coord_array-append :
    (xs ys : List Element) → coord_array (xs ++ ys) ≡ coord_array xs ++ coord_array ys
coord_array-append [] ys = refl
coord_array-append (x ∷ xs) ys = simp (coord_array-append xs ys, append_assoc)

pub elem_array-append :
    (start : ℕ) (xs ys : List Element)
    → elem_array start (xs ++ ys)
      ≡ elem_array start xs ++ elem_array (start + length (coord_array xs)) ys
elem_array-append start [] ys = ap (λ n. elem_array n ys) (omega arith)
elem_array-append start (x ∷ xs) ys = rw (elem_array-append (start + length x.coords) xs ys) (
    ap
      (λ n.
        ((start + 1) ∷ x.etype ∷ 1 ∷ elem_array (start + length x.coords) xs) ++ elem_array n ys)
      (omega (arith, length-append x.coords (coord_array xs))))

pub coord_array-ring_elements :
    (etype : ℕ) (rs : List (List ℕ)) → coord_array (ring_elements etype rs) ≡ concat rs
coord_array-ring_elements etype [] = refl
coord_array-ring_elements etype (r ∷ rs) = rw (coord_array-ring_elements 2003 rs)

pub coord_array-elements_of :
    (etype : ℕ) (cs : List (List ℕ)) → coord_array (elements_of etype cs) ≡ concat cs
coord_array-elements_of etype [] = refl
coord_array-elements_of etype (c ∷ cs) = rw (coord_array-elements_of etype cs)

pub length-elem_array :
    (start : ℕ) (es : List Element) → length (elem_array start es) ≡ 3 * length es
length-elem_array start [] = refl
length-elem_array start (e ∷ es) = omega (arith, length-elem_array (start + length e.coords) es)

pub length-ring_elements :
    (etype : ℕ) (rs : List (List ℕ)) → length (ring_elements etype rs) ≡ length rs
length-ring_elements etype [] = refl
length-ring_elements etype (r ∷ rs) = ap suc (length-ring_elements 2003 rs)

pub length-elements_of :
    (etype : ℕ) (cs : List (List ℕ)) → length (elements_of etype cs) ≡ length cs
length-elements_of etype [] = refl
length-elements_of etype (c ∷ cs) = ap suc (length-elements_of etype cs)
