-- ===== src/Gis/Store.antt =====
-- What it means that numbers have been appended to the two collections of a geometry.
use mathlib.Core.List.{map-append}
use oracle_fdw.Base.{
  ℕ, ◌+◌, ◌^◌, ◌≤◌, ◌<◌, ◌≡◌, refl, ◌∙◌, sym, List, [], ◌∷◌, ◌++◌, map, some, arith, length,
  length-append, length-map, append_assoc, append-nil,
}
use oracle_fdw.Oci.{Oci, OciLaws}
use oracle_fdw.Gis.Geometry.{Geometry, sdo_dimension, gtype_of}

module _ (o : Oci) (laws : OciLaws o) where
  -- The numbers that OCINumberFromReal represents exactly.
  abbrev pub IsExact : ℕ → Type 0
  IsExact x =
      (x < 2 ^ 64)
      × (o.number_from_real x ≡ some (laws.real_number x))
      × (o.number_to_real (laws.real_number x) ≡ some x)

  abbrev pub append_all : List o.Number → o.Array → o.Array
  append_all [] c = c
  append_all (n ∷ ns) c = append_all ns (laws.appended n c)

  pub append_all-append :
      (ms ns : List o.Number) (c : o.Array)
      → append_all (ms ++ ns) c ≡ append_all ns (append_all ms c)
  append_all-append [] ns c = refl
  append_all-append (m ∷ ms) ns c = append_all-append ms ns (laws.appended m c)

  pub contents-append_all :
      (ns : List o.Number) (c : o.Array)
      → laws.contents (append_all ns c) ≡ laws.contents c ++ map some ns
  contents-append_all [] c = sym (append-nil (laws.contents c))
  contents-append_all (n ∷ ns) c =
      contents-append_all ns (laws.appended n c)
      ∙ rw (laws.contents-appended n c) (append_assoc (laws.contents c) (some n ∷ []) (map some ns))

  -- The geometry with `es` behind its SDO_ELEM_INFO and `xs` behind its SDO_ORDINATES.
  abbrev pub store : List ℕ → List ℕ → Geometry o → Geometry o
  store es xs g = record g {
    geometry = record g.geometry {
      sdo_elem_info = append_all (map laws.int_number es) g.geometry.sdo_elem_info;
      sdo_ordinates = append_all (map laws.real_number xs) g.geometry.sdo_ordinates;
    };
  }

  abbrev pub elem_size : Geometry o → ℕ
  elem_size g = length (laws.contents g.geometry.sdo_elem_info)

  abbrev pub coord_size : Geometry o → ℕ
  coord_size g = length (laws.contents g.geometry.sdo_ordinates)

  -- There is room for `e` and `d` more numbers.
  pub record HasRoom (e d : ℕ) (g : Geometry o) : Type 0 where
    pub elem_room : elem_size g + e ≤ laws.capacity
    pub coord_room : coord_size g + d ≤ laws.capacity

  pub store-store :
      (es es' xs xs' : List ℕ) (g : Geometry o)
      → store es' xs' (store es xs g) ≡ store (es ++ es') (xs ++ xs') g
  store-store es es' xs xs' g = simp (map-append, append_all-append)

  pub length-append_all :
      (f : ℕ → o.Number) (xs : List ℕ) (c : o.Array)
      → length (laws.contents (append_all (map f xs) c)) ≡ length (laws.contents c) + length xs
  length-append_all f xs c =
      rw (contents-append_all (map f xs) c) (rw length-append (rw length-map (rw length-map)))

  pub coord_size-store :
      (es xs : List ℕ) (g : Geometry o) → coord_size (store es xs g) ≡ coord_size g + length xs
  coord_size-store es xs g = length-append_all laws.real_number xs g.geometry.sdo_ordinates

  pub HasRoom-store :
      {e d : ℕ} (es xs : List ℕ) (g : Geometry o)
      → HasRoom (length es + e) (length xs + d) g
      → HasRoom e d (store es xs g)
  HasRoom-store es xs g h = record {
    elem_room =
        omega (arith, h.elem_room, length-append_all laws.int_number es g.geometry.sdo_elem_info);
    coord_room =
        omega (arith, h.coord_room, length-append_all laws.real_number xs g.geometry.sdo_ordinates);
  }

  pub sdo_dimension-store :
      (es xs : List ℕ) (g : Geometry o) → sdo_dimension o (store es xs g) ≡ sdo_dimension o g
  unfolding sdo_dimension gtype_of
  sdo_dimension-store es xs g = refl
