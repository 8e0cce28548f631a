-- ===== src/Gis/Convert/Walks.antt =====
-- The loops over rings, lines, points and polygons, where the arrays stand for a list of elements.
use oracle_fdw.Base.{
  ℕ, ◌+◌, ◌*◌, ◌^◌, ◌<◌, ◌≡◌, refl, List, [], ◌∷◌, ◌++◌, some, arith, length, length-append, All,
  append_assoc,
}
use oracle_fdw.Result.{ok}
use oracle_fdw.Gis.Ewkb.{
  Element, coord_array, doubles, sizes, IsDim, print_line, print_all, concat, print_point,
}
use oracle_fdw.Gis.Decode.Rings.{doubles-append}
use oracle_fdw.Gis.Encode.Rings.{fill_ring_sizes, fill_rings}
use oracle_fdw.Gis.Encode.Shapes.{fill_lines, fill_points}
use oracle_fdw.Gis.Convert.Unpacking.{unpacked_of}
use oracle_fdw.Gis.Convert.Rings.{rings_of, fill_coords_lem, ring_points_lem, fill_ring_lem}

module _ (dim : ℕ) (d : IsDim dim) where
  pub fill_ring_sizes_lem :
      (before rings after : List Element) (j total : ℕ)
      → length (coord_array (before ++ (rings ++ after))) < 2 ^ 31
      → j ≡ length before
      → total ≡ length (before ++ (rings ++ after))
      → fill_ring_sizes (length rings) dim total j (some (unpacked_of (before ++ (rings ++ after))))
        ≡ ok (sizes dim (rings_of rings))
  unfolding fill_ring_sizes
  fill_ring_sizes_lem before [] after j total small h t = refl
  fill_ring_sizes_lem before (e ∷ rings) after j total small h t =
      let moved = append_assoc before (e ∷ []) (rings ++ after) in
      let next =
        fill_ring_sizes_lem (before ++ (e ∷ [])) rings after (j + 1) total (rw moved small)
          (omega (arith, h, length-append before (e ∷ []))) (rw moved t) in
      rw (ring_points_lem before (rings ++ after) e j total small h t dim d)
        (rw (rw moved at next) refl)

  pub fill_lines_lem :
      (before lines after : List Element) (j total : ℕ)
      → length (coord_array (before ++ (lines ++ after))) < 2 ^ 31
      → j ≡ length before
      → total ≡ length (before ++ (lines ++ after))
      → fill_lines (length lines) dim total j (some (unpacked_of (before ++ (lines ++ after))))
        ≡ ok (print_all (print_line dim) (rings_of lines))
  unfolding fill_lines
  fill_lines_lem before [] after j total small h t = refl
  fill_lines_lem before (e ∷ lines) after j total small h t =
      let moved = append_assoc before (e ∷ []) (lines ++ after) in
      let next =
        fill_lines_lem (before ++ (e ∷ [])) lines after (j + 1) total (rw moved small)
          (omega (arith, h, length-append before (e ∷ []))) (rw moved t) in
      rw (ring_points_lem before (lines ++ after) e j total small h t dim d) (
        rw (fill_ring_lem before (lines ++ after) e j total small h t) (rw (rw moved at next) refl))

pub fill_rings_lem :
    (before rings after : List Element) (j total : ℕ)
    → length (coord_array (before ++ (rings ++ after))) < 2 ^ 31
    → j ≡ length before
    → total ≡ length (before ++ (rings ++ after))
    → fill_rings (length rings) total j (some (unpacked_of (before ++ (rings ++ after))))
      ≡ ok (doubles (coord_array rings))
unfolding fill_rings
fill_rings_lem before [] after j total small h t = refl
fill_rings_lem before (e ∷ rings) after j total small h t =
    let moved = append_assoc before (e ∷ []) (rings ++ after) in
    let next =
      fill_rings_lem (before ++ (e ∷ [])) rings after (j + 1) total (rw moved small)
        (omega (arith, h, length-append before (e ∷ []))) (rw moved t) in
    rw (fill_ring_lem before (rings ++ after) e j total small h t)
      (rw (rw moved at next) (rw doubles-append))

-- The points of a multipoint, whose coordinates stand in a row.
pub fill_points_lem :
    (dim : ℕ) (ps : List (List ℕ)) (before after elem : List ℕ) (i : ℕ)
    → All (λ p. length p ≡ dim) ps
    → i * dim ≡ length before
    → fill_points
        (length ps)
        i
        dim
        (some (record { elem = elem; coord = before ++ (concat ps ++ after) }))
      ≡ ok (print_all print_point ps)
unfolding fill_points
fill_points_lem dim [] before after elem i l h = refl
fill_points_lem dim (p ∷ ps) before after elem i l h =
    let moved = append_assoc before p (concat ps ++ after) in
    let next =
      fill_points_lem dim ps (before ++ p) after elem (i + 1) l.1
        (grind (arith, length-append before p, l.0)) in
    rw (append_assoc p (concat ps) after) (
      rw (rw l.0 at (fill_coords_lem p before (concat ps ++ after) (i * dim) elem h))
        (rw (rw moved at next) refl))
