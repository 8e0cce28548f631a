-- ===== src/Gis/Ewkb.antt =====
-- An independent description of both formats: what a PostGIS geometry is, how it is laid out in
-- bytes, and which SDO_GTYPE, SDO_ELEM_INFO and SDO_ORDINATES stand for it.
pub mod Arrays
use oracle_fdw.Base.{
  ℕ, ◌+◌, ◌*◌, ◌/◌, ◌%◌, ◌^◌, ◌<◌, ◌≡◌, ◌≢◌, ◌⊎◌, Bool, true, false, List, [], ◌∷◌, ◌++◌, Bytes,
  length, All, ◌==◌, if◌then◌else◌,
}
use oracle_fdw.Memory.{unsigned_fill, double_fill}

-- A list of coordinates goes through its points in order. A polygon is the list of its rings.
pub data Shape : Type 0 where
  point line : List ℕ → Shape
  polygon multi_point multi_line : List (List ℕ) → Shape
  multi_polygon : List (List (List ℕ)) → Shape

-- The number of coordinates of a point: 3 with a third dimension or a measure.
abbrev pub IsDim : ℕ → Type 0
IsDim dim = (dim ≡ 2) ⊎ (dim ≡ 3)

abbrev pub concat {ℓ} : {A : Type ℓ} → List (List A) → List A
concat [] = []
concat (x ∷ xs) = x ++ concat xs

abbrev pub doubles : List ℕ → Bytes
doubles [] = []
doubles (x ∷ xs) = double_fill x ++ doubles xs

-- The sizes of rings, in points.
abbrev pub sizes : ℕ → List (List ℕ) → Bytes
sizes dim [] = []
sizes dim (r ∷ rs) = unsigned_fill (length r / dim) ++ sizes dim rs

-- An odd number of sizes is followed by a zero.
abbrev pub padding : ℕ → Bytes
padding rings = if rings % 2 == 0 then [] else unsigned_fill 0

abbrev pub print_point : List ℕ → Bytes
print_point c = unsigned_fill 1 ++ unsigned_fill 1 ++ doubles c

abbrev pub print_line : ℕ → List ℕ → Bytes
print_line dim c = unsigned_fill 2 ++ unsigned_fill (length c / dim) ++ doubles c

abbrev pub print_polygon : ℕ → List (List ℕ) → Bytes
print_polygon dim rs =
    unsigned_fill 3
    ++ unsigned_fill (length rs)
    ++ sizes dim rs
    ++ padding (length rs)
    ++ doubles (concat rs)

abbrev pub print_all {ℓ} : {A : Type ℓ} → (A → Bytes) → List A → Bytes
print_all f [] = []
print_all f (x ∷ xs) = f x ++ print_all f xs

abbrev pub print_shape : ℕ → Shape → Bytes
print_shape dim (Shape.point c) = print_point c
print_shape dim (Shape.line c) = print_line dim c
print_shape dim (Shape.polygon rs) = print_polygon dim rs
print_shape dim (Shape.multi_point ps) =
    unsigned_fill 4 ++ unsigned_fill (length ps) ++ print_all print_point ps
print_shape dim (Shape.multi_line ls) =
    unsigned_fill 5 ++ unsigned_fill (length ls) ++ print_all (print_line dim) ls
print_shape dim (Shape.multi_polygon ps) =
    unsigned_fill 6 ++ unsigned_fill (length ps) ++ print_all (print_polygon dim) ps

-- An element of an SDO_GEOMETRY, with interpretation 1.
pub record Element : Type 0 where
  pub etype : ℕ
  pub coords : List ℕ

abbrev pub elements_of : ℕ → List (List ℕ) → List Element
elements_of etype [] = []
elements_of etype (c ∷ cs) = record { etype = etype; coords = c } ∷ elements_of etype cs

-- The rings of a polygon: the first one has the type `etype`, the others are interior ones.
abbrev pub ring_elements : ℕ → List (List ℕ) → List Element
ring_elements etype [] = []
ring_elements etype (r ∷ rs) = record { etype = etype; coords = r } ∷ ring_elements 2003 rs

abbrev pub polygon_elements : List (List ℕ) → List Element
polygon_elements rs = ring_elements 1003 rs

abbrev pub polygons_elements : List (List (List ℕ)) → List Element
polygons_elements [] = []
polygons_elements (p ∷ ps) = polygon_elements p ++ polygons_elements ps

-- The elements of a shape; a point has none, since it goes to SDO_POINT.
abbrev pub elements : Shape → List Element
elements (Shape.point c) = []
elements (Shape.line c) = record { etype = 2; coords = c } ∷ []
elements (Shape.polygon rs) = polygon_elements rs
elements (Shape.multi_point ps) = record { etype = 1; coords = concat ps } ∷ []
elements (Shape.multi_line ls) = elements_of 2 ls
elements (Shape.multi_polygon ps) = polygons_elements ps

-- SDO_ELEM_INFO and SDO_ORDINATES, behind `start` ordinates.
abbrev pub elem_array : ℕ → List Element → List ℕ
elem_array start [] = []
elem_array start (e ∷ es) = (start + 1) ∷ e.etype ∷ 1 ∷ elem_array (start + length e.coords) es

abbrev pub coord_array : List Element → List ℕ
coord_array [] = []
coord_array (e ∷ es) = e.coords ++ coord_array es

-- The last two digits of SDO_GTYPE, and the number that PostGIS has for the type.
abbrev pub gtype_digits : Shape → ℕ
gtype_digits (Shape.point c) = 1
gtype_digits (Shape.line c) = 2
gtype_digits (Shape.polygon rs) = 3
gtype_digits (Shape.multi_point ps) = 5
gtype_digits (Shape.multi_line ls) = 6
gtype_digits (Shape.multi_polygon ps) = 7

abbrev pub type_number : Shape → ℕ
type_number (Shape.point c) = 1
type_number (Shape.line c) = 2
type_number (Shape.polygon rs) = 3
type_number (Shape.multi_point ps) = 4
type_number (Shape.multi_line ls) = 5
type_number (Shape.multi_polygon ps) = 6

-- Whole points.
abbrev pub IsSequence : ℕ → List ℕ → Type 0
IsSequence dim c = length c % dim ≡ 0

-- Shapes that both formats can express: nothing is empty but a ring.
abbrev pub IsShape : ℕ → Shape → Type 0
IsShape dim (Shape.point c) = length c ≡ dim
IsShape dim (Shape.line c) = IsSequence dim c × (0 < length c)
IsShape dim (Shape.polygon rs) = All (IsSequence dim) rs × (0 < length rs)
IsShape dim (Shape.multi_point ps) = All (λ p. length p ≡ dim) ps × (0 < length ps)
IsShape dim (Shape.multi_line ls) =
    All (λ c. IsSequence dim c × (0 < length c)) ls × (0 < length ls)
IsShape dim (Shape.multi_polygon ps) =
    All (λ rs. All (IsSequence dim) rs × (0 < length rs)) ps × (0 < length ps)

-- The coordinates of a shape, in order.
abbrev pub shape_coords : Shape → List ℕ
shape_coords (Shape.point c) = c
shape_coords s = coord_array (elements s)

-- The dimensions of the coordinates.
pub data Layout : Type 0 where
  xy xyz xym : Layout

abbrev pub layout_dim : Layout → ℕ
layout_dim Layout.xy = 2
layout_dim Layout.xyz = 3
layout_dim Layout.xym = 3

abbrev pub layout_flags : Layout → ℕ
layout_flags Layout.xy = 0
layout_flags Layout.xyz = 1
layout_flags Layout.xym = 2

-- SDO_GTYPE with type 0.
abbrev pub layout_gtype : Layout → ℕ
layout_gtype Layout.xy = 2000
layout_gtype Layout.xyz = 3000
layout_gtype Layout.xym = 3300

-- A PostGIS geometry without a bounding box.
pub record Ewkb : Type 0 where
  pub srid : ℕ
  pub layout : Layout
  pub shape : Shape

abbrev pub dim_of : Ewkb → ℕ
dim_of w = layout_dim w.layout

abbrev pub gtype_of_ewkb : Ewkb → ℕ
gtype_of_ewkb w = layout_gtype w.layout + gtype_digits w.shape

-- The low byte of the SRID comes last.
abbrev pub srid_print : ℕ → Bytes
srid_print srid = (srid / 65536) ∷ (srid / 256 % 256) ∷ (srid % 256) ∷ []

abbrev pub print : Ewkb → Bytes
print w = srid_print w.srid ++ layout_flags w.layout ∷ print_shape (dim_of w) w.shape

pub record IsEwkb (w : Ewkb) : Type 0 where
  pub srid_lt : w.srid < 2 ^ 21
  pub is_shape : IsShape (dim_of w) w.shape
