-- ===== src/Gis/Convert.antt =====
-- What the two directions of the conversion do on a PostGIS geometry and on the object that
-- stands for it, and that they are inverse to each other.
pub mod Header
pub mod Reading
pub mod Unpacking
pub mod Unpacked
pub mod Rings
pub mod Walks
pub mod Polygons
pub mod MultiPolygons
pub mod Lengths
pub mod Writing
pub mod HeaderFill
pub mod RoundTrip
pub mod Whole
pub mod Errors
