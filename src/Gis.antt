-- ===== src/Gis.antt =====
-- oracle_gis.c: the conversion between the bytes of a PostGIS geometry and Oracle's SDO_GEOMETRY,
-- with the map of SRIDs.
pub mod Srid
pub mod Geometry
pub mod Decode
pub mod Unpack
pub mod Encode
pub mod Convert
pub mod Ewkb
pub mod Store
