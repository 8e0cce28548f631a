-- ===== src/Result.antt =====
-- How a routine ends: with a value, with an error that it reports by oracleError (ereport(ERROR),
-- which does not return), or in a memory access or a division that C leaves undefined.
use oracle_fdw.Base.{ℕ, List, ◌≡◌, refl}

-- The reports of oracle_gis.c, oracle_fdw.c and of decodeHex, a constructor for each message.
pub data Error : Type 0 where
  -- initSRIDMap
  srid_open srid_line_too_long srid_scan srid_not_two_numbers srid_zero srid_too_large srid_read :
      Error
  -- OCI calls
  int_to_number number_to_int real_to_number number_to_real object_new_failed : Error
  append_elem_info_failed append_coord_failed coll_size_failed coll_get_failed : Error
  element_missing element_null : ℕ → Error
  -- SDO_GEOMETRY to EWKB
  gtype_null collection_unsupported solid_unsupported multisolid_unsupported : Error
  gtype_unknown unexpected_type : ℕ → Error
  four_dimensional measure_dimension elem_info_null ordinates_null elem_info_short : Error
  point_etype point_interpretation point_null_coordinate : Error
  half_null_arrays elem_info_not_triples no_element : Error
  elem_unsupported : ℕ → ℕ → Error
  bytes_written : ℕ → ℕ → Error
  -- EWKB to SDO_GEOMETRY
  type_unsupported type_unknown : ℕ → Error
  measure_with_z geodetic empty_shape empty_point_inside : Error
  expected_type : ℕ → ℕ → Error
  bytes_read : ℕ → ℕ → Error
  -- deparseDate, deparseTimestamp, deparseInterval
  infinite_date infinite_timestamp interval_hour : Error
  -- oracle_fdw_validator, getBoolVal and getIsolationLevel, with the name of the option
  invalid_option invalid_value missing_option : List ℕ → Error
  -- checkDataType, addParam, and the statements that change rows
  inconvertible bfile_column nothing_updated no_key long_in_returning long_with_trigger : Error
  on_conflict unexpected_operation system_column : Error
  impossible_option : List ℕ → Error
  -- decodeHex, with the length and the offset
  hex_length hex_value : ℕ → Error

pub data Fault : Type 0 where
  null_pointer out_of_bounds division_by_zero signed_overflow : Fault

pub data Result {ℓ} (A : Type ℓ) : Type ℓ where
  ok : A → Result A
  err : Error → Result A
  fault : Fault → Result A

infixl 5 ◌>>=◌ ◌>>◌
abbrev pub ◌>>=◌ {ℓ κ} : {A : Type ℓ} {B : Type κ} → Result A → (A → Result B) → Result B
ok a >>= f = f a
err e >>= f = err e
fault e >>= f = fault e

abbrev pub ◌>>◌ {ℓ} : {B : Type ℓ} → Result (Unit {0}) → Result B → Result B
m >> k = m >>= λ _. k

-- What a chain that succeeds has passed through.
pub bind-ok {ℓ κ} :
    {A : Type ℓ} {B : Type κ} (m : Result A) (f : A → Result B) (b : B)
    → m >>= f ≡ ok b
    → (a : A) × (m ≡ ok a) × (f a ≡ ok b)
bind-ok (ok a) f b h = (a, refl, h)
bind-ok (err e) f b h = absurd (cc h)
bind-ok (fault e) f b h = absurd (cc h)
