-- ===== src/Oci.antt =====
-- The part of the Oracle Call Interface that oracle_gis.c calls, and the objects that it passes.
-- OCI is not part of this repository: it is a parameter of the model. `Oci` holds the calls, whose
-- failure is `none`, and `OciLaws` what their documentation promises of those that succeed.
use oracle_fdw.Base.{ℕ, ◌^◌, ◌<◌, ◌≡◌, List, [], ◌∷◌, ◌++◌, Option, some, length, get_elem?}

-- OCIInd: OCI_IND_NULL or OCI_IND_NOTNULL.
pub data Ind : Type 0 where
  null not_null : Ind

-- sdo_geometry_ind with its sdo_point_type_ind
pub record Indicator : Type 0 where
  pub atomic : Ind
  pub sdo_gtype : Ind
  pub sdo_srid : Ind
  pub point_atomic : Ind
  pub point_x : Ind
  pub point_y : Ind
  pub point_z : Ind
  pub sdo_elem_info : Ind
  pub sdo_ordinates : Ind

-- sdo_geometry with its sdo_point_type, over the types OCINumber and OCIArray
pub record SdoGeometry (Number Array : Type 0) : Type 0 where
  pub sdo_gtype : Number
  pub sdo_srid : Number
  pub point_x : Number
  pub point_y : Number
  pub point_z : Number
  pub sdo_elem_info : Array
  pub sdo_ordinates : Array

-- A double is its bit pattern.
pub record Oci : Type 1 where
  -- OCINumber, OCIArray
  pub Number : Type 0
  pub Array : Type 0
  -- OCINumberFromInt and OCINumberToInt, at OCI_NUMBER_UNSIGNED and sizeof(unsigned)
  pub number_from_int : ℕ → Option Number
  pub number_to_int : Number → Option ℕ
  -- OCINumberFromReal and OCINumberToReal, at sizeof(double)
  pub number_from_real : ℕ → Option Number
  pub number_to_real : Number → Option ℕ
  -- OCICollAppend, OCICollSize, and OCICollGetElem: nothing if the call fails, else nothing if the
  -- element does not exist, else nothing if its indicator is OCI_IND_NULL
  pub coll_append : Number → Array → Option Array
  pub coll_size : Array → Option ℕ
  pub coll_get_elem : Array → ℕ → Option (Option (Option Number))
  -- OCIObjectNew of an MDSYS.SDO_GEOMETRY with OCIObjectGetInd
  pub object_new : Option (SdoGeometry Number Array × Indicator)

-- What the documentation of OCI promises.
pub record OciLaws (o : Oci) : Type 0 where
  -- Every unsigned int has an exact NUMBER.
  pub int_number : ℕ → o.Number
  pub from_int : (n : ℕ) → n < 2 ^ 32 → o.number_from_int n ≡ some (int_number n)
  pub to_int : (n : ℕ) → n < 2 ^ 32 → o.number_to_int (int_number n) ≡ some n
  -- OCINumberFromReal is a function where it succeeds.
  pub real_number : ℕ → o.Number
  pub from_real : (x : ℕ) (n : o.Number) → o.number_from_real x ≡ some n → n ≡ real_number x
  -- A collection is a list of numbers, some of them NULL, up to its declared maximal size.
  pub contents : o.Array → List (Option o.Number)
  pub capacity : ℕ
  pub capacity-lt : capacity < 2 ^ 31
  pub appended : o.Number → o.Array → o.Array
  pub append :
      (n : o.Number) (c : o.Array)
      → length (contents c) < capacity
      → o.coll_append n c ≡ some (appended n c)
  pub contents-appended :
      (n : o.Number) (c : o.Array) → contents (appended n c) ≡ contents c ++ (some n ∷ [])
  pub size : (c : o.Array) → o.coll_size c ≡ some (length (contents c))
  pub get_elem : (c : o.Array) (i : ℕ) → o.coll_get_elem c i ≡ some (get_elem? (contents c) i)
  -- A new object has empty collections.
  pub new_object : SdoGeometry o.Number o.Array
  pub new_indicator : Indicator
  pub new : o.object_new ≡ some (new_object, new_indicator)
  pub new_elem_info : contents new_object.sdo_elem_info ≡ []
  pub new_ordinates : contents new_object.sdo_ordinates ≡ []
