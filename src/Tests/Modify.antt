-- ===== src/Tests/Modify.antt =====
-- INSERT, UPDATE and DELETE of a small table.
use oracle_fdw.Base.{
  ℕ, ◌≡◌, refl, Bool, true, false, List, [], ◌∷◌, ◌++◌, Option, none, some, Bytes, ◌==◌, arith,
}
use oracle_fdw.Base.Int.{pos}
use oracle_fdw.Result.{ok}
use oracle_fdw.Text.{codes, decimal, decimal_padded, decimal_digits, zeros}
use oracle_fdw.Jni.Types.{OraType, geometry, number, varchar2, date}
use oracle_fdw.Fdw.Options.Values.{get_bool_val}
use oracle_fdw.Fdw.Columns.{
  PgType, int4, pg_date, invalid_oid, bind_number, bind_geometry, text, bind_string, convertible,
  check_data_type, bind_type, add_param, as_type,
}
use oracle_fdw.Fdw.Columns.Binding.{fits, bind_type-fits}
use oracle_fdw.Fdw.Modify.{
  Column, Table, Attribute, Building, flag_option, column_options, get_column_data, key_options,
  key_targets, add_update_targets, param_name, key_name, output_name, each, insert_column,
  insert_value, build_insert_query,
}
use oracle_fdw.Fdw.Modify.Plan.{
  CmdType, insert, update, delete, Triggers, Statement, has_trigger, live_attnums, updated_attnums,
  target_attrs, mark_used, mark_columns, advance, update_column, update_columns, build_update_query,
  key_condition, returning_column, returning_output, append_returning_clause, build_command,
  nothing_built, plan_foreign_modify,
}
use oracle_fdw.Fdw.Modify.Loops.{IsInsertable, IsBindable}
use oracle_fdw.Fdw.Modify.Statements.{
  insert_text, where_text, build_insert_query_lem, plan_foreign_modify-delete,
}
use oracle_fdw.Fdw.Modify.Updates.{plan_foreign_modify-update}
use oracle_fdw.Fdw.Modify.Planned.{IsCommand}
use oracle_fdw.Fdw.Modify.Conditions.{plan_foreign_modify-where}
use oracle_fdw.Fdw.Modify.Beyond.{query_of, plan_foreign_modify-key_beyond}

abbrev column : Bytes → OraType → Option Bytes → ℕ → PgType → Bool → Column
column name oratype pgname attnum pgtype key = record {
  name = name;
  oratype = oratype;
  scale = pos 0;
  pgname = pgname;
  pgattnum = attnum;
  pgtype = pgtype;
  pgtypmod = pos 0;
  used = false;
  strip_zeros = false;
  pkey = key;
}

abbrev columns : List Column
columns =
    column (codes "\"ID\"") number (some (codes "id")) 1 int4 true
    ∷ column (codes "\"HIRED\"") date (some (codes "hired")) 3 pg_date false
    ∷ column (codes "\"NOTE\"") varchar2 none 0 invalid_oid false
    ∷ []

abbrev emp : Table
emp = record { name = codes "\"EMP\""; cols = columns }

abbrev attribute : Bytes → ℕ → PgType → Bool → List (Bytes × Bytes) → Attribute
attribute name attnum type dropped options = record {
  attname = name;
  attnum = attnum;
  atttypid = type;
  atttypmod = pos 0;
  attisdropped = dropped;
  options = options;
}

abbrev attributes : List Attribute
attributes =
    attribute (codes "id") 1 int4 false ((codes "key", codes "true") ∷ [])
    ∷ attribute (codes "gone") 2 int4 true []
    ∷ attribute (codes "hired") 3 pg_date false []
    ∷ []

abbrev statement : CmdType → Option Triggers → Option (Bool × List ℕ) → Statement
statement operation triggers returning = record {
  operation = operation;
  has_on_conflict = false;
  triggers = triggers;
  attributes = attributes;
  updated = 3 ∷ [];
  returning = returning;
}

insert_emp :
    query_of (plan_foreign_modify (statement insert none none) emp)
    ≡ some
        (codes "INSERT INTO \"EMP\" (\"ID\", \"HIRED\") VALUES (:p00001, CAST (:p00003 AS DATE))")
unfolding plan_foreign_modify target_attrs mark_columns build_command build_insert_query each
    insert_column insert_value check_data_type convertible add_param bind_type as_type param_name
    append_returning_clause returning_column returning_output has_trigger live_attnums decimal
    decimal_padded decimal_digits zeros
insert_emp = refl

update_emp :
    query_of (plan_foreign_modify (statement update none (some (false, 3 ∷ []))) emp)
    ≡ some (
        codes
          "UPDATE \"EMP\" SET \"HIRED\" = CAST (:p00003 AS DATE) WHERE \"ID\" = :k1 RETURNING \"HIRED\" INTO :r3")
unfolding plan_foreign_modify target_attrs updated_attnums mark_columns mark_used build_command
    build_update_query update_columns update_column advance each key_condition check_data_type
    convertible add_param bind_type as_type param_name key_name output_name append_returning_clause
    returning_column returning_output has_trigger live_attnums decimal decimal_padded decimal_digits
    zeros
update_emp = refl

-- An SDO_GEOMETRY as text is accepted, and bound as a geometry.
bind_type-geometry :
    (check_data_type geometry (pos 0) text ≡ ok tt) × (bind_type geometry text ≡ ok bind_geometry)
unfolding check_data_type convertible bind_type
bind_type-geometry = (refl, refl)

bind_type-fits_example : fits bind_number int4 ≡ true
unfolding check_data_type convertible bind_type
bind_type-fits_example = bind_type-fits number (pos 0) int4 bind_number refl refl

id-IsInsertable : IsInsertable (column (codes "\"ID\"") number (some (codes "id")) 1 int4 true)
unfolding check_data_type convertible bind_type
id-IsInsertable = record {
  convertible = refl;
  bindable = record { bind = bind_number; bind_type_ok = refl };
}

hired-IsInsertable :
    IsInsertable (column (codes "\"HIRED\"") date (some (codes "hired")) 3 pg_date false)
unfolding check_data_type convertible bind_type
hired-IsInsertable = record {
  convertible = refl;
  bindable = record { bind = bind_string; bind_type_ok = refl };
}

build_insert_query_lem_example :
    build_insert_query emp nothing_built
    ≡ ok (record {
      sql = insert_text emp;
      firstcol = false;
      params =
          record { name = param_name 3; pgtype = pg_date; bind = bind_string; colnum = 1 }
          ∷ record { name = param_name 1; pgtype = int4; bind = bind_number; colnum = 0 }
          ∷ [];
    })
unfolding bind_type
build_insert_query_lem_example =
    build_insert_query_lem emp
      ((λ e. id-IsInsertable), ((λ e. hired-IsInsertable), ((λ e. absurd (cc e)), tt)))

id_of_key : IsBindable (column (codes "\"ID\"") number (some (codes "id")) 1 int4 true)
id_of_key = id-IsInsertable.bindable

plan_foreign_modify-delete_example :
    plan_foreign_modify (statement delete none none) emp
    ≡ ok (
      record {
        sql = (codes "DELETE FROM " ++ (emp.name ++ where_text columns)) ++ [];
        firstcol = true;
        params = record { name = key_name 1; pgtype = int4; bind = bind_number; colnum = 0 } ∷ [];
      },
      emp,
    )
unfolding mark_columns has_trigger bind_type
plan_foreign_modify-delete_example =
    plan_foreign_modify-delete (statement delete none none) emp columns refl refl refl
      ((λ e. id_of_key), ((λ e. absurd (cc e)), ((λ e. absurd (cc e)), tt)))
      ((λ e. absurd (cc e)), ((λ e. absurd (cc e)), ((λ e. absurd (cc e)), tt)))

abbrev described : List Column
described =
    column (codes "\"ID\"") number (some (codes "id")) 1 int4 true
    ∷ column (codes "\"HIRED\"") date (some (codes "hired")) 3 pg_date false
    ∷ []

abbrev undescribed : List Column
undescribed =
    column (codes "\"ID\"") number none 0 invalid_oid false
    ∷ column (codes "\"HIRED\"") date none 0 invalid_oid false
    ∷ []

abbrev described_emp : Table
described_emp = record { name = codes "\"EMP\""; cols = described }

abbrev planned : Building
planned = record {
  sql = codes "UPDATE \"EMP\" SET \"HIRED\" = CAST (:p00003 AS DATE) WHERE \"ID\" = :k1";
  firstcol = true;
  params =
      record { name = codes ":k1"; pgtype = int4; bind = bind_number; colnum = 0 }
      ∷ record { name = codes ":p00003"; pgtype = pg_date; bind = bind_string; colnum = 1 }
      ∷ [];
}

update_planned :
    plan_foreign_modify (statement update none none) described_emp ≡ ok (planned, described_emp)
unfolding plan_foreign_modify target_attrs updated_attnums mark_columns mark_used build_command
    build_update_query update_columns update_column advance each key_condition check_data_type
    convertible add_param bind_type as_type param_name key_name output_name append_returning_clause
    returning_column returning_output has_trigger live_attnums decimal decimal_padded decimal_digits
    zeros
update_planned = refl

plan_foreign_modify-update_example :
    plan_foreign_modify (statement update none none) described_emp ≡ ok (planned, described_emp)
unfolding target_attrs updated_attnums has_trigger mark_columns bind_type param_name key_name
    as_type decimal decimal_padded decimal_digits zeros
plan_foreign_modify-update_example =
    plan_foreign_modify-update (statement update none none) described_emp described
      (λ col. col.pgattnum == 3) false refl refl refl refl (((λ e. omega arith), tt), (tt, tt)) refl
      ((λ e. absurd (cc e)), ((λ e. (refl, hired-IsInsertable)), tt))
      ((λ e. id_of_key), ((λ e. absurd (cc e)), tt))
      ((λ e. absurd (cc e)), ((λ e. absurd (cc e)), tt))

plan_foreign_modify-where_example :
    (attnums : List ℕ) × (trigger : Bool) × (command rest : Bytes) × (target_attrs
        (statement update none none)
      ≡ ok (attnums, trigger))
    × IsCommand update described_emp attnums command
    × (where_text described ≡ codes " WHERE " ++ rest)
    × (planned.sql ≡ (command ++ where_text described) ++ [])
unfolding add_update_targets key_targets key_options get_column_data column_options flag_option
    get_bool_val
plan_foreign_modify-where_example =
    plan_foreign_modify-where (statement update none none) (codes "\"EMP\"") attributes undescribed
      described (codes "id" ∷ []) planned described_emp refl
      ((λ e. absurd (cc e)), ((λ e. refl), ((λ e. absurd (cc e)), tt))) (omega arith) refl refl
      update_planned

abbrev front : List Attribute
front = attribute (codes "id") 1 int4 false [] ∷ attribute (codes "hired") 2 pg_date false [] ∷ []

abbrev back : List Attribute
back = attribute (codes "extra") 3 int4 false ((codes "key", codes "true") ∷ []) ∷ []

plan_foreign_modify-key_beyond_example :
    (add_update_targets (front ++ back) ≡ ok (codes "extra" ∷ []))
    × ((cols : List Column) × (get_column_data (front ++ back) undescribed ≡ ok cols)
        × (query_of (
              plan_foreign_modify
                (statement delete none none)
                (record { name = codes "\"EMP\""; cols = cols }))
            ≡ some (codes "DELETE FROM \"EMP\"")))
unfolding add_update_targets key_targets key_options get_bool_val has_trigger
plan_foreign_modify-key_beyond_example =
    plan_foreign_modify-key_beyond (statement delete none none) (codes "\"EMP\"") front back
      undescribed ((refl, refl), ((refl, refl), tt)) refl ((refl, refl), ((refl, refl), tt)) refl
      refl refl refl
