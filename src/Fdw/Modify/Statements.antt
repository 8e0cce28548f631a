-- ===== src/Fdw/Modify/Statements.antt =====
-- The texts of INSERT and DELETE with their clauses, as a description that does not run the loops.
use oracle_fdw.Base.{
  ℕ, ◌≡◌, refl, ap, ◌∙◌, Bool, true, false, List, [], ◌∷◌, ◌++◌, Bytes, map, filter, All,
  append_assoc, append-nil, Bool-cases, inl, inr, suc, if◌then◌else◌,
}
use oracle_fdw.Result.{ok}
use oracle_fdw.Text.{codes}
use oracle_fdw.Fdw.Columns.{Param, as_type}
use oracle_fdw.Fdw.Modify.{
  Column, Table, Building, is_present, param_name, key_name, output_name, check_column,
  build_insert_query,
}
use oracle_fdw.Fdw.Modify.Plan.{
  append_returning_clause, delete, Statement, target_attrs, mark_columns, build_command,
  nothing_built, plan_foreign_modify, has_trigger,
}
use oracle_fdw.Fdw.Modify.Clauses.{pieces, collected, none_in, each_lem, param_if}
use oracle_fdw.Fdw.Modify.Loops.{
  IsBindable, IsInsertable, shown, insert_column_loop, insert_value_loop, key_loop, returning_loop,
  output_loop, bound, output,
}

-- Columns and values, in the same order, for the columns that PostgreSQL has.
abbrev pub insert_text : Table → Bytes
insert_text table =
    let present = filter is_present table.cols in
    codes "INSERT INTO "
    ++ (table.name
        ++ (codes " ("
            ++ (pieces true [] (codes ", ") (map (λ col. col.name) present)
                ++ (codes ") VALUES ("
                    ++ (pieces true [] (codes ", ")
                          (map (λ col. as_type (param_name col.pgattnum) col.pgtype) present)
                        ++ codes ")")))))

assoc5 :
    (b c d e f g : Bytes) → ((((b ++ c) ++ d) ++ e) ++ f) ++ g ≡ b ++ (c ++ (d ++ (e ++ (f ++ g))))
assoc5 b c d e f g = rw (append_assoc b c d) (
    rw (append_assoc b (c ++ d) e) (
      rw (append_assoc b ((c ++ d) ++ e) f) (
        rw (append_assoc b (((c ++ d) ++ e) ++ f) g) (
          rw (append_assoc c d e) (
            rw (append_assoc c (d ++ e) f) (
              rw (append_assoc c ((d ++ e) ++ f) g) (
                rw (append_assoc d e f)
                  (rw (append_assoc d (e ++ f) g) (rw (append_assoc e f g) refl)))))))))

assoc6 :
    (a b c d e f g : Bytes)
    → ((((a ++ (b ++ c)) ++ d) ++ e) ++ f) ++ g ≡ a ++ (b ++ (c ++ (d ++ (e ++ (f ++ g)))))
assoc6 a b c d e f g = rw (append_assoc a (b ++ c) d) (
    rw (append_assoc a ((b ++ c) ++ d) e) (
      rw (append_assoc a (((b ++ c) ++ d) ++ e) f) (
        rw (append_assoc a ((((b ++ c) ++ d) ++ e) ++ f) g)
          (ap (λ t. a ++ t) (assoc5 b c d e f g)))))

-- The parameters of the selected columns, the last one first.
abbrev pub bound_params : (Column → Bool) → (ℕ → Bytes) → List Column → List Param → List Param
bound_params selected name cols params =
    collected (λ i col ps. if selected col then bound name i col ps else ps) 0 cols params

all_good : (f : Column → Bool) (cols : List Column) → All (λ col. f col ≡ true → Unit {0}) cols
all_good f [] = tt
all_good f (col ∷ cols) = ((λ e. tt), all_good f cols)

collected_nothing :
    (f : Column → Bool) (i : ℕ) (cols : List Column) (params : List Param)
    → collected (λ j col ps. if f col then ps else ps) i cols params ≡ params
collected_nothing f i [] params = refl
collected_nothing f i (col ∷ cols) params = elim (Bool-cases (f col)) [
  | inl e ↦ rw e (collected_nothing f (suc i) cols params)
  | inr e ↦ rw e (collected_nothing f (suc i) cols params)
]

-- If each column that PostgreSQL has can be converted and bound, buildInsertQuery succeeds: its text
-- names these columns and a value for each, in the same order, and their parameters are the list.
pub build_insert_query_lem :
    (table : Table)
    → All (λ col. is_present col ≡ true → IsInsertable col) table.cols
    → build_insert_query table nothing_built
      ≡ ok (record {
        sql = insert_text table;
        firstcol = none_in (filter is_present table.cols);
        params = bound_params is_present param_name table.cols [];
      })
unfolding build_insert_query insert_column_loop insert_value_loop
build_insert_query_lem table h =
    rw (each_lem insert_column_loop 0 table.cols _ (all_good is_present table.cols)) (
      rw (each_lem insert_value_loop 0 table.cols _ h) (
        ap
          (λ s. ok (record {
            sql = s;
            firstcol = none_in (filter is_present table.cols);
            params =
                bound_params is_present param_name table.cols
                  (collected (param_if insert_column_loop) 0 table.cols []);
          }))
          (assoc6 (codes "INSERT INTO ") table.name (codes " (") _ (codes ") VALUES (") _
            (codes ")"))
        ∙ rw (collected_nothing is_present 0 table.cols []) refl))

-- The conditions on the columns of the key.
abbrev pub where_text : List Column → Bytes
where_text cols = pieces true (codes " WHERE") (codes " AND") (
    map
      (λ col.
        codes " " ++ (col.name ++ (codes " = " ++ as_type (key_name col.pgattnum) col.pgtype)))
      (filter (λ col. col.pkey) cols))

-- The columns that are used, and an output parameter for each.
abbrev pub returning_text : List Column → Bytes
returning_text cols =
    let used = filter (λ col. col.used) cols in
    pieces true (codes " RETURNING ") (codes ", ") (map shown used)
    ++ pieces true (codes " INTO ") (codes ", ") (map (λ col. output_name col.pgattnum) used)

abbrev pub output_params : List Column → List Param → List Param
output_params cols params =
    collected (λ i col ps. if col.used then output i col ps else ps) 0 cols params

pub append_returning_clause_lem :
    (table : Table) (b : Building)
    → All (λ col. col.used ≡ true → check_column col ≡ ok tt) table.cols
    → append_returning_clause table b
      ≡ ok (record {
        sql = b.sql ++ returning_text table.cols;
        firstcol = none_in (filter (λ col. col.used) table.cols);
        params = output_params table.cols b.params;
      })
unfolding append_returning_clause returning_loop output_loop
append_returning_clause_lem table b h =
    rw (each_lem returning_loop 0 table.cols _ (all_good (λ col. col.used) table.cols)) (
      rw (each_lem output_loop 0 table.cols _ h) (
        rw (collected_nothing (λ col. col.used) 0 table.cols b.params) (
          rw (append-nil b.sql) (rw (append-nil (b.sql ++ _)) (rw (append_assoc b.sql _ _) refl)))))

-- A DELETE without ON CONFLICT whose columns for RETURNING can be marked and converted, and whose key
-- columns can be bound: oraclePlanForeignModify succeeds, and the query is the command, the
-- conditions on the key columns, and the RETURNING clause for the marked columns.
pub plan_foreign_modify-delete :
    (s : Statement) (table : Table) (cols : List Column)
    → s.operation ≡ delete
    → s.has_on_conflict ≡ false
    → mark_columns (has_trigger s.triggers delete) s.returning table.cols ≡ ok cols
    → All (λ col. col.pkey ≡ true → IsBindable col) cols
    → All (λ col. col.used ≡ true → check_column col ≡ ok tt) cols
    → plan_foreign_modify s table
      ≡ ok (
        record {
          sql = (codes "DELETE FROM " ++ (table.name ++ where_text cols)) ++ returning_text cols;
          firstcol = none_in (filter (λ col. col.used) cols);
          params = output_params cols (bound_params (λ col. col.pkey) key_name cols []);
        },
        record table { cols = cols },
      )
unfolding plan_foreign_modify target_attrs build_command key_loop
plan_foreign_modify-delete s table cols d c m k u = rw c (
    rw d (
      rw m (
        rw (each_lem key_loop 0 cols _ k)
          (rw (append_returning_clause_lem (record table { cols = cols }) _ u) refl))))
