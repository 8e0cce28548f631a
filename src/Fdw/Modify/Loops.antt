-- ===== src/Fdw/Modify/Loops.antt =====
-- The loops that build statements: which columns they select and what they add for each.
use oracle_fdw.Base.{ℕ, ◌≡◌, refl, true, List, [], ◌∷◌, ◌++◌, Bytes, append_assoc, if◌then◌else◌}
use oracle_fdw.Result.{Result, ok, err, fault, ◌>>=◌, bind-ok}
use oracle_fdw.Text.{codes}
use oracle_fdw.Fdw.Columns.{Param, BindType, bind_type, bind_output, add_param, as_type, ora_xml}
use oracle_fdw.Fdw.Modify.{
  Column, Building, append, separate, is_present, param_name, key_name, output_name, check_column,
  insert_column, insert_value,
}
use oracle_fdw.Fdw.Modify.Plan.{key_condition, returning_column, returning_output}
use oracle_fdw.Fdw.Modify.Clauses.{IsLoop}

-- addParam has a bind type for the column.
pub record IsBindable (col : Column) : Type 0 where
  pub bind : BindType
  pub bind_type_ok : bind_type col.oratype col.pgtype ≡ ok bind

pub record IsInsertable (col : Column) : Type 0 where
  pub convertible : check_column col ≡ ok tt
  pub bindable : IsBindable col

abbrev with_bind : Bytes → ℕ → Column → List Param → Result BindType → List Param
with_bind name i col params (ok b) =
    record { name = name; pgtype = col.pgtype; bind = b; colnum = i } ∷ params
with_bind name i col params (err e) = params
with_bind name i col params (fault e) = params

-- The parameter of a column in front of the others.
abbrev pub bound : (ℕ → Bytes) → ℕ → Column → List Param → List Param
bound name i col params =
    with_bind (name col.pgattnum) i col params (bind_type col.oratype col.pgtype)

unfoldable pub insert_column_loop : IsLoop insert_column
unfolding insert_column
insert_column_loop = record {
  selected = is_present;
  IsGood = λ col. Unit {0};
  opening = [];
  between = codes ", ";
  piece = λ col. col.name;
  param = λ i col params. params;
  skips = λ i col b e. rw e refl;
  adds = λ i col b e g. rw e (rw (append_assoc b.sql _ col.name) refl);
}

unfoldable pub insert_value_loop : IsLoop insert_value
unfolding insert_value add_param
insert_value_loop = record {
  selected = is_present;
  IsGood = IsInsertable;
  opening = [];
  between = codes ", ";
  piece = λ col. as_type (param_name col.pgattnum) col.pgtype;
  param = bound param_name;
  skips = λ i col b e. rw e refl;
  adds = λ i col b e g. rw e (
      rw (g.convertible) (
        rw (g.bindable.bind_type_ok)
          (rw (append_assoc b.sql _ (as_type (param_name col.pgattnum) col.pgtype)) refl)));
}

unfoldable pub key_loop : IsLoop key_condition
unfolding key_condition add_param
key_loop = record {
  selected = λ col. col.pkey;
  IsGood = IsBindable;
  opening = codes " WHERE";
  between = codes " AND";
  piece =
      λ col. codes " " ++ (col.name ++ (codes " = " ++ as_type (key_name col.pgattnum) col.pgtype));
  param = bound key_name;
  skips = λ i col b e. rw e refl;
  adds = λ i col b e g. rw e (rw (g.bind_type_ok) (rw (append_assoc b.sql _ _) refl));
}

abbrev pub shown : Column → Bytes
shown col =
    if ora_xml col.oratype then codes "(" ++ (col.name ++ codes ").getclobval()") else col.name

unfoldable pub returning_loop : IsLoop returning_column
unfolding returning_column
returning_loop = record {
  selected = λ col. col.used;
  IsGood = λ col. Unit {0};
  opening = codes " RETURNING ";
  between = codes ", ";
  piece = shown;
  param = λ i col params. params;
  skips = λ i col b e. rw e refl;
  adds = λ i col b e g. rw e (rw (append_assoc b.sql _ (shown col)) refl);
}

abbrev pub output : ℕ → Column → List Param → List Param
output i col params =
    record { name = output_name col.pgattnum; pgtype = col.pgtype; bind = bind_output; colnum = i }
    ∷ params

unfoldable pub output_loop : IsLoop returning_output
unfolding returning_output
output_loop = record {
  selected = λ col. col.used;
  IsGood = λ col. check_column col ≡ ok tt;
  opening = codes " INTO ";
  between = codes ", ";
  piece = λ col. output_name col.pgattnum;
  param = output;
  skips = λ i col b e. rw e refl;
  adds = λ i col b e g. rw e (rw g (rw (append_assoc b.sql _ (output_name col.pgattnum)) refl));
}

-- The loops for the key and for the output parameters succeed only on good columns.
pub key_condition-inverse :
    (i : ℕ) (col : Column) (b final : Building)
    → col.pkey ≡ true
    → key_condition i col b ≡ ok final
    → IsBindable col
unfolding key_condition add_param
key_condition-inverse i col b final e h =
    let name = key_name col.pgattnum in
    let with_param : BindType → Result (List Param) = λ bind.
      ok (record { name = name; pgtype = col.pgtype; bind = bind; colnum = i } ∷ b.params) in
    let condition : List Param → Result Building = λ params. ok (
      append (codes " " ++ (col.name ++ (codes " = " ++ as_type name col.pgtype)))
        (separate (codes " WHERE") (codes " AND") (record b { params = params }))) in
    let (params, f, g) =
      bind-ok (bind_type col.oratype col.pgtype >>= with_param) condition final (rw e at h) in
    let (bind, k, l) = bind-ok (bind_type col.oratype col.pgtype) with_param params f in
    record { bind = bind; bind_type_ok = k }

pub returning_output-inverse :
    (i : ℕ) (col : Column) (b final : Building)
    → col.used ≡ true
    → returning_output i col b ≡ ok final
    → check_column col ≡ ok tt
unfolding returning_output
returning_output-inverse i col b final e h =
    let name = output_name col.pgattnum in
    let param : Param = record {
      name = name;
      pgtype = col.pgtype;
      bind = bind_output;
      colnum = i;
    } in
    let next : Unit {0} → Result Building = λ u. ok (
      append name
        (separate (codes " INTO ") (codes ", ") (record b { params = param ∷ b.params }))) in
    let (u, f, g) = bind-ok (check_column col) next final (rw e at h) in f
