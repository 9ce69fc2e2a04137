-- ===== src/Orm/Columns.antt =====
-- Which column and which fields a name of homework_subquery stands for, by the maps of the models.
use myhomework.Common.{
  Bytes, bytes_eq, Bool, true, false, ◌||◌, Bool-cases, Option-cases, List, [], ◌∷◌, ◌++◌, Option,
  none, some, Result, ok, err, ◌≡◌, refl, inl, inr, if◌then◌else◌,
}
use myhomework.Common.Dict.{lookup}
use myhomework.Writer.Outcomes.{or_else}
use myhomework.Orm.Expression.{
  Field, Model, Setting, TableReference, no_table, table, join, subquery_table, foreign,
}
use myhomework.Orm.Builder.{
  Fault, returned, unknown_field, unsupported_expression, panicked, Frame, has_name, subquery_has,
  found_field, field_of, field_of_subquery, col_name,
}
use myhomework.Orm.Inserter.{find_fields, fields_of}

module _ {E : Type 0} where
  abbrev pub column_of : Bytes → Option Field → Result (Fault E) Bytes
  column_of name none = err (unknown_field name)
  column_of name (some field) = ok field.col_name

  abbrev pub model_column : Bytes → Model → Result (Fault E) Bytes
  model_column name m = column_of name (lookup name m.field_map)

  -- A model that is asked for, or the error of the registry.
  abbrev pub entity_column : Bytes → Result E Model → Result (Fault E) Bytes
  entity_column name (ok m) = model_column name m
  entity_column name (err e) = err (returned e)

  -- The model of a subquery, which may be nil.
  abbrev pub subquery_column : Bytes → Option Model → Result (Fault E) Bytes
  subquery_column name none = err panicked
  subquery_column name (some m) = model_column name m

  -- Names without a field: the first one is the error.
  abbrev pub unknown : Bytes → Option Field → Option (Fault E)
  unknown name none = some (unknown_field name)
  unknown name (some field) = none

  unfoldable pub names_error : Model → List Bytes → Option (Fault E)
  names_error m [] = none
  names_error m (name ∷ names) =
      or_else (unknown name (lookup name m.field_map)) (names_error m names)

abbrev found : Option Field → List Field
found none = []
found (some field) = field ∷ []

-- The fields of the names.
unfoldable pub named_fields : Model → List Bytes → List Field
named_fields m [] = []
named_fields m (name ∷ names) = found (lookup name m.field_map) ++ named_fields m names

-- The fields of an insertion: without names all of the model.
abbrev pub chosen_fields : Model → List Bytes → List Field
chosen_fields m [] = m.fields
chosen_fields m (name ∷ names) = named_fields m (name ∷ names)

-- Whether one of the columns has the name.
unfoldable pub mentions : List Bytes → Bytes → Bool
mentions [] name = false
mentions (column ∷ columns) name = bytes_eq name column || mentions columns name

-- A subquery gives the columns that it selects, or all of them if it lists none.
abbrev pub selects : List Bytes → Bytes → Bool
selects [] name = true
selects (column ∷ columns) name = mentions (column ∷ columns) name

-- The column of a name in a table, which the statement's own model gives where no table is named.
abbrev pub table_column :
    {k : Setting} → Frame → TableReference k → Bytes → Result (Fault k.Error) Bytes
table_column f no_table name = model_column name f.model
table_column {k} f (table entity alias) name = entity_column name (k.get entity)
table_column f (subquery_table sub) name =
    if selects sub.column_names name
    then subquery_column name sub.model
    else err (unknown_field name)
table_column f (join left typ right on using) name = err unsupported_expression
table_column f (foreign alias) name = err unsupported_expression

has_name_lem : (name : Bytes) (columns : List Bytes) → has_name name columns ≡ mentions columns name
unfolding has_name mentions
has_name_lem name [] = refl
has_name_lem name (column ∷ columns) = elim (Bool-cases (bytes_eq name column)) [
  | inl e ↦ rw e refl
  | inr e ↦ rw e (has_name_lem name columns)
]

subquery_has_lem :
    (name : Bytes) (columns : List Bytes) → subquery_has name columns ≡ selects columns name
unfolding subquery_has
subquery_has_lem name [] = refl
subquery_has_lem name (column ∷ columns) = has_name_lem name (column ∷ columns)

module _ {E : Type 0} where
  found_field_lem :
      (name : Bytes) (o : Option Field) → found_field {E = E} name o ≡ column_of name o
  unfolding found_field
  found_field_lem name none = refl
  found_field_lem name (some field) = refl

  field_of_lem : (name : Bytes) (r : Result E Model) → field_of name r ≡ entity_column name r
  unfolding field_of
  field_of_lem name (ok m) = found_field_lem name (lookup name m.field_map)
  field_of_lem name (err e) = refl

  field_of_subquery_lem :
      (name : Bytes) (o : Option Model) → field_of_subquery {E = E} name o ≡ subquery_column name o
  unfolding field_of_subquery
  field_of_subquery_lem name none = refl
  field_of_subquery_lem name (some m) = field_of_lem name (ok m)

  -- The fields of an insertion, or the error of the first name that is no field.
  abbrev pub fields_or_error : Option (Fault E) → List Field → Result (Fault E) (List Field)
  fields_or_error none fields = ok fields
  fields_or_error (some e) fields = err e

  find_fields_lem :
      (names : List Bytes) (m : Model)
      → find_fields names m ≡ fields_or_error (names_error m names) (named_fields m names)
  unfolding find_fields names_error named_fields
  find_fields_lem [] m = refl
  find_fields_lem (name ∷ names) m = elim (Option-cases (lookup name m.field_map)) [
    | inl e ↦ rw (find_fields, e) refl
    | inr (field, e) ↦
        rw (find_fields, e, find_fields_lem names m)
          (elim (Option-cases (names_error {E = E} m names)) [
            | inl d ↦ rw d refl
            | inr (p, d) ↦ rw d refl
          ])
  ]

  pub fields_of_lem :
      (names : List Bytes) (m : Model)
      → fields_of names m ≡ fields_or_error (names_error m names) (chosen_fields m names)
  unfolding fields_of names_error
  fields_of_lem [] m = refl
  fields_of_lem (name ∷ names) m = find_fields_lem (name ∷ names) m

pub col_name_lem :
    {k : Setting} (f : Frame) (t : TableReference k) (name : Bytes)
    → col_name f t name ≡ table_column f t name
unfolding col_name
col_name_lem f no_table name = field_of_lem name (ok f.model)
col_name_lem {k} f (table entity alias) name = field_of_lem name (k.get entity)
col_name_lem f (subquery_table sub) name =
    rw (subquery_has_lem name sub.column_names, field_of_subquery_lem name sub.model) refl
col_name_lem f (join left typ right on using) name = refl
col_name_lem f (foreign alias) name = refl
