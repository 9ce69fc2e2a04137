-- ===== src/Registry/Models.antt =====
-- homework_subquery/model/registry.go: `parseModel`, the options, `Register` and `Get`;
-- homework_subquery/model/model.go.
use myhomework.Common.{
  ℕ, suc, Bytes, bytes_eq, Bool, List, [], ◌∷◌, ◌++◌, Option, none, some, Result, ok, err, ◌>>=◌,
  ◌==◌, if◌then◌else◌, zero,
}
use myhomework.Common.Dict.{lookup, insert}
use myhomework.Registry.Naming.{
  Letters, Error, pointer_only, unknown_field, underscore_name, parse_tag, column_name,
}

-- What reflection tells of a field of a struct: `orm_tag` is `Tag.Get("orm")`. `exported` is whether the
-- field may be set and read by reflection; the registry does not ask.
pub record StructField (T : Type 0) : Type 0 where
  pub name : Bytes
  pub exported : Bool
  pub orm_tag : Bytes
  pub typ : T
  pub offset : ℕ

pub record Struct (T : Type 0) : Type 0 where
  pub name : Bytes
  pub fields : List (StructField T)

-- `Value` stands for `any`, `GoType` for `reflect.Type`, and `Failure` for an option's own errors.
-- `type_of` numbers the types, `struct_of` gives the struct that a value points to, and `table_name`
-- what the value's method `TableName` returns, if there is one.
pub record Setting : Type 1 where
  pub Value : Type 0
  pub GoType : Type 0
  pub Failure : Type 0
  pub letters : Letters
  pub type_of : Value → ℕ
  pub struct_of : Value → Option (Struct GoType)
  pub table_name : Value → Option Bytes

pub record Field (T : Type 0) : Type 0 where
  pub col_name : Bytes
  pub go_name : Bytes
  pub typ : T
  pub index : ℕ
  pub offset : ℕ

-- `Fields` and both maps of a `Model` point to the same fields. The fields stand in `fields`, and a
-- pointer is the place there.
pub record Model (T : Type 0) : Type 0 where
  pub table_name : Bytes
  pub fields : List (Field T)
  pub field_map : List (Bytes × ℕ)
  pub column_map : List (Bytes × ℕ)

module _ {T : Type 0} where
  abbrev pub no_fields : Model T
  no_fields = record { table_name = []; fields = []; field_map = []; column_map = [] }

  -- One round of the loop of `parseModel`, at the index `i`.
  abbrev pub add_field : Bytes → ℕ → StructField T → Model T → Model T
  add_field col_name i fd m = record {
    table_name = m.table_name;
    fields =
        m.fields
        ++ (record {
          col_name = col_name;
          go_name = fd.name;
          typ = fd.typ;
          index = i;
          offset = fd.offset;
        })
          ∷ [];
    field_map = insert fd.name i m.field_map;
    column_map = insert col_name i m.column_map;
  }

  -- `fd.ColName = columnName`
  unfoldable pub set_column : ℕ → Bytes → List (Field T) → List (Field T)
  set_column i c [] = []
  set_column zero c (f ∷ fs) = record f { col_name = c } ∷ fs
  set_column (suc i) c (f ∷ fs) = f ∷ set_column i c fs

module _ {T E : Type 0} where
  -- The loop of `parseModel`.
  unfoldable pub parse_fields :
      Letters → ℕ → List (StructField T) → Model T → Result (Error E) (Model T)
  unfolding parse_tag column_name
  parse_fields u i [] m = ok m
  parse_fields u i (fd ∷ fds) m = do
    tags ← parse_tag fd.orm_tag
    parse_fields u (suc i) fds (add_field (column_name u fd.name tags) i fd m)

-- An `Option`: a function that changes a model or returns an error.
abbrev pub ModelOption : Setting → Type 0
ModelOption k = Model k.GoType → Result (Error k.Failure) (Model k.GoType)

-- The map `models`, with the numbers of the types as keys.
abbrev pub Registry : Setting → Type 0
Registry k = List (ℕ × Model k.GoType)

module _ (k : Setting) where
  -- `tableName` in `parseModel`, for a struct of the name `name`.
  abbrev pub table_name_of : Option Bytes → Bytes → Bytes
  table_name_of none name = underscore_name k.letters name
  table_name_of (some t) name = if bytes_eq t [] then underscore_name k.letters name else t

  unfoldable pub parse_model : k.Value → Result (Error k.Failure) (Model k.GoType)
  unfolding parse_fields
  parse_model val = elim (k.struct_of val) [
    | none ↦ err pointer_only
    | some s ↦ do
      m ← parse_fields k.letters 0 s.fields no_fields
      ok (record m { table_name = table_name_of (k.table_name val) s.name })
  ]

  unfoldable pub with_table_name : Bytes → ModelOption k
  with_table_name table_name m = ok (record m { table_name = table_name })

  unfoldable pub with_column_name : Bytes → Bytes → ModelOption k
  unfolding set_column
  with_column_name field c m = elim (lookup field m.field_map) [
    | none ↦ err (unknown_field field)
    | some i ↦ ok (record m { fields = set_column i c m.fields })
  ]

  unfoldable pub apply_options : List (ModelOption k) → ModelOption k
  apply_options [] m = ok m
  apply_options (opt ∷ opts) m = opt m >>= apply_options opts

  -- `models.Load`
  unfoldable pub load : ℕ → Registry k → Option (Model k.GoType)
  load typ [] = none
  load typ ((t, m) ∷ models) = if t == typ then some m else load typ models

  -- `models.Store`
  unfoldable pub store : ℕ → Model k.GoType → Registry k → Registry k
  store typ m [] = (typ, m) ∷ []
  store typ m ((t, old) ∷ models) =
      if t == typ then (typ, m) ∷ models else (t, old) ∷ store typ m models

  -- The end of `Register`.
  abbrev pub stored :
      k.Value
      → Registry k
      → Result (Error k.Failure) (Model k.GoType)
      → Registry k × Result (Error k.Failure) (Model k.GoType)
  stored val models (err e) = (models, err e)
  stored val models (ok m) = (store (k.type_of val) m models, ok m)

  unfoldable pub register :
      k.Value
      → List (ModelOption k)
      → Registry k
      → Registry k × Result (Error k.Failure) (Model k.GoType)
  unfolding parse_model apply_options store
  register val opts models = stored val models (parse_model val >>= apply_options opts)

  unfoldable pub get : k.Value → Registry k → Registry k × Result (Error k.Failure) (Model k.GoType)
  unfolding load register
  get val models = elim (load (k.type_of val) models) [
    | some m ↦ (models, ok m)
    | none ↦ register val [] models
  ]
