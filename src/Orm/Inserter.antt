-- ===== src/Orm/Inserter.antt =====
-- homework_subquery/insert.go: `Inserter[T]`.
use myhomework.Common.{Bytes, text, List, [], ◌∷◌, Option, none, some, Result, ok, err, ◌>>=◌}
use myhomework.Common.Dict.{lookup}
use myhomework.Orm.Expression.{Field, Model, Query, Setting, Assignable}
use myhomework.Orm.Builder.{
  Fault, returned, unknown_field, insert_zero_row, Frame, Action, ◌>>◌, skip, fail, write_string,
  write_byte, add_args, quote,
}
use myhomework.Orm.Selector.{build_items, result}
use myhomework.Orm.Dialect.{Dialect, quoter, Upsert, build_upsert}

-- `sb` and `args` are those of the builder.
pub record Inserter (k : Setting) : Type 0 where
  pub sb : Bytes
  pub args : List k.Value
  pub values : List k.Row
  pub columns : List Bytes
  pub upsert : Option (Upsert k)

module _ {E : Type 0} where
  -- The loop over the columns that the caller asks for, up to the first name that is no field.
  unfoldable pub find_fields : List Bytes → Model → Result (Fault E) (List Field)
  find_fields [] m = ok []
  find_fields (c ∷ cs) m = elim (lookup c m.field_map) [
    | none ↦ err (unknown_field c)
    | some fd ↦ do rest ← find_fields cs m; ok (fd ∷ rest)
  ]

  unfoldable pub fields_of : List Bytes → Model → Result (Fault E) (List Field)
  unfolding find_fields
  fields_of [] m = ok m.fields
  fields_of (c ∷ cs) m = find_fields (c ∷ cs) m

module _ {k : Setting} where
  unfoldable pub add_value : Result k.Error k.Value → Action k
  add_value (err e) = fail (returned e)
  add_value (ok v) = add_args (v ∷ [])

  -- One round of the loop over the fields of a row, behind the comma.
  unfoldable pub build_value : k.Row → Field → Action k
  unfolding add_value
  build_value row fd = do write_byte b'?'; add_value (k.field row fd.go_name)

  unfoldable pub build_row : List Field → k.Row → Action k
  unfolding build_value build_items
  build_row fields row = do write_byte b'('; build_items (build_value row) fields; write_byte b')'

  unfoldable pub build_conflicts : Dialect → Frame → Option (Upsert k) → Action k
  unfolding build_upsert
  build_conflicts d f none = skip
  build_conflicts d f (some u) = build_upsert d f u

  -- `Build` behind the choice of the fields, which resets the arguments.
  unfoldable pub build_rows : Dialect → Frame → Inserter k → List Field → Action k
  unfolding quote build_items build_row build_conflicts
  build_rows d f i fields st =
      (do
        build_items (λ (fd : Field). quote f fd.col_name) fields
        write_string (text ") VALUES")
        build_items (build_row fields) i.values
        build_conflicts d f i.upsert
        write_string (text ";"))
        (record st { args = [] })

  unfoldable pub build_fields :
      Dialect → Frame → Inserter k → Result (Fault k.Error) (List Field) → Action k
  unfolding build_rows
  build_fields d f i (err e) = fail e
  build_fields d f i (ok fields) = build_rows d f i fields

  unfoldable pub build_statement : Dialect → Frame → Inserter k → Action k
  unfolding quote build_fields fields_of
  build_statement d f i = do
    write_string (text "INSERT INTO ")
    quote f f.model.table_name
    write_string (text "(")
    build_fields d f i (fields_of i.columns f.model)

  -- `Build`, where there are rows; `got` is what the registry returns for the first one.
  unfoldable pub build_found :
      Dialect
      → Result k.Error Model
      → Inserter k
      → k.Heap
      → (Inserter k × k.Heap) × Result (Fault k.Error) (Query k.Value)
  unfolding build_statement result
  build_found d (err e) i heap = ((i, heap), err (returned e))
  build_found d (ok md) i heap =
      let f : Frame = record { quoter = quoter d; model = md } in
      let r = build_statement d f i (record { sb = i.sb; args = i.args; heap = heap }) in
      ((record i { sb = r.0.sb; args = r.0.args }, r.0.heap), result r)

  unfoldable pub build_given :
      Dialect
      → Result k.Error Model
      → Inserter k
      → List k.Row
      → k.Heap
      → (Inserter k × k.Heap) × Result (Fault k.Error) (Query k.Value)
  unfolding build_found
  build_given d got i [] heap = ((i, heap), err insert_zero_row)
  build_given d got i (row ∷ rows) heap = build_found d got i heap

  -- `Build`
  unfoldable pub build :
      Dialect
      → Result k.Error Model
      → Inserter k
      → k.Heap
      → (Inserter k × k.Heap) × Result (Fault k.Error) (Query k.Value)
  unfolding build_given
  build d got i heap = build_given d got i i.values heap

  -- `NewInserter`
  abbrev pub new_inserter : Inserter k
  new_inserter = record { sb = []; args = []; values = []; columns = []; upsert = none }

  -- `Values`
  abbrev pub with_values : List k.Row → Inserter k → Inserter k
  with_values vals i = record i { values = vals }

  -- `Columns`
  abbrev pub with_columns : List Bytes → Inserter k → Inserter k
  with_columns cols i = record i { columns = cols }

  -- `OnDuplicateKey`, `ConflictColumns` and `Update`
  abbrev pub update_on_conflict : List Bytes → List (Assignable k) → Inserter k → Inserter k
  update_on_conflict cols assigns i = record i {
    upsert = some (record { conflict_columns = cols; assigns = assigns });
  }
