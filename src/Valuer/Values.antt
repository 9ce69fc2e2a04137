-- ===== src/Valuer/Values.antt =====
-- homework_subquery/internal/valuer/reflect.go and unsafe.go: `Field` and `SetColumns` of both.
use myhomework.Common.{
  ℕ, zero, suc, Bytes, bytes_eq, Bool, false, List, [], ◌∷◌, Option, none, some, Result, ok, err,
  ◌>>=◌, ltb, ◌==◌, if◌then◌else◌, length, get_elem?,
}
use myhomework.Common.Dict.{lookup}
use myhomework.Registry.Models.{StructField, Field, Model}

pub data Failure (E : Type 0) : Type 0 where
  returned : E → Failure E
  too_many_columns : Failure E
  unknown_column unknown_field : Bytes → Failure E
  panicked : Failure E

-- `*sql.Rows`. For a number of destinations, `scan` is what `Scan` does: it returns an error before it
-- writes to the first one, or converts each column, by its index, the destination's type and the value
-- that stands there, which a `Scanner` may keep. What a failing conversion leaves there is not modelled.
pub record Rows (T V E : Type 0) : Type 0 where
  pub columns : Result E (List Bytes)
  pub scan : ℕ → Result E (ℕ → T → V → Result E V)

abbrev pub next_place : Option ℕ → Option ℕ
next_place none = none
next_place (some i) = some (suc i)

module _ {V : Type 0} where
  -- The struct that a value points to is the list of the values of its fields.
  abbrev pub set_at : ℕ → V → List V → List V
  set_at i v [] = []
  set_at zero v (x ∷ xs) = v ∷ xs
  set_at (suc i) v (x ∷ xs) = x ∷ set_at i v xs

module _ {T : Type 0} where
  -- `FieldByName`
  unfoldable pub place_of_name : Bytes → List (StructField T) → Option ℕ
  place_of_name name [] = none
  place_of_name name (fd ∷ fds) =
      let rest = place_of_name name fds in if bytes_eq fd.name name then some 0 else next_place rest

  -- The field that stands at an offset from the struct's address.
  unfoldable pub place_of_offset : ℕ → List (StructField T) → Option ℕ
  place_of_offset offset [] = none
  place_of_offset offset (fd ∷ fds) =
      let rest = place_of_offset offset fds in
      if fd.offset == offset then some 0 else next_place rest

  -- Reflection may set and read the field at the place.
  abbrev pub is_exported : List (StructField T) → ℕ → Bool
  is_exported fds i = elim (get_elem? fds i) [ none ↦ false | some fd ↦ fd.exported ]

module _ {V : Type 0} where
  -- What stands at the place of a destination, and the struct after a write to it. A destination
  -- outside of the struct is not modelled.
  abbrev pub present_value : V → Option ℕ → List V → V
  present_value v none row = v
  present_value v (some i) row = elim (get_elem? row i) [ none ↦ v | some old ↦ old ]

  abbrev pub write_at : Option ℕ → V → List V → List V
  write_at none v row = row
  write_at (some i) v row = set_at i v row

module _ {V E : Type 0} where
  -- The value at a place that a search gave.
  abbrev pub value_at : Option ℕ → List V → Result (Failure E) V
  value_at none row = err panicked
  value_at (some i) row = elim (get_elem? row i) [ none ↦ err panicked | some v ↦ ok v ]

module _ {T E : Type 0} where
  -- The field behind a pointer of a model; a nil pointer would panic.
  abbrev pub field_at : Model T → Option ℕ → Failure E → Result (Failure E) (Field T)
  field_at m none e = err e
  field_at m (some i) e = elim (get_elem? m.fields i) [ none ↦ err panicked | some f ↦ ok f ]

  -- The loop over the columns: the fields that are written to.
  unfoldable pub targets : Model T → List Bytes → Result (Failure E) (List (Field T))
  targets m [] = ok []
  targets m (c ∷ cs) = do
    f ← field_at m (lookup c m.column_map) (unknown_column c)
    fs ← targets m cs
    ok (f ∷ fs)

module _ {A E : Type 0} where
  -- An error of the package database/sql.
  abbrev pub passed : Result E A → Result (Failure E) A
  passed (ok a) = ok a
  passed (err e) = err (returned e)

-- The row after a call, and the error if there is one.
abbrev pub Written : Type 0 → Type 0 → Type 0
Written V E = List V × Option (Failure E)

module _ {T V E : Type 0} where
  -- `reflectValue.Field`; `Interface` panics at an unexported field.
  unfoldable pub reflect_field : List (StructField T) → Bytes → List V → Result (Failure E) V
  unfolding place_of_name
  reflect_field fds name row = elim (place_of_name name fds) [
    | none ↦ err (unknown_field name)
    | some i ↦ if is_exported fds i then value_at (some i) row else err panicked
  ]

  -- `unsafeValue.Field`
  unfoldable pub unsafe_field :
      List (StructField T) → Model T → Bytes → List V → Result (Failure E) V
  unfolding place_of_offset
  unsafe_field fds m name row = field_at m (lookup name m.field_map) (unknown_field name) >>= λ f.
      value_at (place_of_offset f.offset fds) row

  -- What both do before they write: the destinations, and what `Scan` makes of each.
  unfoldable pub prepared :
      ℕ → Model T → Rows T V E → Result (Failure E) (List (Field T) × (ℕ → T → V → Result E V))
  unfolding targets
  prepared most m rows = do
    cs ← passed rows.columns
    fs ← (if ltb most (length cs) then err too_many_columns else targets m cs)
    convert ← passed (rows.scan (length fs))
    ok (fs, convert)

  -- `Scan` into new values, `fresh` of each field's type.
  unfoldable pub read :
      (T → V)
      → (ℕ → T → V → Result E V)
      → ℕ
      → List (Field T)
      → Result (Failure E) (List (Field T × V))
  read fresh convert i [] = ok []
  read fresh convert i (f ∷ fs) = do
    v ← passed (convert i f.typ (fresh f.typ))
    values ← read fresh convert (suc i) fs
    ok ((f, v) ∷ values)

  -- The last loop of `reflectValue.SetColumns`; `Set` panics at an unexported field.
  unfoldable pub assign : List (StructField T) → List (Field T × V) → List V → Written V E
  unfolding place_of_name
  assign fds [] row = (row, none)
  assign fds ((f, v) ∷ values) row = elim (place_of_name f.go_name fds) [
    | none ↦ (row, some panicked)
    | some i ↦
        let rest = assign fds values (set_at i v row) in
        if is_exported fds i then rest else (row, some panicked)
  ]

  abbrev pub reflect_write :
      List (StructField T) → List V → Result (Failure E) (List (Field T × V)) → Written V E
  reflect_write fds row (err e) = (row, some e)
  reflect_write fds row (ok values) = assign fds values row

  -- `reflectValue.SetColumns`
  unfoldable pub reflect_set_columns :
      (T → V) → List (StructField T) → Model T → Rows T V E → List V → Written V E
  unfolding prepared read assign
  reflect_set_columns fresh fds m rows row =
      reflect_write fds row
        (prepared (length m.field_map) m rows >>= λ (fs, convert). read fresh convert 0 fs)

  -- `Scan` into the struct itself.
  unfoldable pub scan_into :
      (T → V)
      → List (StructField T)
      → (ℕ → T → V → Result E V)
      → ℕ
      → List (Field T)
      → List V
      → Written V E
  unfolding place_of_offset
  scan_into fresh fds convert i [] row = (row, none)
  scan_into fresh fds convert i (f ∷ fs) row =
      let place = place_of_offset f.offset fds in
      elim (convert i f.typ (present_value (fresh f.typ) place row)) [
        | err e ↦ (row, some (returned e))
        | ok v ↦ scan_into fresh fds convert (suc i) fs (write_at place v row)
      ]

  abbrev pub unsafe_write :
      (T → V)
      → List (StructField T)
      → List V
      → Result (Failure E) (List (Field T) × (ℕ → T → V → Result E V))
      → Written V E
  unsafe_write fresh fds row (err e) = (row, some e)
  unsafe_write fresh fds row (ok (fs, convert)) = scan_into fresh fds convert 0 fs row

  -- `unsafeValue.SetColumns`. `fresh` only stands for values outside of the struct.
  unfoldable pub unsafe_set_columns :
      (T → V) → List (StructField T) → Model T → Rows T V E → List V → Written V E
  unfolding prepared scan_into
  unsafe_set_columns fresh fds m rows row =
      unsafe_write fresh fds row (prepared (length m.column_map) m rows)
