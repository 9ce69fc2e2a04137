-- ===== src/Registry/Renaming.antt =====
-- What an option that renames a column does to the statements that are built over the model.
use myhomework.Common.{
  ℕ, zero, suc, ◌≡◌, refl, Bytes, bytes_eq, Bool-cases, List, [], ◌∷◌, none, some, ok, get_elem?,
  All, of_Ensures, inl, inr, arith,
}
use myhomework.Common.Dict.{lookup, All-lookup}
use myhomework.Orm.Expression
use myhomework.Orm.Builder.{found_field, field_of}
use myhomework.Registry.Models.{
  Setting, Field, Model, set_column, parse_model, with_column_name, apply_options, Registry,
  register,
}
use myhomework.Registry.Shape.{
  Leads, IsNamed, IsColumned, parse_model-IsColumned, with_column_name-IsNamed,
}

module _ {T : Type 0} where
  -- A field as the builders read it.
  abbrev pub field_view : Field T → Expression.Field
  field_view f = record { col_name = f.col_name; go_name = f.go_name }

  abbrev pub fields_view : List (Field T) → List Expression.Field
  fields_view [] = []
  fields_view (f ∷ fs) = field_view f ∷ fields_view fs

  -- A map of pointers as a map of fields.
  unfoldable pub map_view : List (Field T) → List (Bytes × ℕ) → List (Bytes × Expression.Field)
  map_view fs [] = []
  map_view fs ((key, i) ∷ entries) =
      let rest = map_view fs entries in
      elim (get_elem? fs i) [ none ↦ rest | some f ↦ (key, field_view f) ∷ rest ]

  -- A model as the builders read it.
  unfoldable pub model_view : Model T → Expression.Model
  unfolding map_view
  model_view m = record {
    table_name = m.table_name;
    fields = fields_view m.fields;
    field_map = map_view m.fields m.field_map;
  }

  -- Where every pointer leads to a field, a key leads to the field of its pointer.
  lookup-map_view :
      (q : Field T → Bytes) (fs : List (Field T)) (key : Bytes) (i : ℕ) (f : Field T)
      (entries : List (Bytes × ℕ))
      → All (Leads q fs) entries
      → lookup key entries ≡ some i
      → get_elem? fs i ≡ some f
      → lookup key (map_view fs entries) ≡ some (field_view f)
  unfolding lookup map_view
  lookup-map_view q fs key i f [] h e g = absurd (ground arith)
  lookup-map_view q fs key i f ((other, j) ∷ entries) ((x, found, named, placed), hs) e g =
      elim (Bool-cases (bytes_eq other key)) [
        | inl d ↦ let same : j ≡ i = ground arith in rw (same, map_view, g, d) refl
        | inr d ↦ rw (map_view, found, d) (lookup-map_view q fs key i f entries hs (rw d at e) g)
      ]

  get_elem?-set_column :
      (i : ℕ) (c : Bytes) (fs : List (Field T)) (f : Field T)
      → get_elem? fs i ≡ some f
      → get_elem? (set_column i c fs) i ≡ some (record f { col_name = c })
  unfolding set_column
  get_elem?-set_column i c [] f e = absurd (ground arith)
  get_elem?-set_column zero c (g ∷ fs) f e = let same : g ≡ f = ground arith in rw same refl
  get_elem?-set_column (suc i) c (g ∷ fs) f e = get_elem?-set_column i c fs f e

module _ (k : Setting) where
  -- After `Register` with the option that renames the column of a field, the statements that are
  -- built over the model have the new name at that field, but `ColumnMap`, by which rows are read, is
  -- the one of the model without the option.
  pub register-with_column_name :
      (val : k.Value) (field column : Bytes) (i : ℕ) (m0 : Model k.GoType) (models : Registry k)
      → parse_model k val ≡ ok m0
      → lookup field m0.field_map ≡ some i
      → (m : Model k.GoType) × ((register k val (with_column_name k field column ∷ []) models).1
          ≡ ok m)
        × (field_of {E = k.Failure} field (ok (model_view m)) ≡ ok column)
        × (m.column_map ≡ m0.column_map)
  unfolding register apply_options with_column_name field_of found_field model_view
  register-with_column_name val field column i m0 models parsed e =
      let h =
        of_Ensures (λ m. IsNamed m × IsColumned m) (parse_model k val) m0
          (parse_model-IsColumned k val) parsed in
      let (f, found, _, _) =
        All-lookup (Leads (λ f. f.go_name) m0.fields) field i m0.field_map h.0 e in
      let m = record m0 { fields = set_column i column m0.fields } in
      let changed : with_column_name k field column m0 ≡ ok m = rw (with_column_name, e) refl in
      let named =
        of_Ensures IsNamed (with_column_name k field column m0) m
          (with_column_name-IsNamed k field column m0 h.0) changed in
      let seen =
        lookup-map_view (λ f. f.go_name) m.fields field i (record f { col_name = column })
          m0.field_map named e (get_elem?-set_column i column m0.fields f found) in
      (m, rw (register, parsed, changed) refl, rw (field_of, model_view, seen) refl, refl)
