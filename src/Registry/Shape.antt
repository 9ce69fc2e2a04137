-- ===== src/Registry/Shape.antt =====
-- What holds of every model that the registry makes.
use myhomework.Common.{
  ℕ, zero, suc, ◌+◌, ◌≡◌, refl, ap, ◌∙◌, subst, Bytes, List, [], ◌∷◌, ◌++◌, some, ◌>>=◌, length,
  length-append, get_elem?, get_elem?-append, get_elem?-append_length, All, All-map, Ensures,
  Ensures-bind, any_value, Option-cases, inl, inr, arith,
}
use myhomework.Common.Dict.{lookup, insert, All-insert}
use myhomework.Registry.Naming.{Letters, Error, parse_tag, column_name}
use myhomework.Registry.Models.{
  StructField, Setting, Field, Model, no_fields, add_field, set_column, parse_fields, ModelOption,
  parse_model, with_table_name, with_column_name, apply_options,
}

module _ {T : Type 0} where
  -- The pointer of an entry leads to the field at its own index, with the entry's key as its text `q`.
  abbrev pub Leads : (Field T → Bytes) → List (Field T) → Bytes × ℕ → Type 0
  Leads q fs (key, i) = (f : Field T) × (get_elem? fs i ≡ some f) × (q f ≡ key) × (f.index ≡ i)

  -- Every entry of `FieldMap` leads to the field of that name.
  abbrev pub IsNamed : Model T → Type 0
  IsNamed m = All (Leads (λ f. f.go_name) m.fields) m.field_map

  -- Every entry of `ColumnMap` leads to a field of that column.
  abbrev pub IsColumned : Model T → Type 0
  IsColumned m = All (Leads (λ f. f.col_name) m.fields) m.column_map

  -- A field more does not move the others.
  Leads-append :
      (q : Field T → Bytes) (fs : List (Field T)) (g : Field T) (e : Bytes × ℕ)
      → Leads q fs e
      → Leads q (fs ++ g ∷ []) e
  Leads-append q fs g (key, i) (f, found, named, placed) =
      (f, get_elem?-append fs (g ∷ []) i f found, named, placed)

  -- The maps of a model after a field more.
  entries_with :
      (q : Field T → Bytes) (fs : List (Field T)) (g : Field T) (entries : List (Bytes × ℕ))
      → length fs ≡ g.index
      → All (Leads q fs) entries
      → All (Leads q (fs ++ g ∷ [])) (insert (q g) g.index entries)
  entries_with q fs g entries h hs =
      All-insert (Leads q (fs ++ g ∷ [])) (q g) g.index entries
        (
          g,
          subst (λ n. get_elem? (fs ++ g ∷ []) n ≡ some g) h (get_elem?-append_length fs [] g),
          refl,
          refl,
        )
        (All-map (Leads q fs) (Leads q (fs ++ g ∷ [])) entries (Leads-append q fs g) hs)

  -- What the loop of `parseModel` keeps: the next index is the number of the fields so far.
  abbrev IsMade : ℕ → Model T → Type 0
  IsMade i m = (length m.fields ≡ i) × IsNamed m × IsColumned m

  add_field-IsMade :
      (c : Bytes) (i : ℕ) (fd : StructField T) (m : Model T)
      → IsMade i m
      → IsMade (suc i) (add_field c i fd m)
  add_field-IsMade c i fd m (len, named, columned) =
      let g : Field T = record {
        col_name = c;
        go_name = fd.name;
        typ = fd.typ;
        index = i;
        offset = fd.offset;
      } in
      (
        length-append m.fields (g ∷ []) ∙ omega (arith, len),
        entries_with (λ f. f.go_name) m.fields g m.field_map len named,
        entries_with (λ f. f.col_name) m.fields g m.column_map len columned,
      )

module _ {T : Type 0} (E : Type 0) where
  parse_fields-IsMade :
      (u : Letters) (i : ℕ) (fds : List (StructField T)) (m : Model T)
      → IsMade i m
      → Ensures {E = Error E} (IsMade (i + length fds)) (parse_fields u i fds m)
  unfolding parse_fields
  parse_fields-IsMade u i [] m h = let same : i + 0 ≡ i = omega arith in rw same h
  parse_fields-IsMade u i (fd ∷ fds) m h =
      Ensures-bind (λ _. Unit {0}) (IsMade (i + length (fd ∷ fds))) (parse_tag fd.orm_tag)
        (λ tags. parse_fields u (suc i) fds (add_field (column_name u fd.name tags) i fd m))
        (any_value (parse_tag fd.orm_tag))
        (λ tags _.
          let same : i + suc (length fds) ≡ suc i + length fds = omega arith in
          rw same (
            parse_fields-IsMade u (suc i) fds (add_field (column_name u fd.name tags) i fd m)
              (add_field-IsMade (column_name u fd.name tags) i fd m h)))

module _ (k : Setting) where
  -- The model of a type, before any options: each entry of `FieldMap` leads to the field of that
  -- name, and each entry of `ColumnMap` to a field of that column, at their indexes in `Fields`.
  pub parse_model-IsColumned :
      (val : k.Value) → Ensures (λ m. IsNamed m × IsColumned m) (parse_model k val)
  unfolding parse_model
  parse_model-IsColumned val = elim (Option-cases (k.struct_of val)) [
    | inl e ↦ rw (parse_model, e) tt
    | inr (s, e) ↦
        rw (parse_model, e)
          (Ensures-bind (IsMade (0 + length s.fields)) (λ m. IsNamed m × IsColumned m)
            (parse_fields k.letters 0 s.fields no_fields) _
            (parse_fields-IsMade k.Failure k.letters 0 s.fields no_fields (refl, tt, tt))
            (λ m (len, named, columned). (named, columned)))
  ]

  set_column-keeps :
      (i j : ℕ) (c : Bytes) (fs : List (Field k.GoType)) (f : Field k.GoType)
      → get_elem? fs j ≡ some f
      → (g : Field k.GoType) × (get_elem? (set_column i c fs) j ≡ some g)
        × (g.go_name ≡ f.go_name)
        × (g.index ≡ f.index)
  unfolding set_column
  set_column-keeps i j c [] f e = absurd (ground arith)
  set_column-keeps zero zero c (g ∷ fs) f e =
      let same : g ≡ f = ground arith in (_, refl, ap (λ x. x.go_name) same, ap (λ x. x.index) same)
  set_column-keeps (suc i) zero c (g ∷ fs) f e = (f, e, refl, refl)
  set_column-keeps zero (suc j) c (g ∷ fs) f e = (f, e, refl, refl)
  set_column-keeps (suc i) (suc j) c (g ∷ fs) f e = set_column-keeps i j c fs f e

  Leads-set_column :
      (i : ℕ) (c : Bytes) (fs : List (Field k.GoType)) (e : Bytes × ℕ)
      → Leads (λ f. f.go_name) fs e
      → Leads (λ f. f.go_name) (set_column i c fs) e
  Leads-set_column i c fs (key, j) (f, found, named, placed) =
      let (g, there, name, index) = set_column-keeps i j c fs f found in
      (g, there, name ∙ named, index ∙ placed)

  pub with_table_name-IsNamed :
      (t : Bytes) (m : Model k.GoType) → IsNamed m → Ensures IsNamed (with_table_name k t m)
  unfolding with_table_name
  with_table_name-IsNamed t m h = h

  pub with_column_name-IsNamed :
      (field c : Bytes) (m : Model k.GoType)
      → IsNamed m
      → Ensures IsNamed (with_column_name k field c m)
  unfolding with_column_name
  with_column_name-IsNamed field c m h = elim (Option-cases (lookup field m.field_map)) [
    | inl e ↦ rw (with_column_name, e) tt
    | inr (i, e) ↦
        rw (with_column_name, e)
          (All-map (Leads (λ f. f.go_name) m.fields)
            (Leads (λ f. f.go_name) (set_column i c m.fields)) m.field_map
            (Leads-set_column i c m.fields) h)
  ]

  -- The option keeps the pointers of `FieldMap`.
  abbrev pub Keeps : ModelOption k → Type 0
  Keeps opt = (m : Model k.GoType) → IsNamed m → Ensures IsNamed (opt m)

  apply_options-IsNamed :
      (opts : List (ModelOption k)) (m : Model k.GoType)
      → All Keeps opts
      → IsNamed m
      → Ensures IsNamed (apply_options k opts m)
  unfolding apply_options
  apply_options-IsNamed [] m hs h = h
  apply_options-IsNamed (opt ∷ opts) m (ho, hs) h =
      Ensures-bind IsNamed IsNamed (opt m) (apply_options k opts) (ho m h)
        (λ m' h'. apply_options-IsNamed opts m' hs h')

  -- After options that keep the pointers of `FieldMap`, each of them leads to the field of that name.
  pub made-IsNamed :
      (val : k.Value) (opts : List (ModelOption k))
      → All Keeps opts
      → Ensures IsNamed (parse_model k val >>= apply_options k opts)
  made-IsNamed val opts hs =
      Ensures-bind (λ m. IsNamed m × IsColumned m) IsNamed (parse_model k val)
        (apply_options k opts) (parse_model-IsColumned val)
        (λ m h. apply_options-IsNamed opts m hs h.0)
