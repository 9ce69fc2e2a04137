-- ===== src/Valuer/Registered.antt =====
-- Rows read into a struct whose model the registry has made.
use myhomework.Common.{
  ℕ, zero, suc, ◌≡◌, ◌≢◌, refl, sym, ◌∙◌, subst, Bytes, bytes_eq, bytes_eq_iff, List, [], ◌∷◌, ◌++◌,
  append_assoc, some, true, ok, length, length-append, get_elem?, get_elem?-append_length, All,
  All-map, All-append_one, All-get_elem?, Bool-cases, Ensures, Ensures-bind, any_value, of_Ensures,
  inl, inr, arith,
}
use myhomework.Registry.Naming.{Letters, Error, parse_tag, column_name}
use myhomework.Registry.Models.{
  StructField, Setting, Field, Model, no_fields, add_field, parse_fields, parse_model,
}
use myhomework.Valuer.Values.{
  Rows, place_of_name, place_of_offset, is_exported, reflect_set_columns, unsafe_set_columns,
}
use myhomework.Valuer.Alike.{Agrees, AllOverwrite, IsAlike, set_columns-IsAlike}

-- No two have the same value of `q`.
abbrev pub HasDistinct : {A B : Type 0} → (A → B) → List A → Type 0
HasDistinct q [] = Unit
HasDistinct q (x ∷ xs) = All (λ y. q x ≢ q y) xs × HasDistinct q xs

module _ {T : Type 0} where
  place_of_name-get_elem? :
      (fds : List (StructField T)) (i : ℕ) (fd : StructField T)
      → HasDistinct (λ f. f.name) fds
      → get_elem? fds i ≡ some fd
      → place_of_name fd.name fds ≡ some i
  unfolding place_of_name
  place_of_name-get_elem? [] i fd h e = absurd (ground arith)
  place_of_name-get_elem? (g ∷ fds) zero fd h e =
      let same : g ≡ fd = ground arith in rw (sym same, (bytes_eq_iff g.name g.name).1 refl) refl
  place_of_name-get_elem? (g ∷ fds) (suc i) fd (h, hs) e =
      let ne = All-get_elem? (λ f. g.name ≢ f.name) fds i fd h e in
      let rest = place_of_name-get_elem? fds i fd hs e in
      elim (Bool-cases (bytes_eq g.name fd.name)) [
        | inl d ↦ absurd (ne ((bytes_eq_iff g.name fd.name).0 d))
        | inr d ↦ rw (d, rest) refl
      ]

  place_of_offset-get_elem? :
      (fds : List (StructField T)) (i : ℕ) (fd : StructField T)
      → HasDistinct (λ f. f.offset) fds
      → get_elem? fds i ≡ some fd
      → place_of_offset fd.offset fds ≡ some i
  unfolding place_of_offset
  place_of_offset-get_elem? [] i fd h e = absurd (ground arith)
  place_of_offset-get_elem? (g ∷ fds) zero fd h e =
      let same : g ≡ fd = ground arith in rw (sym same) (ground arith)
  place_of_offset-get_elem? (g ∷ fds) (suc i) fd (h, hs) e =
      let ne = All-get_elem? (λ f. g.offset ≢ f.offset) fds i fd h e in
      let rest = place_of_offset-get_elem? fds i fd hs e in ground arith

  -- The field of a model is that of the struct at its index.
  Comes : List (StructField T) → Field T → Type 0
  Comes fds f =
      (fd : StructField T) × (get_elem? fds f.index ≡ some fd)
      × (fd.name ≡ f.go_name)
      × (fd.offset ≡ f.offset)

  parse_fields-Comes :
      (E : Type 0) (u : Letters) (i : ℕ) (pre fds : List (StructField T)) (m : Model T)
      → length pre ≡ i
      → All (Comes (pre ++ fds)) m.fields
      → Ensures {E = Error E} (λ m'. All (Comes (pre ++ fds)) m'.fields) (parse_fields u i fds m)
  unfolding parse_fields Comes
  parse_fields-Comes E u i pre [] m len h = h
  parse_fields-Comes E u i pre (fd ∷ fds) m len h =
      Ensures-bind (λ _. Unit {0}) (λ m'. All (Comes (pre ++ fd ∷ fds)) m'.fields)
        (parse_tag fd.orm_tag)
        (λ tags. parse_fields u (suc i) fds (add_field (column_name u fd.name tags) i fd m))
        (any_value (parse_tag fd.orm_tag))
        (λ tags _.
          subst
            (λ all.
              Ensures {E = Error E} (λ m'. All (Comes all) m'.fields)
                (parse_fields u (suc i) fds (add_field (column_name u fd.name tags) i fd m)))
            (append_assoc pre (fd ∷ []) fds)
            (parse_fields-Comes E u (suc i) (pre ++ fd ∷ []) fds
              (add_field (column_name u fd.name tags) i fd m)
              (length-append pre (fd ∷ []) ∙ omega (arith, len))
              (subst (λ all. All (Comes all) (add_field (column_name u fd.name tags) i fd m).fields)
                (sym (append_assoc pre (fd ∷ []) fds))
                (All-append_one (Comes (pre ++ fd ∷ fds)) m.fields _ h (
                  fd,
                  subst (λ n. get_elem? (pre ++ fd ∷ fds) n ≡ some fd) len
                      (get_elem?-append_length pre fds fd),
                  refl,
                  refl,
                )))))

  Agrees-of_Comes :
      (fds : List (StructField T)) (f : Field T)
      → HasDistinct (λ x. x.name) fds
      → HasDistinct (λ x. x.offset) fds
      → All (λ x. x.exported ≡ true) fds
      → Comes fds f
      → Agrees fds f
  unfolding Comes
  Agrees-of_Comes fds f names offsets exported (fd, found, name, offset) = (
    f.index,
    rw (sym name) (place_of_name-get_elem? fds f.index fd names found),
    rw (sym offset) (place_of_offset-get_elem? fds f.index fd offsets found),
    rw (is_exported, found) (All-get_elem? (λ x. x.exported ≡ true) fds f.index fd exported found),
  )

module _ (k : Setting) (V E : Type 0) where
  -- For the model that the registry makes of a struct whose fields are all exported, where no two of
  -- them have the same name or the same offset, and no two share a column so that both maps have as
  -- many entries: if no `Scanner` keeps the value that it is to overwrite, reading a row by
  -- reflection and by addresses comes to the same struct without an error, or to the same error, at
  -- which reflection leaves the struct as it was.
  pub set_columns-parse_model :
      (fresh : k.GoType → V) (val : k.Value) (fds : List (StructField k.GoType)) (name : Bytes)
      (m : Model k.GoType) (rows : Rows k.GoType V E) (row : List V)
      → k.struct_of val ≡ some (record { name = name; fields = fds })
      → HasDistinct (λ f. f.name) fds
      → HasDistinct (λ f. f.offset) fds
      → All (λ f. f.exported ≡ true) fds
      → AllOverwrite fresh rows
      → parse_model k val ≡ ok m
      → length m.field_map ≡ length m.column_map
      → IsAlike row
          (reflect_set_columns fresh fds m rows row)
          (unsafe_set_columns fresh fds m rows row)
  unfolding parse_model
  set_columns-parse_model fresh val fds name m rows row struct names offsets exported ho parsed
        same =
      set_columns-IsAlike V E fresh fds m rows row
        (of_Ensures (λ x. All (Agrees fds) x.fields) (parse_model k val) m
          (rw (parse_model, struct)
            (Ensures-bind (λ x. All (Comes fds) x.fields) (λ x. All (Agrees fds) x.fields)
              (parse_fields k.letters 0 fds no_fields) _
              (parse_fields-Comes k.Failure k.letters 0 [] fds no_fields refl tt)
              (λ x h.
                All-map (Comes fds) (Agrees fds) x.fields
                  (λ f. Agrees-of_Comes fds f names offsets exported) h)))
          parsed)
        ho same
