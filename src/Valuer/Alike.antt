-- ===== src/Valuer/Alike.antt =====
-- Reading a row by reflection and by addresses comes to the same.
use myhomework.Common.{
  ℕ, suc, ◌≡◌, refl, sym, ap, ◌∙◌, List, [], ◌∷◌, Option, none, some, true, Result, ok, err,
  if◌then◌else◌, ltb, length, get_elem?, All, All-get_elem?, Ensures, Ensures-bind, Ensures-if,
  any_value, of_Ensures, Bytes, Result-cases, Option-cases, inl, inr, arith,
}
use myhomework.Common.Dict.{lookup}
use myhomework.Registry.Models.{StructField, Field, Model}
use myhomework.Valuer.Values.{
  Failure, too_many_columns, unknown_column, Rows, set_at, place_of_name, place_of_offset,
  is_exported, present_value, field_at, targets, passed, prepared, Written, read, assign,
  reflect_write, reflect_set_columns, scan_into, unsafe_set_columns,
}

module _ {T : Type 0} (fds : List (StructField T)) where
  -- The field's name and its offset lead to the same field of the struct, an exported one.
  abbrev pub Agrees : Field T → Type 0
  Agrees f =
      (i : ℕ) × (place_of_name f.go_name fds ≡ some i)
      × (place_of_offset f.offset fds ≡ some i)
      × (is_exported fds i ≡ true)

module _ {V E : Type 0} where
  -- The second is the first, but at an error only its error is, and the first leaves the row as it was.
  abbrev pub IsAlike : List V → Written V E → Written V E → Type 0
  IsAlike row (r, none) w = w ≡ (r, none)
  IsAlike row (r, some e) w = (r ≡ row) × (w.1 ≡ some e)

  IsAlike-same : (row : List V) (r w : Written V E) → w ≡ r → w.1 ≡ none → IsAlike row r w
  IsAlike-same row (r, none) w same done = same
  IsAlike-same row (r, some e) w same done =
      let wrong : some e ≡ none = sym (ap (λ x. x.1) same) ∙ done in absurd (ground arith)

module _ {T V E : Type 0} (fresh : T → V) where
  -- What is written does not depend on what stood there: no `Scanner` keeps the value.
  abbrev pub Overwrites : (ℕ → T → V → Result E V) → Type 0
  Overwrites convert = (i : ℕ) (t : T) (old : V) → convert i t old ≡ convert i t (fresh t)

  abbrev pub AllOverwrite : Rows T V E → Type 0
  AllOverwrite rows =
      (n : ℕ) (convert : ℕ → T → V → Result E V) → rows.scan n ≡ ok convert → Overwrites convert

  scan-Overwrites :
      (rows : Rows T V E) (n : ℕ)
      → AllOverwrite rows
      → Ensures {E = Failure E} Overwrites (passed (rows.scan n))
  scan-Overwrites rows n h = elim (Result-cases (rows.scan n)) [
    | inl (convert, e) ↦ rw (passed, e) (h n convert e)
    | inr (e, d) ↦ rw (passed, d) tt
  ]

module _ {T : Type 0} (V E : Type 0) (fresh : T → V) (fds : List (StructField T)) where
  field_at-Agrees :
      (m : Model T) (i : Option ℕ) (e : Failure E)
      → All (Agrees fds) m.fields
      → Ensures (Agrees fds) (field_at m i e)
  field_at-Agrees m none e h = tt
  field_at-Agrees m (some i) e h = elim (Option-cases (get_elem? m.fields i)) [
    | inl d ↦ rw (field_at, d) tt
    | inr (f, d) ↦ rw (field_at, d) (All-get_elem? (Agrees fds) m.fields i f h d)
  ]

  targets-Agrees :
      (m : Model T) (cs : List Bytes)
      → All (Agrees fds) m.fields
      → Ensures {E = Failure E} (All (Agrees fds)) (targets m cs)
  unfolding targets
  targets-Agrees m [] h = tt
  targets-Agrees m (c ∷ cs) h =
      Ensures-bind (Agrees fds) (All (Agrees fds))
        (field_at m (lookup c m.column_map) (unknown_column c)) _
        (field_at-Agrees m (lookup c m.column_map) (unknown_column c) h)
        (λ f hf.
          Ensures-bind (All (Agrees fds)) (All (Agrees fds)) (targets m cs) (λ fs. ok (f ∷ fs))
            (targets-Agrees m cs h) (λ fs hfs. (hf, hfs)))

  prepared-Agrees :
      (most : ℕ) (m : Model T) (rows : Rows T V E)
      → All (Agrees fds) m.fields
      → AllOverwrite fresh rows
      → Ensures (λ p. All (Agrees fds) p.0 × Overwrites fresh p.1) (prepared most m rows)
  unfolding prepared
  prepared-Agrees most m rows h ho =
      Ensures-bind (λ _. Unit {0}) (λ p. All (Agrees fds) p.0 × Overwrites fresh p.1)
        (passed rows.columns) _ (any_value (passed rows.columns))
        (λ cs _.
          Ensures-bind (All (Agrees fds)) (λ p. All (Agrees fds) p.0 × Overwrites fresh p.1)
            (if ltb most (length cs) then err too_many_columns else targets m cs) _
            (Ensures-if (All (Agrees fds)) (ltb most (length cs)) (err too_many_columns)
              (targets m cs) tt (targets-Agrees m cs h))
            (λ fs hfs.
              Ensures-bind (Overwrites fresh) (λ p. All (Agrees fds) p.0 × Overwrites fresh p.1)
                (passed (rows.scan (length fs))) (λ convert. ok (fs, convert))
                (scan-Overwrites fresh rows (length fs) ho) (λ convert hc. (hfs, hc))))

  -- What writing into the struct comes to, by the values that are read first.
  Follows : List V → Result (Failure E) (List (Field T × V)) → Written V E → Type 0
  Follows row (err e) w = w.1 ≡ some e
  Follows row (ok values) w = (w ≡ assign fds values row) × (w.1 ≡ none)

  continued :
      (f : Field T) (v : V) (j : ℕ) (values : List (Field T × V)) (row : List V) (w : Written V E)
      → place_of_name f.go_name fds ≡ some j
      → is_exported fds j ≡ true
      → Follows (set_at j v row) (ok values) w
      → Follows row (ok ((f, v) ∷ values)) w
  unfolding Follows assign
  continued f v j values row w name exported (same, done) = (rw (assign, name, exported) same, done)

  scan_into-Follows :
      (convert : ℕ → T → V → Result E V) (i : ℕ) (fs : List (Field T)) (row : List V)
      → Overwrites fresh convert
      → All (Agrees fds) fs
      → Follows row (read fresh convert i fs) (scan_into fresh fds convert i fs row)
  unfolding Follows read scan_into assign
  scan_into-Follows convert i [] row ho h = (refl, refl)
  scan_into-Follows convert i (f ∷ fs) row ho ((j, name, offset, exported), hs) =
      let old = ho i f.typ (present_value (fresh f.typ) (some j) row) in
      elim (Result-cases (convert i f.typ (fresh f.typ))) [
        | inr (e, d) ↦ rw (read, scan_into, offset, old, d) refl
        | inl (v, d) ↦
            let rest = scan_into-Follows convert (suc i) fs (set_at j v row) ho hs in
            elim (Result-cases (read fresh convert (suc i) fs)) [
              | inr (e, r) ↦ rw (read, scan_into, offset, old, d, offset, r) (rw r at rest)
              | inl (values, r) ↦
                  rw (read, scan_into, offset, old, d, offset, r)
                    (continued f v j values row _ name exported (rw r at rest))
            ]
      ]

  IsAlike-of_Follows :
      (row : List V) (values : Result (Failure E) (List (Field T × V))) (w : Written V E)
      → Follows row values w
      → IsAlike row (reflect_write fds row values) w
  unfolding Follows
  IsAlike-of_Follows row (err e) w h = (refl, h)
  IsAlike-of_Follows row (ok values) w (same, done) =
      IsAlike-same row (assign fds values row) w same done

  -- Where the name and the offset of every field of the model lead to the same exported field of the
  -- struct, no `Scanner` keeps the value that it is to overwrite, and both maps of the model have as
  -- many entries, reading a row by reflection and by addresses comes to the same: the same struct
  -- without an error, or the same error, at which reflection leaves the struct as it was.
  pub set_columns-IsAlike :
      (m : Model T) (rows : Rows T V E) (row : List V)
      → All (Agrees fds) m.fields
      → AllOverwrite fresh rows
      → length m.field_map ≡ length m.column_map
      → IsAlike row
          (reflect_set_columns fresh fds m rows row)
          (unsafe_set_columns fresh fds m rows row)
  unfolding reflect_set_columns unsafe_set_columns
  set_columns-IsAlike m rows row h ho same =
      elim (Result-cases (prepared (length m.column_map) m rows)) [
        | inr (e, d) ↦ rw (reflect_set_columns, unsafe_set_columns, same, d) (refl, refl)
        | inl ((fs, convert), d) ↦
            let (agree, overwrite) =
              of_Ensures (λ p. All (Agrees fds) p.0 × Overwrites fresh p.1)
                (prepared (length m.column_map) m rows) (fs, convert)
                (prepared-Agrees (length m.column_map) m rows h ho) d in
            rw (reflect_set_columns, unsafe_set_columns, same, d)
              (IsAlike-of_Follows row (read fresh convert 0 fs)
                (scan_into fresh fds convert 0 fs row)
                (scan_into-Follows convert 0 fs row overwrite agree))
      ]
