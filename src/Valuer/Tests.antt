-- ===== src/Valuer/Tests.antt =====
-- A struct of two fields, into which a row of two columns is read.
use myhomework.Common.{
  ℕ, ◌+◌, text, bytes_eq, ◌≡◌, true, false, sym, refl, List, [], ◌∷◌, none, some, Result, ok, err,
  if◌then◌else◌, ◌==◌, ◌&&◌, leb, arith,
}
use myhomework.Common.Dict.{lookup, insert}
use myhomework.Registry.Models.{StructField, Struct, Setting, Model, parse_fields, parse_model}
use myhomework.Valuer.Values.{
  Rows, returned, panicked, place_of_name, place_of_offset, targets, prepared, read, assign,
  reflect_set_columns, scan_into, unsafe_set_columns,
}
use myhomework.Valuer.Alike.{IsAlike, AllOverwrite}
use myhomework.Valuer.Registered.{HasDistinct, set_columns-parse_model}
use myhomework.Registry.Naming.{
  underscore_rest, underscore_runes, underscore_name, parse_tag, column_name,
}

program : Unit {0}
unfolding text bytes_eq lookup place_of_name place_of_offset targets prepared read assign
    reflect_set_columns scan_into unsafe_set_columns
program = tt

abbrev user : List (StructField ℕ)
user =
    record { name = text "Id"; exported = true; orm_tag = []; typ = 1; offset = 0 }
    ∷ record { name = text "Age"; exported = true; orm_tag = []; typ = 2; offset = 8 }
    ∷ []

abbrev user_model : Model ℕ
user_model = record {
  table_name = text "user";
  fields =
      record { col_name = text "id"; go_name = text "Id"; typ = 1; index = 0; offset = 0 }
      ∷ record { col_name = text "age"; go_name = text "Age"; typ = 2; index = 1; offset = 8 }
      ∷ [];
  field_map = (text "Id", 0) ∷ (text "Age", 1) ∷ [];
  column_map = (text "id", 0) ∷ (text "age", 1) ∷ [];
}

-- The columns come in the other order; the second one may not be converted.
abbrev converted : Result ℕ ℕ → ℕ → ℕ → ℕ → Result ℕ ℕ
converted second i t old = if i == 0 then ok (40 + t) else second

abbrev rows_of : Result ℕ ℕ → Rows ℕ ℕ ℕ
rows_of second = record {
  columns = ok (text "age" ∷ text "id" ∷ []);
  scan = λ n. ok (converted second);
}

abbrev fresh : ℕ → ℕ
fresh t = 0

read_by_reflection :
    reflect_set_columns fresh user user_model (rows_of (ok 7)) (0 ∷ 0 ∷ []) ≡ (7 ∷ 42 ∷ [], none)
unfolding program
read_by_reflection = refl

-- A conversion that fails leaves the first value in the struct that is written to directly.
half_written :
    unsafe_set_columns fresh user user_model (rows_of (err 5)) (0 ∷ 0 ∷ [])
    ≡ (0 ∷ 42 ∷ [], some (returned 5))
unfolding program
half_written = refl

-- A `Scanner` that keeps the value of a missing one keeps that of the struct or the new one.
abbrev keeping : Rows ℕ ℕ ℕ
keeping = record { columns = ok (text "age" ∷ []); scan = λ n. ok (λ i t old. ok old) }

kept_by_addresses :
    unsafe_set_columns fresh user user_model keeping (3 ∷ 4 ∷ []) ≡ (3 ∷ 4 ∷ [], none)
unfolding program
kept_by_addresses = refl

lost_by_reflection :
    reflect_set_columns fresh user user_model keeping (3 ∷ 4 ∷ []) ≡ (3 ∷ 0 ∷ [], none)
unfolding program
lost_by_reflection = refl

-- The same struct with fields that are not exported.
abbrev hidden : List (StructField ℕ)
hidden =
    record { name = text "Id"; exported = true; orm_tag = []; typ = 1; offset = 0 }
    ∷ record { name = text "Age"; exported = false; orm_tag = []; typ = 2; offset = 8 }
    ∷ []

hidden_panics :
    (reflect_set_columns fresh hidden user_model (rows_of (ok 7)) (0 ∷ 0 ∷ [])).1 ≡ some panicked
unfolding program
hidden_panics = refl

-- Types are numbers, and values are structs.
abbrev structs : Setting
structs = record {
  Value = Struct ℕ;
  GoType = ℕ;
  Failure = ℕ;
  letters = record {
    runes = λ s. s;
    is_upper = λ b. leb b'A' b && leb b b'Z';
    to_lower = λ b. b + 32;
  };
  type_of = λ s. 0;
  struct_of = λ s. some s;
  table_name = λ s. none;
}

abbrev user_struct : Struct ℕ
user_struct = record { name = text "user"; fields = user }

user_model-parsed : parse_model structs user_struct ≡ ok user_model
unfolding program insert underscore_rest underscore_runes underscore_name parse_tag column_name
    parse_fields parse_model
user_model-parsed = refl

distinct_names : HasDistinct (λ f. f.name) user
unfolding text
distinct_names = ((λ e. ground arith, tt), (tt, tt))

distinct_offsets : HasDistinct (λ f. f.offset) user
distinct_offsets = ((λ e. ground arith, tt), (tt, tt))

overwriting : AllOverwrite fresh (rows_of (ok 7))
overwriting n convert e i t old = let same : converted (ok 7) ≡ convert = cc e in rw (sym same) refl

set_columns-parse_model_example :
    IsAlike
      (0 ∷ 0 ∷ [])
      (reflect_set_columns fresh user user_model (rows_of (ok 7)) (0 ∷ 0 ∷ []))
      (unsafe_set_columns fresh user user_model (rows_of (ok 7)) (0 ∷ 0 ∷ []))
set_columns-parse_model_example =
    set_columns-parse_model structs ℕ ℕ fresh user_struct user (text "user") user_model
      (rows_of (ok 7)) (0 ∷ 0 ∷ []) refl distinct_names distinct_offsets (refl, (refl, tt))
      overwriting user_model-parsed refl
