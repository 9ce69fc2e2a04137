-- ===== src/Registry/Tests.antt =====
-- A struct with a tag, registered with options.
use myhomework.Common.{
  ℕ, ◌+◌, text, bytes_eq, split_byte, ◌≡◌, true, refl, ◌&&◌, leb, [], ◌∷◌, none, some, ok, err,
  arith,
}
use myhomework.Common.Dict.{lookup, insert}
use myhomework.Orm.Builder.{field_of}
use myhomework.Registry.Naming.{
  Letters, invalid_tag_content, underscore_rest, underscore_runes, underscore_name, parse_pairs,
  parse_tag, column_name,
}
use myhomework.Registry.Models.{
  Struct, Setting, Model, set_column, parse_fields, parse_model, with_table_name, with_column_name,
  apply_options, register, get, load, store,
}
use myhomework.Registry.Camel.{IsAscii, camel, camel-underscore_name}
use myhomework.Registry.Renaming.{model_view, register-with_column_name}

abbrev ascii : Letters
ascii = record { runes = λ s. s; is_upper = λ b. leb b'A' b && leb b b'Z'; to_lower = λ b. b + 32 }

ascii-IsAscii : IsAscii ascii
ascii-IsAscii = record {
  runes_ascii = λ s h. refl;
  is_upper_ascii = λ b h. refl;
  to_lower_capital = λ b h. refl;
}

program : Unit {0}
unfolding text bytes_eq split_byte lookup insert underscore_rest underscore_runes underscore_name
    parse_pairs parse_tag column_name set_column parse_fields parse_model with_table_name
    with_column_name apply_options register get load store
program = tt

user_id_column : underscore_name ascii (text "UserID") ≡ text "user_i_d"
unfolding program
user_id_column = refl

no_value : parse_tag {E = ℕ} (text "column") ≡ err (invalid_tag_content (text "column"))
unfolding program
no_value = refl

camel-underscore_name_example :
    camel (underscore_name ascii (b'I' ∷ b'd' ∷ b'N' ∷ b'o' ∷ [])) ≡ b'I' ∷ b'd' ∷ b'N' ∷ b'o' ∷ []
camel-underscore_name_example =
    camel-underscore_name ascii ascii-IsAscii b'I' (b'd' ∷ b'N' ∷ b'o' ∷ []) refl (
      (omega arith, ground arith),
      (
        (omega arith, ground arith),
        ((omega arith, ground arith), ((omega arith, ground arith), tt)),
      ),
    )

-- Types are numbers, and values are structs.
abbrev structs : Setting
structs = record {
  Value = Struct ℕ;
  GoType = ℕ;
  Failure = ℕ;
  letters = ascii;
  type_of = λ s. 0;
  struct_of = λ s. some s;
  table_name = λ s. none;
}

abbrev user : Struct ℕ
user = record {
  name = text "User";
  fields =
      record { name = text "Id"; exported = true; orm_tag = []; typ = 1; offset = 0 }
      ∷ record {
        name = text "Name";
        exported = true;
        orm_tag = text "column=first_name";
        typ = 2;
        offset = 8;
      }
      ∷ [];
}

parsed : (m : Model ℕ) × (parse_model structs user ≡ ok m)
unfolding program
parsed = (_, refl)

tagged : lookup (text "first_name") (parsed.0.column_map) ≡ some 1
unfolding program parsed
tagged = refl

named : lookup (text "Name") (parsed.0.field_map) ≡ some 1
unfolding program parsed
named = refl

register-with_column_name_example :
    (m : Model ℕ) × ((register structs user
        (with_column_name structs (text "Name") (text "surname") ∷ [])
        []).1
      ≡ ok m)
    × (field_of {E = ℕ} (text "Name") (ok (model_view m)) ≡ ok (text "surname"))
    × (m.column_map ≡ parsed.0.column_map)
register-with_column_name_example =
    register-with_column_name structs user (text "Name") (text "surname") 1 parsed.0 [] parsed.1
      named
