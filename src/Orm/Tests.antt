-- ===== src/Orm/Tests.antt =====
-- Statements over a small model, and the theorems at those inputs.
use myhomework.Common.{
  ℕ, Bytes, text, bytes_eq, ◌≡◌, refl, [], ◌∷◌, ◌++◌, false, none, some, ok, ◌==◌, if◌then◌else◌,
  arith,
}
use myhomework.Common.Dict.{lookup}
use myhomework.Orm.Expression.{
  Assignable, Field, Model, Query, built, ℤ, pos, negsuc, Setting, Subquery, table, subquery_table,
  plain, nil,
}
use myhomework.Orm.Methods.{c, column_in_table, column_eq, join_on, inner_join, assign}
use myhomework.Orm.Builder
use myhomework.Orm.Builder.{Fault, State, Frame, drop_last, build_sub_query, ◌>>◌}
use myhomework.Orm.Selector
use myhomework.Orm.Selector.{Selector, new_selector}
use myhomework.Orm.Dialect.{mysql, sqlite3, build_upsert}
use myhomework.Orm.Inserter
use myhomework.Orm.Inserter.{Inserter, new_inserter}
use myhomework.Orm.Updater
use myhomework.Orm.Updater.{Updater, new_updater}
use myhomework.Orm.Texts.{query_text}
use myhomework.Orm.Statements
use myhomework.Orm.Statements.{build-selected}
use myhomework.Orm.Sharing.{build_sub_query-twice, build_upsert-drops}
use myhomework.Orm.Insertion
use myhomework.Orm.Insertion.{build-inserted}
use myhomework.Orm.Updates
use myhomework.Orm.Updates.{build-updated}

abbrev id_field : Field
id_field = record { col_name = text "id"; go_name = text "Id" }

abbrev age_field : Field
age_field = record { col_name = text "age"; go_name = text "Age" }

abbrev user_model : Model
user_model = record {
  table_name = text "user";
  fields = id_field ∷ age_field ∷ [];
  field_map = (text "Id", id_field) ∷ (text "Age", age_field) ∷ [];
}

abbrev int_value : ℤ → ℕ
int_value (pos n) = n
int_value (negsuc n) = 0

-- A builder is a query that it always returns, a row holds one value for all its fields, and the heap
-- is the cells.
abbrev small : Setting
small = record {
  Value = ℕ;
  Entity = Model;
  Row = ℕ;
  Builder = Query ℕ;
  Heap = ℕ → Bytes;
  Error = Bytes;
  value_of_int = int_value;
  value_of_list = λ vs. 0;
  get = λ m. ok m;
  field = λ row name. ok row;
  run = λ q h. (h, built q);
  cached = λ cell h. h cell;
  cache = λ cell s h x. if x == cell then s else h x;
}

abbrev empty_heap : ℕ → Bytes
empty_heap cell = []

abbrev ids : Query ℕ
ids = record { sql = text "SELECT `id` FROM `user` WHERE `age` = ?;"; args = 18 ∷ [] }

abbrev sub : Subquery small
sub = record {
  qb = ids;
  alias = text "s";
  cell = 0;
  cache_args = [];
  model = some user_model;
  column_names = [];
}

-- A join of a table with a subquery.
abbrev joined_selector : Selector small
joined_selector = record new_selector {
  table =
      join_on inner_join (table user_model (text "u")) (subquery_table sub)
        (column_eq (column_in_table (table user_model (text "u")) (text "Id")) (plain 3) ∷ []);
  limit = pos 5;
}

run_test :
    (Selector.build b'`' (ok user_model) joined_selector empty_heap).1
    ≡ ok (record {
      sql =
          text
            "SELECT * FROM (`user` AS `u` JOIN (SELECT `id` FROM `user` WHERE `age` = ?) AS `s` ON `u`.`id` = ?) LIMIT ?;";
      args = 18 ∷ 3 ∷ 5 ∷ [];
    })
unfolding text lookup bytes_eq Selector.build Builder.continue Builder.write_string
    Builder.write_byte Builder.add_args
run_test = refl

abbrev frame : Frame
frame = record { quoter = b'`'; model = user_model }

build-selected_example :
    (Selector.build b'`' (ok user_model) joined_selector empty_heap).1
    ≡ Statements.outcome empty_heap frame joined_selector
build-selected_example =
    build-selected b'`' (ok user_model) joined_selector empty_heap
      (record { table = (tt, tt, (tt, tt, tt)); conditions = tt; having = tt })

cache_lem :
    (cell : ℕ) (s : Bytes) (heap : ℕ → Bytes) → small.cached cell (small.cache cell s heap) ≡ s
cache_lem cell s heap = ground arith

abbrev fresh : State small
fresh = record { sb = []; args = []; heap = empty_heap }

abbrev ids_text : Bytes
ids_text = text "SELECT `id` FROM `user` WHERE `age` = ?"

ids_cut : drop_last ids.sql ≡ some ids_text
unfolding drop_last text
ids_cut = refl

ids_full : bytes_eq ids_text [] ≡ false
unfolding text bytes_eq
ids_full = refl

build_sub_query-twice_example : (build_sub_query sub >> build_sub_query sub) fresh ≡ (
  record {
    sb = query_text ids_text ++ query_text ids_text;
    args = 18 ∷ [];
    heap = small.cache 0 ids_text empty_heap;
  },
  none,
)
build_sub_query-twice_example =
    build_sub_query-twice sub fresh ids ids_text cache_lem refl refl refl ids_cut ids_full

build_upsert-drops_example :
    build_upsert mysql frame
      (record {
        conflict_columns = [];
        assigns =
            Assignable.column (c (text "Id"))
            ∷ Assignable.assignment (text "Age") nil
            ∷ Assignable.assignment (text "Id") nil
            ∷ [];
      })
      fresh
    ≡ build_upsert mysql frame
        (record {
          conflict_columns = [];
          assigns = Assignable.column (c (text "Id")) ∷ Assignable.assignment (text "Age") nil ∷ [];
        })
        fresh
build_upsert-drops_example =
    build_upsert-drops mysql frame [] (Assignable.column (c (text "Id")) ∷ [])
      (Assignable.assignment (text "Id") nil ∷ []) (text "Age") nil fresh

-- Two rows, and an upsert of one column.
abbrev two_rows : Inserter small
two_rows = record new_inserter {
  values = 7 ∷ 8 ∷ [];
  upsert =
      some (record { conflict_columns = []; assigns = Assignable.column (c (text "Age")) ∷ [] });
}

insert_test :
    (Inserter.build mysql (ok user_model) two_rows empty_heap).1
    ≡ ok (record {
      sql =
          text
            "INSERT INTO `user`(`id`,`age`) VALUES(?,?),(?,?) ON DUPLICATE KEY UPDATE `age`=VALUES(`age`);";
      args = 7 ∷ 7 ∷ 8 ∷ 8 ∷ [];
    })
unfolding text lookup bytes_eq Inserter.build Builder.continue Builder.write_string
    Builder.write_byte Builder.add_args
insert_test = refl

build-inserted_example :
    (Inserter.build mysql (ok user_model) two_rows empty_heap).1
    ≡ Insertion.outcome empty_heap mysql frame two_rows
build-inserted_example = build-inserted mysql (ok user_model) two_rows empty_heap tt

-- A column from the row, and one from an expression.
abbrev one_update : Updater small
one_update = record new_updater {
  assigns = Assignable.column (c (text "Age")) ∷ assign (text "Id") (plain 4) ∷ [];
  val = some 9;
}

update_test :
    (Updater.build sqlite3 (ok user_model) 0 one_update empty_heap).1
    ≡ ok (record { sql = text "UPDATE `user` SET `age`=?,`id`=?;"; args = 9 ∷ 4 ∷ [] })
unfolding text lookup bytes_eq Updater.build Builder.continue Builder.write_string
    Builder.write_byte Builder.add_args
update_test = refl

build-updated_example :
    (Updater.build sqlite3 (ok user_model) 0 one_update empty_heap).1
    ≡ Updates.outcome empty_heap frame 9 one_update
build-updated_example =
    build-updated sqlite3 (ok user_model) 0 one_update empty_heap ((tt, (tt, tt)), tt)
