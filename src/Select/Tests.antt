-- ===== src/Select/Tests.antt =====
-- Runs of the builder of homework_select, and the theorems at those inputs.
use myhomework.Common.{
  ℕ, Bytes, text, bytes_eq, count_byte, ◌≡◌, refl, ◌↔◌, [], ◌∷◌, ok, err, arith, length,
}
use myhomework.Common.Dict.{lookup}
use myhomework.Writer.{continue, write_string, write_byte, add_args}
use myhomework.Select.Expression.{
  Selectable, plain, c, column_as, column_eq, column_gt, aggregate_as, aggregate_gt, avg, count,
  raw, as_predicate, or, negate, asc, desc, join,
}
use myhomework.Select.Selector
use myhomework.Select.Selector.{
  Model, Query, ℤ, pos, negsuc, Selector, Error, unknown_field, registry, new_selector, select,
  from, filtered, grouped_by, having_all, with_offset, with_limit, ordered_by,
}
use myhomework.Select.Statements.{build-outcome, outcome}
use myhomework.Select.Success.{IsBuildable, build-ok_iff}
use myhomework.Select.Placeholders.{build-balanced}

program : Unit {0}
unfolding Selector.build continue write_string write_byte add_args join text bytes_eq lookup
program = tt

abbrev entry : Bytes → Bytes → Bytes × Selector.Field
entry name col = (name, record { col_name = col })

abbrev test_model : Model
test_model = record {
  table_name = text "test_model";
  field_map =
      entry (text "Id") (text "id")
      ∷ entry (text "FirstName") (text "first_name")
      ∷ entry (text "Age") (text "age")
      ∷ [];
}

-- Go values: integers.
abbrev any_of : ℤ → ℤ
any_of n = n

abbrev full : Selector ℤ
full =
    select
      (Selectable.column (column_as (text "my_id") (c (text "Id")))
        ∷ Selectable.aggregate (aggregate_as (text "avg_age") (avg (text "Age")))
        ∷ [])
      (filtered
        (or (column_gt (c (text "Age")) (plain (pos 18)))
            (as_predicate (raw (text "`id` < ?") (pos 7 ∷ [])))
          ∷ negate (column_eq (c (text "Id")) (plain (pos 3)))
          ∷ [])
        (grouped_by (c (text "Age") ∷ c (text "Id") ∷ []) (
          having_all (aggregate_gt (count (text "Id")) (plain (pos 2)) ∷ []) (
            ordered_by (asc (text "Age") ∷ desc (text "Id") ∷ [])
              (with_offset (pos 10) (with_limit (pos 20) new_selector))))))

full_sql : Bytes
full_sql =
    text
      "SELECT `id` AS `my_id`,AVG(`age`) AS `avg_age` FROM `test_model` WHERE ((`age` > ?) OR ((`id` < ?))) AND ( NOT (`id` = ?)) GROUP BY `age`,`id` HAVING COUNT(`id`) > ? ORDER BY `age` ASC,`id` DESC LIMIT ? OFFSET ?;"

abbrev full_query : Query ℤ
full_query = record { sql = full_sql; args = pos 18 ∷ pos 7 ∷ pos 3 ∷ pos 2 ∷ pos 20 ∷ pos 10 ∷ [] }

build-full : (Selector.build {R = ℕ} any_of (ok test_model) full).1 ≡ ok full_query
unfolding program full_sql
build-full = refl

-- The unknown field of ORDER BY is not reached: the error is that of WHERE.
abbrev wrong : Selector ℤ
wrong =
    filtered (column_eq (c (text "Invalid")) (plain (pos 1)) ∷ [])
      (ordered_by (asc (text "Other") ∷ []) new_selector)

build-wrong :
    (Selector.build {R = ℕ} any_of (ok test_model) wrong).1 ≡ err (unknown_field (text "Invalid"))
unfolding program
build-wrong = refl

-- A negative limit is left out.
build_negative :
    (Selector.build {R = ℕ} any_of
      (ok test_model)
      (with_limit (negsuc 4) (from (text "t") new_selector))).1
    ≡ ok (record { sql = text "SELECT * FROM t;"; args = [] })
unfolding program
build_negative = refl

build-outcome_example :
    (Selector.build {R = ℕ} any_of (ok test_model) full).1 ≡ outcome any_of test_model full
build-outcome_example = build-outcome any_of (ok test_model) full

build-ok_iff_example :
    ((q : Query ℤ) × ((Selector.build {R = ℕ} any_of (ok test_model) full).1 ≡ ok q))
    ↔ IsBuildable test_model full
build-ok_iff_example = build-ok_iff any_of test_model full

build-balanced_example : count_byte b'?' full_query.sql ≡ length full_query.args
unfolding program full_sql count_byte
build-balanced_example =
    build-balanced {R = ℕ} any_of test_model full full_query refl
      (record { table_name = omega arith; fields = omega arith })
      (record {
        columns = omega arith;
        table = tt;
        conditions = omega arith;
        group_by = omega arith;
        having = omega arith;
        order_by = omega arith;
      })
      build-full
