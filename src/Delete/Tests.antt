-- ===== src/Delete/Tests.antt =====
-- Runs of the two builders, and the theorems at those inputs.
use myhomework.Common.{
  ℕ, Bytes, text, ◌≡◌, refl, List, [], ◌∷◌, ◌++◌, ◌⊎◌, some, ok, err, arith, bytes_eq,
}
use myhomework.Writer.{Output, continue, write_string, write_byte, add_args}
use myhomework.Delete.Expression.{Predicate, plain, eq, gt, lt, negate, and, as_expression, join}
use myhomework.Delete.Deleter
use myhomework.Delete.Deleter.{
  Deleter, Query, unsupported_expression, build_expression, filtered, from,
}
use myhomework.Delete.Selector
use myhomework.Delete.Selector.{Selector, new_selector}
use myhomework.Delete.Render.{values}
use myhomework.Delete.Statements.{
  joined, delete_text, delete_output, build-delete_output, build-build,
}
use myhomework.Delete.Reading.{read, read-build_expression}
use myhomework.Delete.Copies.{build-build_alike}

program : Unit {0}
unfolding Deleter.build Selector.build continue write_string write_byte add_args join text bytes_eq
program = tt

abbrev blank : Deleter ℕ
blank = record { out = record { sb = []; args = [] }; table = []; conditions = [] }

-- `Age > 18 AND (NOT (Age < 35))`
abbrev grown_up : Predicate ℕ
grown_up =
    and (gt (record { name = text "Age" }) (plain 18))
      (negate (lt (record { name = text "Age" }) (plain 35)))

abbrev by_id : Predicate ℕ
by_id = eq (record { name = text "Id" }) (plain 16)

abbrev two_conditions : Deleter ℕ
two_conditions = filtered (grown_up ∷ by_id ∷ []) (from (text "`test_model`") blank)

build_runs :
    (Deleter.build (text "TestModel") two_conditions).1
    ≡ ok (record {
      sql =
          text
            "DELETE FROM `test_model` WHERE ((`Age` > ?) AND ( NOT (`Age` < ?))) AND (`Id` = ?);";
      args = 18 ∷ 35 ∷ 16 ∷ [];
    })
unfolding program
build_runs = refl

select_runs :
    (Selector.build (text "TestModel") (new_selector {V = ℕ})).1
    ≡ ok (record { sql = text "SELECT * FROM `TestModel`;"; args = [] })
unfolding program
select_runs = refl

build-delete_output_example : Deleter.build (text "TestModel") two_conditions ≡ (
  record two_conditions { out = delete_output (text "TestModel") two_conditions },
  ok (record {
    sql = (delete_output (text "TestModel") two_conditions).sb;
    args = (delete_output (text "TestModel") two_conditions).args;
  }),
)
unfolding join
build-delete_output_example = build-delete_output (text "TestModel") two_conditions (omega arith)

build-build_example :
    (Deleter.build (text "TestModel") (Deleter.build (text "TestModel") two_conditions).0).1
    ≡ ok (record {
      sql =
          []
          ++ (delete_text (text "TestModel") two_conditions
              ++ delete_text (text "TestModel") two_conditions);
      args =
          []
          ++ (values (joined two_conditions.conditions)
              ++ values (joined two_conditions.conditions));
    })
build-build_example = build-build (text "TestModel") two_conditions (omega arith)

abbrev statement : Query ℕ
statement = record {
  sql = text "DELETE FROM `test_model` WHERE ((`Age` > ?) AND ( NOT (`Age` < ?))) AND (`Id` = ?);";
  args = 18 ∷ 35 ∷ 16 ∷ [];
}

abbrev grown_up_output : Output ℕ
grown_up_output = record { sb = text "(`Age` > ?) AND ( NOT (`Age` < ?))"; args = 18 ∷ 35 ∷ [] }

read-build_expression_example :
    read grown_up_output.sb grown_up_output.args ≡ some (as_expression grown_up, [], [])
unfolding program
read-build_expression_example =
    read-build_expression (as_expression grown_up) grown_up_output refl (omega arith) refl

build-build_alike_example :
    let deleted =
      (Deleter.build
        (text "User")
        (record { out = record { sb = []; args = [] }; table = []; conditions = by_id ∷ [] })).1 in
    let selected =
      (Selector.build
        (text "User")
        (Selector.filtered (by_id ∷ []) (Selector.from [] new_selector))).1 in
    ((tail : Bytes) × (vs : List ℕ) × (deleted
        ≡ ok (record { sql = text "DELETE FROM " ++ tail; args = vs }))
      × (selected ≡ ok (record { sql = text "SELECT * FROM " ++ tail; args = vs })))
    ⊎ ((deleted ≡ err unsupported_expression) × (selected ≡ err unsupported_expression))
build-build_alike_example = build-build_alike (text "User") [] (by_id ∷ [])
