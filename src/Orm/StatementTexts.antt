-- ===== src/Orm/StatementTexts.antt =====
-- The SQL that tables and a whole SELECT stand for, its arguments and its first error.
use myhomework.Common.{Bytes, text, List, [], ◌∷◌, ◌++◌, Option, none, some}
use myhomework.Writer.Outcomes.{or_else}
use myhomework.Orm.Expression.{
  Setting, TableReference, no_table, table, join, subquery_table, foreign, Column,
}
use myhomework.Orm.Builder.{Fault, unsupported_expression, Frame}
use myhomework.Orm.Selector.{Selector}
use myhomework.Orm.Texts.{
  quoted, gathered, errors, bound_text, from_text, from_values, from_error, entity_text,
  entity_error, column_error, expression_error, joined, selectable_values, selectable_error,
  columns_text, using_text, group_by_text, bound_values, values, conditions_text, AreSettled,
}

-- The heap behind the queries in FROM, which are built from left to right.
unfoldable pub table_heap : {k : Setting} → k.Heap → TableReference k → k.Heap
table_heap h (join left typ right on using) = table_heap (table_heap h left) right
table_heap {k} h (subquery_table sub) = (k.run sub.qb h).0
table_heap h _ = h

module _ {k : Setting} where
  unfoldable pub table_text : k.Heap → Frame → TableReference k → Bytes
  table_text h f no_table = quoted f f.model.table_name
  table_text h f (table entity alias) = entity_text f alias (k.get entity)
  table_text h f (join left typ right on using) =
      b'('
      ∷ (table_text h f left
          ++ (text " "
              ++ (typ
                  ++ (text " "
                      ++ (table_text (table_heap h left) f right
                          ++ (using_text k f using
                              ++ (conditions_text (table_heap (table_heap h left) right)
                                    (text " ON ") f on
                                  ++ text ")")))))))
  table_text h f (subquery_table sub) = b'(' ∷ from_text f sub.alias (k.run sub.qb h).1
  table_text h f (foreign alias) = []

  unfoldable pub table_values : k.Heap → TableReference k → List k.Value
  table_values h no_table = []
  table_values h (table entity alias) = []
  table_values h (join left typ right on using) =
      table_values h left
      ++ (table_values (table_heap h left) right
          ++ values (table_heap (table_heap h left) right) (joined on))
  table_values h (subquery_table sub) = from_values (k.run sub.qb h).1
  table_values h (foreign alias) = []

  unfoldable pub table_error : k.Heap → Frame → TableReference k → Option (Fault k.Error)
  table_error h f no_table = none
  table_error h f (table entity alias) = entity_error (k.get entity)
  table_error h f (join left typ right on using) = or_else (table_error h f left) (
      or_else (table_error (table_heap h left) f right) (
        or_else (errors (λ (fd : Bytes). column_error {k = k} f no_table fd) using)
          (expression_error f (joined on))))
  table_error h f (subquery_table sub) = from_error (k.run sub.qb h).1
  table_error h f (foreign alias) = some unsupported_expression

  abbrev pub IsSettledTable : k.Heap → TableReference k → Type 0
  IsSettledTable h (join left typ right on using) =
      IsSettledTable h left
      × IsSettledTable (table_heap h left) right
      × AreSettled (table_heap (table_heap h left) right) on
  IsSettledTable h _ = Unit

module _ {k : Setting} (h : k.Heap) where
  -- The whole statement, clause by clause.
  abbrev pub statement_text : Frame → Selector k → Bytes
  statement_text f s =
      text "SELECT "
      ++ (columns_text f s.columns
          ++ (text " FROM "
              ++ (table_text h f s.table
                  ++ (conditions_text (table_heap h s.table) (text " WHERE ") f s.conditions
                      ++ (group_by_text f s.group_by
                          ++ (conditions_text (table_heap h s.table) (text " HAVING ") f s.having
                              ++ (bound_text (text " LIMIT ?") s.limit
                                  ++ (bound_text (text " OFFSET ?") s.offset ++ text ";"))))))))

  abbrev pub statement_values : Selector k → List k.Value
  statement_values s =
      gathered selectable_values s.columns
      ++ (table_values h s.table
          ++ (values (table_heap h s.table) (joined s.conditions)
              ++ (values (table_heap h s.table) (joined s.having)
                  ++ (bound_values k s.limit ++ bound_values k s.offset))))

  -- The first error, in the order in which the clauses stand in the statement.
  abbrev pub statement_error : Frame → Selector k → Option (Fault k.Error)
  statement_error f s = or_else (errors (selectable_error f) s.columns) (
      or_else (table_error h f s.table) (
        or_else (expression_error f (joined s.conditions)) (
          or_else (errors (λ (g : Column k). column_error f g.table g.name) s.group_by)
            (expression_error f (joined s.having)))))

  -- The subqueries in the conditions of joins and in those of the statement have been built before.
  pub record IsSettledSelector (s : Selector k) : Type 0 where
    pub table : IsSettledTable h s.table
    pub conditions : AreSettled (table_heap h s.table) s.conditions
    pub having : AreSettled (table_heap h s.table) s.having
