-- ===== src/Plain/Match.antt =====
-- homework1/route.go: `findRoute` and what it calls; homework1/server.go: `serve`. What a client sees is
-- as in homework2.
use myhomework.Common.{
  Bytes, text, bytes_eq, split_byte, trim, List, [], ◌∷◌, Option, none, some, if◌then◌else◌,
}
use myhomework.Common.Dict.{lookup, insert}
use myhomework.Web.Tree.{Setting, any}
use myhomework.Web.Match.{regex_matches, Reply, not_found, handled}
use myhomework.Plain.Tree.{Node, node, Slot, absent, present, info, children, reg_child, find_child}
use myhomework.Plain.Register.{Trees}

-- The map `pathParams` is nil or holds the parameters found so far.
pub record MatchInfo (k : Setting) : Type 0 where
  pub n : Node k
  pub path_params : List (Bytes × Bytes)

-- `addValue`, where the child has a parameter name.
abbrev pub add_value : Bytes → Bytes → List (Bytes × Bytes) → List (Bytes × Bytes)
add_value key value m = if bytes_eq key [] then m else insert key value m

module _ {k : Setting} where
  abbrev param_or_star : Node k → Slot k
  param_or_star (node i c s (present p) r) = present p
  param_or_star (node i c s absent r) = s

  -- `childOfNonStatic`
  unfoldable pub child_of_non_static : Bytes → Node k → Slot k
  child_of_non_static path n = elim (reg_child n) [
    | absent ↦ param_or_star n
    | present r ↦ if regex_matches k (info r).reg_expr path then present r else param_or_star n
  ]

  -- `childOf`
  unfoldable pub child_of : Bytes → Node k → Slot k
  unfolding child_of_non_static
  child_of path n = elim (find_child path (children n)) [
    | absent ↦ child_of_non_static path n
    | present child ↦ present child
  ]

  -- The loop of `findRoute`.
  unfoldable pub find_from : List Bytes → Node k → List (Bytes × Bytes) → Option (MatchInfo k)
  unfolding child_of
  find_from [] root m = some (record { n = root; path_params = m })
  find_from (s ∷ segs) root m = elim (child_of s root) [
    | absent ↦ elim (info root).typ [ any ↦ some (record { n = root; path_params = m }) | _ ↦ none ]
    | present child ↦ find_from segs child (add_value (info child).param_name s m)
  ]

  unfoldable pub find_route : Bytes → Bytes → Trees k → Option (MatchInfo k)
  unfolding find_from
  find_route method path trees = elim (lookup method trees) [
    | none ↦ none
    | some root ↦
        if bytes_eq path (text "/")
        then some (record { n = root; path_params = [] })
        else find_from (split_byte b'/' (trim b'/' path)) root []
  ]

  abbrev reply_of : Option k.Handler → List (Bytes × Bytes) → Reply k
  reply_of none m = not_found
  reply_of (some h) m = handled h m

  -- `serve`
  unfoldable pub serve : Bytes → Bytes → Trees k → Reply k
  unfolding find_route
  serve method path trees = elim (find_route method path trees) [
    | none ↦ not_found
    | some mi ↦ reply_of (info mi.n).handler mi.path_params
  ]
