-- ===== src/Web/Tests.antt =====
-- A router with concrete handlers, and the theorems at it.
use myhomework.Common.{
  ℕ, Bytes, text, bytes_eq, cut_byte, split_byte, join_byte, ◌≡◌, refl, false, List, [], ◌∷◌, none,
  some, ok, err, All, arith,
}
use myhomework.Common.Dict.{lookup, insert}
use myhomework.Web.Tree.{Setting, Node, find_child, put_child}
use myhomework.Web.Register.{
  Panic, reg_conflict, Trees, root, tree_of, drop_close, parse_param, ends_in_slash, check_path,
  child_or_create_star, child_or_create_param, child_or_create_reg, child_or_create_static,
  child_or_create_parsed, child_or_create, put_at, set_handler, add_segments, add_route,
}
use myhomework.Web.Match.{handled, serve}
use myhomework.Web.Shape.{AllWellFormed, add_route-AllWellFormed}
use myhomework.Web.Conflicts.{add_route-add_route, add_segments-reg_conflict}
use myhomework.Web.Static.{segments_eq, handler_at}
use myhomework.Web.Paths.{IsSegment, path_of}
use myhomework.Web.Serving.{serve-add_route, serve-add_route_ne}

-- Handlers and middlewares are numbers, and a regular expression matches its own text.
abbrev numbers : Setting
numbers = record {
  Handler = ℕ;
  Middleware = ℕ;
  Regex = Bytes;
  compile = λ e. some e;
  matches = bytes_eq;
  source = λ e. e;
}

program : Unit {0}
unfolding text bytes_eq cut_byte split_byte join_byte lookup insert find_child put_child drop_close
    parse_param ends_in_slash check_path child_or_create_star child_or_create_param
    child_or_create_reg child_or_create_static child_or_create_parsed child_or_create put_at
    set_handler add_segments add_route segments_eq handler_at
program = tt

abbrev get : Bytes
get = text "GET"

abbrev user_home : List Bytes
user_home = text "user" ∷ text "home" ∷ []

abbrev user : List Bytes
user = text "user" ∷ []

abbrev no_routes : Trees numbers
no_routes = []

-- The router after `GET /user/home` with a handler and a middleware.
with_home :
    (ts : Trees numbers) × (add_route get (path_of user_home) (some 7) (1 ∷ []) no_routes ≡ ok ts)
unfolding program
with_home = (_, refl)

user_home-segments : All IsSegment user_home
unfolding text bytes_eq
user_home-segments = (((refl, refl), omega arith), (((refl, refl), omega arith), tt))

user-segments : All IsSegment user
unfolding text bytes_eq
user-segments = (((refl, refl), omega arith), tt)

-- Registering `GET /user` with handlers alone, after that.
with_user : (ts : Trees numbers) × (add_route get (path_of user) none (2 ∷ []) with_home.0 ≡ ok ts)
unfolding program with_home
with_user = (_, refl)

add_route-AllWellFormed_example : AllWellFormed with_home.0
add_route-AllWellFormed_example =
    add_route-AllWellFormed get (path_of user_home) (some 7) (1 ∷ []) no_routes with_home.0 tt
      with_home.1

add_route-add_route_example :
    (p : Panic) × (add_route get (path_of user_home) (some 8) [] with_home.0 ≡ err p)
add_route-add_route_example =
    add_route-add_route get (path_of user_home) 7 (some 8) (1 ∷ []) [] no_routes with_home.0
      with_home.1

serve-add_route_example : serve get (path_of user_home) with_home.0 ≡ handled 7 []
serve-add_route_example =
    serve-add_route get (text "user") (text "home" ∷ []) 7 (1 ∷ []) no_routes with_home.0 tt
      user_home-segments with_home.1

home_found : handler_at user_home (tree_of get with_home.0) ≡ some 7
unfolding program with_home
home_found = refl

user_apart : segments_eq user user_home ≡ false
unfolding program
user_apart = refl

serve-add_route_ne_example : serve get (path_of user_home) with_user.0 ≡ handled 7 []
serve-add_route_ne_example =
    serve-add_route_ne get (text "user") (text "user") (text "home" ∷ []) [] 7 none (2 ∷ [])
      with_home.0 with_user.0 add_route-AllWellFormed_example user_home-segments user-segments
      user_apart home_found with_user.1

-- The segment `:id(.*)`, which a second route may not use again.
id_parsed : parse_param (text "id(.*)") ≡ (text "id", some (text ".*"))
unfolding program
id_parsed = refl

id_named : bytes_eq [] (text "id") ≡ false
unfolding program
id_named = refl

with_id :
    (n : Node numbers) × (add_segments
        (some 3)
        []
        ((b':' ∷ text "id(.*)") ∷ text "home" ∷ [])
        (root {k = numbers})
      ≡ ok n)
unfolding program
with_id = (_, refl)

add_segments-reg_conflict_example :
    add_segments (some 4) [] ((b':' ∷ text "id(.*)") ∷ text "away" ∷ []) with_id.0
    ≡ err reg_conflict
add_segments-reg_conflict_example =
    add_segments-reg_conflict (text "id(.*)") (text "id") (text ".*") (text "home" ∷ [])
      (text "away" ∷ []) (some 3) (some 4) [] [] root with_id.0 id_parsed id_named with_id.1
