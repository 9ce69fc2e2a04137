-- ===== src/Plain/Tests.antt =====
-- A router with concrete handlers, registered with middlewares and without.
use myhomework.Common.{
  ℕ, Bytes, text, bytes_eq, cut_byte, split_byte, trim, ◌≡◌, refl, [], ◌∷◌, some, ok,
}
use myhomework.Common.Dict.{lookup, insert}
use myhomework.Web.Tree.{Setting}
use myhomework.Web.Tree
use myhomework.Web.Register
use myhomework.Web.Register.{drop_close, ends_in_slash}
use myhomework.Web.Match
use myhomework.Web.Match.{Reply, handled, not_found}
use myhomework.Plain.Tree.{find_child, put_child}
use myhomework.Plain.Register.{
  Trees, parse_param, check_path, child_or_create_star, child_or_create_param, child_or_create_reg,
  child_or_create_static, child_or_create_parsed, child_or_create, put_at, set_handler,
  add_segments, add_route,
}
use myhomework.Plain.Match.{child_of_non_static, child_of, find_from, find_route, serve}
use myhomework.Plain.Forget.{map_ok, forget_trees}
use myhomework.Plain.Refining.{add_route-forget}
use myhomework.Plain.Serving.{serve-forget}

-- Handlers and middlewares are numbers, and a regular expression matches its own text.
abbrev numbers : Setting
numbers = record {
  Handler = ℕ;
  Middleware = ℕ;
  Regex = Bytes;
  compile = λ e. some e;
  matches = bytes_eq;
  source = λ e. e;
}

program : Unit {0}
unfolding text bytes_eq cut_byte split_byte trim lookup insert find_child put_child drop_close
    parse_param ends_in_slash check_path child_or_create_star child_or_create_param
    child_or_create_reg child_or_create_static child_or_create_parsed child_or_create put_at
    set_handler add_segments add_route child_of_non_static child_of find_from find_route serve
program = tt

abbrev get : Bytes
get = text "GET"

abbrev no_routes : Trees numbers
no_routes = []

-- The router with `GET /user/:id/home`.
with_id : (ts : Trees numbers) × (add_route get (text "/user/:id/home") (some 7) no_routes ≡ ok ts)
unfolding program
with_id = (_, refl)

id_found : serve get (text "/user/42/home") with_id.0 ≡ handled 7 ((text "id", text "42") ∷ [])
unfolding program with_id
id_found = refl

id_not_found : serve get (text "/user/42") with_id.0 ≡ not_found
unfolding program with_id
id_not_found = refl

-- The router of homework2 with one route that has two middlewares.
starred :
    (ts : Register.Trees numbers) × (Register.add_route get
        (text "/user/*")
        (some 3)
        (1 ∷ 2 ∷ [])
        []
      ≡ ok ts)
unfolding text bytes_eq split_byte lookup insert Tree.find_child Tree.put_child ends_in_slash
    Register.check_path Register.child_or_create_star Register.child_or_create_static
    Register.child_or_create Register.put_at Register.set_handler Register.add_segments
    Register.add_route
starred = (_, refl)

add_route-forget_example :
    map_ok forget_trees (Register.add_route get (text "/user/:id") (some 4) (5 ∷ []) starred.0)
    ≡ add_route get (text "/user/:id") (some 4) (forget_trees starred.0)
add_route-forget_example = add_route-forget get (text "/user/:id") (some 4) (5 ∷ []) starred.0

serve-forget_example :
    Match.serve get (text "/user/42/home") starred.0
    ≡ serve get (text "/user/42/home") (forget_trees starred.0)
serve-forget_example = serve-forget get (text "/user/42/home") starred.0
