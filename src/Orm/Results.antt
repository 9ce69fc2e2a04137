-- ===== src/Orm/Results.antt =====
-- What a builder makes of the outcome of its statement.
use myhomework.Common.{Bytes, ◌≡◌, refl, List, ◌++◌, Option, none, some, Result, ok, err}
use myhomework.Orm.Expression.{Setting, Query}
use myhomework.Orm.Builder.{Fault, State, Action}
use myhomework.Orm.Selector.{result}
use myhomework.Orm.Outcomes.{at, Runs}

unfoldable pub unless_error :
    {E V : Type 0} → Option (Fault E) → Query V → Result (Fault E) (Query V)
unless_error none q = ok q
unless_error (some e) q = err e

module _ {k : Setting} where
  pub result_of_error :
      (r : State k × Option (Fault k.Error)) (e : Fault k.Error) → r.1 ≡ some e → result r ≡ err e
  unfolding result
  result_of_error (st, none) e q = cc
  result_of_error (st, some e') e q = cc

  pub result_of_Runs :
      {h h' : k.Heap} {m : Action k} {s : Bytes} {vs : List k.Value} {e : Option (Fault k.Error)}
      (b : Bytes) (xs : List k.Value)
      → Runs k h m s vs e h'
      → result (m (at h b xs)) ≡ unless_error e (record { sql = b ++ s; args = xs ++ vs })
  unfolding result unless_error
  result_of_Runs {e = none} b xs w = rw (w.adds refl b xs)
  result_of_Runs {h = h} {m = m} {e = some e} b xs w =
      result_of_error (m (at h b xs)) e (w.returns b xs)
