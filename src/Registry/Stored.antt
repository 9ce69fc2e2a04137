-- ===== src/Registry/Stored.antt =====
-- What `Get` returns after `Register`.
use myhomework.Common.{
  ℕ, ◌≡◌, refl, List, [], ◌∷◌, some, Result, ok, err, ◌>>=◌, Result-cases, inl, inr, arith,
}
use myhomework.Registry.Naming.{Error}
use myhomework.Registry.Models.{
  Setting, Model, ModelOption, Registry, parse_model, apply_options, load, store, register, get,
}

module _ (k : Setting) where
  load-store :
      (typ : ℕ) (m : Model k.GoType) (models : Registry k)
      → load k typ (store k typ m models) ≡ some m
  unfolding load store
  load-store typ m [] = ground arith
  load-store typ m ((t, old) ∷ models) = ground (arith, load-store typ m models)

  -- What `Register` returns for a value, with the registry after it: an error leaves the registry as
  -- it was, and a model is what every later `Get` for that value finds, without a change.
  abbrev pub IsKept :
      k.Value → Registry k → Registry k × Result (Error k.Failure) (Model k.GoType) → Type 0
  IsKept val models (models', err e) = models' ≡ models
  IsKept val models (models', ok m) = get k val models' ≡ (models', ok m)

  -- After `Register` with any options, `Get` for a value of the same type returns the model that
  -- `Register` returned and leaves the registry as it is; where `Register` fails, it leaves the
  -- registry as it was.
  pub register-IsKept :
      (val : k.Value) (opts : List (ModelOption k)) (models : Registry k)
      → IsKept val models (register k val opts models)
  unfolding register get
  register-IsKept val opts models =
      elim (Result-cases (parse_model k val >>= apply_options k opts)) [
        | inl (m, e) ↦ rw (register, e) (rw (get, load-store (k.type_of val) m models) refl)
        | inr (f, e) ↦ rw (register, e) refl
      ]
