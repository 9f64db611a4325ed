-- ===== src/Base/Objects.antt =====
-- A JavaScript object with text keys: its properties in the order of `Object.entries`.
use mathlib.Core.Path.{◌≡◌, refl}
use mathlib.Core.Option.{Option, none, some}
use mathlib.Core.List.{List, [], ◌∷◌}
use native.Mathlib.Omega.{arith}
use k8s_sentinel.Base.Logic.{if◌then◌else◌}
use k8s_sentinel.Base.Strings.{Text, ◌===◌, ===_iff}

abbrev pub Object {ℓ} : Type ℓ → Type ℓ
Object V = List (Text × V)

module _ {ℓ} {V : Type ℓ} where
  -- `o[k]`
  unfoldable pub get : Text → Object V → Option V
  get k [] = none
  get k ((j, v) ∷ o) = if j === k then some v else get k o

  -- `o[k] = v`
  unfoldable pub assign : Text → V → Object V → Object V
  assign k v [] = (k, v) ∷ []
  assign k v ((j, w) ∷ o) = if j === k then (j, v) ∷ o else (j, w) ∷ assign k v o

  -- The rest of `const { [k]: x, ...rest } = o`
  unfoldable pub without : Text → Object V → Object V
  without k [] = []
  without k ((j, v) ∷ o) = if j === k then without k o else (j, v) ∷ without k o

  pub get-assign :
      (k j : Text) (v : V) (o : Object V)
      → get j (assign k v o) ≡ (if k === j then some v else get j o)
  unfolding get assign
  get-assign k j v [] = refl
  get-assign k j v ((i, w) ∷ o) =
      ground (arith, ===_iff k j, ===_iff i k, ===_iff i j, get-assign k j v o)

  pub get-without :
      (k j : Text) (o : Object V) → get j (without k o) ≡ (if k === j then none else get j o)
  unfolding get without
  get-without k j [] = ground arith
  get-without k j ((i, w) ∷ o) =
      ground (arith, ===_iff k j, ===_iff i k, ===_iff i j, get-without k j o)
