-- ===== src/Prelude/Entries.antt =====
-- Objects keyed by ids whose values the code enumerates: `Object.values` yields them by ascending
-- id, so an object is the list of its entries in that order.
use Prim.Native.Nat.{ℕ}
use mathlib.Core.Path.{◌≡◌, refl}
use mathlib.Core.Bool.{not}
use mathlib.Core.List.{List, [], ◌∷◌, map}
use mathlib.Core.Option.{Option, none, some}
use native.Mathlib.Omega.{arith}
use ok_folio.Prelude.Tests.{if◌then◌else◌, ◌==◌, ltb}
use ok_folio.Prelude.Lists.{filter}

abbrev pub Entries {ℓ} : Type ℓ → Type ℓ
Entries V = List (ℕ × V)

module _ {ℓ} {V : Type ℓ} where
  -- `o[k]`
  abbrev pub lookup : ℕ → Entries V → Option V
  lookup k [] = none
  lookup k (e ∷ l) = if k == e.0 then some e.1 else lookup k l

  -- `o[k] = v`
  abbrev pub assign : ℕ → V → Entries V → Entries V
  assign k v [] = (k, v) ∷ []
  assign k v (e ∷ l) =
      if k == e.0 then (k, v) ∷ l else if ltb k e.0 then (k, v) ∷ e ∷ l else e ∷ assign k v l

  -- `delete o[k]`
  abbrev pub erase : ℕ → Entries V → Entries V
  erase k = filter (λ e. not (k == e.0))

  -- `Object.values(o)`
  abbrev pub values : Entries V → List V
  values = map (λ e. e.1)

  pub lookup-assign :
      (j k : ℕ) (v : V) (l : Entries V)
      → lookup j (assign k v l) ≡ (if j == k then some v else lookup j l)
  lookup-assign j k v [] = refl
  lookup-assign j k v (e ∷ l) = ground (arith, lookup-assign j k v l)

  pub lookup-erase :
      (j k : ℕ) (l : Entries V) → lookup j (erase k l) ≡ (if j == k then none else lookup j l)
  lookup-erase j k [] = ground arith
  lookup-erase j k (e ∷ l) = ground (arith, lookup-erase j k l)
