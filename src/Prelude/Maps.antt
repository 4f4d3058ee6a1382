-- ===== src/Prelude/Maps.antt =====
-- Objects that the code uses as maps from numeric ids (`Record<number, V>`): functions into
-- `Option`, where a missing key reads `none`.
use Prim.Native.Nat.{ℕ}
use mathlib.Core.Bool.{Bool, true, false}
use mathlib.Core.Option.{Option, none, some}
use ok_folio.Prelude.Tests.{if◌then◌else◌, ◌==◌}

abbrev pub IdMap {ℓ} : Type ℓ → Type ℓ
IdMap V = ℕ → Option V

module _ {ℓ} {V : Type ℓ} where
  abbrev pub empty : IdMap V
  empty j = none

  -- `{ ...m, [k]: v }`
  abbrev pub put : IdMap V → ℕ → V → IdMap V
  put m k v j = if j == k then some v else m j

  -- `delete m[k]`
  abbrev pub delete : IdMap V → ℕ → IdMap V
  delete m k j = if j == k then none else m j

-- `Set<number>`
abbrev pub IdSet : Type 0
IdSet = ℕ → Bool

abbrev pub add_id : IdSet → ℕ → IdSet
add_id s k j = if j == k then true else s j

abbrev pub delete_id : IdSet → ℕ → IdSet
delete_id s k j = if j == k then false else s j
