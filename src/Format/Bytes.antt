-- ===== src/Format/Bytes.antt =====
-- dashboard/src/folio/context.tsx, `formatBytes`: the unit that its loop ends with.
use ok_folio.Prelude.{ℕ, zero, suc, ◌+◌, ◌^◌, ◌≤◌, ◌<◌, leb, ◌≡◌, ◌⊎◌, inl, inr, arith, Bool-cases}
use ok_folio.Format.{unit_index}

unit_fits :
    (rounds n i : ℕ)
    → 1024 ^ i ≤ n
    → (1024 ^ unit_index rounds n i ≤ n)
      × ((unit_index rounds n i ≡ i + rounds)
          ⊎ ((unit_index rounds n i < i + rounds) × (n < 1024 ^ suc (unit_index rounds n i))))
unfolding unit_index
unit_fits zero n i fits = (fits, inl (omega arith))
unit_fits (suc rounds) n i fits = elim (Bool-cases (leb (1024 ^ suc i) n)) [
  | inl more ↦
      let (a, b) = unit_fits rounds n (suc i) (ground arith) in
      rw (more, unit_index)
        (a, elim b [ inl last ↦ inl (omega arith) | inr (lt, over) ↦ inr (omega arith, over) ])
  | inr stop ↦ rw (stop, unit_index) (fits, inr (omega arith, ground arith))
]

-- For a positive size the loop ends with the largest unit that fits: the size is at least one of that
-- unit, and below one of the next, unless the unit is already the last one, the terabyte.
pub unit_index_lem :
    (n : ℕ)
    → 0 < n
    → (1024 ^ unit_index 4 n 0 ≤ n)
      × ((unit_index 4 n 0 ≡ 4) ⊎ ((unit_index 4 n 0 < 4) × (n < 1024 ^ suc (unit_index 4 n 0))))
unit_index_lem n pos = unit_fits 4 n 0 (omega arith)
