-- ===== src/Viewer/Stepping.antt =====
-- dashboard/src/folio/context.tsx, `stepPiece`.
use ok_folio.Prelude.{
  ℕ, ◌+◌, ◌-◌, ◌%◌, ◌<◌, List, Option, none, some, get_elem?, length, ◌≡◌, refl, ap, sym, ◌∙◌,
  arith, Distinct,
}
use ok_folio.Prelude.Int.{ℤ, pos, negsuc, ◌+ℤ◌}
use ok_folio.Pieces.{PieceVm}
use ok_folio.Viewer.{Viewer, step_index, id_at, step_selected, step_piece, active_pieces}
use ok_folio.Viewer.Lookup.{piece_ids, find_index-get, get_of_lt, lt_of_get}

-- The arrows' steps.
abbrev pub forward : ℤ
forward = pos 1

abbrev pub back : ℤ
back = negsuc 0

forward_sum : (i n : ℕ) → (pos i +ℤ forward +ℤ pos n) ≡ pos (i + 1 + n)
forward_sum i n = ground arith

back_sum : (i n : ℕ) → i < n → (pos i +ℤ back +ℤ pos n) ≡ pos (i + n - 1)
back_sum i n h = ground arith

wrap : (k n : ℕ) → (k + n) % n ≡ k % n
wrap k n = grind arith

forward_index : (i n : ℕ) → step_index i forward n ≡ pos ((i + 1) % n)
unfolding step_index
forward_index i n = rw (forward_sum i n) (ap pos (wrap (i + 1) n))

back_index : (i n : ℕ) → i < n → step_index i back n ≡ pos ((i + n - 1) % n)
unfolding step_index
back_index i n h = rw (back_sum i n h)

there_and_back : (i n : ℕ) → i < n → ((i + 1) % n + n - 1) % n ≡ i
there_and_back i n h = grind arith

back_and_there : (i n : ℕ) → i < n → ((i + n - 1) % n + 1) % n ≡ i
back_and_there i n h = grind arith

mod_lt : (k i n : ℕ) → i < n → k % n < n
mod_lt k i n h = grind arith

-- From the piece at `i`, a step to the index `j` in range selects the piece at `j`.
stepped_to :
    (active : List PieceVm) (dir : ℤ) (i j : ℕ) (p q : PieceVm)
    → Distinct (piece_ids active)
    → get_elem? active i ≡ some p
    → get_elem? active j ≡ some q
    → step_index i dir (length active) ≡ pos j
    → step_selected active dir p.id ≡ some q.id
unfolding step_selected
stepped_to active dir i j p q d at_i at_j e =
    rw (find_index-get active i p d at_i, step_selected) (rw e (rw (at_j, id_at)))

-- Two steps in a row.
abbrev pub then_step : List PieceVm → ℤ → Option Viewer → Option Viewer
then_step pieces dir none = none
then_step pieces dir (some v) = step_piece pieces dir v

step_piece_lem :
    (pieces : List PieceVm) (dir : ℤ) (v : Viewer) (cur id : ℕ)
    → v.selected_id ≡ some cur
    → step_selected (active_pieces pieces v) dir cur ≡ some id
    → step_piece pieces dir v ≡ some (record v { selected_id = some id })
unfolding step_piece
step_piece_lem pieces dir v cur id at_cur stepped =
    rw (at_cur, step_piece) (rw (stepped, step_piece))

module _ (pieces : List PieceVm) (v : Viewer) (i : ℕ) (p : PieceVm) where
  -- The viewer stands on the piece at `i` of the active pieces, whose ids are distinct.
  pub record StandsAt : Type 0 where
    pub distinct : Distinct (piece_ids (active_pieces pieces v))
    pub at_i : get_elem? (active_pieces pieces v) i ≡ some p
    pub current : v.selected_id ≡ some p.id

  move :
      (dir : ℤ) (j : ℕ)
      → StandsAt
      → j < length (active_pieces pieces v)
      → step_index i dir (length (active_pieces pieces v)) ≡ pos j
      → (q : PieceVm) × (get_elem? (active_pieces pieces v) j ≡ some q)
        × (step_piece pieces dir v ≡ some (record v { selected_id = some q.id }))
  move dir j st lt e =
      let (q, at_j) = get_of_lt (active_pieces pieces v) j lt in
      (
        q,
        at_j,
        step_piece_lem pieces dir v p.id q.id st.current
            (stepped_to (active_pieces pieces v) dir i j p q st.distinct st.at_i at_j e),
      )

  -- If the active pieces have distinct ids, an arrow moves the viewer from the piece at `i` to
  -- the next or the previous active piece, around the ends, and changes nothing else.
  pub step_moves :
      StandsAt
      → let n = length (active_pieces pieces v) in
        ((q : PieceVm) × (get_elem? (active_pieces pieces v) ((i + 1) % n) ≡ some q)
          × (step_piece pieces forward v ≡ some (record v { selected_id = some q.id })))
        × ((q : PieceVm) × (get_elem? (active_pieces pieces v) ((i + n - 1) % n) ≡ some q)
            × (step_piece pieces back v ≡ some (record v { selected_id = some q.id })))
  step_moves st =
      let n = length (active_pieces pieces v) in
      let lt : i < n = lt_of_get (active_pieces pieces v) i p st.at_i in
      (
        move forward ((i + 1) % n) st (mod_lt (i + 1) i n lt) (forward_index i n),
        move back ((i + n - 1) % n) st (mod_lt (i + n - 1) i n lt) (back_index i n lt),
      )

  return_to :
      (dir : ℤ) (j : ℕ) (q : PieceVm)
      → StandsAt
      → get_elem? (active_pieces pieces v) j ≡ some q
      → step_index j dir (length (active_pieces pieces v)) ≡ pos i
      → step_piece pieces dir (record v { selected_id = some q.id }) ≡ some v
  return_to dir j q st at_j e =
      step_piece_lem pieces dir (record v { selected_id = some q.id }) q.id p.id refl
        (stepped_to (active_pieces pieces v) dir j i q p st.distinct at_j st.at_i e)
      ∙ ap (λ (s : Option ℕ). some (record v { selected_id = s })) (sym st.current)

  -- If the active pieces have distinct ids and the viewer stands on one of them, a step forward
  -- and a step back, and a step back and a step forward, end in the viewer that they began with.
  pub step_returns :
      StandsAt
      → (then_step pieces back (step_piece pieces forward v) ≡ some v)
        × (then_step pieces forward (step_piece pieces back v) ≡ some v)
  step_returns st =
      let n = length (active_pieces pieces v) in
      let lt : i < n = lt_of_get (active_pieces pieces v) i p st.at_i in
      let ((q, at_q, to_q), (r, at_r, to_r)) = step_moves st in
      (
        ap (then_step pieces back) to_q
            ∙ return_to back ((i + 1) % n) q st at_q
                (back_index _ n (mod_lt (i + 1) i n lt) ∙ ap pos (there_and_back i n lt)),
        ap (then_step pieces forward) to_r
            ∙ return_to forward ((i + n - 1) % n) r st at_r
                (forward_index _ n ∙ ap pos (back_and_there i n lt)),
      )
