-- ===== src/Actions/Lifecycle.antt =====
-- dashboard/src/folio/context.tsx: every run of the provider's background actions, as a relation
-- over the user's calls and clicks, the answers of the network and the timers that fire.
pub mod Reports
pub mod Tracking
pub mod Invariant
pub mod Reporting
use ok_folio.Prelude.{ℕ, List, Option, some, ◌≡◌, elem, true}
use ok_folio.Actions.{Outcome}
use ok_folio.Actions.Store.{
  Store, Call, Response, pending_call, keys, begin, settle, expire, dismiss,
}

pub data Step : Store → Store → Type 0 where
  start : (c : Call) (s : Store) → Step s (begin c s)
  answered :
      (id : ℕ) (c : Call) (o : Outcome (Response c)) (s : Store)
      → pending_call id s.pending ≡ some c
      → Step s (settle id c o s)
  fired : (id : ℕ) (s : Store) → elem id (keys s.timers) ≡ true → Step s (expire id s)
  clicked : (id : ℕ) (s : Store) → Step s (dismiss id s)

pub data Reach (s : Store) : Store → Type 0 where
  here : Reach s s
  next : {t u : Store} → Reach s t → Step t u → Reach s u
