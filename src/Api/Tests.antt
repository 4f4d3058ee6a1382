-- ===== src/Api/Tests.antt =====
-- Tests of dashboard/src/api.ts.
use ok_folio.Prelude.{ℕ, List, [], ◌∷◌, none, true, false, ◌≡◌, refl}
use ok_folio.Prelude.Text.{codes}
use ok_folio.Api.{
  Caches, succeed_with_body, exchange, unreadable, readable, error_text, Response, answered,
}
use ok_folio.Api.Calls.{folio, delete_folio_call, exchange_of, folio_exchange}
use ok_folio.Api.Clearing.{IsCleared, changes_server, change-IsCleared}
use ok_folio.Api.Folios.{delete_folio}
use ok_folio.Api.Similar.{fetch_gallery_similar, asked_similar, settle_similar}

abbrev caches : Caches
caches = record { available = true; held = λ n. true; refuses = λ n. false }

abbrev done : Response ℕ
done = answered 204 (unreadable (codes "Unexpected end of JSON input"))

change-IsCleared_example :
    IsCleared caches (exchange (exchange_of (folio (delete_folio_call 4))) done caches).1
unfolding exchange succeed_with_body exchange_of folio_exchange delete_folio changes_server
change-IsCleared_example = change-IsCleared (folio (delete_folio_call 4)) done caches none refl refl

abbrev missing : Response ℕ
missing = answered 404 (readable (error_text (codes "No such folio")) 0)

abbrev later : List (ℕ × ℕ × Response ℕ)
later = (5, 12, done) ∷ (4, 12, missing) ∷ (5, 12, missing) ∷ []

asked : asked_similar 0 ((4, 12, missing) ∷ later) (λ id. false) ≡ 4 ∷ 5 ∷ 5 ∷ []
unfolding asked_similar fetch_gallery_similar settle_similar
asked = refl
