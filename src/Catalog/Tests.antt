-- ===== src/Catalog/Tests.antt =====
-- Tests of the paged catalog of dashboard/src/folio/context.tsx.
use ok_folio.Prelude.{ℕ, List, [], ◌∷◌, ◌++◌, none, drop, length, ◌≡◌, arith}
use ok_folio.Catalog.{get_next_page_param, last_page}
use ok_folio.Catalog.Loading.{serve, load_times, loaded, loaded-load_times, load_times_lem}

abbrev catalog : List ℕ
catalog = 10 ∷ 11 ∷ 12 ∷ 13 ∷ 14 ∷ []

loaded-load_times_example :
    loaded 2 catalog (load_times 2 catalog 1)
      ++ drop (length (loaded 2 catalog (load_times 2 catalog 1))) catalog
    ≡ catalog
loaded-load_times_example = loaded-load_times 2 catalog 1

load_times_lem_example :
    (loaded 2 catalog (load_times 2 catalog 5) ≡ catalog)
    × (get_next_page_param
          (last_page (serve 2 catalog 0) (load_times 2 catalog 5))
          (serve 2 catalog 0 ∷ load_times 2 catalog 5)
        ≡ none)
load_times_lem_example = load_times_lem 2 catalog 5 (omega arith) (omega arith)
