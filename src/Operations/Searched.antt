-- ===== src/Operations/Searched.antt =====
-- dashboard/src/components/Search.tsx: what is searched for while a query is typed and pages are
-- turned.
use ok_folio.Prelude.{
  ℕ, List, [], ◌∷◌, ◌++◌, Option, none, some, append-nil, append_assoc, ◌≡◌, refl, sym, ap, ◌∙◌,
  is_nil, map, if◌then◌else◌,
}
use ok_folio.Prelude.Text.{Text}
use ok_folio.Operations.Search.{Search, empty_search, handle_search, fire_first, fire, asked, limit}

-- What happens on the screen: the input has a new value, the next pending timeout fires, if there is
-- one, or a button turns to a page.
pub data SearchEvent : Type 0 where
  typed : Text → SearchEvent
  fired : SearchEvent
  turned : ℕ → SearchEvent

unfoldable pub step : SearchEvent → Search → Search
unfolding handle_search fire
step (typed value) s = handle_search value s
step fired s = fire s
step (turned page) s = record s { page = page }

unfoldable pub run : List SearchEvent → Search → Search
unfolding step
run [] s = s
run (e ∷ events) s = run events (step e s)

-- The values of the input, in order.
unfoldable pub typed_values : List SearchEvent → List Text
typed_values [] = []
typed_values (typed value ∷ events) = value ∷ typed_values events
typed_values (fired ∷ events) = typed_values events
typed_values (turned page ∷ events) = typed_values events

-- What the query asks for after a timeout that was pending; `none` where it is disabled.
abbrev asked_after : List Text → Search → List (Option (Text × (ℕ × ℕ)))
asked_after [] s = []
asked_after (value ∷ timers) s = asked s ∷ []

-- What the query asks for, or that it is disabled, right after each timeout of a run.
unfoldable pub searches : List SearchEvent → Search → List (Option (Text × (ℕ × ℕ)))
unfolding step asked
searches [] s = []
searches (typed value ∷ events) s = searches events (step (typed value) s)
searches (fired ∷ events) s = asked_after s.timers (step fired s) ++ searches events (step fired s)
searches (turned page ∷ events) s = searches events (step (turned page) s)

-- The search for a value, on the first page; an empty value is not searched for.
abbrev pub search_of : Text → Option (Text × (ℕ × ℕ))
search_of value = if is_nil value then none else some (value, (limit, 0))

abbrev pub last_of : Text → List Text → Text
last_of value [] = value
last_of value (next ∷ values) = last_of next values

last_of-snoc :
    (value : Text) (values : List Text) (last : Text) → last_of value (values ++ last ∷ []) ≡ last
last_of-snoc value [] last = refl
last_of-snoc value (next ∷ values) last = last_of-snoc next values last

-- The last timeout has the value of the input.
abbrev IsFollowing : Search → Type 0
IsFollowing s = last_of s.debounced_query s.timers ≡ s.query

fire_first-IsFollowing :
    (timers : List Text) (s : Search)
    → last_of s.debounced_query timers ≡ s.query
    → s.timers ≡ timers
    → IsFollowing (fire_first timers s)
fire_first-IsFollowing [] s h pending = rw pending h
fire_first-IsFollowing (value ∷ timers) s h pending = h

step-IsFollowing : (e : SearchEvent) (s : Search) → IsFollowing s → IsFollowing (step e s)
unfolding step handle_search fire
step-IsFollowing (typed value) s h = last_of-snoc s.debounced_query s.timers value
step-IsFollowing fired s h = fire_first-IsFollowing s.timers s h refl
step-IsFollowing (turned page) s h = h

run-IsFollowing :
    (events : List SearchEvent) (s : Search) → IsFollowing s → IsFollowing (run events s)
unfolding run
run-IsFollowing [] s h = h
run-IsFollowing (e ∷ events) s h = run-IsFollowing events (step e s) (step-IsFollowing e s h)

-- The values searched for, then those still waiting, are the ones that waited and were typed.
abbrev Accounts : List SearchEvent → Search → Type 0
Accounts events s =
    (done : List Text) × (done ++ (run events s).timers ≡ s.timers ++ typed_values events)
    × (searches events s ≡ map search_of done)

fired-Accounts :
    (timers : List Text) (events : List SearchEvent) (s : Search)
    → s.timers ≡ timers
    → Accounts events (fire_first timers s)
    → (done : List Text) × (done ++ (run events (fire_first timers s)).timers
        ≡ timers ++ typed_values events)
      × (asked_after timers (fire_first timers s) ++ searches events (fire_first timers s)
          ≡ map search_of done)
unfolding asked
fired-Accounts [] events s pending (done, all, sent) =
    (done, all ∙ ap (λ l. l ++ typed_values events) pending, sent)
fired-Accounts (value ∷ timers) events s pending (done, all, sent) =
    (value ∷ done, ap (λ l. value ∷ l) all, ap (λ l. search_of value ∷ l) sent)

run-Accounts : (events : List SearchEvent) (s : Search) → Accounts events s
unfolding run typed_values searches step handle_search fire
run-Accounts [] s = ([], sym (append-nil s.timers), refl)
run-Accounts (typed value ∷ events) s =
    let (done, all, sent) = run-Accounts events (step (typed value) s) in
    (done, all ∙ append_assoc s.timers (value ∷ []) (typed_values events), sent)
run-Accounts (fired ∷ events) s =
    fired-Accounts s.timers events s refl (run-Accounts events (step fired s))
run-Accounts (turned page ∷ events) s = run-Accounts events (step (turned page) s)

-- In every run of keystrokes, timeouts and turned pages from an empty screen: the values of the
-- input are those whose timeouts have fired, and then those whose timeouts are pending, in order;
-- right after each timeout the query asks for its value on the first page, or is disabled where the
-- value is empty; and the last pending value, or the one of the query if none is pending, is the
-- one in the input.
pub typed_searches :
    (events : List SearchEvent)
    → ((done : List Text) × (done ++ (run events empty_search).timers ≡ typed_values events)
        × (searches events empty_search ≡ map search_of done))
      × (last_of (run events empty_search).debounced_query (run events empty_search).timers
          ≡ (run events empty_search).query)
typed_searches events = (run-Accounts events empty_search, run-IsFollowing events empty_search refl)
