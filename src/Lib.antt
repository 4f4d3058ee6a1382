-- ===== src/Lib.antt =====
-- The state logic of the OK Folio dashboard (dashboard/src, TypeScript), the client of the
-- archive's HTTP API.
--
-- What the screens share is held by `FolioProvider` of dashboard/src/folio/context.tsx: the toasts,
-- the optimistic favourites and metadata edits, the catalog loaded so far, the state of the piece
-- viewer and the preferences, with the operations on them. A screen keeps its own forms, timers and
-- selections, and calls the provider or the API. An operation that talks to the server runs in two
-- parts: what it does at once, and the handlers of its promise. Both are functions on an explicit
-- state, and a run is a sequence of steps in any order: calls, settled promises, timers and clicks.
-- Each step begins from the state that the last one left, as after a render.
--
-- Files and code:
--   Prelude     helpers: Boolean tests, lists, id maps, entries of objects, integers, decimal
--               numerals, and strings as lists of UTF-16 code units
--   Types       the data of dashboard/src/types.ts and the upload form's input
--   Toasts      the toast list, and the three updates that each action makes on it
--   Actions     the eleven actions with one request (`importPiece`, `dismissInboxAction`,
--               `keepInboxAction`, ...) as records; Store runs them, Lifecycle is every run of it
--   Favorites   `isFav`, `toggleFav`; World puts the server beside the client
--   BulkAdd     `addPiecesToFolioAction`; Run is the whole call
--   Metadata    `editPieceMetadata`, `updatePhotoInCaches`; Bulk has `bulkEditPieces`
--   Viewer      `openPiece`, `closePiece`, `stepPiece`, `setViewerPieces`, `filterByArtist`
--   Catalog     the filters and page arithmetic of the catalog query, and `loadMore`
--   Pieces      `PieceVM`, `mapPhoto`, `pieceStub`, `overlayPiece`
--   Keywords    `normalizeKeywords`, `sameKeywords`, `splitKeywords`, `uniquePositiveIds`
--   Format      the labels of context.tsx, dashboard/src/utils.ts and dashboard/src/folio/Streams.tsx
--               (Dates: those of times)
--   Theme       dashboard/src/folio/theme.ts and the preferences of the provider
--   Api         dashboard/src/api.ts: the requests, the treatment of their responses, and the
--               offline caches that a change clears; Calls lists the functions, Similar has the one
--               with a memory
--   Editing     dashboard/src/folio/PieceViewer.tsx: the form, which stands on Metadata, with its
--               panel and gestures; BulkBar is dashboard/src/folio/BulkEditBar.tsx
--   Inbox       dashboard/src/folio/Inbox.tsx: the dismissals with undo, and the rows' labels
--   Streams     dashboard/src/folio/Streams.tsx: the form of a source, its editor with the preview,
--               the toggles of connectors and sources, and the cards
--   Destinations  dashboard/src/folio/DestinationControls.tsx: the dialog of a destination, its
--               backfill and its switch
--   Folios      dashboard/src/folio/Folios.tsx and FolioDetail.tsx: covers and labels; NameModal is
--               the name dialog with its screen, Sheet the mobile sheet and menu, Menus the desktop
--               ones, Selection and Picker the choice of pieces
--   AddPiece    dashboard/src/folio/AddPieceModal.tsx: the upload form
--   Settings    dashboard/src/folio/Settings.tsx: the Telegram sources, their summary, and the stored
--               preferences
--   Gallery     dashboard/src/folio/Gallery.tsx: the filters, the artist of a typed name, the feature;
--               Screen is what the screen shows
--   Operations  dashboard/src/components and dashboard/src/pages: the search, the failed downloads,
--               the recent media, the image modal, paging and polling
--   Shell       dashboard/src/folio/Nav.tsx, the confirmation dialog of dashboard/src/folio/ui.tsx, and
--               dashboard/src/hooks
--
-- Bounds: loops are structural recursion, but for three. `decimal` recurs on the number itself,
-- which is as many rounds as any numeral needs. The loop of `formatBytes` has four rounds, since its
-- own bound is the four units above "B". The loop of the backfill, which ends by the server's
-- answers, is on fuel, and one round more than the full batches of the unrouted pieces is enough.
-- Ids, sizes and counts are natural numbers; the step of the viewer is an integer with the
-- remainder of JavaScript, which takes the sign of the dividend.
--
-- Parameters: dates, locales, the URL parser and `toLowerCase` are the fields of `Format.Runtime`;
-- `JSON.stringify`, the replies of the server (for the backfill, a server that answers each batch),
-- the responses of `fetch`, the handles of `setTimeout` and `toLocaleString` are arguments. A page
-- of the catalog is a function of its limit and offset; beside the favourites, a catalog that arrives
-- has any rows, each with the server's value. The fields that a stored configuration of a web
-- gallery has besides those of its type are a list of names and values.
--
-- Not modelled: rendering, styles and the DOM; the query library behind `invalidateQueries`, whose
-- calls are logged; `formatBytes` of utils.ts, which computes with floating logarithms; the
-- screens of pictures and of the server's operations, whose state is that of their queries; and
-- the Go server, the iOS application and the embedding service, which are other programs.
pub mod Prelude
pub mod Types
pub mod Toasts
pub mod Actions
pub mod Keywords
pub mod Folios
pub mod AddPiece
pub mod Settings
pub mod Gallery
pub mod Operations
pub mod Shell
pub mod Format
pub mod Pieces
pub mod Editing
pub mod Favorites
pub mod Inbox
pub mod BulkAdd
pub mod Viewer
pub mod Catalog
pub mod Destinations
pub mod Metadata
pub mod Streams
pub mod Theme
pub mod Api
