-- ===== src/Lib.antt =====
-- A verification library for the backend of the live orchestrator: a Go program that keeps cameras,
-- named positions and scenes in memory, drives OBS through a controller, decides what is in preview
-- and on air, relays the program to the platforms of a client, and keeps clients, ingests, platforms
-- and live identifiers in a database. An HTTP server is in front of all these.
--
-- The orchestrator (backend/internal/orchestrator/orchestrator.go and models.go) is modelled whole,
-- but for the ticker and the context of `Run` and for logging:
--   Orchestrator/Models: the structs, the errors and the events; Orchestrator/State: the
--     `Orchestrator` struct (`Orch`), its collaborators (`Deps`), and methods as actions (`M`) on
--     the struct, the hub and the outside world. A part of a method under the lock is a `Section`,
--     a function of the struct alone. What a method wrote before an error stays written.
--   Orchestrator/Ids (`NewID` of backend/internal/positions and backend/internal/scenes),
--   Orchestrator/Names (`validatePositionName` and its like), Orchestrator/Queries (the snapshots,
--     `persist…Locked`, `publish…`), Orchestrator/Start (`New` and the start of `Run`).
--   Orchestrator/Positions: `CreatePosition`, `RenamePosition`, `DeletePosition`,
--     `ensureHiddenPosition`; Orchestrator/Assignment: `AssignCamera`, `UnassignPosition`,
--     `SetAudioPosition`, `setAudioPositionInternal`; Orchestrator/Scenes: `CreateScene`,
--     `RenameScene`, `UpdateScenePositions`, `DeleteScene`; Orchestrator/Visibility:
--     `applyExclusiveVisibility`; Orchestrator/Live: `SetPreviewCamera`, `SetPreviewScene`, `Cut`;
--     Orchestrator/Sync: `SyncOnce`. Orchestrator/Commands makes of all these one data type, so
--     that a run is a list of commands.
--
-- Obs is the `Controller` interface of backend/internal/obs/obs.go, which the orchestrator and the
-- manager of broadcasts call: what a call returns and does to the world is a parameter, so that OBS
-- may refuse any call at any time. Obs/Client is `ObsController` of the same file over the requests of
-- goobs, Obs/Watch and Obs/Backoff its `watchLoop`, and Obs/Mock the controller in memory of
-- backend/internal/obs/obsmock/obsmock.go. Obs/Contract says what the comments of the interface
-- promise, Obs/OverGoobs and Orchestrator/OnObs compare `ObsController` with it, given what OBS
-- documents of its requests, and Orchestrator/OnMock does so for the mock.
--
-- Broadcast is the `Manager` of backend/internal/broadcast/broadcast.go: Broadcast/State its struct
-- and collaborators, Broadcast/Destinations `spawnLocked` and `killAllLocked`, Broadcast/Methods its
-- methods and `watch`, Broadcast/Commands all of them as one data type. Broadcast/Managed is about
-- the processes, Broadcast/Started about `Start`. A process is its number, and a generation wraps
-- around at 2 ^ 64.
--
-- Database has the tables of the database (backend/internal/dbconn/dbconn.go) and what the services
-- make of them: Database/Listing the query of a `List`, Database/Paging and Database/Complete a client
-- that reads page after page. Client, Ingest, Platform and LiveId are backend/internal/client, ingest,
-- streamplatform and liveid: Model has the row, the requests and the checks of model.go and dto.go,
-- Service the methods of service.go over a table, and Rules (LiveId/Unique) what they keep.
-- Client/Email is the pattern of an address, Client/Valid and Client/Changed carry its rules through
-- the methods, and Client/Reads is about `GetByID`. Catalog puts the four over one database, as
-- backend/cmd/server/main.go does.
--
-- Pagination is backend/internal/pagination/pagination.go: Pagination/Decimal `strconv.Atoi`,
-- Pagination/Request `ParseRequest`, Pagination/Page `NewPage`.
--
-- Http is backend/internal/httpapi: Http/Reply the requests and replies, Http/Guard the middlewares,
-- Http/Problems the replies to errors, Http/Handlers the handlers of httpapi.go, scenes_handlers.go
-- and live_handlers.go, Http/Server `routes` and `Handler` for these. Http/Asked says what commands
-- requests ask for, apart from the handlers, and Http/Refines compares the two. Http/Query is
-- helpers.go, Http/Clients, Http/Ingests, Http/Platforms and Http/LiveIds the handlers of the four
-- services, which Http/Catalog puts over the tables, and Http/Broadcast those of
-- broadcast_handlers.go. Http/CatalogAsked says what requests ask of the services, and Http/Performed
-- and Http/Broadcasting compare the handlers with this and with the methods of the manager.
-- Http/Answered and Http/Refused are about the replies to errors, through Http/Unchanged for the
-- methods that fail.
--
-- Store is `FileStore` of backend/internal/positions/positions.go and
-- backend/internal/scenes/scenes.go over a map of files, and Store/Atomic is about a save that is cut
-- off or fails.
--
-- Events is the hub of backend/internal/events/hub.go, which the orchestrator and the manager publish
-- to; Events/Commands adds a subscriber that receives, and Events/Open is about the channels.
--
-- The proofs on the orchestrator go through one step relation: Orchestrator/Step lists the writes that
-- the methods make to the struct, each with the condition that was checked in front of it.
-- Orchestrator/Refines compares the commands with it, through Orchestrator/Quiet for what leaves
-- cameras and scenes alone, and Orchestrator/Occupancy (cameras in positions), Orchestrator/Sound (the
-- audio source), Orchestrator/OnAir (preview and live) and Orchestrator/Naming (names) have an
-- invariant each, taken through every write, and so has Orchestrator/Naming/Hidden for the hidden
-- position. Orchestrator/Fresh puts them together from `New` on. Orchestrator/Online and
-- Orchestrator/Removed are about a synchronisation, Orchestrator/Enabled about the positions of a
-- scene, Orchestrator/Shown about what OBS shows after a cut. The modules named Tests,
-- Orchestrator/ScreenTests and Orchestrator/MockTests run the model.
--
-- Base holds what all modules share: tests on numbers, lists, sorting and Go's `strings`.
--
-- Parameters, since their code is a library's or the system's: the requests of goobs, the media
-- server, the stores of positions and scenes (for the orchestrator), the runner of processes, the
-- clock, `crypto/rand`, `url.Parse` with the texts of its errors, `URL.String`, `%q`,
-- `unicode.ToLower`, the parsing and the order of UUIDs, the text of a cursor (base64 of JSON), the
-- mux of net/http, and encoding/json.
--
-- Choices: a Go map is a list of its entries (Dict), and a loop over a map visits them in the order of
-- the list, which may be any. A text is its bytes. Commands run one after the other: the interleavings
-- of two methods between their locked sections, or of two transactions, are not modelled; what other
-- goroutines do between two steps of `watchLoop` is an argument of each turn. One flag of a call of
-- the services says whether the database answers it. Loops are recursion on a list; a client that
-- reads a listing to its end counts its pages down, and one more than there are rows are enough. Time
-- is a number of nanoseconds, of which the database keeps the microseconds (`micros` of Database); the
-- waits of `watchLoop` stay at 30 seconds or less, far below 2 ^ 63.
--
-- Not modelled: the client of the media server, whose answer is a parameter, the WebSocket
-- connections, configuration, opening the database and the start of the server, which are input and
-- output around calls of libraries.
pub mod Base
pub mod Dict
pub mod Events
pub mod Obs
pub mod Orchestrator
pub mod Broadcast
pub mod Pagination
pub mod LiveId
pub mod Database
pub mod Client
pub mod Ingest
pub mod Platform
pub mod Store
pub mod Catalog
pub mod Http
