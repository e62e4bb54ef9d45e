-- ===== src/Lib.antt =====
-- Webalytics: web analytics with a browser tracker and dashboards. This library models the
-- TypeScript packages of the repository.
--
-- The parts and their files:
--   * The tracker (packages/tracker/src/core.ts, types.ts) builds events, buffers them and hands
--     batches to a transport. Tracker/Types and Tracker/Browser are its data and the browser's
--     globals; Tracker/Config has `pathOf`, `isExcluded`, `dntActive` and the defaults of `init`;
--     Tracker/Event the events; Tracker/Core `init`, `emit`, `scheduleFlush`, `flushBuffer` and
--     the handlers; Tracker/Loop everything that can call into a tracker, as steps. The calls of
--     the transport, the timeouts and the microtasks are kept in the state. Tracker/Queue has its
--     contract, a queue from which everything is handed over at once.
--   * The transport (packages/tracker/src/transport.ts) is in Transport/Core, with the network as a
--     list of calls and the promises in flight by number.
--   * The collector of the web vitals (packages/tracker/src/vitals.ts) is in Vitals/Core, a state
--     machine over what the browser delivers. It hands its reports to the tracker (`on_vital`).
--   * Session joins the tracker with its default transport: the network of a page. Session/World has
--     the requests under way, as a step relation in which they arrive or fail in any order. Page joins
--     the tracker with the collector, with the order in which the listeners of the two run.
--   * The adapters start a tracker and feed it navigations: Adapter/Angular
--     (packages/tracker-angular/src/service.ts), Adapter/Next and Adapter/Pages
--     (packages/tracker-next/src/index.tsx, pages.ts), Adapter/Script and
--     Adapter/Boot (packages/tracker/src/umd.ts).
--   * The dashboard's clients ask the API: Client/Types, Query, Core and Calls
--     (packages/dashboard-react/src/client.ts, types.ts), Client/Angular
--     (packages/dashboard-angular/src/client.ts). Client/Server has the names of the filter
--     parameters of internal/api/v1/stats.go.
--   * The dashboard shows the answers. Dashboard/Feed is the stream of views of
--     packages/dashboard-angular/src/components/dashboard.component.ts, with whole fetches as its
--     steps; Dashboard/View is the component itself, with the promises of the eight requests of a
--     fetch (Dashboard/Slots has `combineLatest`), and its template. Dashboard/Layout is what
--     packages/dashboard-react/src/components/dashboard.tsx asks for, Dashboard/Theme the style
--     variables of both. The components are in Dashboard/Cards and Dashboard/VitalGrid
--     (web-vitals.tsx), Dashboard/Chart, Dashboard/ChartView and Dashboard/Svg (timeseries.tsx),
--     Dashboard/TopList (top-list.tsx, styles.ts), Dashboard/Tiles (summary.tsx, realtime.tsx,
--     window-picker.tsx), all of packages/dashboard-react/src; their Angular twins in
--     Dashboard/AngularCharts, Dashboard/AngularList, Dashboard/ChartView, Dashboard/VitalGrid,
--     Dashboard/Svg, Dashboard/Tiles and Dashboard/Picker. Format/Core and Format/Angular have the
--     formatters (format.ts of packages/dashboard-react/src and packages/dashboard-angular/src).
--   * The server of apps/dashboard-next reads its settings and the API: App/Env and App/Api
--     (apps/dashboard-next/lib/env.ts, api.ts). App/Pages and App/Overview are what its pages ask
--     and show (apps/dashboard-next/app).
--   * The Go services take what the packages send. Server/Payload and Server/Validator are the
--     schema of an event (internal/ingest/payload.go, validator.go), Server/Rating the rating of a vital
--     (internal/enrich/rating.go), Server/Stats the parameters of a query, up to the query of the
--     store (internal/api/v1/stats.go, util.go, internal/storage/clickhouse/queries.go).
-- The other files of each folder hold the proofs; Common has the shared helpers, Numbers the
-- interface of floating point numbers, Examples concrete runs.
--
-- Parameters: the browser's globals at each call, the answers of `sendBeacon`, `JSON.stringify`,
-- the serialisation of `URLSearchParams`, `toUpperCase`, `Intl.NumberFormat`, the parsers of bodies,
-- dates and the clock, random identifiers, and floating point arithmetic with the laws of its order
-- and of its rounding that the proofs use; of Go's library the decoder of JSON
-- (exact on what fits the fields and its limits), `time.Parse`,
-- `strconv.Atoi` and `uuid.Parse`. The operators of rxjs in Dashboard/Feed and Dashboard/Slots and
-- the effects of React in Adapter/Next and Adapter/Pages are taken as their documentation describes
-- them, with every order of events allowed.
--
-- Bounds and fuel: all loops are structural recursion. The printing of a number n in decimal runs
-- on fuel n + 1, as a number has at most as many digits as that. Counts and
-- times are natural numbers without a bound; the only machine-width integers are the fields that the
-- collector decodes sizes and times into, whose ranges Server/Payload states.
--
-- Not modelled: the storage, batching, enrichment, rate limits and authentication of the Go
-- services, the static styles and most of the markup of the components, debug output, dependency
-- injection, layouts and the demo application.
pub mod Common
pub mod Tracker
pub mod Transport
pub mod Numbers
pub mod Vitals
pub mod Client
pub mod Format
pub mod Adapter
pub mod Dashboard
pub mod App
pub mod Examples
pub mod Session
pub mod Page
pub mod Server
