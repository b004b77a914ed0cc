-- ===== src/Lib.antt =====
-- meta-mcp: an MCP server that lets an assistant read and run the Facebook Pages and Instagram
-- accounts of its tenants. This library models the server's own logic and proves what it relies on.
--
-- The parts, and where they are modelled:
--   * internal/domain: the entities, errors and ports, in Domain. `domain.GraphClient` is the record
--     `GraphClient` of World, and each of its calls a constructor of `Call`.
--   * internal/adapters/sqlite/store.go: Store. A table is the list of its rows; a statement is a
--     function on `Db`; a method is a sequence of statements with the error handling of the source.
--     Store/Tenants has UpsertTenant to DeleteTenant, Store/Pages the pages, Store/Oauth the clients,
--     codes, refresh tokens, login states and PurgeExpired, Store/Opening New and db.go.
--   * internal/adapters/crypto/cipher.go: Crypto, with `encrypt` and `decrypt`.
--   * internal/adapters/authserver: Auth. Auth/Jwt is jwt.go, Auth/Register register.go,
--     Auth/Authorize authorize.go, Auth/Token token.go, Auth/Server the rest of server.go.
--   * internal/app: App. App/Service and App/Window are service.go, App/Read the reading tools;
--     App/Publish, App/IgPublish, App/Comments and App/Removal the writing tools, which App/Tools
--     brings together; App/Login login.go, App/Refresh refresh_tokens.go, App/Status
--     connection_status.go and reconnect_url.go.
--   * internal/app/page_insights_metadata.go: App/Metadata. authserver/metadata.go: Auth/Metadata.
--   * internal/adapters/meta: Meta. Meta/Wire and Meta/Client are client.go (requests, the retry, paging),
--     Meta/Items what Meta's JSON holds and how graph.go, moderate.go and oauth.go read it, Meta/Insights
--     the insights and their fallback, Meta/Listing the other listings, Meta/Publish publish.go and the
--     writes of moderate.go, Meta/Identity oauth.go, Meta/Port the instance of `GraphClient` that all of
--     them make, and Meta/Handlers handlers.go: the callback of the dialog and the signed deletion.
--   * internal/adapters/mcpserver: Mcp. Mcp/Server is server.go and the verifier of http.go, Mcp/Reading
--     and Mcp/Writing the handlers of the tools, Mcp/Tools their registration and dispatch, Mcp/Resources
--     and Mcp/Prompts the rest.
--   * internal/adapters/httpserver: Http, with the routes and the relay. internal/config: Config.
--   * cmd/metasocial-mcp/main.go: Startup, which makes the options of the parts from the configuration.
-- The tools call the store for the pages of the tenant and the port for Meta; the authorization
-- server calls the store for clients, codes and tokens; the login and the sweep call both.
--
-- How code runs: an `Action` takes a `World` (the database, the log of the calls to Meta, and a
-- counter of steps) to a result or an error and a new `World`; what was done before an error stays
-- done. Each reading of the clock or of the random source, each SQL statement, begin and commit, and
-- each call to Meta is one step, and `Env` gives the answer at each step, failures included. So a
-- theorem for every `Env` holds for every clock, every fault and every behaviour of Meta.
--
-- A use of the client for Meta is a `Talk`: it takes a `Net` (the requests sent, the waits, a counter of
-- steps) to a result and a new `Net`, and `NetEnv` answers each request and each wait.
--
-- Parameters, for code that is not in the repository: `Aead` (crypto/cipher), `Codec` (HMAC, SHA-256,
-- base64url, JSON, URLs), `Formats` (dates and URLs), `Wire` and `Decoders` (JSON and numbers in Meta's
-- answers), `Pages` (what the handlers of the dialog read), `Variables` (the environment, base64,
-- durations, URLs), `GraphClient`, `NetEnv` and `Env`. `IsAead` and `IsCodec` are what their
-- documentation promises.
--
-- Numbers and times: a time is a natural number of nanoseconds since two years before Go's zero time,
-- which is `zero_time`; so the window of 28 days before any day that Go parses is a time too. A column
-- of seconds is shifted so that 1970 is `epoch`. A lifetime that Meta sends, an
-- option's lifetime, and a code of Meta's errors are natural numbers: negative ones are not modelled.
-- No loop needs fuel: each one runs over a list, or counts down the rounds that the source allows it: 50
-- pages of a list, 30 questions for the status of a container. A count in a request or an answer is
-- below 2^63; the product of seconds and nanoseconds in a Retry-After wraps at 2^64, as in Go.
--
-- Assumptions on SQLite: a failing statement has no effect; rows with equal sort keys keep the order
-- of the table. The lower and upper case of letters is that of ASCII. Log lines are left out.
--
-- Not modelled: the registration of prompts and resources; JSON and HTML output
-- and HTTP headers, but for those of limits; the SDK's transport and its bearer middleware; log lines,
-- panics and the access log; the listener, signals and shutdown of main; random identifiers and the
-- system clock, which the environment gives; the pages of web.
pub mod Prelude
pub mod Domain
pub mod Exec
pub mod Crypto
pub mod World
pub mod Startup
pub mod Store
pub mod Auth
pub mod Config
pub mod App
pub mod Http
pub mod Mcp
pub mod Meta
pub mod Tests
