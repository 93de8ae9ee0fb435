-- ===== src/Lib.antt =====
-- GoreeCloud Feeds Server: a model of its core logic, with the theorems that make it correct.
--
-- The program is a feed reader's backend in Go. Package internal/feed holds the data model, the
-- feed parser and the removal of duplicate articles; internal/retrieval fetches remote feeds
-- under a destination policy; internal/storage/postgres stores them; internal/server answers
-- requests for the capabilities and the health of the process.
--
-- Files:
-- - Base and its children: what the program uses of Go's standard library, and lemmas. Texts are
--   valid UTF-8; Base/Int is `int64` with its wrap-around; Base/Address is `net/netip`; Base/Url
--   is the part of `net/url` that splits a host, its parser and printer being parameters
--   (`UrlLibrary`); Base/Dict is a Go map. The case tables of `unicode` are a parameter
--   (`Unicode`), with idempotence and the keeping of white space as hypotheses where a theorem
--   needs them.
-- - Feed/Model: internal/feed/model.go.
-- - Feed/Parser: `Parse` of internal/feed/parser.go. Feed/Parser/Tree: `xmlNode`.
--   Feed/Parser/Decode: `decodeTree`, one iteration of whose loop is `decode_step` on a token; the
--   decoder of encoding/xml is the parameter `XmlDecoder`. Feed/Parser/Collect: the helpers that
--   add to the lists of an article; `time.Parse` is the parameter `DateParser`. Feed/Parser/Rss and
--   Feed/Parser/Atom: `parseRSS` and `parseAtom`, with their common parts in Feed/Parser/Fill.
--   Feed/Parser/Decode/Markup: elements as they are written, with text and comments between them.
--   Feed/Parser/Rss/Written: RSS documents that are written from a channel and its entries;
--   Feed/Parser/Rss/Lookup, Read and Channel: what `parseRSS` reads in them; Feed/Parser/Document:
--   `Parse` on them.
-- - Feed/Dedup: `DeduplicateArticles`, `resolveCanonical` and `registerKeys` of
--   internal/feed/dedup.go; one iteration of the loop is `dedup_step`. Feed/Dedup/Keys: the
--   identity keys, `keysForArticle`, `normalizeArticleURL`, whose changes to the parsed URL are
--   `normalize_url`, and `articleContentFingerprint`. SHA-256 and the format of times are the
--   parameter `Fingerprinting`.
-- - Retrieval/Policy: internal/retrieval/policy.go; DNS and the parsing of addresses are the
--   parameter `Addresses`.
-- - Retrieval/Config, Backoff, RetryAfter, Redirect, Dial and Fetch: internal/retrieval/client.go,
--   `NewClient`, `backoff`, `parseRetryAfter`, `checkRedirect`, `dialContext`, and `Fetch` with
--   `fetchAttempt` and `shouldRetry`, whose data is in Retrieval/Exchange. Retrieval/Error: errors
--   as `errors.Is` and `errors.As` see them; messages are kept without the quoted values.
-- - Retrieval/Slots: the semaphore of a client, as a step relation over the calls of `Fetch` that
--   run at the same time; within one call it is `acquire` and `release` of `World`.
-- - Retrieval/Transport: the `http.Client` that `NewClient` makes. `client_do` is its `Do`, with the
--   requests that are sent and the addresses that are dialled; the connections, the exchanges on
--   them and the targets of redirects are the parameter `HttpLibrary`; `networked` is the world of
--   a fetch over it. Retrieval/Config/Settings: the values that the client is made with.
--   Retrieval/Sleep: `sleepContext`, with the channel that its `select` takes as the parameter
--   `Timers`, and the world `timed` of a fetch that sleeps by it.
-- - Http: internal/server/server.go; the encoder of encoding/json and the answers of
--   `http.ServeMux` to requests that no pattern matches are the parameter `WebLibrary`.
-- - Http/Program: `main` of cmd/feeds-server/main.go, as the server that it configures and as a step
--   relation on the process, its goroutine and the requests in flight; what `ListenAndServe` and
--   `Shutdown` return is the parameter `HttpServer`.
-- - Storage/Migrations: internal/storage/postgres/migrations.go, on the entries of the embedded
--   directory. Storage/Apply: `Migrate`, `migrationBody` and `migrationChecksum` of
--   internal/storage/postgres/apply.go; the ledger is a list of rows, the statements that
--   PostgreSQL executes are the parameter `Database`. A `Session` has the committed tables and those
--   of the open transaction, which a failed statement leaves as they are until the deferred
--   rollback. Storage/Upgrade: `Migrate` as a whole, on a store that may be closed and on
--   the embedded directory.
-- - Storage/Store: internal/storage/postgres/store.go, with the calls on the pool as a list; the
--   library of the pools is the parameter `Pgxpool`.
-- - Storage/Repository: internal/storage/postgres/repository.go. Storage/Repository/Rows: the
--   tables as the row at each primary key; Table: what the statements do to one. Writes: the
--   arguments and their checks. Operations and Articles: the operations, `UpsertArticle` with its
--   transaction. Server: the statements, and the server that runs them, a parameter that may
--   refuse any of them, as by a constraint of the schema that is not a primary key, and that
--   stores times with the precision of the column. History: sequences of writes. Checks: the CHECK
--   constraints of internal/storage/postgres/migrations/0001_initial.sql that the operations
--   validate themselves.
-- - Tests: runs on concrete inputs, and each theorem that has hypotheses at one of them.
--
-- How the parts interact: `Fetch` validates the URL by the policy and runs its loop of attempts;
-- the transport calls `dialContext`, which resolves and validates again, and `checkRedirect` at
-- every redirect. In the model the transport, the clock, the context, the semaphore and `sleep`
-- are the fields of `World`, over a state that each call may change; between two calls that take
-- the state the clock stands. `networked` and `timed` put the client's own `Do` and `sleepContext`
-- into a world. An `int64` bound in a hypothesis, such as a maximal backoff a
-- second below 2^63 nanoseconds, is there because the code's arithmetic wraps beyond it.
--
-- The parser's articles are those that the deduplication takes. The repository takes the keys of
-- an article from its caller; a store that is not open refuses every operation. Writes run one
-- after another: transactions that interleave are not modelled.
--
-- Loops: the loop of `decodeTree` is `decode_from`, by recursion on the tokens, and those of
-- `parseRSS` and `parseAtom` are recursion on the nodes. `backoff_loop`, `dial_loop`,
-- `validate_all`, `dedup_from`, `read_entries`, `apply_all` and `ensure_identity_keys` are
-- structural recursion; `fetch_loop` takes the attempts that are left, and starts with the
-- configured number, so its last clause is the return behind the loop in the source. `do_from`
-- takes the requests that are left, one more than the redirects that `checkRedirect` admits, which
-- is enough: its last clause is not reached.
--
-- Not modelled: what net/http does on a connection beyond what is named above, such as sending a
-- request again within one `RoundTrip` where a kept connection has broken; the parsing of the
-- command line but for the default of its flag; the constraints UNIQUE and FOREIGN KEY of the
-- schema and its CHECKs on fingerprints and read positions, which are refusals of the server; a
-- commit whose answer is lost.
pub mod Base
pub mod Feed
pub mod Retrieval
pub mod Storage
pub mod Http
pub mod Tests
