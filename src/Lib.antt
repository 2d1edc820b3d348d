-- ===== src/Lib.antt =====
-- caddy-fs-gcs: a Caddy virtual filesystem over a bucket of Google Cloud Storage, with its health,
-- validation and metrics endpoints.
--
-- The filesystem (pkg/gcs/fs/gcsfs.go) opens names as files. `Stat` of a file asks the attribute cache
-- (pkg/gcs/fs/attrcache.go) first, then the bucket, and remembers the answer in the cache, which all
-- files share. `Read` and `Seek` of a file work on a range reader of the bucket's client, with a buffer
-- for the first bytes; `ReadDir` works on an object iterator. The health endpoints
-- (pkg/observability/health) ask checkers of the bucket. The validation endpoints (pkg/validation) check
-- configurations by rules. The metrics (pkg/observability/metrics) record requests and operations in
-- the instruments of OpenTelemetry; the Caddy module (pkg/gcs/fs/module.go) makes the filesystem below a
-- prefix, with callbacks that call them. Four handlers read their part of a Caddyfile by the same loops.
--
-- Files:
--   Base: the names that the others share. Tests: Boolean tests and Option; Lists: Go's slices with
--     native lengths; Maps: Go's maps; Ints: int64.
--   Cache: pkg/gcs/fs/attrcache.go. `read` and `reap` are the two critical sections of `get`;
--     `remove_key`, `evict_if_needed`, `set_attrs` and `set_not_found` are removeKey, evictIfNeeded, set
--     and setNotFound. Below it, Valid holds the invariant, Removal, Scanning, Eviction, Storing and
--     Reading follow the operations, and History runs any interleaving of critical sections. Recalling
--     compares such a run with a memory that evicts nothing. Clock has the shared clock and its
--     goroutines: any interleaving of the sections of starts, of stops and of the goroutines' steps, but
--     what comes after a stop inside of `once.Do` is not modelled.
--   Paths: what pkg/gcs/fs/gcsfs.go uses of Go's path, strings and io/fs, and validPath; Joining, Cleaning
--     and Prefixing follow path.Join and path.Clean.
--   Fs: pkg/gcs/fs/gcsfs.go, Open, Sub, Stat and translateError; Errors also has classifyGCSError of
--     pkg/gcs/fs/module.go, Listing has ReadDir. A call takes the answers of the bucket and the readings
--     of the clock (`Env`), and changes the cache and the log of calls of the callbacks (`World`).
--     Contexts has newGCSFS, WithContext and opCtx. Answering and Keeping carry a predicate on worlds
--     through `Stat`; Confining is about the names that the bucket is asked for.
--   File: pkg/gcs/fs/gcsfs.go, Read, Seek and Close of an open file. Reader has the interface of the
--     range readers (`Source`), what they promise (`Serves`), and the loop of io.ReadFull and io.CopyN.
--   Module: pkg/gcs/fs/module.go, Provision of the Caddy module, with the pool of clients; Releasing has
--     Cleanup and CacheStats, Reporting the callbacks over the recording functions of Metrics.
--   Caddyfile: pkg/gcs/fs/module.go, UnmarshalCaddyfile.
--   Health: pkg/observability/health/health.go, the checker of a bucket and the composite checker.
--   Net: the address of a client, as the three endpoints test it.
--   Endpoint: pkg/observability/health/health_endpoint.go, the handler of the health endpoints; Serving has
--     ServeHTTP, Configuring has UnmarshalCaddyfile.
--   Texts, Regex: what pkg/validation/config.go uses of Go's strings, unicode, fmt and regexp. A pattern
--     is an expression, which a matcher by derivatives decides.
--   Rules: pkg/validation/config.go, the default rules; Patterns, Buckets and Numbers follow their tests.
--   Validation: pkg/validation/config.go, ValidateField and ValidateConfig; Tables has the tables of
--     rules and the suggestions.
--   Dispenser: the loops over the tokens of a Caddyfile. A handler is an `Unmarshaler`.
--   ValidationEndpoint: pkg/validation/validation_endpoint.go; Serving has ServeHTTP.
--   Metrics: pkg/observability/metrics/metrics.go, Init, Shutdown and the recording functions; Responses
--     has the middleware and its writer.
--   Prometheus: pkg/observability/metrics/prometheus_endpoint.go.
--   Logging: pkg/observability/logger, SanitizeString and SanitizeQuery, the level and the arguments;
--     Calls has the calls of the global logger and of the loggers made from it.
--   Tracing: pkg/observability/tracing/tracing.go, Init, Shutdown and the choice of the exporter;
--     Spans has the helpers on spans.
--   Version: pkg/version.go.
--   ErrorPages: pkg/gcs/errorpages/caddy_module.go.
--
-- `none` is a panic or a call that does not return. Positions, sizes and numbers of bytes are natural
-- numbers; offsets, expiry times and sums of them are int64 with their wrap-around, and counters wrap at
-- 2^64. An eviction samples at most 20 keys, as in the code. The sniff buffer has 512 bytes. The reading
-- loop has as much fuel as it wants bytes, which is enough because a reader that returns no error
-- returns a byte; a line of a Caddyfile has as much fuel as tokens, which is enough because a directive
-- takes at least its name. A `String` is a sequence of characters, so bytes that are not UTF-8 are left
-- out, except in Logging, where a string of Go is a list of runes and stray bytes.
--
-- Parameters: the random choices of an eviction, of which it is assumed that they are in range; the
-- answers of Cloud Storage; the range readers, of which it is assumed that they deliver the content of
-- the object from their offset on, not more than they are asked for, and something or an error; the
-- answers of the checkers that a composite checker combines; net.SplitHostPort, net.ParseIP and
-- IsLoopback; the pool of clients, of which it is assumed that it counts their references and returns the
-- client that it keeps for a key; the client library, the replacer of placeholders, caddy.ParseDuration
-- and the tokens of the Caddyfile's dispenser; url.Parse, time.ParseDuration and regexp.Compile; how the
-- JSON decoder fares on a body; what OpenTelemetry answers, of which it is assumed that a constructor
-- without an error returns an instrument; what the registry of Prometheus gathers; the build information
-- of Go and the embedded error pages.
--
-- Not modelled: the cancellation of contexts, the log lines of the Caddy module, what promhttp and slog
-- write as text, the plugin's blank imports and the start of Caddy.
pub mod Base
pub mod Cache
pub mod Paths
pub mod Fs
pub mod File
pub mod Module
pub mod Caddyfile
pub mod Net
pub mod Health
pub mod Endpoint
pub mod Texts
pub mod Regex
pub mod Rules
pub mod Validation
pub mod Dispenser
pub mod ValidationEndpoint
pub mod Metrics
pub mod Prometheus
pub mod Logging
pub mod Tracing
pub mod ErrorPages
pub mod Version
