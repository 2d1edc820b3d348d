-- ===== src/Metrics.antt =====
-- pkg/observability/metrics/metrics.go: the package's instruments, `Init`, `Shutdown` and the recording
-- functions. What the libraries of OpenTelemetry answer to the calls of `Init` and `Shutdown` is a
-- parameter. The lock makes each call of the two a step of its own. `none` is a call that does not
-- return: a panic, or the end of the process.
pub mod Responses
pub mod Initializing
pub mod Measuring
pub mod Counting
mod Examples
use Prim.Native.String
use text.Mathlib.Text.{◌==◌ as text_eq}
use caddy_fs_gcs.Base.{
  ℕ, String, Bool, true, false, not, Option, none, some, List, [], ◌∷◌, ◌++◌, ◌>>=◌, ◌==◌, leb,
  if◌then◌else◌, ℤ, pos, negsuc, is_negative,
}
use caddy_fs_gcs.Paths.{is_slash}

pub data Instrument : Type 0 where
  http_request_duration : Instrument
  http_request_total : Instrument
  http_request_errors : Instrument
  http_response_size : Instrument
  gcs_operation_duration : Instrument
  gcs_operations_total : Instrument
  gcs_operation_errors : Instrument
  gcs_cache_hits : Instrument
  gcs_cache_misses : Instrument
  gcs_streaming_bytes : Instrument
  gcs_concurrent_reqs : Instrument

-- The order in which `createInstruments` makes them.
abbrev pub instruments : List Instrument
instruments =
    http_request_duration ∷ http_request_total ∷ http_request_errors ∷ http_response_size
    ∷ gcs_operation_duration ∷ gcs_operations_total ∷ gcs_operation_errors ∷ gcs_cache_hits
    ∷ gcs_cache_misses ∷ gcs_streaming_bytes ∷ gcs_concurrent_reqs ∷ []

abbrev index : Instrument → ℕ
index http_request_duration = 0
index http_request_total = 1
index http_request_errors = 2
index http_response_size = 3
index gcs_operation_duration = 4
index gcs_operations_total = 5
index gcs_operation_errors = 6
index gcs_cache_hits = 7
index gcs_cache_misses = 8
index gcs_streaming_bytes = 9
index gcs_concurrent_reqs = 10

abbrev pub is_instrument : Instrument → Instrument → Bool
is_instrument i j = index i == index j

-- A `sync.Once`, with its mutex.
pub record Once : Type 0 where
  pub done : Bool
  pub locked : Bool

abbrev pub new_once : Once
new_once = record { done = false; locked = false }

-- The variables of the package; `live` tells which of the instruments are not nil.
pub record Metrics : Type 0 where
  pub init_once : Once
  pub meter_provider : Bool
  pub live : Instrument → Bool

pub data MetricsError : Type 0 where
  create_exporter : MetricsError
  create_instrument : Instrument → MetricsError
  shutdown_provider : MetricsError

-- What a constructor of an instrument returns.
pub record Created : Type 0 where
  pub not_nil : Bool
  pub failed : Bool

-- What OpenTelemetry answers to a call of `Init`.
pub record Otel : Type 0 where
  pub exporter_failed : Bool
  pub create : Instrument → Created

abbrev pub assign : Instrument → Bool → Metrics → Metrics
assign i b m = record m { live = λ j. if is_instrument i j then b else m.live j }

-- `createInstruments`: one after the other, up to the first that fails
unfoldable pub create_instruments :
    (Instrument → Created) → List Instrument → Metrics → Metrics × Option MetricsError
create_instruments create [] m = (m, none)
create_instruments create (i ∷ is) m =
    let m' = assign i (create i).not_nil m in
    let rest = create_instruments create is m' in
    if (create i).failed then (m', some (create_instrument i)) else rest

-- The function that `Init` gives to `initOnce.Do`
unfoldable pub init_body : Otel → Metrics → Metrics × Option MetricsError
init_body otel m =
    if otel.exporter_failed
    then (record m { init_once = new_once }, some create_exporter)
    else create_instruments otel.create instruments (record m { meter_provider = true })

-- The end of `Do`: `done` is set and the mutex unlocked; to unlock one that is not locked ends the
-- process.
abbrev pub after_do : Metrics × Option MetricsError → Option (Metrics × Option MetricsError)
after_do (m, e) =
    if m.init_once.locked
    then some (record m { init_once = record { done = true; locked = false } }, e)
    else none

-- `Init`
unfoldable pub init : Otel → Metrics → Option (Metrics × Option MetricsError)
init otel m =
    if m.init_once.done
    then some (m, none)
    else after_do (init_body otel (record m { init_once = record { done = false; locked = true } }))

-- `Shutdown`, with the answer of the provider's `Shutdown`, true for an error
unfoldable pub shutdown : Bool → Metrics → Metrics × Option MetricsError
shutdown failed m =
    if m.meter_provider
    then (if failed
        then (m, some shutdown_provider)
        else (record m { meter_provider = false; init_once = new_once }, none))
    else (record m { init_once = new_once }, none)

-- `strings.Cut(s, "/")`: what is before the slash, if there is one
abbrev push : String → Option String → Option String
push c none = none
push c (some s) = some (String.◌++◌ c s)

unfoldable pub before_slash : String → Option String
before_slash String.[] = none
before_slash (String.◌∷◌ c s) =
    let rest = before_slash s in if is_slash c then some "" else push (String.◌∷◌ c "") rest

-- `strings.TrimPrefix(s, "/")`
abbrev trim_slash : String → String
trim_slash String.[] = ""
trim_slash (String.◌∷◌ c s) = if is_slash c then s else String.◌∷◌ c s

abbrev route_of : String → Option String → String
route_of trimmed none = String.◌++◌ "/" trimmed
route_of trimmed (some before) = String.◌++◌ "/" (String.◌++◌ before "/")

-- `NormalizeRoute`
unfoldable pub normalize_route : String → String
normalize_route path =
    if text_eq path ""
    then "/"
    else if text_eq path "/"
    then "/"
    else route_of (trim_slash path) (before_slash (trim_slash path))

pub data Attribute : Type 0 where
  text_attribute : String → String → Attribute
  int_attribute : String → ℕ → Attribute

-- `Add` and `Record` of the instruments
pub data Measurement : Type 0 where
  add : Instrument → ℤ → List Attribute → Measurement
  observe : Instrument → ℤ → List Attribute → Measurement

-- The calls of the recording functions. The duration in seconds and the size are kept as integers.
pub data Recording : Type 0 where
  http_request : (method path : String) (status : ℕ) (duration size : ℤ) → Recording
  gcs_operation : (operation bucket status : String) (duration : ℤ) → Recording
  gcs_error : (operation bucket error_type : String) → Recording
  cache_hit : (bucket cache_type : String) → Recording
  cache_miss : (bucket cache_type : String) → Recording
  streaming_bytes : (bucket : String) (bytes : ℤ) → Recording
  inc_concurrent : (bucket : String) → Recording
  dec_concurrent : (bucket : String) → Recording

abbrev gcs_attributes : String → String → String → String → List Attribute
gcs_attributes operation bucket key value =
    text_attribute "gcs.operation" operation
    ∷ text_attribute "gcs.bucket" bucket
    ∷ text_attribute key value
    ∷ []

abbrev cache_attributes : String → String → List Attribute
cache_attributes bucket cache_type =
    text_attribute "gcs.bucket" bucket ∷ text_attribute "cache.type" cache_type ∷ []

abbrev http_measurements : ℕ → ℤ → ℤ → List Attribute → List Measurement
http_measurements status duration size attrs =
    add http_request_total (pos 1) attrs
    ∷ observe http_request_duration duration attrs
    ∷ observe http_response_size size attrs
    ∷ (if leb 400 status then add http_request_errors (pos 1) attrs ∷ [] else [])

-- The instrument that a recording function tests for nil, and the calls that it makes if it is not.
unfoldable pub guard_of : Recording → Instrument
guard_of (http_request method path status duration size) = http_request_total
guard_of (gcs_operation operation bucket status duration) = gcs_operations_total
guard_of (gcs_error operation bucket error_type) = gcs_operation_errors
guard_of (cache_hit bucket cache_type) = gcs_cache_hits
guard_of (cache_miss bucket cache_type) = gcs_cache_misses
guard_of (streaming_bytes bucket bytes) = gcs_streaming_bytes
guard_of (inc_concurrent bucket) = gcs_concurrent_reqs
guard_of (dec_concurrent bucket) = gcs_concurrent_reqs

unfoldable pub measurements : Recording → List Measurement
measurements (http_request method path status duration size) =
    http_measurements status duration size (
      text_attribute "http.method" method
      ∷ text_attribute "http.route" (normalize_route path)
      ∷ int_attribute "http.status_code" status
      ∷ [])
measurements (gcs_operation operation bucket status duration) =
    let attrs = gcs_attributes operation bucket "gcs.status" status in
    add gcs_operations_total (pos 1) attrs ∷ observe gcs_operation_duration duration attrs ∷ []
measurements (gcs_error operation bucket error_type) =
    add gcs_operation_errors (pos 1) (gcs_attributes operation bucket "gcs.error_type" error_type)
    ∷ []
measurements (cache_hit bucket cache_type) =
    add gcs_cache_hits (pos 1) (cache_attributes bucket cache_type) ∷ []
measurements (cache_miss bucket cache_type) =
    add gcs_cache_misses (pos 1) (cache_attributes bucket cache_type) ∷ []
measurements (streaming_bytes bucket bytes) =
    add gcs_streaming_bytes bytes (text_attribute "gcs.bucket" bucket ∷ []) ∷ []
measurements (inc_concurrent bucket) =
    add gcs_concurrent_reqs (pos 1) (text_attribute "gcs.bucket" bucket ∷ []) ∷ []
measurements (dec_concurrent bucket) =
    add gcs_concurrent_reqs (negsuc 0) (text_attribute "gcs.bucket" bucket ∷ []) ∷ []

abbrev pub instrument_of : Measurement → Instrument
instrument_of (add i value attrs) = i
instrument_of (observe i value attrs) = i

-- A call of a method of a nil instrument panics.
unfoldable pub measure : Metrics → List Measurement → Option (List Measurement)
measure m [] = some []
measure m (x ∷ xs) =
    let rest = measure m xs in
    if m.live (instrument_of x) then (rest >>= λ ys. some (x ∷ ys)) else none

-- A recording function: what it measures.
unfoldable pub perform : Metrics → Recording → Option (List Measurement)
perform m r = if m.live (guard_of r) then measure m (measurements r) else some []
