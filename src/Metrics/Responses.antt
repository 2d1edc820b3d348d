-- ===== src/Metrics/Responses.antt =====
-- pkg/observability/metrics/metrics.go: `responseWriter` and the middleware `MetricsHandler`. The
-- underlying writer is the one of net/http, of which the status that is sent to the client is kept: the
-- first that is not informational, or 200 with the first bytes.
use text.Mathlib.Text.{◌==◌ as text_eq}
use caddy_fs_gcs.Base.{
  ℕ, String, Bool, not, ◌&&◌, ◌||◌, Option, none, some, List, [], ◌∷◌, ◌==◌, leb, ltb,
  if◌then◌else◌, ℤ, pos, ◌+ℤ◌,
}
use caddy_fs_gcs.Dispenser.{Segment, next_arg, read_segments}
use caddy_fs_gcs.Endpoint.{or_default}
use caddy_fs_gcs.Metrics.{Metrics, Otel, MetricsError, Recording, http_request, init}

-- The writer of net/http: the status on the wire, 0 before it.
pub record Client : Type 0 where
  pub sent : ℕ

-- 1xx, but for 101
abbrev is_informational : ℕ → Bool
is_informational code = leb 100 code && ltb code 200 && not (code == 101)

abbrev pub client_header : ℕ → Client → Client
client_header code c =
    if not (c.sent == 0) || is_informational code then c else record { sent = code }

abbrev pub client_body : Client → Client
client_body c = if c.sent == 0 then record { sent = 200 } else c

pub record ResponseWriter : Type 0 where
  pub client : Client
  pub status_code : ℕ
  pub size : ℤ

-- What the next handler does with the writer: `Write` of some bytes, and `ReadFrom` with the number of
-- bytes that the underlying writer has read, and `Flush` with whether that writer is a flusher.
pub data WriterCall : Type 0 where
  header : ℕ → WriterCall
  bytes : (len : ℕ) → WriterCall
  read_from : (n : ℕ) → WriterCall
  flushes : (flusher : Bool) → WriterCall

unfoldable pub write_header : ℕ → ResponseWriter → ResponseWriter
write_header code w = record w { status_code = code; client = client_header code w.client }

abbrev implicit_status : ℕ → ℕ
implicit_status code = if code == 0 then 200 else code

unfoldable pub write : ℕ → ResponseWriter → ResponseWriter
write len w = record {
  status_code = implicit_status w.status_code;
  size = w.size +ℤ pos len;
  client = client_body w.client;
}

unfoldable pub writer_read_from : ℕ → ResponseWriter → ResponseWriter
writer_read_from n w = record {
  status_code = implicit_status w.status_code;
  client = if n == 0 then w.client else client_body w.client;
  size = w.size +ℤ pos n;
}

-- A flusher of net/http sends the status 200 first if none has been sent.
unfoldable pub flush : Bool → ResponseWriter → ResponseWriter
flush flusher w = if flusher then record w { client = client_body w.client } else w

unfoldable pub call_writer : WriterCall → ResponseWriter → ResponseWriter
call_writer (header code) = write_header code
call_writer (bytes len) = write len
call_writer (read_from n) = writer_read_from n
call_writer (flushes flusher) = flush flusher

unfoldable pub call_all : List WriterCall → ResponseWriter → ResponseWriter
call_all [] w = w
call_all (c ∷ calls) w = call_all calls (call_writer c w)

-- A request, with the time that the next handler takes.
pub record Request : Type 0 where
  pub method : String
  pub path : String
  pub duration : ℤ

-- The status that is recorded.
abbrev pub final_status : Bool → ℕ → ℕ
final_status failed status = if status == 0 then (if failed then 500 else 200) else status

-- `ServeHTTP` around a next handler that makes some calls and then returns an error or none: the client's
-- side, and what is recorded.
unfoldable pub serve_http : Request → List WriterCall → Bool → Client × Recording
serve_http r calls failed =
    let w =
      call_all calls (record { client = record { sent = 0 }; status_code = 0; size = pos 0 }) in
    (w.client, http_request r.method r.path (final_status failed w.status_code) r.duration w.size)

pub record MetricsHandler : Type 0 where
  pub metrics_path : String

-- `Provision`, with what `Init` returns
unfoldable pub provision :
    Otel → MetricsHandler × Metrics → Option (MetricsHandler × (Metrics × Option MetricsError))
provision otel (h, m) = elim (init otel m) [
  | none ↦ none
  | some answer ↦ some (record { metrics_path = or_default h.metrics_path "/metrics" }, answer)
]

unfoldable pub directive :
    String → List String → MetricsHandler → Option (List String × MetricsHandler)
directive name args h =
    if text_eq name "path"
    then next_arg args (λ v rest. some (rest, record { metrics_path = v }))
    else none

unfoldable pub unmarshal_caddyfile : List Segment → MetricsHandler → Option MetricsHandler
unmarshal_caddyfile = read_segments (record {
  start = λ h. h;
  argument = λ v h. record { metrics_path = v };
  directive = directive;
})
