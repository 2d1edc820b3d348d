-- ===== src/Metrics/Examples.antt =====
-- pkg/observability/metrics/metrics.go: runs with an OpenTelemetry that works and with some that fail.
use caddy_fs_gcs.Base.{◌≡◌, refl, true, false, not, none, some, List, [], ◌∷◌, arith, pos}
use caddy_fs_gcs.Metrics.{
  Metrics, new_once, Otel, is_instrument, http_request_errors, init, shutdown, init_body,
  create_instruments, normalize_route, before_slash, http_request, measurements, perform, measure,
  guard_of,
}
use caddy_fs_gcs.Metrics.Counting.{
  sent_status, recorded_status, well_behaved, total, only_body, serve_http-records,
}
use caddy_fs_gcs.Metrics.Initializing.{first_init, done_once}
use caddy_fs_gcs.Metrics.Measuring.{perform-measurements}
use caddy_fs_gcs.Metrics.Responses.{
  Request, WriterCall, header, bytes, read_from, flushes, flush, serve_http, call_all, call_writer,
  write_header,
}

abbrev start : Metrics
start = record { init_once = new_once; meter_provider = false; live = λ i. false }

abbrev working : Otel
working = record {
  exporter_failed = false;
  create = λ i. record { not_nil = true; failed = false };
}

abbrev no_exporter : Otel
no_exporter = record working { exporter_failed = true }

-- The third instrument cannot be made.
abbrev no_errors_counter : Otel
no_errors_counter = record working {
  create = λ i. record {
    not_nil = not (is_instrument i http_request_errors);
    failed = is_instrument i http_request_errors;
  };
}

abbrev request : Request
request = record { method = "GET"; path = "/css/style.css"; duration = pos 1 }

abbrev page : List WriterCall
page = header 404 ∷ bytes 120 ∷ flushes true ∷ read_from 512 ∷ []

css_route : normalize_route "/css/style.css" ≡ "/css/"
unfolding normalize_route before_slash
css_route = refl

-- The recorded status of a handler that writes two is the second, of which the client never hears.
two_statuses :
    serve_http request (header 200 ∷ header 500 ∷ []) false
    ≡ (record { sent = 200 }, http_request "GET" "/css/style.css" 500 (pos 1) (pos 0))
unfolding serve_http call_all call_writer write_header
two_statuses = refl

-- A handler that flushes first and then fails: the client has 200, and 500 is recorded.
flushed :
    serve_http request (flushes true ∷ []) true
    ≡ (record { sent = 200 }, http_request "GET" "/css/style.css" 500 (pos 1) (pos 0))
unfolding serve_http call_all call_writer flush
flushed = refl

-- When some instruments are missing, a recording function can pass its test for nil and then panic.
half_made :
    elim (init no_errors_counter start) [
      | none ↦ some []
      | some (m, e) ↦ perform m (http_request "GET" "/" 200 (pos 1) (pos 0))
    ]
    ≡ none
unfolding init init_body create_instruments perform guard_of measure measurements
half_made = refl

abbrev started : Metrics
started = record {
  init_once = done_once;
  meter_provider = true;
  live = (first_init working start).0.live;
}

starts : init working start ≡ some (started, none)
unfolding init init_body create_instruments
starts = refl

error_measured :
    (perform started (http_request "GET" "/a" 500 (pos 1) (pos 2))
      ≡ some (measurements (http_request "GET" "/a" 500 (pos 1) (pos 2))))
    × (perform (shutdown false started).0 (http_request "GET" "/a" 500 (pos 1) (pos 2))
        ≡ some (measurements (http_request "GET" "/a" 500 (pos 1) (pos 2))))
error_measured =
    perform-measurements working start started false (http_request "GET" "/a" 500 (pos 1) (pos 2))
      (λ i e. refl) refl starts

page-well_behaved : well_behaved page ≡ true
unfolding well_behaved only_body
page-well_behaved = refl

whole_page : total page ≡ 632
unfolding total
whole_page = refl

serve_http-records_example : serve_http request page false ≡ (
  record { sent = sent_status page },
  http_request "GET" "/css/style.css" (recorded_status false page) (pos 1) (pos (total page)),
)
serve_http-records_example =
    serve_http-records request page false page-well_behaved (omega (arith, whole_page))
