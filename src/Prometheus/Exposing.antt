-- ===== src/Prometheus/Exposing.antt =====
-- pkg/observability/metrics/prometheus_endpoint.go: what a client that is not on the loopback interface
-- may learn.
use text.Mathlib.Text.{◌==◌ as text_eq}
use text.Mathlib.TextEquality.{eq_iff}
use caddy_fs_gcs.Base.{
  arith, ◌≡◌, ◌≢◌, refl, String, Bool, true, false, not, ◌&&◌, ◌||◌, Option, none, some, Dict, ◌+ℤ◌,
  pos,
}
use caddy_fs_gcs.Net.{is_loopback}
use caddy_fs_gcs.Endpoint.{BuildInfo}
use caddy_fs_gcs.Prometheus.{
  Handler, Request, metrics_health_answer, Gathered, families, gather_failed, is_debug_allowed,
  serve_health, serve_metrics_health, route, serve_http,
}

not_allowed :
    (h : Handler) (r : Request)
    → is_loopback r.remote ≡ false
    → h.debug_local_only ≢ some false
    → is_debug_allowed h r ≡ false
unfolding is_debug_allowed
not_allowed h r remote ne = only_cases h.debug_local_only ne
  where
    only_cases :
        (m : Option Bool)
        → m ≢ some false
        → (elim m [ none ↦ is_loopback r.remote | some only ↦ not only || is_loopback r.remote ])
          ≡ false
    only_cases none n = remote
    only_cases (some true) n = remote
    only_cases (some false) n = absurd (n refl)

-- Without the text of an error.
abbrev pub without_error : Gathered → Gathered
without_error (families fs) = families fs
without_error (gather_failed e) = gather_failed ""

-- The same request with the errors taken away.
abbrev pub quiet : Request → Request
quiet r = record r { gathered = without_error r.gathered }

metrics_health_answer-quiet :
    (g : Gathered) → metrics_health_answer false g ≡ metrics_health_answer false (without_error g)
unfolding metrics_health_answer
metrics_health_answer-quiet (families fs) = refl
metrics_health_answer-quiet (gather_failed e) = refl

and_false : (b : Bool) → (b && false) ≡ false
and_false true = refl
and_false false = refl

module _ (h : Handler) (labels : Dict String) (r : Request) (allowed : is_debug_allowed h r ≡ false)
    (allowed' : is_debug_allowed (record h { custom_labels = labels }) (quiet r) ≡ false) where
  serve_health-hides :
      (info : BuildInfo)
      → serve_health info h r ≡ serve_health info (record h { custom_labels = labels }) (quiet r)
  unfolding serve_health
  serve_health-hides info = rw (allowed, allowed') refl

  serve_metrics_health-hides :
      serve_metrics_health h r
      ≡ serve_metrics_health (record h { custom_labels = labels }) (quiet r)
  unfolding serve_metrics_health
  serve_metrics_health-hides = rw (allowed, allowed') (metrics_health_answer-quiet r.gathered)

  route-hides :
      (info : BuildInfo)
      → r.path ≢ h.metrics_path
      → route info h r ≡ route info (record h { custom_labels = labels }) (quiet r)
  unfolding route
  route-hides info elsewhere =
      let off : text_eq r.path h.metrics_path ≡ false =
        ground (arith, elsewhere, eq_iff r.path h.metrics_path) in
      rw
        (
          off,
          serve_health-hides info,
          serve_metrics_health-hides,
          allowed,
          allowed',
          and_false h.enable_debug,
        )
        refl

-- Unless `debug_local_only` is set to false, a client that is not on the loopback interface gets the same
-- answer whatever the custom labels are and whatever the text of an error of the registry is, on every
-- path but that of the metrics.
pub serve_http-hides_labels :
    (info : BuildInfo) (h : Handler) (r : Request) (labels : Dict String)
    → is_loopback r.remote ≡ false
    → h.debug_local_only ≢ some false
    → r.path ≢ h.metrics_path
    → (serve_http info h r).1 ≡ (serve_http info (record h { custom_labels = labels }) (quiet r)).1
unfolding serve_http
serve_http-hides_labels info h r labels remote ne elsewhere =
    let counted : Handler = record h { request_count = h.request_count +ℤ pos 1 } in
    route-hides counted labels r (not_allowed counted r remote ne)
      (not_allowed (record counted { custom_labels = labels }) (quiet r) remote ne) info elsewhere
