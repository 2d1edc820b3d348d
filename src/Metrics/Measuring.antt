-- ===== src/Metrics/Measuring.antt =====
-- pkg/observability/metrics/metrics.go: the recording functions after `Init`.
use caddy_fs_gcs.Base.{
  ◌≡◌, refl, ap, sym, ◌∙◌, ◌⊎◌, inl, inr, Bool, true, false, none, some, List, [], ◌∷◌,
  if◌then◌else◌, Bool-cases, arith, some_injective,
}
use caddy_fs_gcs.Metrics.{
  Metrics, Otel, Instrument, http_request_duration, http_request_total, http_request_errors,
  http_response_size, gcs_operation_duration, gcs_operations_total, gcs_operation_errors,
  gcs_cache_hits, gcs_cache_misses, gcs_streaming_bytes, gcs_concurrent_reqs, instruments, assign,
  is_instrument, create_instruments, init, shutdown, Recording, Measurement, guard_of, measurements,
  instrument_of, measure, perform,
}
use caddy_fs_gcs.Metrics.Initializing.{init-fatal, init-first}

-- OpenTelemetry: a constructor that returns no error returns an instrument.
abbrev pub Delivers : Otel → Type 0
Delivers otel = (i : Instrument) → (otel.create i).failed ≡ false → (otel.create i).not_nil ≡ true

abbrev pub AllLive : Metrics → Type 0
AllLive m = (i : Instrument) → m.live i ≡ true

-- Whether an instrument is one of some.
unfoldable among : Instrument → List Instrument → Bool
among i [] = false
among i (j ∷ js) = if is_instrument j i then true else among i js

among-instruments : (i : Instrument) → among i instruments ≡ true
unfolding among
among-instruments http_request_duration = refl
among-instruments http_request_total = refl
among-instruments http_request_errors = refl
among-instruments http_response_size = refl
among-instruments gcs_operation_duration = refl
among-instruments gcs_operations_total = refl
among-instruments gcs_operation_errors = refl
among-instruments gcs_cache_hits = refl
among-instruments gcs_cache_misses = refl
among-instruments gcs_streaming_bytes = refl
among-instruments gcs_concurrent_reqs = refl

module _ (otel : Otel) (delivers : Delivers otel) where
  assign-live :
      (j i : Instrument) (is : List Instrument) (m : Metrics)
      → (otel.create j).failed ≡ false
      → (among i (j ∷ is) ≡ true) ⊎ (m.live i ≡ true)
      → (among i is ≡ true) ⊎ ((assign j (otel.create j).not_nil m).live i ≡ true)
  unfolding among
  assign-live j i is m n l = elim (Bool-cases (is_instrument j i)) [
    | inl y ↦ inr (rw y (delivers j n))
    | inr k ↦ elim l [ inl a ↦ inl (rw k at a) | inr live ↦ inr (rw k live) ]
  ]

  -- Without an error, what is among the instruments to make is live, and what was live stays so.
  create_instruments-live :
      (is : List Instrument) (m : Metrics) (i : Instrument)
      → (create_instruments otel.create is m).1 ≡ none
      → (among i is ≡ true) ⊎ (m.live i ≡ true)
      → (create_instruments otel.create is m).0.live i ≡ true
  unfolding create_instruments among
  create_instruments-live [] m i e (inl a) = absurd (ground (arith, a))
  create_instruments-live [] m i e (inr l) = l
  create_instruments-live (j ∷ is) m i e l = elim (Bool-cases (otel.create j).failed) [
    | inl y ↦ absurd (ground (arith, rw y at e))
    | inr n ↦ rw n (
        create_instruments-live is (assign j (otel.create j).not_nil m) i (rw n at e)
          (assign-live j i is m n l))
  ]

  pub init-AllLive :
      (m m' : Metrics) → m.init_once.done ≡ false → init otel m ≡ some (m', none) → AllLive m'
  init-AllLive m m' d e i = elim (Bool-cases otel.exporter_failed) [
    | inl y ↦ absurd (ground (arith, sym (init-fatal otel m d y) ∙ e))
    | inr n ↦
        let same = some_injective (sym (init-first otel m d n) ∙ e) in
        ap (λ x. x.0.live i) (sym same)
        ∙ create_instruments-live instruments _ i (ap (λ x. x.1) same) (inl (among-instruments i))
  ]

measure-AllLive : (m : Metrics) (xs : List Measurement) → AllLive m → measure m xs ≡ some xs
unfolding measure
measure-AllLive m [] live = refl
measure-AllLive m (x ∷ xs) live = rw (live (instrument_of x), measure-AllLive m xs live) refl

pub perform-AllLive :
    (m : Metrics) (r : Recording) → AllLive m → perform m r ≡ some (measurements r)
unfolding perform
perform-AllLive m r live = rw (live (guard_of r), measure-AllLive m (measurements r) live) refl

shutdown-live :
    (failed : Bool) (m : Metrics) (i : Instrument) → (shutdown failed m).0.live i ≡ m.live i
unfolding shutdown
shutdown-live failed m i = elim (Bool-cases m.meter_provider) [
  | inl y ↦ elim (Bool-cases failed) [ inl f ↦ rw (y, f) refl | inr f ↦ rw (y, f) refl ]
  | inr n ↦ rw n refl
]

-- Once a first `Init` has returned no error, no call of a recording function panics, before and after a
-- `Shutdown`: each makes all of its measurements. It is assumed that a constructor of OpenTelemetry
-- which returns no error returns an instrument.
pub perform-measurements :
    (otel : Otel) (m m' : Metrics) (failed : Bool) (r : Recording)
    → Delivers otel
    → m.init_once.done ≡ false
    → init otel m ≡ some (m', none)
    → (perform m' r ≡ some (measurements r))
      × (perform (shutdown failed m').0 r ≡ some (measurements r))
perform-measurements otel m m' failed r delivers d e =
    let live = init-AllLive otel delivers m m' d e in
    (
      perform-AllLive m' r live,
      perform-AllLive (shutdown failed m').0 r (λ i. shutdown-live failed m' i ∙ live i),
    )
