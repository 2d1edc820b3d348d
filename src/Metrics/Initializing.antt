-- ===== src/Metrics/Initializing.antt =====
-- pkg/observability/metrics/metrics.go: what `Init` does when it fails.
use caddy_fs_gcs.Base.{
  ◌≡◌, ◌⊎◌, refl, not, ◌&&◌, ◌++◌, inl, inr, true, false, Option, none, some, List, [], ◌∷◌, map,
  ◌>>=◌, Bool, Bool-cases,
}
use caddy_fs_gcs.Metrics.{
  Metrics, Once, MetricsError, create_instrument, Otel, Instrument, Created, instruments, assign,
  create_instruments, init_body, init, after_do,
}

abbrev prepend :
    Option MetricsError
    → Option (Metrics × List (Option MetricsError))
    → Option (Metrics × List (Option MetricsError))
prepend e none = none
prepend e (some (m, es)) = some (m, e ∷ es)

-- The state after the `Init`s of a process, one after the other, with what they return; `none` once one
-- of them has ended the process.
unfoldable pub init_all : List Otel → Metrics → Option (Metrics × List (Option MetricsError))
init_all [] m = some (m, [])
init_all (otel ∷ otels) m = init otel m >>= λ (m', e). prepend e (init_all otels m')

create_instruments-locked :
    (create : Instrument → Created) (is : List Instrument) (m : Metrics)
    → (create_instruments create is m).0.init_once ≡ m.init_once
unfolding create_instruments
create_instruments-locked create [] m = refl
create_instruments-locked create (i ∷ is) m = elim (Bool-cases (create i).failed) [
  | inl y ↦ rw y refl
  | inr n ↦ rw n (create_instruments-locked create is (assign i (create i).not_nil m))
]

abbrev pub locked_once : Once
locked_once = record { done = false; locked = true }

abbrev pub done_once : Once
done_once = record { done = true; locked = false }

-- What the first `Init` does when there is an exporter.
abbrev pub first_init : Otel → Metrics → Metrics × Option MetricsError
first_init otel m =
    create_instruments otel.create instruments
      (record m { meter_provider = true; init_once = locked_once })

pub init-fatal :
    (otel : Otel) (m : Metrics)
    → m.init_once.done ≡ false
    → otel.exporter_failed ≡ true
    → init otel m ≡ none
unfolding init init_body
init-fatal otel m d f = rw (d, f) refl

pub init-first :
    (otel : Otel) (m : Metrics)
    → m.init_once.done ≡ false
    → otel.exporter_failed ≡ false
    → init otel m
      ≡ some (record (first_init otel m).0 { init_once = done_once }, (first_init otel m).1)
unfolding init init_body
init-first otel m d f =
    rw (d, f) (unlock (first_init otel m) (create_instruments-locked otel.create instruments _))
  where
    unlock :
        (x : Metrics × Option MetricsError)
        → x.0.init_once ≡ locked_once
        → after_do x ≡ some (record x.0 { init_once = done_once }, x.1)
    unlock (k, e) l = rw l refl

unfoldable pub all_made : (Instrument → Created) → List Instrument → Bool
all_made create [] = true
all_made create (i ∷ is) = not (create i).failed && all_made create is

-- The error of the first of some instruments that cannot be made, or none if all can.
abbrev pub FirstError : (Instrument → Created) → List Instrument → Option MetricsError → Type 0
FirstError create is e =
    ((all_made create is ≡ true) × (e ≡ none))
    ⊎ ((before : List Instrument) × (i : Instrument) × (after : List Instrument) × (is
          ≡ before ++ i ∷ after)
        × (all_made create before ≡ true)
        × ((create i).failed ≡ true)
        × (e ≡ some (create_instrument i)))

-- What some `Init`s come to, of which the first makes the instruments.
abbrev pub FirstCounts : Otel → List Otel → Metrics → Type 0
FirstCounts otel otels m =
    ((otel.exporter_failed ≡ true) × (init_all (otel ∷ otels) m ≡ none))
    ⊎ ((otel.exporter_failed ≡ false)
        × (started : Metrics) × (e : Option MetricsError) × (init_all (otel ∷ otels) m
            ≡ some (record started { init_once = done_once }, e ∷ map (λ _. none) otels))
        × FirstError otel.create instruments e)
