-- ===== src/Module/Counting.antt =====
-- pkg/gcs/fs/module.go: what the callbacks add to a counter.
use caddy_fs_gcs.Base.{ℕ, ◌+◌, ◌≡◌, refl, String, none, some, List, [], ◌∷◌, ◌++◌, length, ℤ, arith}
use caddy_fs_gcs.Metrics.{
  Metrics, Recording, Measurement, add, observe, Instrument, gcs_cache_hits, gcs_cache_misses,
  measurements,
}
use caddy_fs_gcs.Metrics.Measuring.{AllLive, perform-AllLive}
use caddy_fs_gcs.Fs.{
  Effect, cache_hit, cache_miss, gcs_op, stream_bytes, object_not_found, backend_error,
}
use caddy_fs_gcs.Module.Reporting.{recordings_of, recorded, perform_all, counted}

-- What a list of recordings measures once the instruments are there.
unfoldable pub measured : List Recording → List Measurement
measured [] = []
measured (r ∷ rs) = measurements r ++ measured rs

pub perform_all-measured :
    (m : Metrics) (rs : List Recording) → AllLive m → perform_all m rs ≡ some (measured rs)
unfolding perform_all measured
perform_all-measured m [] live = refl
perform_all-measured m (r ∷ rs) live =
    rw (perform-AllLive m r live, perform_all-measured m rs live) refl

counted-append :
    (i : Instrument) (xs ys : List Measurement) → counted i (xs ++ ys) ≡ counted i xs + counted i ys
unfolding counted
counted-append i [] ys = omega arith
counted-append i (add j v attrs ∷ xs) ys = omega (arith, counted-append i xs ys)
counted-append i (observe j v attrs ∷ xs) ys = counted-append i xs ys

counted-measured :
    (i : Instrument) (rs ss : List Recording)
    → counted i (measured (rs ++ ss)) ≡ counted i (measured rs) + counted i (measured ss)
unfolding measured
counted-measured i [] ss = unfold counted in omega arith
counted-measured i (r ∷ rs) ss = omega (
  arith,
  counted-append i (measurements r) (measured (rs ++ ss)),
  counted-append i (measurements r) (measured rs),
  counted-measured i rs ss,
)

-- The hits and the misses that have been reported.
abbrev pub hit : Effect → ℕ
hit cache_hit = 1
hit x = 0

abbrev pub miss : Effect → ℕ
miss cache_miss = 1
miss x = 0

unfoldable pub sum_of : (Effect → ℕ) → List Effect → ℕ
sum_of g [] = 0
sum_of g (x ∷ log) = g x + sum_of g log

pub counted-hit :
    (bucket : String) (d : ℤ) (x : Effect)
    → counted gcs_cache_hits (measured (recordings_of bucket d x)) ≡ hit x
unfolding counted measured recordings_of measurements
counted-hit bucket d cache_hit = refl
counted-hit bucket d cache_miss = refl
counted-hit bucket d (gcs_op op none) = refl
counted-hit bucket d (gcs_op op (some e)) = refl
counted-hit bucket d (stream_bytes n) = refl
counted-hit bucket d (object_not_found b o op) = refl
counted-hit bucket d (backend_error b o op e) = refl

pub counted-miss :
    (bucket : String) (d : ℤ) (x : Effect)
    → counted gcs_cache_misses (measured (recordings_of bucket d x)) ≡ miss x
unfolding counted measured recordings_of measurements
counted-miss bucket d cache_hit = refl
counted-miss bucket d cache_miss = refl
counted-miss bucket d (gcs_op op none) = refl
counted-miss bucket d (gcs_op op (some e)) = refl
counted-miss bucket d (stream_bytes n) = refl
counted-miss bucket d (object_not_found b o op) = refl
counted-miss bucket d (backend_error b o op e) = refl

pub counted-recorded :
    (i : Instrument) (g : Effect → ℕ) (bucket : String) (durations : ℕ → ℤ)
    → ((d : ℤ) (x : Effect) → counted i (measured (recordings_of bucket d x)) ≡ g x)
    → (log : List Effect) → counted i (measured (recorded bucket durations log)) ≡ sum_of g log
unfolding recorded sum_of
counted-recorded i g bucket durations each [] = unfold counted measured in refl
counted-recorded i g bucket durations each (x ∷ log) =
    let d = durations (length log) in
    omega (
      arith,
      counted-measured i (recorded bucket durations log) (recordings_of bucket d x),
      counted-recorded i g bucket durations each log,
      each d x,
    )
