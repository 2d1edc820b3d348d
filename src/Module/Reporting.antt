-- ===== src/Module/Reporting.antt =====
-- pkg/gcs/fs/module.go: the callbacks that `Provision` gives to the filesystem, over the recording
-- functions of pkg/observability/metrics/metrics.go. The events app gets the other calls.
use caddy_fs_gcs.Base.{
  ℕ, ◌+◌, String, Option, none, some, List, [], ◌∷◌, ◌++◌, ◌>>=◌, length, ℤ, pos, pos_part,
  if◌then◌else◌,
}
use caddy_fs_gcs.Metrics.{
  Metrics, Recording, gcs_operation, gcs_error, streaming_bytes, Instrument, Measurement, add,
  observe, is_instrument, perform,
}
use caddy_fs_gcs.Fs.Errors.{Error, classify_gcs_error}
use caddy_fs_gcs.Fs.{
  Effect, cache_hit, cache_miss, gcs_op, stream_bytes, object_not_found, backend_error,
}

abbrev record_gcs_op : String → ℤ → String → Option Error → List Recording
record_gcs_op bucket duration op none = gcs_operation op bucket "success" duration ∷ []
record_gcs_op bucket duration op (some e) =
    gcs_error op bucket (classify_gcs_error (some e))
    ∷ gcs_operation op bucket "error" duration
    ∷ []

-- What a call of a callback records, with the time that the operation has taken.
unfoldable pub recordings_of : String → ℤ → Effect → List Recording
recordings_of bucket duration cache_hit = Recording.cache_hit bucket "attr" ∷ []
recordings_of bucket duration cache_miss = Recording.cache_miss bucket "attr" ∷ []
recordings_of bucket duration (gcs_op op e) = record_gcs_op bucket duration op e
recordings_of bucket duration (stream_bytes n) = streaming_bytes bucket (pos n) ∷ []
recordings_of bucket duration (object_not_found b object op) = []
recordings_of bucket duration (backend_error b object op e) = []

-- Calls of the recording functions, one after the other: what they measure.
unfoldable pub perform_all : Metrics → List Recording → Option (List Measurement)
perform_all m [] = some []
perform_all m (r ∷ rs) = do xs ← perform m r; ys ← perform_all m rs; some (xs ++ ys)

-- What the callbacks have recorded so far, the latest call first; `durations` gives the time of each.
unfoldable pub recorded : String → (ℕ → ℤ) → List Effect → List Recording
recorded bucket durations [] = []
recorded bucket durations (x ∷ log) =
    recorded bucket durations log ++ recordings_of bucket (durations (length log)) x

-- The sum of what has been added to a counter.
unfoldable pub counted : Instrument → List Measurement → ℕ
counted i [] = 0
counted i (add j v attrs ∷ xs) = (if is_instrument i j then pos_part v else 0) + counted i xs
counted i (observe j v attrs ∷ xs) = counted i xs
