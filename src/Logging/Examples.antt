-- ===== src/Logging/Examples.antt =====
-- pkg/observability/logger: runs.
use caddy_fs_gcs.Base.{ℕ, zero, suc, ◌≡◌, refl, true, false, some, List, [], ◌∷◌, map, all, pos}
use caddy_fs_gcs.Texts.{lowers_to}
use caddy_fs_gcs.Logging.{
  Piece, rune, stray, byte_count, first_bytes, drop_partial, drop_byte, valid_string, strays,
  sanitize_string, sanitize_query, text_arg, with_trace_context, append_key_if_absent, has_key,
  init, set_level, start_logger, to_slog_level, info_enabled,
}
use caddy_fs_gcs.Logging.Calls.{
  Call, Line, logs, emits, logs_context, inits, sets_level, info_level, warn_level, error_level,
  with_args, run, step, emit, log_with, log_context, keeps_level, at_least, run-set_level,
}
use caddy_fs_gcs.Logging.Sanitizing.{Sanitized, sanitize_query-Sanitized}

abbrev tail : ℕ → List Piece
tail zero = []
tail (suc n) = rune "x" ∷ tail n

abbrev lines : List Piece
lines = rune "a" ∷ rune "\n" ∷ stray ∷ rune "\t" ∷ rune "b" ∷ []

cleaned : sanitize_query lines ≡ "a�\tb"
unfolding sanitize_query sanitize_string byte_count
cleaned = refl

-- Of a long query with an early byte that is not UTF-8 only what stands before that byte remains.
abbrev cut_early : List Piece
cut_early = rune "a" ∷ stray ∷ tail 200

early : sanitize_query cut_early ≡ "a..."
unfolding sanitize_query sanitize_string byte_count first_bytes drop_partial drop_byte valid_string
    strays
early = refl

traced :
    with_trace_context
      (some (record { trace_id = "4bf9"; span_id = "" }))
      (text_arg "path" ∷ text_arg "/" ∷ [])
    ≡ text_arg "path" ∷ text_arg "/" ∷ text_arg "trace_id" ∷ text_arg "4bf9" ∷ []
unfolding with_trace_context append_key_if_absent has_key
traced = refl

warns : info_enabled (init "WARN" true (record { level = pos 0; json_format = false })) ≡ false
unfolding info_enabled init to_slog_level lowers_to
warns = refl

-- A logger that is made before the level is raised follows it.
abbrev raised : List Call
raised =
    logs info_level "late" []
    ∷ emits (with_args (text_arg "part" ∷ text_arg "fs" ∷ []) start_logger) error_level "lost" []
    ∷ logs_context warn_level (some (record { trace_id = "4bf9"; span_id = "00f0" })) "slow" []
    ∷ []

raised_keeps : all keeps_level raised ≡ true
unfolding with_args
raised_keeps = refl

one_error :
    map (λ (line : Line). line.message) (run (sets_level "Error" ∷ raised) start_logger).1
    ≡ "lost" ∷ []
unfolding run step set_level to_slog_level lowers_to log_with log_context with_args emit
one_error = refl

raised_levels :
    (all (at_least (to_slog_level "error")) (run (sets_level "error" ∷ raised) start_logger).1
      ≡ true)
    × (all (at_least (to_slog_level "error")) (run (inits "error" true ∷ raised) start_logger).1
        ≡ true)
raised_levels = run-set_level "error" true raised start_logger raised_keeps

sanitize_query-Sanitized_example : Sanitized cut_early (sanitize_query cut_early)
sanitize_query-Sanitized_example = sanitize_query-Sanitized cut_early
