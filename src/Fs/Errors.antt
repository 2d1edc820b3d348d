-- ===== src/Fs/Errors.antt =====
-- The errors that pkg/gcs/fs tells apart, and errors.Is and errors.AsType on their chains.
use caddy_fs_gcs.Base.{String, Bool, true, false, Option, none, some}

-- `wrapped` is `fmt.Errorf("…%w", err)`, and `path_error` is `&fs.PathError{Op, Path, Err}`.
pub data Error : Type 0 where
  eof unexpected_eof iterator_done bucket_not_exist object_not_exist : Error
  not_exist invalid invalid_whence deadline_exceeded canceled : Error
  other : String → Error
  wrapped : String → Error → Error
  path_error : (op path : String) → Error → Error

pub data Result {ℓ} (A : Type ℓ) : Type ℓ where
  ok : A → Result A
  err : Error → Result A

-- The end of the chain that `Unwrap` walks: the one error of it that can be a sentinel.
unfoldable pub root : Error → Error
root (wrapped text e) = root e
root (path_error op path e) = root e
root e = e

-- `errors.Is(err, X)` for each sentinel X that the code asks for.
abbrev pub root_is_eof : Error → Bool
root_is_eof eof = true
root_is_eof e = false

abbrev pub root_is_done : Error → Bool
root_is_done iterator_done = true
root_is_done e = false

abbrev pub root_is_object_not_exist : Error → Bool
root_is_object_not_exist object_not_exist = true
root_is_object_not_exist e = false

abbrev pub root_is_bucket_not_exist : Error → Bool
root_is_bucket_not_exist bucket_not_exist = true
root_is_bucket_not_exist e = false

abbrev pub root_is_deadline_exceeded : Error → Bool
root_is_deadline_exceeded deadline_exceeded = true
root_is_deadline_exceeded e = false

abbrev pub root_is_canceled : Error → Bool
root_is_canceled canceled = true
root_is_canceled e = false

abbrev pub is_eof : Error → Bool
is_eof e = root_is_eof (root e)

abbrev pub is_done : Error → Bool
is_done e = root_is_done (root e)

abbrev pub is_object_not_exist : Error → Bool
is_object_not_exist e = root_is_object_not_exist (root e)

abbrev pub is_bucket_not_exist : Error → Bool
is_bucket_not_exist e = root_is_bucket_not_exist (root e)

-- `err == io.EOF`, and `err == io.ErrUnexpectedEOF` beside it
abbrev pub equals_eof : Error → Bool
equals_eof eof = true
equals_eof e = false

abbrev pub equals_any_eof : Error → Bool
equals_any_eof eof = true
equals_any_eof unexpected_eof = true
equals_any_eof e = false

-- `errors.AsType[*fs.PathError](err)`, and the field `Err` of what it finds.
unfoldable pub as_path_error : Error → Option Error
as_path_error (path_error op path e) = some e
as_path_error (wrapped text e) = as_path_error e
as_path_error e = none

-- pkg/gcs/fs/module.go: `classifyGCSError`, the label of an error in the metrics.
abbrev pub classify : Error → String
classify object_not_exist = "not_found"
classify bucket_not_exist = "bucket_not_found"
classify deadline_exceeded = "timeout"
classify canceled = "canceled"
classify e = "unknown"

unfoldable pub classify_gcs_error : Option Error → String
classify_gcs_error none = "none"
classify_gcs_error (some e) = classify (root e)
