-- ===== src/File/Reader.antt =====
-- The range readers that pkg/gcs/fs/gcsfs.go opens with `NewRangeReader(ctx, offset, -1)` and reads,
-- and Go's io.ReadFull and io.CopyN over them.
use caddy_fs_gcs.Base.{
  ℕ, zero, suc, ◌-◌, ◌≤◌, ◌<◌, ◌≡◌, String, Option, none, some, List, [], ◌++◌, min, ◌==◌,
  if◌then◌else◌, length, drop,
}
use caddy_fs_gcs.Fs.Errors.{Error, Result, ok}

-- What a `Read` delivers, and the reader after it.
pub record Chunk (R : Type 0) : Type 0 where
  pub bytes : List ℕ
  pub error : Option Error
  pub next : R

-- Cloud Storage is not part of the repository: its readers are a parameter.
pub record Source : Type 1 where
  pub Reader : Type 0
  pub new_range_reader : String → ℕ → Result Reader
  pub read : Reader → ℕ → Chunk Reader
  pub close : Reader → Option Error

module _ (src : Source) where
  open src use {Reader, new_range_reader, read}

  abbrev then_rest :
      List ℕ → Option (List ℕ × Option Error × Reader) → Option (List ℕ × Option Error × Reader)
  then_rest bytes none = none
  then_rest bytes (some (more, e, r)) = some (bytes ++ more, e, r)

  -- The loop of `io.ReadFull` and `io.CopyN`: read until `want` bytes are there, at most `most` in one
  -- call, or until an error. `none` is more than `fuel` calls.
  unfoldable pub read_loop : ℕ → ℕ → ℕ → Reader → Option (List ℕ × Option Error × Reader)
  read_loop most fuel zero r = some ([], none, r)
  read_loop most zero (suc want) r = none
  read_loop most (suc fuel) (suc want) r =
      let chunk = read r (min most (suc want)) in
      let more = read_loop most fuel (suc want - length chunk.bytes) chunk.next in
      elim chunk.error [
        | none ↦ then_rest chunk.bytes more
        | some e ↦
            some (chunk.bytes, if length chunk.bytes == suc want then none else some e, chunk.next)
      ]

  -- What the service and the client library promise of a reader of an object with the given content:
  -- it delivers the content from its offset on, a call returns no more than it is asked for, and it
  -- returns something or an error.
  pub record Serves (content : List ℕ) : Type 0 where
    pub rest : Reader → List ℕ
    pub opened :
        (key : String) (offset : ℕ) (r : Reader)
        → new_range_reader key offset ≡ ok r
        → rest r ≡ drop offset content
    pub delivered : (r : Reader) (n : ℕ) → rest r ≡ (read r n).bytes ++ rest (read r n).next
    pub fits : (r : Reader) (n : ℕ) → length (read r n).bytes ≤ n
    pub progress :
        (r : Reader) (n : ℕ) → 0 < n → (read r n).error ≡ none → 0 < length (read r n).bytes
