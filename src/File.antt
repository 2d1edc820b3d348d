-- ===== src/File.antt =====
-- pkg/gcs/fs/gcsfs.go: `gcsFile`, its `Read`, `Seek` and `Close`. `none` is a call that never returns
-- or panics. Positions and sizes are below 2^63, as the sizes of objects are.
pub mod Reader
pub mod Loop
pub mod Synced
pub mod Delivering
pub mod Sniffing
pub mod Reading
pub mod Landing
pub mod Seeking
pub mod Session
mod Examples
use caddy_fs_gcs.Base.{
  ℕ, zero, suc, ◌+◌, ◌-◌, ◌*◌, String, Bool, true, false, not, ◌&&◌, ◌||◌, Option, none, some, List,
  [], ◌∷◌, ◌++◌, ◌>>=◌, ltb, leb, ◌==◌, if◌then◌else◌, length, take, drop, ℤ, pos, negsuc, ◌+ℤ◌,
}
use caddy_fs_gcs.Fs.{
  World, Handle, Env, Effect, FileInfo, gcs_op, stream_bytes, report, object_key, translate_error,
  stat, open_file, GcsFs,
}
use caddy_fs_gcs.Fs.Errors.{
  Error, eof, invalid, invalid_whence, path_error, Result, ok, err, equals_eof, equals_any_eof,
}
use Reader.{Source, Chunk, read_loop}

pub record GcsFile (R : Type 0) : Type 0 where
  pub handle : Handle
  pub reader : Option R
  pub pos : ℕ
  pub size : ℕ
  pub size_known : Bool
  pub sniff_buf : Option (List ℕ)
  pub sniff_len : ℕ
  pub sniff_pos : ℕ

abbrev pub new_file : {R : Type 0} → Handle → GcsFile R
new_file h = record {
  handle = h;
  reader = none;
  pos = 0;
  size = 0;
  size_known = false;
  sniff_buf = none;
  sniff_len = 0;
  sniff_pos = 0;
}

abbrev pub sniff_size : ℕ
sniff_size = 512

abbrev pub seek_skip_threshold : ℕ
seek_skip_threshold = 32 * 1024

-- The buffer of `io.Discard`.
abbrev pub discard_buffer : ℕ
discard_buffer = 8192

-- `io.SeekStart`, `io.SeekCurrent`, `io.SeekEnd`, or another number
pub data Whence : Type 0 where
  seek_start seek_current seek_end bad_whence : Whence

-- The bytes that a `Read` writes, and its error.
pub record Output : Type 0 where
  pub bytes : List ℕ
  pub error : Option Error

abbrev is_some {ℓ} : {A : Type ℓ} → Option A → Bool
is_some none = false
is_some (some a) = true

-- `recordStreamBytes`
abbrev pub record_stream_bytes : Env → ℕ → World → World
record_stream_bytes env n w = report (env.fs.hooks.on_stream_bytes && ltb 0 n) (stream_bytes n) w

-- Whether `Read` serves from the sniff buffer.
abbrev pub in_sniff : {R : Type 0} → GcsFile R → Bool
in_sniff f = is_some f.sniff_buf && ltb f.sniff_pos f.sniff_len && ltb f.pos f.sniff_len

abbrev pub buffer_of : Option (List ℕ) → List ℕ
buffer_of none = []
buffer_of (some buf) = buf

module _ (src : Source) (env : Env) where
  open src use {Reader as R, new_range_reader, read as read_chunk, close as close_reader}

  unfoldable pub serve_sniff : ℕ → GcsFile R → World → World × GcsFile R × Output
  serve_sniff want f w =
      let bytes = take want (drop f.sniff_pos (take f.sniff_len (buffer_of f.sniff_buf))) in
      let n = length bytes in
      (
        record_stream_bytes env n w,
        record f { sniff_pos = f.sniff_pos + n; pos = f.pos + n },
        record { bytes = bytes; error = none },
      )

  -- The error that `Read` returns for one of the reader.
  abbrev read_error :
      GcsFile R → List ℕ → Option Error → World → Option (World × GcsFile R × Output)
  read_error f bytes none w = some (w, f, record { bytes = bytes; error = none })
  read_error f bytes (some e) w =
      if equals_eof e
      then some (w, f, record { bytes = bytes; error = some e })
      else (translate_error env f.handle "read" e w >>= λ (w', e').
          some (w', f, record { bytes = bytes; error = some e' }))

  unfoldable pub read_direct : ℕ → R → GcsFile R → World → Option (World × GcsFile R × Output)
  read_direct want r f w =
      let chunk = read_chunk r want in
      let n = length chunk.bytes in
      read_error (record f { reader = some chunk.next; pos = f.pos + n }) chunk.bytes chunk.error
        (record_stream_bytes env n w)

  abbrev after_sniff :
      ℕ → GcsFile R → World → List ℕ × Option Error × R → Option (World × GcsFile R × Output)
  after_sniff want f w ([], none, r) = some (
    w,
    record f { reader = some r; sniff_buf = some []; sniff_len = 0 },
    record { bytes = []; error = some eof },
  )
  after_sniff want f w ([], some e, r) =
      let f' = record f { reader = some r; sniff_buf = some []; sniff_len = 0 } in
      if equals_any_eof e
      then some (w, f', record { bytes = []; error = some eof })
      else (translate_error env f.handle "read" e w >>= λ (w', e').
          some (w', f', record { bytes = []; error = some e' }))
  after_sniff want f w (b ∷ bs, e, r) =
      let copied = take want (b ∷ bs) in
      let n = length copied in
      some (
        record_stream_bytes env n w,
        record f {
          reader = some r;
          sniff_buf = some (b ∷ bs);
          sniff_len = length (b ∷ bs);
          sniff_pos = n;
          pos = f.pos + n;
        },
        record { bytes = copied; error = none },
      )

  -- The first read of a file: `io.ReadFull` into the sniff buffer.
  unfoldable pub read_first : ℕ → R → GcsFile R → World → Option (World × GcsFile R × Output)
  read_first want r f w = read_loop src sniff_size sniff_size sniff_size r >>= after_sniff want f w

  abbrev error_of : Result R → Option Error
  error_of (ok r) = none
  error_of (err e) = some e

  abbrev after_open : ℕ → GcsFile R → Result R → World → Option (World × GcsFile R × Output)
  after_open want f (err e) w = translate_error env f.handle "read" e w >>= λ (w', e').
      some (w', f, record { bytes = []; error = some e' })
  after_open want f (ok r) w =
      if f.pos == 0 && not (is_some f.sniff_buf)
      then read_first want r (record f { reader = some r }) w
      else read_direct want r (record f { reader = some r }) w

  abbrev read_from : ℕ → GcsFile R → Option R → World → Option (World × GcsFile R × Output)
  read_from want f (some r) w = read_direct want r f w
  read_from want f none w =
      let opened = new_range_reader (object_key env.fs f.handle.name) f.pos in
      after_open want f opened (report env.fs.hooks.on_gcs_op (gcs_op "read" (error_of opened)) w)

  -- `Read(b)` for a slice of `want` bytes
  unfoldable pub read : ℕ → GcsFile R → World → Option (World × GcsFile R × Output)
  read want f w = if in_sniff f then some (serve_sniff want f w) else read_from want f f.reader w

  abbrev close_error : GcsFile R → Option Error → World → Option (World × GcsFile R × Option Error)
  close_error f none w = some (w, f, none)
  close_error f (some e) w =
      translate_error env f.handle "close" e w >>= λ (w', e'). some (w', f, some e')

  abbrev close_from : GcsFile R → Option R → World → Option (World × GcsFile R × Option Error)
  close_from f none w = some (w, f, none)
  close_from f (some r) w = close_error (record f { reader = none }) (close_reader r) w

  unfoldable pub close : GcsFile R → World → Option (World × GcsFile R × Option Error)
  close f w = close_from f f.reader w

  -- `f.pos = newPos`, with the reader closed and dropped
  abbrev pub reopen : ℕ → GcsFile R → GcsFile R
  reopen p f = record f { pos = p; reader = none }

  abbrev after_skip : ℕ → ℕ → GcsFile R → List ℕ × Option Error × R → GcsFile R
  after_skip p skip f (discarded, e, r) =
      let f' = record f { pos = f.pos + length discarded; reader = some r } in
      if length discarded == skip then f' else reopen p f'

  abbrev skip_from : ℕ → GcsFile R → Option R → Option (GcsFile R)
  skip_from p f none = some (reopen p f)
  skip_from p f (some r) =
      let skip = p - f.pos in
      let consumed = not (is_some f.sniff_buf) || leb f.sniff_len f.sniff_pos in
      if consumed && ltb f.pos p && leb skip seek_skip_threshold
      then (do res ← read_loop src discard_buffer skip skip r; some (after_skip p skip f res))
      else some (reopen p f)

  -- `Seek` to a position that is not negative
  unfoldable pub seek_to : ℕ → GcsFile R → Option (GcsFile R)
  seek_to p f =
      if is_some f.sniff_buf && ltb p f.sniff_len
      then some (record f {
        reader = if ltb f.sniff_len f.pos then none else f.reader;
        pos = p;
        sniff_pos = p;
      })
      else skip_from p f f.reader

  abbrev seek_new : GcsFile R → ℤ → World → Option (World × GcsFile R × Result ℕ)
  seek_new f (negsuc n) w =
      some (w, record f { pos = 0 }, err (path_error "seek" f.handle.name invalid))
  seek_new f (pos p) w = do f' ← seek_to p f; some (w, f', ok f'.pos)

  abbrev after_size :
      GcsFile R → ℤ → World × Result FileInfo → Option (World × GcsFile R × Result ℕ)
  after_size f offset (w, err e) = some (w, f, err e)
  after_size f offset (w, ok fi) =
      seek_new (record f { size = fi.attrs.size; size_known = true }) (pos fi.attrs.size +ℤ offset)
        w

  unfoldable pub seek : ℤ → Whence → GcsFile R → World → Option (World × GcsFile R × Result ℕ)
  seek offset seek_start f w = seek_new f offset w
  seek offset seek_current f w = seek_new f (pos f.pos +ℤ offset) w
  seek offset seek_end f w =
      if f.size_known
      then seek_new f (pos f.size +ℤ offset) w
      else stat env f.handle w >>= after_size f offset
  seek offset bad_whence f w = some (w, f, err invalid_whence)
