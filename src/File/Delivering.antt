-- ===== src/File/Delivering.antt =====
-- pkg/gcs/fs/gcsfs.go: the branches of `Read` that serve from the sniff buffer and from the reader.
use caddy_fs_gcs.Base.{
  ℕ, ◌+◌, ◌≤◌, ◌<◌, ◌≡◌, refl, sym, ap, ◌∙◌, false, ◌&&◌, Option, none, some, List, ◌++◌, arith,
  Bool-cases, inl, inr, ltb, length, take, drop, length-take, length-drop, window, take-take,
  drop-length,
}
use caddy_fs_gcs.Fs.{World, stream_bytes, Env}
use caddy_fs_gcs.Fs.Errors.{Error, equals_eof}
use caddy_fs_gcs.Fs.Caching.{Chosen, IsSound}
use caddy_fs_gcs.Fs.Answering.{translated}
use caddy_fs_gcs.Fs.Stating.{report-IsSound, translate_error-translated}
use caddy_fs_gcs.File.Reader.{Source, Serves}
use caddy_fs_gcs.File.Synced.{Synced}
use caddy_fs_gcs.File.{
  GcsFile, Output, is_some, serve_sniff, read_error, read_direct, buffer_of, record_stream_bytes,
}

module _ (src : Source) {content : List ℕ} (s : Serves src content) where
  open src use {Reader}
  open s use {rest}

  -- A `Read` of at most `want` bytes took the file from `f` to `f'` and delivered what lies between.
  pub record Delivered (want : ℕ) (f f' : GcsFile Reader) (out : Output) : Type 0 where
    pub synced : Synced src s f'
    pub moved : f'.pos ≡ f.pos + length out.bytes
    pub at_pos : drop f.pos content ≡ out.bytes ++ drop f'.pos content
    pub fits : length out.bytes ≤ want
    pub progress : out.error ≡ none → 0 < want → 0 < length out.bytes

  module _ (env : Env) (chosen : Chosen env) (want : ℕ) where
    abbrev pub Reads : GcsFile Reader → Option (World × GcsFile Reader × Output) → Type 0
    Reads f m =
        (w' : World) × (f' : GcsFile Reader) × (out : Output) × (m ≡ some (w', f', out))
        × IsSound w'
        × Delivered want f f' out

    -- In the sniff buffer, which holds the first bytes of the object.
    pub serve_at :
        (f : GcsFile Reader) (w : World) (buf : List ℕ)
        → Synced src s f
        → f.sniff_buf ≡ some buf
        → f.pos < f.sniff_len
        → Delivered want f (serve_sniff src env want f w).1 (serve_sniff src env want f w).2
    unfolding serve_sniff
    serve_at f w buf v e h =
        let l = f.sniff_len in
        let here : f.sniff_pos ≡ f.pos = v.placed (rw e) h in
        let full = v.buffered buf e in
        let bytes = take want (drop f.sniff_pos (take l (buffer_of f.sniff_buf))) in
        let same : bytes ≡ take want (drop f.pos (take l content)) =
          rw (e, here, full.0, take-take l content) in
        let inside : f.pos + length bytes ≤ l = rw same (
          omega (
            arith,
            length-take want (drop f.pos (take l content)),
            length-drop f.pos (take l content),
            length-take l content,
          )) in
        record {
          synced = record {
            buffered = v.buffered;
            placed = λ b p. ap (λ t. t + length bytes) here;
            aligned = λ r q. ground (arith, v.aligned r q, rw e at inside);
          };
          moved = refl;
          at_pos = rw same (window f.pos l want content (omega arith));
          fits =
              omega (arith, length-take want (drop f.sniff_pos (take l (buffer_of f.sniff_buf))));
          progress = λ _ some_room. rw same (
              omega (
                arith,
                length-take want (drop f.pos (take l content)),
                length-drop f.pos (take l content),
                ap length full.0,
                full.1,
              ));
        }

    -- The error of a reader changes neither the file nor what was delivered.
    pub read_error-Reads :
        (f f' : GcsFile Reader) (bytes : List ℕ) (e : Option Error) (w : World)
        → IsSound w
        → ((o : Option Error)
            → (o ≡ none → e ≡ none)
            → Delivered want f f' (record { bytes = bytes; error = o }))
        → Reads f (read_error src env f' bytes e w)
    read_error-Reads f f' bytes none w h d =
        (w, f', record { bytes = bytes; error = none }, refl, h, d none (λ p. p))
    read_error-Reads f f' bytes (some e) w h d = elim (Bool-cases (equals_eof e)) [
      | inl y ↦ (
        w,
        f',
        record { bytes = bytes; error = some e },
        rw y,
        h,
        d (some e) (λ p. absurd (ground arith)),
      )
      | inr n ↦
          let (w', run, sound) = translate_error-translated env chosen f'.handle "read" e w h in
          let e' = translated "read" f'.handle e in
          (
            w',
            f',
            record { bytes = bytes; error = some e' },
            rw (n, run),
            sound,
            d (some e') (λ p. absurd (ground arith)),
          )
    ]

    pub stream-IsSound : (n : ℕ) (w : World) → IsSound w → IsSound (record_stream_bytes env n w)
    stream-IsSound n w h =
        report-IsSound (env.fs.hooks.on_stream_bytes && ltb 0 n) (stream_bytes n) w h

    pub read_direct-Reads :
        (r : Reader) (f : GcsFile Reader) (w : World)
        → Synced src s f
        → (is_some f.sniff_buf && ltb f.pos f.sniff_len) ≡ false
        → rest r ≡ drop f.pos content
        → IsSound w
        → Reads f (read_direct src env want r f w)
    unfolding read_direct
    read_direct-Reads r f w v past here h =
        let chunk = src.read r want in
        let n = length chunk.bytes in
        let left = sym here ∙ s.delivered r want in
        let after = drop-length f.pos content chunk.bytes (rest chunk.next) left in
        read_error-Reads f (record f { reader = some chunk.next; pos = f.pos + n }) chunk.bytes
          chunk.error (record_stream_bytes env n w) (stream-IsSound n w h)
          λ o only. record {
            synced = record {
              buffered = v.buffered;
              placed = λ b p. absurd (ground arith);
              aligned = λ q e. ground (arith, after);
            };
            moved = refl;
            at_pos = left ∙ ap (λ t. chunk.bytes ++ t) (sym after);
            fits = s.fits r want;
            progress = λ p some_room. s.progress r want some_room (only p);
          }
