-- ===== src/File/Reading.antt =====
-- pkg/gcs/fs/gcsfs.go: `Read`, on all its branches.
use caddy_fs_gcs.Base.{
  ℕ, ◌≡◌, refl, sym, ap, ◌∙◌, false, not, ◌&&◌, Option, none, some, List, [], arith, Bool-cases,
  inl, inr, ltb, ◌==◌, length, take, drop, some_injective,
}
use caddy_fs_gcs.Fs.{World, Env, gcs_op, report, object_key}
use caddy_fs_gcs.Fs.Errors.{Result, ok, err}
use caddy_fs_gcs.Fs.Caching.{Chosen, IsSound}
use caddy_fs_gcs.Fs.Answering.{translated}
use caddy_fs_gcs.Fs.Stating.{report-IsSound, translate_error-translated}
use caddy_fs_gcs.File.Reader.{Source, Serves}
use caddy_fs_gcs.File.Synced.{Synced, reader_offset}
use caddy_fs_gcs.File.{
  GcsFile, Output, is_some, in_sniff, serve_sniff, after_open, read_from, read, buffer_of, error_of,
}
use caddy_fs_gcs.File.Delivering.{Delivered, Reads, serve_at, stream-IsSound, read_direct-Reads}
use caddy_fs_gcs.File.Sniffing.{Delivered-of_reader, read_first-Reads}

module _ (src : Source) {content : List ℕ} (s : Serves src content) where
  open src use {Reader}
  open s use {rest}

  module _ (env : Env) (chosen : Chosen env) (want : ℕ) where
    with_reader-Synced :
        (f : GcsFile Reader) (r : Reader)
        → Synced src s f
        → rest r ≡ drop (reader_offset f) content
        → Synced src s (record f { reader = some r })
    with_reader-Synced f r v here = record {
      buffered = v.buffered;
      placed = v.placed;
      aligned = λ q e. ap rest (sym (some_injective e)) ∙ here;
    }

    after_open-Reads :
        (o : Result Reader) (f : GcsFile Reader) (w : World)
        → Synced src s f
        → (is_some f.sniff_buf && ltb f.pos f.sniff_len) ≡ false
        → ((r : Reader) → o ≡ ok r → rest r ≡ drop f.pos content)
        → IsSound w
        → Reads src s env chosen want f (after_open src env want f o w)
    after_open-Reads (err e) f w v past here h =
        let (w', run, sound) = translate_error-translated env chosen f.handle "read" e w h in
        (
          w',
          f,
          record { bytes = []; error = some (translated "read" f.handle e) },
          rw run,
          sound,
          record {
            synced = v;
            moved = omega arith;
            at_pos = refl;
            fits = omega arith;
            progress = λ p _. absurd (ground arith);
          },
        )
    after_open-Reads (ok r) f w v past here h =
        let at_r = here r refl in
        let f₁ : GcsFile Reader = record f { reader = some r } in
        let v₁ = with_reader-Synced f r v (ground (arith, at_r)) in
        elim (Bool-cases (f.pos == 0 && not (is_some f.sniff_buf))) [
          | inl fresh ↦
              let start : f.pos ≡ 0 = ground arith in
              let (w', f', out, run, sound, d) =
                read_first-Reads src s env chosen want r f₁ w v₁ start
                  (at_r ∙ ap (λ t. drop t content) start) h in
              (
                w',
                f',
                out,
                rw fresh run,
                sound,
                Delivered-of_reader src s env chosen want f f' (some r) out d,
              )
          | inr later ↦
              let (w', f', out, run, sound, d) =
                read_direct-Reads src s env chosen want r f₁ w v₁ past at_r h in
              (
                w',
                f',
                out,
                rw later run,
                sound,
                Delivered-of_reader src s env chosen want f f' (some r) out d,
              )
        ]

    read_from-Reads :
        (m : Option Reader) (f : GcsFile Reader) (w : World)
        → Synced src s f
        → (is_some f.sniff_buf && ltb f.pos f.sniff_len) ≡ false
        → f.reader ≡ m
        → IsSound w
        → Reads src s env chosen want f (read_from src env want f m w)
    read_from-Reads (some r) f w v past e h =
        read_direct-Reads src s env chosen want r f w v past
          (v.aligned r e ∙ ap (λ t. drop t content) (ground arith)) h
    read_from-Reads none f w v past e h =
        let key = object_key env.fs f.handle.name in
        let opened = src.new_range_reader key f.pos in
        let op = env.fs.hooks.on_gcs_op in
        let x = gcs_op "read" (error_of src env opened) in
        after_open-Reads opened f (report op x w) v past (s.opened key f.pos)
          (report-IsSound op x w h)

    serve_sniff-IsSound :
        (f : GcsFile Reader) (w : World) → IsSound w → IsSound (serve_sniff src env want f w).0
    unfolding serve_sniff
    serve_sniff-IsSound f w h =
        stream-IsSound src s env chosen want
          (length (take want (drop f.sniff_pos (take f.sniff_len (buffer_of f.sniff_buf))))) w h

    -- `Read` on a file that fits the object: it returns, and with it come the next bytes of the object
    -- from the file's position on, at most as many as the slice holds; the position moves by their
    -- number and the file still fits, on every branch and whatever the error; and if the slice is not
    -- empty, a `Read` that returns no error delivers something.
    pub read-Delivered :
        (f : GcsFile Reader) (w : World)
        → Synced src s f
        → IsSound w
        → (w' : World) × (f' : GcsFile Reader) × (out : Output) × (read src env want f w
            ≡ some (w', f', out))
          × IsSound w'
          × Delivered src s want f f' out
    unfolding read
    read-Delivered f w v h = elim (Bool-cases (in_sniff f)) [
      | inl inside ↦
          let (buf, e) : (buf : List ℕ) × (f.sniff_buf ≡ some buf) = ground arith in
          (
            (serve_sniff src env want f w).0,
            (serve_sniff src env want f w).1,
            (serve_sniff src env want f w).2,
            rw inside,
            serve_sniff-IsSound f w h,
            serve_at src s env chosen want f w buf v e (ground arith),
          )
      | inr outside ↦ rw outside (read_from-Reads f.reader f w v (ground (arith, v.placed)) refl h)
    ]
