-- ===== src/File/Seeking.antt =====
-- pkg/gcs/fs/gcsfs.go: `Seek`, on all its branches.
use caddy_fs_gcs.Base.{
  ℕ, ◌≡◌, refl, ap, Bool, true, false, Option, some, List, if◌then◌else◌, ◌>>=◌, ℤ, pos, negsuc,
  ◌+ℤ◌,
}
use caddy_fs_gcs.Fs.{World, Env, FileInfo, stat}
use caddy_fs_gcs.Fs.Errors.{Result, ok, err, invalid, invalid_whence, path_error}
use caddy_fs_gcs.Fs.Caching.{Chosen, IsSound}
use caddy_fs_gcs.Fs.Answering.{expected}
use caddy_fs_gcs.Fs.Stating.{stat-expected}
use caddy_fs_gcs.File.Reader.{Source, Serves}
use caddy_fs_gcs.File.Synced.{Synced}
use caddy_fs_gcs.File.{
  GcsFile, Whence, seek_start, seek_current, seek_end, bad_whence, seek_new, after_size, seek,
}
use caddy_fs_gcs.File.Landing.{seek_to-Lands}

module _ (src : Source) {content : List ℕ} (s : Serves src content) (env : Env) where
  open src use {Reader}
  open s use {rest}

  -- Where a `Seek` leads, as an `int64`, or its error.
  abbrev end_of : ℤ → Result FileInfo → Result ℤ
  end_of offset (err e) = err e
  end_of offset (ok fi) = ok (pos fi.attrs.size +ℤ offset)

  unfoldable pub destination : ℤ → Whence → GcsFile Reader → World → Result ℤ
  destination offset seek_start f w = ok offset
  destination offset seek_current f w = ok (pos f.pos +ℤ offset)
  destination offset seek_end f w =
      if f.size_known
      then ok (pos f.size +ℤ offset)
      else end_of offset (expected env f.handle w.cache)
  destination offset bad_whence f w = err invalid_whence

  -- What a `Seek` does with it.
  abbrev pub Sought : GcsFile Reader → Result ℤ → GcsFile Reader → Result ℕ → Type 0
  Sought f (err e) f' r = (r ≡ err e) × Synced src s f' × (f'.pos ≡ f.pos)
  Sought f (ok (pos p)) f' r = (r ≡ ok p) × Synced src s f' × (f'.pos ≡ p)
  Sought f (ok (negsuc n)) f' r =
      (r ≡ err (path_error "seek" f.handle.name invalid))
      × (f'.pos ≡ 0)
      × (f'.sniff_pos ≡ f.sniff_pos)
      × (f'.reader ≡ f.reader)

  abbrev Seeks : GcsFile Reader → Result ℤ → Option (World × GcsFile Reader × Result ℕ) → Type 0
  Seeks f d m =
      (w' : World) × (f' : GcsFile Reader) × (r : Result ℕ) × (m ≡ some (w', f', r))
      × IsSound w'
      × Sought f d f' r

  seek_new-Seeks :
      (z : ℤ) (f : GcsFile Reader) (w : World)
      → Synced src s f
      → IsSound w
      → Seeks f (ok z) (seek_new src env f z w)
  seek_new-Seeks (negsuc n) f w v h = (
    w,
    record f { pos = 0 },
    err (path_error "seek" f.handle.name invalid),
    refl,
    h,
    (refl, refl, refl, refl),
  )
  seek_new-Seeks (pos p) f w v h =
      let (f', run, v', at_p) = seek_to-Lands src s env p f v in
      (w, f', ok f'.pos, rw run, h, (ap ok at_p, v', at_p))

  sized-Synced :
      (f : GcsFile Reader) (n : ℕ)
      → Synced src s f
      → Synced src s (record f { size = n; size_known = true })
  sized-Synced f n v = record { buffered = v.buffered; placed = v.placed; aligned = v.aligned }

  resized :
      (f : GcsFile Reader) (n : ℕ) (z : ℤ) (f' : GcsFile Reader) (r : Result ℕ)
      → Sought (record f { size = n; size_known = true }) (ok z) f' r
      → Sought f (ok z) f' r
  resized f n (pos p) f' r h = h
  resized f n (negsuc p) f' r h = h

  after_size-Seeks :
      (offset : ℤ) (f : GcsFile Reader) (w : World) (a : Result FileInfo)
      → Synced src s f
      → IsSound w
      → Seeks f (end_of offset a) (after_size src env f offset (w, a))
  after_size-Seeks offset f w (err e) v h = (w, f, err e, refl, h, (refl, v, refl))
  after_size-Seeks offset f w (ok fi) v h =
      let n = fi.attrs.size in
      let z = pos n +ℤ offset in
      let (w', f', r, run, sound, d) =
        seek_new-Seeks z (record f { size = n; size_known = true }) w (sized-Synced f n v) h in
      (w', f', r, run, sound, resized f n z f' r d)

  end-Seeks :
      (chosen : Chosen env) (offset : ℤ) (f : GcsFile Reader) (w : World) (known : Bool)
      → Synced src s f
      → IsSound w
      → Seeks f
          (if known
            then ok (pos f.size +ℤ offset)
            else end_of offset (expected env f.handle w.cache))
          (if known
            then seek_new src env f (pos f.size +ℤ offset) w
            else stat env f.handle w >>= after_size src env f offset)
  end-Seeks chosen offset f w true v h = seek_new-Seeks (pos f.size +ℤ offset) f w v h
  end-Seeks chosen offset f w false v h =
      let (w₁, run, sound) = stat-expected env chosen f.handle w h in
      let (w', f', r, run', sound', d) =
        after_size-Seeks offset f w₁ (expected env f.handle w.cache) v sound in
      (w', f', r, rw run run', sound', d)

  -- `Seek` on a file that fits the object returns. Where its destination is an `int64` that is not
  -- negative, it returns it, and the file stands there and still fits, so that the next `Read` starts
  -- there; where the size cannot be found or `whence` is unknown, it returns the error and the file
  -- still fits and keeps its position; where the destination is negative, it returns an error and sets
  -- the position to 0, and leaves the sniff position and the reader as they were.
  pub seek-Sought :
      (chosen : Chosen env) (offset : ℤ) (whence : Whence) (f : GcsFile Reader) (w : World)
      → Synced src s f
      → IsSound w
      → (w' : World) × (f' : GcsFile Reader) × (r : Result ℕ) × (seek src env offset whence f w
          ≡ some (w', f', r))
        × IsSound w'
        × Sought f (destination offset whence f w) f' r
  unfolding seek destination
  seek-Sought chosen offset seek_start f w v h = seek_new-Seeks offset f w v h
  seek-Sought chosen offset seek_current f w v h = seek_new-Seeks (pos f.pos +ℤ offset) f w v h
  seek-Sought chosen offset seek_end f w v h = end-Seeks chosen offset f w f.size_known v h
  seek-Sought chosen offset bad_whence f w v h =
      (w, f, err invalid_whence, refl, h, (refl, v, refl))
