-- ===== src/File/Session.antt =====
-- pkg/gcs/fs/gcsfs.go: an open file over a sequence of calls.
use caddy_fs_gcs.Base.{
  ℕ, ◌+◌, ◌≤◌, ◌<◌, ◌≡◌, refl, true, Option, none, some, List, [], ◌∷◌, ◌++◌, arith, length, take,
  drop, take-take, ◌>>=◌, pos, negsuc,
}
use caddy_fs_gcs.Fs.{World, Env}
use caddy_fs_gcs.Fs.Errors.{Error, Result, ok, err, invalid, path_error}
use caddy_fs_gcs.Fs.Caching.{Chosen, IsSound}
use caddy_fs_gcs.Fs.Answering.{translated}
use caddy_fs_gcs.Fs.Stating.{translate_error-translated}
use caddy_fs_gcs.File.Reader.{Source, Serves}
use caddy_fs_gcs.File.Synced.{Synced}
use caddy_fs_gcs.File.Reading.{read-Delivered}
use caddy_fs_gcs.File.Seeking.{destination, seek-Sought}
use caddy_fs_gcs.File.{
  GcsFile, Output, seek_start, in_sniff, serve_sniff, read, seek, close, close_from, close_error,
}

-- A call on the file, with what it depends on: `Read(b)`, `Seek(p, io.SeekStart)` and `Close()`.
pub data Call : Type 0 where
  reads : Env → (want : ℕ) → Call
  rewinds : Env → (p : ℕ) → Call
  closes : Env → Call

pub data Reply : Type 0 where
  got : Output → Reply
  at : Result ℕ → Reply
  closed : Option Error → Reply

abbrev env_of : Call → Env
env_of (reads env want) = env
env_of (rewinds env p) = env
env_of (closes env) = env

abbrev pub AllChosen : List Call → Type 0
AllChosen [] = Unit {0}
AllChosen (c ∷ cs) = Chosen (env_of c) × AllChosen cs

module _ (src : Source) where
  open src use {Reader}

  -- One call.
  unfoldable pub call : Call → GcsFile Reader → World → Option (World × GcsFile Reader × Reply)
  call (reads env want) f w = do (w', f', out) ← read src env want f w; some (w', f', got out)
  call (rewinds env p) f w = do
    (w', f', r) ← seek src env (pos p) seek_start f w
    some (w', f', at r)
  call (closes env) f w = do (w', f', e) ← close src env f w; some (w', f', closed e)

  unfoldable pub session :
      List Call → GcsFile Reader → World → Option (World × GcsFile Reader × List Reply)
  session [] f w = some (w, f, [])
  session (c ∷ cs) f w = do
    (w', f', r) ← call c f w
    (w'', f'', rs) ← session cs f' w'
    some (w'', f'', r ∷ rs)

-- What a file with the given content, at position `p`, may answer.
abbrev pub Follows : List ℕ → ℕ → List Call → List Reply → Type 0
Follows content p [] [] = Unit {0}
Follows content p (reads env want ∷ cs) (got out ∷ rs) =
    (drop p content ≡ out.bytes ++ drop (p + length out.bytes) content)
    × (length out.bytes ≤ want)
    × (out.error ≡ none → 0 < want → 0 < length out.bytes)
    × Follows content (p + length out.bytes) cs rs
Follows content p (rewinds env q ∷ cs) (at r ∷ rs) = (r ≡ ok q) × Follows content q cs rs
Follows content p (closes env ∷ cs) (closed e ∷ rs) = Follows content p cs rs
Follows content p cs rs = ⊥

module _ (src : Source) {content : List ℕ} (s : Serves src content) where
  open src use {Reader}

  unread-Synced : (f : GcsFile Reader) → Synced src s f → Synced src s (record f { reader = none })
  unread-Synced f v = record {
    buffered = v.buffered;
    placed = v.placed;
    aligned = λ r e. absurd (ground arith);
  }

  abbrev Closes : GcsFile Reader → Option (World × GcsFile Reader × Option Error) → Type 0
  Closes f m =
      (w' : World) × (f' : GcsFile Reader) × (e : Option Error) × (m ≡ some (w', f', e))
      × IsSound w'
      × Synced src s f'
      × (f'.pos ≡ f.pos)

  close_error-Closes :
      (env : Env) (chosen : Chosen env) (f : GcsFile Reader) (e : Option Error) (w : World)
      → Synced src s f
      → IsSound w
      → Closes f (close_error src env f e w)
  close_error-Closes env chosen f none w v h = (w, f, none, refl, h, v, refl)
  close_error-Closes env chosen f (some e) w v h =
      let (w', run, sound) = translate_error-translated env chosen f.handle "close" e w h in
      (w', f, some (translated "close" f.handle e), rw run, sound, v, refl)

  close_from-Closes :
      (env : Env) (chosen : Chosen env) (f : GcsFile Reader) (m : Option Reader) (w : World)
      → Synced src s f
      → IsSound w
      → Closes f (close_from src env f m w)
  close_from-Closes env chosen f none w v h = (w, f, none, refl, h, v, refl)
  close_from-Closes env chosen f (some r) w v h =
      let (w', f', e, run, sound, v', same) =
        close_error-Closes env chosen (record f { reader = none }) (src.close r) w
          (unread-Synced f v) h in
      (w', f', e, run, sound, v', same)

  abbrev Sessions : GcsFile Reader → List Call → World → Type 0
  Sessions f cs w =
      (w' : World) × (f' : GcsFile Reader) × (rs : List Reply) × (session src cs f w
        ≡ some (w', f', rs))
      × Follows content f.pos cs rs

  -- On a file that fits the object, any sequence of calls of `Read`, `Seek` from the start and `Close`
  -- returns, and answers as a file with the object's content and a position would: each `Read`
  -- delivers the bytes at the position that the calls before it lead to, whichever of the sniff
  -- buffer, the open reader, a skip or a new reader serves it, and one without an error delivers
  -- something if its slice is not empty; each `Seek` returns its target.
  pub session-Follows :
      (cs : List Call) (f : GcsFile Reader) (w : World)
      → AllChosen cs
      → Synced src s f
      → IsSound w
      → (w' : World) × (f' : GcsFile Reader) × (rs : List Reply) × (session src cs f w
          ≡ some (w', f', rs))
        × Follows content f.pos cs rs
  unfolding session call close seek destination
  session-Follows [] f w picks v h = (w, f, [], refl, tt)
  session-Follows (reads env want ∷ cs) f w (chosen, picks) v h =
      let (w₁, f₁, out, run, sound, d) = read-Delivered src s env chosen want f w v h in
      let (w', f', rs, run', follows) = session-Follows cs f₁ w₁ picks d.synced sound in
      (
        w',
        f',
        got out ∷ rs,
        rw (run, run'),
        (rw d.moved at d.at_pos, d.fits, d.progress, rw d.moved at follows),
      )
  session-Follows (rewinds env p ∷ cs) f w (chosen, picks) v h =
      let (w₁, f₁, r, run, sound, (same, v₁, here)) =
        seek-Sought src s env chosen (pos p) seek_start f w v h in
      let (w', f', rs, run', follows) = session-Follows cs f₁ w₁ picks v₁ sound in
      (w', f', at r ∷ rs, rw (run, run'), (same, rw here at follows))
  session-Follows (closes env ∷ cs) f w (chosen, picks) v h =
      let (w₁, f₁, e, run, sound, v₁, same) = close_from-Closes env chosen f f.reader w v h in
      let (w', f', rs, run', follows) = session-Follows cs f₁ w₁ picks v₁ sound in
      (w', f', closed e ∷ rs, rw (run, run'), rw same at follows)

  module _ (env : Env) where
    -- A `Seek` to a negative position, inside the sniff buffer: it fails, but the file reports position
    -- 0 from then on, and the next `Read` delivers the bytes at the old position as if they stood at 0.
    pub seek_negative-misplaces :
        (want n : ℕ) (f : GcsFile Reader) (w : World) (buf : List ℕ)
        → Synced src s f
        → f.sniff_buf ≡ some buf
        → f.pos < f.sniff_len
        → (w' : World) × (f₁ f₂ : GcsFile Reader) × (out : Output) × (seek src env
              (negsuc n)
              seek_start
              f
              w
            ≡ some (w, f₁, err (path_error "seek" f.handle.name invalid)))
          × (f₁.pos ≡ 0)
          × (read src env want f₁ w ≡ some (w', f₂, out))
          × (out.bytes ≡ take want (drop f.pos (take f.sniff_len content)))
          × (f₂.pos ≡ length out.bytes)
    unfolding seek read serve_sniff
    seek_negative-misplaces want n f w buf v e h =
        let f₁ : GcsFile Reader = record f { pos = 0 } in
        let here : f.sniff_pos ≡ f.pos = v.placed (rw e) h in
        let (full, sized) = v.buffered buf e in
        let inside : in_sniff f₁ ≡ true = ground (arith, here) in
        (
          (serve_sniff src env want f₁ w).0,
          f₁,
          (serve_sniff src env want f₁ w).1,
          (serve_sniff src env want f₁ w).2,
          refl,
          refl,
          rw inside,
          rw (e, here, full, take-take f.sniff_len content) refl,
          omega arith,
        )
