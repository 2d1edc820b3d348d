-- ===== src/File/Landing.antt =====
-- pkg/gcs/fs/gcsfs.go: the moves of `Seek` to a position that is not negative.
use caddy_fs_gcs.Base.{
  ℕ, ◌+◌, ◌-◌, ◌<◌, ◌≡◌, refl, sym, ap, ◌∙◌, true, false, not, ◌&&◌, ◌||◌, Option, none, some, List,
  arith, Bool-cases, inl, inr, ltb, leb, ◌==◌, if◌then◌else◌, length, drop, drop-length,
  some_injective, ◌>>=◌,
}
use caddy_fs_gcs.Fs.{Env}
use caddy_fs_gcs.File.Reader.{Source, Serves, read_loop}
use caddy_fs_gcs.File.Loop.{read_loop-delivers}
use caddy_fs_gcs.File.Synced.{Synced}
use caddy_fs_gcs.File.{
  GcsFile, is_some, reopen, after_skip, skip_from, seek_to, discard_buffer, seek_skip_threshold,
}

module _ (src : Source) {content : List ℕ} (s : Serves src content) (env : Env) where
  open src use {Reader}
  open s use {rest}

  abbrev pub Lands : ℕ → Option (GcsFile Reader) → Type 0
  Lands p m = (f' : GcsFile Reader) × (m ≡ some f') × Synced src s f' × (f'.pos ≡ p)

  reopen-Synced :
      (p : ℕ) (f : GcsFile Reader)
      → Synced src s f
      → (is_some f.sniff_buf && ltb p f.sniff_len) ≡ false
      → Synced src s (reopen src env p f)
  reopen-Synced p f v out = record {
    buffered = v.buffered;
    placed = λ b l. absurd (ground arith);
    aligned = λ r e. absurd (ground arith);
  }

  sniffed-Synced :
      (p : ℕ) (f : GcsFile Reader)
      → Synced src s f
      → (is_some f.sniff_buf && ltb p f.sniff_len) ≡ true
      → Synced src s (record f {
        reader = if ltb f.sniff_len f.pos then none else f.reader;
        pos = p;
        sniff_pos = p;
      })
  sniffed-Synced p f v inside = record {
    buffered = v.buffered;
    placed = λ b l. refl;
    aligned = λ r e. ground (arith, v.aligned r);
  }

  skipped-Synced :
      (p : ℕ) (f : GcsFile Reader) (r : Reader) (bs : List ℕ)
      → Synced src s f
      → (is_some f.sniff_buf && ltb p f.sniff_len) ≡ false
      → rest r ≡ drop (f.pos + length bs) content
      → f.pos + length bs ≡ p
      → Synced src s (record f { pos = f.pos + length bs; reader = some r })
  skipped-Synced p f r bs v out here there = record {
    buffered = v.buffered;
    placed = λ b l. absurd (ground arith);
    aligned = λ q e. ground (arith, ap rest (sym (some_injective e)));
  }

  -- A short way forward is read and thrown away.
  skip-Lands :
      (p : ℕ) (f : GcsFile Reader) (r : Reader)
      → Synced src s f
      → f.reader ≡ some r
      → (is_some f.sniff_buf && ltb p f.sniff_len) ≡ false
      → (not (is_some f.sniff_buf) || leb f.sniff_len f.sniff_pos) ≡ true
      → f.pos < p
      → (f' : GcsFile Reader) × ((read_loop src discard_buffer (p - f.pos) (p - f.pos) r >>= λ res.
            some (after_skip src env p (p - f.pos) f res))
          ≡ some f')
        × Synced src s f'
        × (f'.pos ≡ p)
  skip-Lands p f r v e out consumed forward =
      let skip = p - f.pos in
      let (bs, x, r', run, split, l) =
        read_loop-delivers src s discard_buffer skip skip r (omega arith) (omega arith) in
      let at_pos : rest r ≡ drop f.pos content = ground (arith, v.aligned r e, v.placed) in
      let after = drop-length f.pos content bs (rest r') (sym at_pos ∙ split) in
      elim (Bool-cases (length bs == skip)) [
        | inl full ↦ (
          record f { pos = f.pos + length bs; reader = some r' },
          rw (run, full),
          skipped-Synced p f r' bs v out (sym after) (ground arith),
          ground arith,
        )
        | inr short ↦ (reopen src env p f, rw (run, short), reopen-Synced p f v out, refl)
      ]

  skip_from-Lands :
      (p : ℕ) (f : GcsFile Reader) (m : Option Reader)
      → Synced src s f
      → f.reader ≡ m
      → (is_some f.sniff_buf && ltb p f.sniff_len) ≡ false
      → Lands p (skip_from src env p f m)
  skip_from-Lands p f none v e out = (reopen src env p f, refl, reopen-Synced p f v out, refl)
  skip_from-Lands p f (some r) v e out =
      elim (Bool-cases (
        (not (is_some f.sniff_buf) || leb f.sniff_len f.sniff_pos)
        && ltb f.pos p
        && leb (p - f.pos) seek_skip_threshold)) [
          | inl skips ↦ rw skips (skip-Lands p f r v e out (ground arith) (ground arith))
          | inr jumps ↦ (reopen src env p f, rw jumps, reopen-Synced p f v out, refl)
        ]

  pub seek_to-Lands : (p : ℕ) (f : GcsFile Reader) → Synced src s f → Lands p (seek_to src env p f)
  unfolding seek_to
  seek_to-Lands p f v = elim (Bool-cases (is_some f.sniff_buf && ltb p f.sniff_len)) [
    | inl inside ↦ (
      record f {
        reader = if ltb f.sniff_len f.pos then none else f.reader;
        pos = p;
        sniff_pos = p;
      },
      rw inside,
      sniffed-Synced p f v inside,
      refl,
    )
    | inr outside ↦ rw outside (skip_from-Lands p f f.reader v refl outside)
  ]
