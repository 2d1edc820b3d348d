-- ===== src/File/Sniffing.antt =====
-- pkg/gcs/fs/gcsfs.go: the first `Read` of a file, which fills the sniff buffer.
use caddy_fs_gcs.Base.{
  ℕ, ◌+◌, ◌≡◌, refl, sym, ap, ◌∙◌, true, ◌&&◌, Option, none, some, List, [], ◌∷◌, ◌++◌, arith,
  Bool-cases, inl, inr, ltb, if◌then◌else◌, length, take, drop, length-take, window, drop-append,
  some_injective, take-append,
}
use caddy_fs_gcs.Fs.{World, Env}
use caddy_fs_gcs.Fs.Errors.{Error, eof, equals_any_eof}
use caddy_fs_gcs.Fs.Caching.{Chosen, IsSound}
use caddy_fs_gcs.Fs.Answering.{translated}
use caddy_fs_gcs.Fs.Stating.{translate_error-translated}
use caddy_fs_gcs.File.Reader.{Source, Serves}
use caddy_fs_gcs.File.Loop.{read_loop-delivers}
use caddy_fs_gcs.File.Synced.{Synced}
use caddy_fs_gcs.File.{GcsFile, Output, after_sniff, read_first, sniff_size, record_stream_bytes}
use caddy_fs_gcs.File.Delivering.{Delivered, Reads, stream-IsSound}

module _ (src : Source) {content : List ℕ} (s : Serves src content) where
  open src use {Reader}
  open s use {rest}

  module _ (env : Env) (chosen : Chosen env) (want : ℕ) where
    -- The first read fills the sniff buffer and serves from it.
    filled_Delivered :
        (f : GcsFile Reader) (r' : Reader) (b : ℕ) (bs : List ℕ)
        → Synced src s f
        → f.pos ≡ 0
        → content ≡ (b ∷ bs) ++ rest r'
        → Delivered src s want f
            (record f {
              reader = some r';
              sniff_buf = some (b ∷ bs);
              sniff_len = length (b ∷ bs);
              sniff_pos = length (take want (b ∷ bs));
              pos = f.pos + length (take want (b ∷ bs));
            })
            (record { bytes = take want (b ∷ bs); error = none })
    filled_Delivered f r' b bs v start split =
        let all = b ∷ bs in
        let l = length all in
        let front : take l content ≡ all = ap (take l) split ∙ take-append all (rest r') in
        let back : drop l content ≡ rest r' = ap (drop l) split ∙ drop-append all (rest r') in
        record {
          synced = record {
            buffered =
                λ buf e. (sym (some_injective e) ∙ sym front, ap length (sym (some_injective e)));
            placed = λ _ p. omega (arith, start);
            aligned = λ r e.
                ap rest (sym (some_injective e)) ∙ sym back ∙ ap (λ t. drop t content) (offset v);
          };
          moved = refl;
          at_pos = rw start (
              window 0 l want content (omega arith)
              ∙ ap (λ t. take want t ++ drop (0 + length (take want t)) content) front);
          fits = omega (arith, length-take want all);
          progress = λ _ some_room. omega (arith, length-take want all);
        }
      where
        offset :
            Synced src s f
            → length (b ∷ bs) ≡ (
                if true && ltb (f.pos + length (take want (b ∷ bs))) (length (b ∷ bs))
                then length (b ∷ bs)
                else f.pos + length (take want (b ∷ bs)))
        offset v = ground (arith, start, length-take want (b ∷ bs))

    -- Nothing came: the object is empty, or the reader failed.
    empty_Delivered :
        (f : GcsFile Reader) (r' : Reader) (o : Error)
        → Synced src s f
        → f.pos ≡ 0
        → content ≡ rest r'
        → Delivered src s want f
            (record f { reader = some r'; sniff_buf = some []; sniff_len = 0 })
            (record { bytes = []; error = some o })
    empty_Delivered f r' o v start split = record {
      synced = record {
        buffered = λ buf e. (sym (some_injective e), ap length (sym (some_injective e)));
        placed = λ _ p. absurd (omega arith);
        aligned = λ r e.
            ground (
              arith,
              ap rest (sym (some_injective e)),
              split,
              start,
              ap (λ t. drop t content) start,
            );
      };
      moved = omega arith;
      at_pos = ap (λ t. drop t content) (omega arith);
      fits = omega arith;
      progress = λ p _. absurd (ground arith);
    }

    pub after_sniff-Reads :
        (f : GcsFile Reader) (w : World) (bs : List ℕ) (e : Option Error) (r' : Reader)
        → Synced src s f
        → f.pos ≡ 0
        → content ≡ bs ++ rest r'
        → IsSound w
        → Reads src s env chosen want f (after_sniff src env want f w (bs, e, r'))
    after_sniff-Reads f w [] none r' v start split h =
        (w, _, _, refl, h, empty_Delivered f r' eof v start split)
    after_sniff-Reads f w [] (some e) r' v start split h = elim (Bool-cases (equals_any_eof e)) [
      | inl y ↦ (
        w,
        record f { reader = some r'; sniff_buf = some []; sniff_len = 0 },
        record { bytes = []; error = some eof },
        rw y,
        h,
        empty_Delivered f r' eof v start split,
      )
      | inr n ↦
          let (w', run, sound) = translate_error-translated env chosen f.handle "read" e w h in
          let e' = translated "read" f.handle e in
          (
            w',
            record f { reader = some r'; sniff_buf = some []; sniff_len = 0 },
            record { bytes = []; error = some e' },
            rw (n, run),
            sound,
            empty_Delivered f r' e' v start split,
          )
    ]
    after_sniff-Reads f w (b ∷ bs) e r' v start split h = (
      record_stream_bytes env (length (take want (b ∷ bs))) w,
      _,
      _,
      refl,
      stream-IsSound src s env chosen want (length (take want (b ∷ bs))) w h,
      filled_Delivered f r' b bs v start split,
    )

    pub Delivered-of_reader :
        (f f' : GcsFile Reader) (m : Option Reader) (out : Output)
        → Delivered src s want (record f { reader = m }) f' out
        → Delivered src s want f f' out
    Delivered-of_reader f f' m out d = record {
      synced = d.synced;
      moved = d.moved;
      at_pos = d.at_pos;
      fits = d.fits;
      progress = d.progress;
    }

    pub read_first-Reads :
        (r : Reader) (f : GcsFile Reader) (w : World)
        → Synced src s f
        → f.pos ≡ 0
        → rest r ≡ content
        → IsSound w
        → Reads src s env chosen want f (read_first src env want r f w)
    unfolding read_first
    read_first-Reads r f w v start here h =
        let (bs, e, r', run, split, _) =
          read_loop-delivers src s sniff_size sniff_size sniff_size r (omega arith) (omega arith) in
        rw run (after_sniff-Reads f w bs e r' v start (sym here ∙ split) h)
