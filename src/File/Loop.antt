-- ===== src/File/Loop.antt =====
-- The loop of Go's io.ReadFull and io.CopyN over a reader that keeps the promises of `Serves`.
use mathlib.Core.List.{append_assoc}
use caddy_fs_gcs.Base.{
  ℕ, zero, suc, ◌-◌, ◌≤◌, ◌<◌, ◌≡◌, refl, sym, ap, ◌∙◌, Option, none, some, List, [], ◌++◌, arith,
  min, ◌==◌, if◌then◌else◌, Option-cases, inl, inr, length, length-append,
}
use caddy_fs_gcs.Fs.Errors.{Error}
use caddy_fs_gcs.File.Reader.{Source, Serves, read_loop}

module _ (src : Source) {content : List ℕ} (s : Serves src content) where
  open src use {Reader, read}
  open s use {rest, delivered, fits, progress}

  pub read_loop-delivers :
      (most fuel want : ℕ) (r : Reader)
      → 0 < most
      → want ≤ fuel
      → (bs : List ℕ) × (e : Option Error) × (r' : Reader) × (read_loop src most fuel want r
          ≡ some (bs, e, r'))
        × (rest r ≡ bs ++ rest r')
        × (length bs ≤ want)
  unfolding read_loop
  read_loop-delivers most fuel zero r h k = ([], none, r, refl, refl, omega arith)
  read_loop-delivers most zero (suc want) r h k = absurd (omega arith)
  read_loop-delivers most (suc fuel) (suc want) r h k =
      let n = min most (suc want) in
      let chunk = read r n in
      elim (Option-cases chunk.error) [
        | inr (e, failed) ↦ (
          chunk.bytes,
          (if length chunk.bytes == suc want then none else some e),
          chunk.next,
          rw (failed, read_loop),
          delivered r n,
          omega (arith, fits r n),
        )
        | inl going ↦
            let (bs, e, r', run, d, l) =
              read_loop-delivers most fuel (suc want - length chunk.bytes) chunk.next h
                (omega (arith, progress r n (omega arith) going)) in
            (
              chunk.bytes ++ bs,
              e,
              r',
              rw (going, read_loop, run),
              delivered r n
                  ∙ ap (λ l. chunk.bytes ++ l) d
                  ∙ sym (append_assoc chunk.bytes bs (rest r')),
              omega (arith, length-append chunk.bytes bs, fits r n),
            )
      ]
