-- ===== src/Fs/Paging.antt =====
-- pkg/gcs/fs/gcsfs.go: a call of `ReadDir` as a page of the listing.
use caddy_fs_gcs.Base.{
  ℕ, zero, suc, ◌+◌, ◌≡◌, refl, ap, inl, inr, String, true, false, none, some, List, [], ◌∷◌, map,
  ◌==◌, ltb, ℤ, pos, negsuc, if◌then◌else◌, Bool-cases, arith, length, take, drop,
}
use caddy_fs_gcs.Cache.{ObjectAttrs}
use caddy_fs_gcs.Fs.{Env, World}
use caddy_fs_gcs.Fs.Errors.{eof, is_done}
use caddy_fs_gcs.Fs.Listing.{Listing, DirFile, limit, info, collect, Page, iterator_of, read_dir}

-- A page of at most `n` objects, or of all when `n` is 0.
abbrev page_size : ℕ → List ObjectAttrs → ℕ
page_size n objects = if n == 0 then length objects else n

take_all : {A : Type 0} (xs : List A) → take (length xs) xs ≡ xs
take_all [] = refl
take_all (x ∷ xs) = ap (◌∷◌ x) (take_all xs)

drop_all : {A : Type 0} (xs : List A) → drop (length xs) xs ≡ []
drop_all [] = refl
drop_all (x ∷ xs) = drop_all xs

collect-unlimited :
    (got : ℕ) (objects : List ObjectAttrs)
    → collect 0 got objects ≡ record { entries = map info objects; rest = []; ended = true }
unfolding collect
collect-unlimited got [] = refl
collect-unlimited got (a ∷ objects) = rw (collect-unlimited (got + 1) objects) refl

-- With room for `left` + 1 more entries.
collect-limited :
    (n got left : ℕ) (objects : List ObjectAttrs)
    → n ≡ got + suc left
    → collect n got objects ≡ record {
      entries = map info (take (suc left) objects);
      rest = drop (suc left) objects;
      ended = ltb (length objects) (suc left);
    }
unfolding collect
collect-limited n got left [] e = ground arith
collect-limited n got zero (a ∷ objects) e = ground (arith, e)
collect-limited n got (suc left) (a ∷ objects) e =
    rw (collect-limited n (got + 1) left objects (omega arith)) (ground (arith, e))

-- The next `n` objects of an iterator, or all of them.
abbrev pub next_page : ℤ → DirFile → Listing → Page
next_page n f it =
    let size = page_size (limit n) it.objects in
    record {
      file = record f { iter = some (record it { objects = drop size it.objects }) };
      entries = map info (take size it.objects);
      error = if ltb (length it.objects) (limit n) then some eof else none;
    }

ltb_zero : (m : ℕ) → ltb m 0 ≡ false
ltb_zero m = ground arith

zero_ltb : (k : ℕ) → ltb 0 (suc k) ≡ true
zero_ltb k = ground arith

suc_eq_zero : (k : ℕ) → (suc k == 0) ≡ false
suc_eq_zero k = ground arith

-- `ReadDir(n)` on an iterator that ends without an error returns the next `n` entries of the listing, or
-- what is left of it when `n` is not positive, and goes on behind them at the next call. The error is
-- io.EOF exactly when `n` is positive and fewer than `n` entries were left; the cache and the callbacks
-- are not touched.
pub read_dir-page :
    (env : Env) (list : String → Listing) (n : ℤ) (f : DirFile) (w : World)
    → is_done (iterator_of env list f).ending ≡ true
    → read_dir env list n f w ≡ some (w, next_page n f (iterator_of env list f))
unfolding read_dir
read_dir-page env list (pos zero) f w d =
    let objects = (iterator_of env list f).objects in
    rw
      (
        collect-unlimited 0 objects,
        take_all objects,
        drop_all objects,
        ltb_zero (length objects),
        d,
      )
      refl
read_dir-page env list (negsuc k) f w d =
    let objects = (iterator_of env list f).objects in
    rw
      (
        collect-unlimited 0 objects,
        take_all objects,
        drop_all objects,
        ltb_zero (length objects),
        d,
      )
      refl
read_dir-page env list (pos (suc k)) f w d =
    let objects = (iterator_of env list f).objects in
    rw (collect-limited (suc k) 0 k objects (omega arith))
      (elim (Bool-cases (ltb (length objects) (suc k))) [
        | inl short ↦ rw (short, d, zero_ltb k, suc_eq_zero k) refl
        | inr long ↦ rw (long, suc_eq_zero k) refl
      ])
