-- ===== src/File/Examples.antt =====
-- pkg/gcs/fs/gcsfs.go: runs of an open file on an object of six bytes.
use caddy_fs_gcs.Base.{
  ℕ, zero, suc, ◌≡◌, ◌≤◌, ◌<◌, refl, sym, true, List, [], ◌∷◌, Option, none, some, arith, length,
  take, drop, take-append-drop, some_injective, length-take, pos, negsuc,
}
use caddy_fs_gcs.Fs.{World, Handle, Env}
use caddy_fs_gcs.Fs.Errors.{Error, eof, invalid, other, path_error, Result, ok, err}
use caddy_fs_gcs.Fs.Caching.{Chosen, IsSound}
use caddy_fs_gcs.File.{GcsFile, new_file, Output, seek_start, read, seek, read_first}
use caddy_fs_gcs.File.Reader.{Source, Serves, read_loop}
use caddy_fs_gcs.File.Synced.{Synced, new_file-Synced}
use caddy_fs_gcs.File.Delivering.{Delivered}
use caddy_fs_gcs.File.Reading.{read-Delivered}
use caddy_fs_gcs.File.Seeking.{destination, Sought, seek-Sought}
use caddy_fs_gcs.File.Session.{
  Call, Reply, reads, rewinds, closes, session, Follows, session-Follows, seek_negative-misplaces,
}

abbrev text : List ℕ
text = b'c' ∷ b'a' ∷ b'd' ∷ b'd' ∷ b'y' ∷ b'!' ∷ []

-- A reader is what is left of the object; a call delivers at most two bytes.
abbrev at_end : List ℕ → ℕ → Option Error
at_end rest zero = none
at_end [] (suc n) = some eof
at_end (b ∷ rest) (suc n) = none

abbrev two_at_most : ℕ → ℕ
two_at_most zero = 0
two_at_most (suc zero) = 1
two_at_most (suc (suc n)) = 2

abbrev memory : Source
memory = record {
  Reader = List ℕ;
  new_range_reader = λ key offset. ok (drop offset text);
  read = λ r n. record {
    bytes = take (two_at_most n) r;
    error = at_end r n;
    next = drop (two_at_most n) r;
  };
  close = λ r. none;
}

two_at_most-le : (n : ℕ) → two_at_most n ≤ n
two_at_most-le zero = omega arith
two_at_most-le (suc zero) = omega arith
two_at_most-le (suc (suc n)) = omega arith

memory-progress :
    (r : List ℕ) (n : ℕ) → 0 < n → at_end r n ≡ none → 0 < length (take (two_at_most n) r)
memory-progress r zero h e = absurd (omega arith)
memory-progress [] (suc n) h e = absurd (ground arith)
memory-progress (b ∷ r) (suc zero) h e = omega (arith, length-take 1 (b ∷ r))
memory-progress (b ∷ r) (suc (suc n)) h e = omega (arith, length-take 2 (b ∷ r))

memory-Serves : Serves memory text
memory-Serves = record {
  rest = λ r. r;
  opened = λ key offset r e. ground arith;
  delivered = λ r n. sym (take-append-drop (two_at_most n) r);
  fits = λ r n. omega (arith, length-take (two_at_most n) r, two_at_most-le n);
  progress = memory-progress;
}

abbrev env : Env
env = record {
  fs = record {
    bucket_name = "pages";
    prefix = "";
    hooks = record {
      on_event = true;
      on_cache_hit = true;
      on_cache_miss = true;
      on_gcs_op = true;
      on_stream_bytes = true;
    };
  };
  backend = record { attrs = λ key. err (other "503"); list_first = λ prefix. some (other "503") };
  now = 1;
  later = 1;
  pick = λ i j n. 0;
}

env-Chosen : Chosen env
env-Chosen i j n h = h

abbrev page : Handle
page = record { name = "a.txt"; full_path = "a.txt" }

abbrev start : World
start = record { cache = none; log = [] }

start-IsSound : IsSound start
start-IsSound c e = absurd (ground arith)

-- After a first `Read` of three bytes.
abbrev opened_file : GcsFile (List ℕ)
opened_file = record (new_file page) {
  reader = some [];
  pos = 3;
  sniff_buf = some text;
  sniff_len = 6;
  sniff_pos = 3;
}

opened_file-Synced : Synced memory memory-Serves opened_file
unfolding memory-Serves
opened_file-Synced = record {
  buffered = λ buf e. ground arith;
  placed = λ b l. refl;
  aligned = λ r e. sym (some_injective e);
}

abbrev outcome : Option (World × GcsFile (List ℕ) × Output) → Option (GcsFile (List ℕ) × List ℕ)
outcome none = none
outcome (some (w, f, out)) = some (f, out.bytes)

first_read : outcome (read memory env 3 (new_file page) start) ≡ some (opened_file, take 3 text)
unfolding read read_first read_loop
first_read = refl

read-Delivered_example :
    (w : World) × (f : GcsFile (List ℕ)) × (out : Output) × (read memory env 3 (new_file page) start
      ≡ some (w, f, out))
    × IsSound w
    × Delivered memory memory-Serves 3 (new_file page) f out
read-Delivered_example =
    read-Delivered memory memory-Serves env env-Chosen 3 (new_file page) start
      (new_file-Synced memory memory-Serves page) start-IsSound

seek-Sought_example :
    (w : World) × (f : GcsFile (List ℕ)) × (r : Result ℕ) × (seek memory env
        (pos 1)
        seek_start
        opened_file
        start
      ≡ some (w, f, r))
    × IsSound w
    × Sought memory memory-Serves env opened_file
        (destination memory memory-Serves env (pos 1) seek_start opened_file start)
        f
        r
seek-Sought_example =
    seek-Sought memory memory-Serves env env-Chosen (pos 1) seek_start opened_file start
      opened_file-Synced start-IsSound

abbrev visit : List Call
visit = reads env 3 ∷ rewinds env 1 ∷ reads env 2 ∷ closes env ∷ rewinds env 9 ∷ reads env 4 ∷ []

session-Follows_example :
    (w : World) × (f : GcsFile (List ℕ)) × (rs : List Reply) × (session memory visit
        (new_file page)
        start
      ≡ some (w, f, rs))
    × Follows text 0 visit rs
session-Follows_example =
    session-Follows memory memory-Serves visit (new_file page) start
      (env-Chosen, (env-Chosen, (env-Chosen, (env-Chosen, (env-Chosen, (env-Chosen, tt))))))
      (new_file-Synced memory memory-Serves page) start-IsSound

seek_negative-misplaces_example :
    (w : World) × (f₁ f₂ : GcsFile (List ℕ)) × (out : Output) × (seek memory env
        (negsuc 4)
        seek_start
        opened_file
        start
      ≡ some (start, f₁, err (path_error "seek" "a.txt" invalid)))
    × (f₁.pos ≡ 0)
    × (read memory env 2 f₁ start ≡ some (w, f₂, out))
    × (out.bytes ≡ take 2 (drop 3 (take 6 text)))
    × (f₂.pos ≡ length out.bytes)
seek_negative-misplaces_example =
    seek_negative-misplaces memory memory-Serves env 2 4 opened_file start text opened_file-Synced
      refl (omega arith)
