-- ===== src/Fs/Listing.antt =====
-- pkg/gcs/fs/gcsfs.go: `ReadDir` of an open file. An object iterator of Cloud Storage is what it still
-- delivers: some objects, and then an error, at each further call again.
use caddy_fs_gcs.Base.{
  ℕ, ◌+◌, String, Bool, true, false, ◌&&◌, Option, none, some, List, [], ◌∷◌, ◌==◌, ltb, ℤ, pos,
  negsuc, if◌then◌else◌, ◌>>=◌,
}
use caddy_fs_gcs.Cache.{ObjectAttrs}
use caddy_fs_gcs.Fs.Errors.{Error, eof, is_done}
use caddy_fs_gcs.Fs.{Env, Handle, FileInfo, World, dir_prefix, translate_error}

pub record Listing : Type 0 where
  pub objects : List ObjectAttrs
  pub ending : Error

-- A `gcsFile` that is a directory: what was opened, and the iterator once there is one.
pub record DirFile : Type 0 where
  pub handle : Handle
  pub iter : Option Listing

-- `if n > 0`; 0 is no limit.
abbrev pub limit : ℤ → ℕ
limit (pos n) = n
limit (negsuc n) = 0

-- How the loop of `ReadDir` leaves: with the entries, what the iterator still delivers, and whether it
-- has come to the iterator's error.
pub record Collected : Type 0 where
  pub entries : List FileInfo
  pub rest : List ObjectAttrs
  pub ended : Bool

abbrev pub info : ObjectAttrs → FileInfo
info a = record { attrs = a }

abbrev push_entry : ObjectAttrs → Collected → Collected
push_entry a c = record c { entries = info a ∷ c.entries }

-- The loop, when it has `got` entries.
unfoldable pub collect : ℕ → ℕ → List ObjectAttrs → Collected
collect n got [] = record { entries = []; rest = []; ended = true }
collect n got (a ∷ objects) =
    let more = collect n (got + 1) objects in
    if ltb 0 n && (got + 1 == n)
    then record { entries = info a ∷ []; rest = objects; ended = false }
    else push_entry a more

pub record Page : Type 0 where
  pub file : DirFile
  pub entries : List FileInfo
  pub error : Option Error

-- The error that `Next` has returned
abbrev end_of_page : Env → DirFile → ℤ → Error → List FileInfo → World → Option (World × Page)
end_of_page env f n e es w =
    if is_done e
    then some
        (w, record { file = f; entries = es; error = if ltb 0 (limit n) then some eof else none })
    else (translate_error env f.handle "readdir" e w >>= λ (w', e').
        some (w', record { file = f; entries = es; error = some e' }))

abbrev page_of : Env → Handle → ℤ → Error → Collected → World → Option (World × Page)
page_of env h n e c w =
    let f : DirFile = record {
      handle = h;
      iter = some (record { objects = c.rest; ending = e });
    } in
    if c.ended
    then end_of_page env f n e c.entries w
    else some (w, record { file = f; entries = c.entries; error = none })

-- `iteratorFor`, with what the bucket lists below a prefix
unfoldable pub iterator_for : Env → (String → Listing) → String → Listing
iterator_for env list name = list (dir_prefix env.fs name)

abbrev pub iterator_of : Env → (String → Listing) → DirFile → Listing
iterator_of env list f = elim f.iter [ none ↦ iterator_for env list f.handle.name | some it ↦ it ]

unfoldable pub read_dir : Env → (String → Listing) → ℤ → DirFile → World → Option (World × Page)
read_dir env list n f w =
    let it = iterator_of env list f in
    page_of env f.handle n it.ending (collect (limit n) 0 it.objects) w
