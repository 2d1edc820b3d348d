-- ===== src/File/Synced.antt =====
-- pkg/gcs/fs/gcsfs.go: how the position of an open file, its sniff buffer and its reader fit the
-- content of the object.
use caddy_fs_gcs.Base.{
  ℕ, ◌≡◌, ◌<◌, some, List, arith, true, ◌&&◌, ltb, if◌then◌else◌, length, take, drop,
}
use caddy_fs_gcs.Fs.{Handle}
use caddy_fs_gcs.File.Reader.{Source, Serves}
use caddy_fs_gcs.File.{GcsFile, new_file, is_some}

-- Where the reader stands: behind the sniff buffer while the file is in it, at the position else.
abbrev pub reader_offset : {R : Type 0} → GcsFile R → ℕ
reader_offset f = if is_some f.sniff_buf && ltb f.pos f.sniff_len then f.sniff_len else f.pos

module _ (src : Source) {content : List ℕ} (s : Serves src content) where
  open src use {Reader}
  open s use {rest}

  pub record Synced (f : GcsFile Reader) : Type 0 where
    pub buffered :
        (buf : List ℕ)
        → f.sniff_buf ≡ some buf
        → (buf ≡ take f.sniff_len content) × (length buf ≡ f.sniff_len)
    pub placed : is_some f.sniff_buf ≡ true → f.pos < f.sniff_len → f.sniff_pos ≡ f.pos
    pub aligned : (r : Reader) → f.reader ≡ some r → rest r ≡ drop (reader_offset f) content

  -- A file that has just been opened.
  pub new_file-Synced : (h : Handle) → Synced (new_file h)
  new_file-Synced h = record {
    buffered = λ buf e. absurd (ground arith);
    placed = λ b l. absurd (ground arith);
    aligned = λ r e. absurd (ground arith);
  }
