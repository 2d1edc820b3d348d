-- ===== src/Module/ConfiningTests.antt =====
-- pkg/gcs/fs/module.go: a filesystem below a prefix, over two buckets that differ elsewhere.
use Prim.Native.Char.{code}
use Prim.Native.String
use text.Mathlib.Text.{◌==◌ as text_eq}
use text.Mathlib.TextEquality.{eq_iff}
use text.Mathlib.TextLemmas.{cons-append, head-eq_of_cons-eq}
use caddy_fs_gcs.Base.{
  ◌≡◌, ◌≢◌, refl, sym, ap, ◌∙◌, String, true, false, none, [], ◌∷◌, ℤ, pos, arith, if◌then◌else◌,
}
use caddy_fs_gcs.Cache.{ObjectAttrs}
use caddy_fs_gcs.Paths.{
  clean_parts, clean, resolve, resolve_all, split_slash, join_slash, render, trim_slash_prefix,
  trim_slash_suffix,
}
use caddy_fs_gcs.Fs.Errors.{ok, err, object_not_exist, iterator_done}
use caddy_fs_gcs.Fs.{Env, World, Handle, Backend, open_file, fs_stat}
use caddy_fs_gcs.Fs.Listing.{Listing, read_dir}
use caddy_fs_gcs.Fs.Confining.{IsInside, AgreesInside, with_backend}
use caddy_fs_gcs.Module.{Config, Environment, AppAnswer, file_system}
use caddy_fs_gcs.Module.Confining.{configured_dir, of_module, file_system-confined}

abbrev environment : Environment
environment = record {
  replace_all = λ s. s;
  gcs_bucket = "";
  gcs_credentials_file = "";
  storage_emulator_host = "";
  events = AppAnswer.fails;
}

abbrev site : Config
site = record {
  bucket_name = "pages";
  path_prefix = "/site/";
  project_id = "";
  credentials_file = "";
  credentials_config = "";
  service_account = "";
  use_workload_identity = true;
  cache_ttl = pos 0;
  cache_ttl_set = true;
  cache_max_entries = pos 0;
  cache_max_entries_set = false;
}

abbrev page : ObjectAttrs
page = record { name = "page"; prefix = ""; size = 10; updated = 1 }

-- Every object is there, but the private one only in the second bucket.
abbrev public_only : Backend
public_only = record {
  attrs = λ key. if text_eq key "private" then err object_not_exist else ok page;
  list_first = λ p. none;
}

abbrev full : Backend
full = record { attrs = λ key. ok page; list_first = λ p. none }

abbrev public_list : String → Listing
public_list p = record {
  objects = if text_eq p "private/" then [] else page ∷ [];
  ending = iterator_done;
}

abbrev full_list : String → Listing
full_list p = record { objects = page ∷ []; ending = iterator_done }

site_dir : clean (configured_dir site) ≡ "site"
unfolding clean clean_parts resolve_all resolve split_slash join_slash render trim_slash_prefix
    trim_slash_suffix
site_dir = refl

site_deep : clean_parts (configured_dir site) ≢ []
unfolding clean_parts resolve_all resolve split_slash trim_slash_prefix trim_slash_suffix
site_deep = λ h. cc

-- A name inside the prefix starts with its first letter.
inside_not : (key t : String) → IsInside (clean (configured_dir site)) key → key ≢ String.◌∷◌ "p" t
inside_not key t (rest, e) =
    λ h. absurd (omega (arith, ap code (head-eq_of_cons-eq (sym (starts key rest e) ∙ h))))
  where
    starts :
        (key rest : String)
        → key ≡ String.◌++◌ (clean (configured_dir site)) (String.◌++◌ "/" rest)
        → key ≡ String.◌∷◌ "s" (String.◌++◌ "ite" (String.◌++◌ "/" rest))
    starts key rest e = e ∙ rw site_dir (cons-append "s" "ite" (String.◌++◌ "/" rest))

agreement : AgreesInside (clean (configured_dir site)) public_only full
agreement = record {
  same_attrs = λ key i. ground (arith, eq_iff key "private", inside_not key "rivate" i);
  same_first = λ p i. refl;
}

list_agreement :
    (p : String) → IsInside (clean (configured_dir site)) p → public_list p ≡ full_list p
list_agreement p i = ground (arith, eq_iff p "private/", inside_not p "rivate/" i)

abbrev request : Env
request = record {
  fs = file_system environment site;
  backend = full;
  now = 0;
  later = 0;
  pick = λ i j n. 0;
}

file_system-confined_example :
    ((name : String) (w : World)
      → fs_stat (with_backend (of_module environment site request) public_only) name w
        ≡ fs_stat (with_backend (of_module environment site request) full) name w)
    × ((name : String) (f : Handle) (n : ℤ) (w : World)
        → open_file (file_system environment site) name ≡ ok f
        → read_dir
            (of_module environment site request)
            public_list
            n
            (record { handle = f; iter = none })
            w
          ≡ read_dir
              (of_module environment site request)
              full_list
              n
              (record { handle = f; iter = none })
              w)
file_system-confined_example =
    file_system-confined environment site site_deep request public_only full public_list full_list
      agreement list_agreement
