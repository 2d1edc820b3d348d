-- ===== src/Caddyfile/Examples.antt =====
-- pkg/gcs/fs/module.go: a block of the Caddyfile.
use caddy_fs_gcs.Base.{
  ◌≡◌, ◌≢◌, refl, String, true, false, Option, none, some, List, [], ◌∷◌, ℤ, pos, negsuc,
}
use caddy_fs_gcs.Module.{Config}
use caddy_fs_gcs.Caddyfile.{
  atoi, digits_value, contains, set_value, unmarshal_line, unmarshal_lines, unmarshal_caddyfile,
}
use caddy_fs_gcs.Caddyfile.Accepting.{
  AllDifferent, directives_of, all_directives, limited, unmarshal_caddyfile-limited,
}

abbrev empty : Config
empty = record {
  bucket_name = "";
  path_prefix = "";
  project_id = "";
  credentials_file = "";
  credentials_config = "";
  service_account = "";
  use_workload_identity = false;
  cache_ttl = pos 0;
  cache_ttl_set = false;
  cache_max_entries = pos 0;
  cache_max_entries_set = false;
}

abbrev block : List (List String)
block =
    ("bucket_name" ∷ "pages" ∷ [])
    ∷ ("cache_max_entries" ∷ "50" ∷ [])
    ∷ ("use_workload_identity" ∷ "path_prefix" ∷ "site" ∷ [])
    ∷ []

abbrev no_duration : String → Option ℤ
no_duration s = none

abbrev parsed_config : Config
parsed_config = record empty {
  bucket_name = "pages";
  path_prefix = "site";
  use_workload_identity = true;
  cache_max_entries = pos 50;
  cache_max_entries_set = true;
}

negative_number : atoi "-9223372036854775808" ≡ some (negsuc 9223372036854775807)
unfolding atoi digits_value
negative_number = refl

out_of_range : atoi "9223372036854775808" ≡ none
unfolding atoi digits_value
out_of_range = refl

block_accepted : unmarshal_caddyfile no_duration (some block) empty ≡ some parsed_config
unfolding atoi digits_value contains set_value unmarshal_line unmarshal_lines unmarshal_caddyfile
block_accepted = refl

unmarshal_caddyfile-limited_example :
    AllDifferent (all_directives block)
    × (parsed_config.bucket_name ≢ "")
    × (limited parsed_config ≡ true)
unmarshal_caddyfile-limited_example =
    unmarshal_caddyfile-limited no_duration block empty parsed_config refl block_accepted

block_directives :
    all_directives block
    ≡ "bucket_name" ∷ "cache_max_entries" ∷ "use_workload_identity" ∷ "path_prefix" ∷ []
unfolding all_directives directives_of
block_directives = refl
