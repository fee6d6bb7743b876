-- ===== src/Examples/OfCore.antt =====
-- Examples of the laws of crates/paur-core, crates/paur-aur, crates/paur-builder and crates/paur-s3.
use paur.Prelude.{
  ℕ, ℤ, pos, ◌≡◌, refl, ◌≢◌, ◌≤◌, ◌↔◌, Bool, true, false, Option, none, some, List, [], ◌∷◌, ◌++◌,
  all, any, leb, length, head?, if◌then◌else◌, arith,
}
use paur.Prelude.Text.{Text, codes, trim, text_len, text_eq}
use paur.Prelude.Splitting.{lines}
use paur.Prelude.Results.{ok}
use paur.Core.Name.{PkgName, new, is_match, max_len}
use paur.Core.Name.Grammar.{new-path_safe, NoSlash}
use paur.Core.Flags.{no_flags}
use paur.Core.Variants.{default}
use paur.Aur.Srcinfo as Srcinfo
use paur.Aur.Info.{PkgInfo, no_info, full_version_of}
use paur.Aur.Srcinfo.{propagate, parse_line, parsed, no_parser, Parser}
use paur.Aur.Srcinfo.Merge.{full_version_of-propagate, shown, key_of}
use paur.Aur.Info.{get_package}
use paur.Aur.Srcinfo.Accepts.{parse-first_bad, error_of, first_bad}
use paur.Builder.{BuildRequest, BuildOutcome, ContainerRuntime}
use paur.Core.Config.{
  FileConfig, parsed, absent, load, with_defaults, with_data_dir, default_data_dir,
}
use paur.Core.Config.Moved.{in_dir, load-data_dir}
use paur.S3.Signing.{Hashes, Stamp, sign_request}
use paur.S3.Addressed.{
  Without, object_host, object_path, object_request, sign_request-object, without,
}
use paur.S3.{is_slash, url_for, success}
use paur.Prelude.{unwrap_or}
use paur.Prelude.Text.{trim_end_by, trim_start_by, lowercase}
use paur.S3.{S3Config, Reply, put, deleted, is_success, retry_delays, with_url, public_url_for_key}
use paur.S3 as S3
use paur.S3.Retries.{decision, first_decision, outcome_by, requests_lem}
use paur.Prelude.{ltb}
use paur.Examples.{yay, yay_url}

abbrev padded : Text
padded = codes " yay "

abbrev yay_name : PkgName
yay_name = record { as_str = yay }

padded-accepted : new padded ≡ ok yay_name
unfolding new trim text_len is_match paur.Prelude.Text.is_control
padded-accepted = refl

new-path_safe_example :
    NoSlash yay
    × (1 ≤ length yay)
    × (length yay ≤ max_len)
    × (head? yay ≢ some b'.')
    × (head? yay ≢ some b'-')
new-path_safe_example = new-path_safe padded yay_name padded-accepted

abbrev base_info : PkgInfo
base_info = record no_info { pkgver = some (codes "1.2"); pkgrel = some (codes "1") }

abbrev override : PkgInfo
override = record no_info { pkgrel = some (codes "2") }

full_version_of-propagate_example :
    full_version_of yay
      (record { base = base_info; packages = propagate base_info ((yay, override) ∷ []) })
    ≡ shown
        (key_of (λ i. i.pkgver) base_info (get_package yay ((yay, override) ∷ [])))
        (key_of (λ i. i.pkgrel) base_info (get_package yay ((yay, override) ∷ [])))
        (key_of (λ i. i.epoch) base_info (get_package yay ((yay, override) ∷ [])))
full_version_of-propagate_example = full_version_of-propagate base_info yay ((yay, override) ∷ [])

abbrev broken : Text
broken = codes "pkgbase = yay\nno value here"

parse-first_bad_example : error_of (Srcinfo.parse broken) ≡ first_bad 0 (lines broken)
parse-first_bad_example = parse-first_bad broken

abbrev source_line : Text
source_line = codes "source = yay::git+https://host/yay"

abbrev source_read : Parser
source_read = record no_parser {
  base = record no_info { source = codes "yay::git+https://host/yay" ∷ [] };
}

source_line-parsed : parse_line 3 source_line no_parser ≡ parsed source_read
unfolding parse_line
source_line-parsed = refl

abbrev build_request : BuildRequest
build_request = record {
  pkg = yay_name;
  aur_url = yay_url;
  work_dir = codes "/work";
  ccache_dir = codes "/ccache";
  runtime = ContainerRuntime.docker;
  image = codes "paur-builder";
  flags = no_flags;
  variant = default;
}

abbrev build_outcome : BuildOutcome
build_outcome = record {
  exit_code = pos 0;
  pkg_files = codes "/work/out/yay-12.3-1-x86_64.pkg.tar.zst" ∷ [];
  srcinfo = none;
  cancelled = false;
}

abbrev bucket : S3Config
bucket = record {
  endpoint = none;
  bucket = codes "paur-repo";
  prefix = some (codes "paur/");
  public_url = some (codes "https://pub.example.org/");
  path_style = false;
  region = codes "auto";
  access_key = codes "AKID";
  secret_key = codes "secret";
}

-- Two overloaded replies, then a success.
abbrev overloaded : ℕ → Reply
overloaded n = Reply.answered (if ltb n 2 then 503 else 200)

requests_lem_example :
    (put bucket (codes "x86_64/paur.db") overloaded ≡ (
      (outcome_by (1 ∷ 2 ∷ 5 ∷ 15 ∷ []) (first_decision (decision false) overloaded 5 0)).0,
      with_url
          (public_url_for_key bucket (codes "x86_64/paur.db"))
          (outcome_by (1 ∷ 2 ∷ 5 ∷ 15 ∷ []) (first_decision (decision false) overloaded 5 0)).1,
    ))
    × (S3.delete overloaded
        ≡ outcome_by (1 ∷ 2 ∷ 5 ∷ 15 ∷ []) (first_decision (decision true) overloaded 5 0))
requests_lem_example = requests_lem bucket (codes "x86_64/paur.db") overloaded

abbrev hashes : Hashes
hashes = record {
  digest = λ bytes. bytes;
  hmac = λ key text. key ++ text;
  hex_encode = λ bytes. bytes;
  as_bytes = λ text. text;
}

abbrev stamp : Stamp
stamp = record { amz_date = codes "20260102T030405Z"; date_stamp = codes "20260102" }

abbrev key : Text
key = codes "x86_64/yay-1:12.3-1-x86_64.pkg.tar.zst"

endpoint-parts :
    trim_end_by is_slash (unwrap_or bucket.endpoint (codes "https://s3.amazonaws.com"))
    ≡ codes "https" ++ codes "://" ++ codes "s3.amazonaws.com"
unfolding trim_end_by
endpoint-parts = refl

scheme-plain : Without b':' (codes "https")
scheme-plain = without b':' (codes "https") refl

host-slashless : Without b'/' (object_host bucket (codes "s3.amazonaws.com"))
host-slashless = without b'/' (object_host bucket (codes "s3.amazonaws.com")) refl

address-unasked : Without b'?' (
    object_host bucket (codes "s3.amazonaws.com")
    ++ b'/' ∷ object_path bucket (trim_start_by is_slash key))
unfolding trim_start_by
address-unasked =
    without b'?' (object_host bucket (codes "s3.amazonaws.com") ++ b'/' ∷ object_path bucket key)
      refl

sign_request-object_example :
    sign_request hashes stamp bucket
      (codes "PUT")
      (url_for bucket key)
      (codes "text/plain")
      (1 ∷ [])
    ≡ success (
        object_request hashes stamp bucket
          (codes "PUT")
          (url_for bucket key)
          (codes "text/plain")
          (lowercase (object_host bucket (codes "s3.amazonaws.com")))
          (b'/' ∷ object_path bucket (trim_start_by is_slash key))
          (1 ∷ []))
sign_request-object_example =
    sign_request-object hashes stamp bucket (codes "PUT") key (codes "text/plain") (codes "https")
      (codes "s3.amazonaws.com") (1 ∷ []) endpoint-parts scheme-plain host-slashless address-unasked

abbrev file : FileConfig
file = record {
  data_dir = none;
  repo_dir = none;
  work_dir = some (codes "/srv/work");
  logs_dir = none;
  ccache_dir = none;
  gpg_home = none;
  repo_name = some (codes "mine");
  arch = none;
  container_runtime = none;
  builder_image = none;
  max_workers = some 4;
  poll_interval_secs = none;
  listen = none;
  public_base_url = none;
  s3 = none;
  local_repo = none;
}

file-loaded : load (parsed file) none ≡ ok (with_defaults file)
unfolding load
file-loaded = refl

load-data_dir_example :
    (load (parsed file) (some (codes "/tmp/paur"))
      ≡ ok (in_dir (codes "/tmp/paur") (with_defaults file)))
    × (load absent none ≡ ok (with_data_dir default_data_dir))
    × (load (parsed (record file { data_dir = some (codes "/data") })) none
        ≡ ok (record (with_defaults file) { data_dir = codes "/data" }))
load-data_dir_example =
    load-data_dir (parsed file) (codes "/tmp/paur") (with_defaults file) file (codes "/data")
      file-loaded
