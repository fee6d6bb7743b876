-- ===== src/S3.antt =====
-- crates/paur-s3/src/lib.rs: the object keys and URLs, and the requests with their retries.
pub mod Retries
pub mod Signing
pub mod Addressed
use paur.Prelude.{
  ℕ, suc, Bool, true, false, not, ◌&&◌, ◌||◌, Option, none, some, List, [], ◌∷◌, ◌++◌, ◌==◌, leb,
  ltb, if◌then◌else◌, is_empty, unwrap_or, length,
}
use paur.Prelude.Text.{Text, codes, trim_start_by, trim_end_by}
use paur.Prelude.Splitting.{split_at}

-- `S3Config` of crates/paur-core/src/config.rs.
pub record S3Config : Type 0 where
  pub endpoint : Option Text
  pub bucket : Text
  pub prefix : Option Text
  pub public_url : Option Text
  pub path_style : Bool
  pub region : Text
  pub access_key : Text
  pub secret_key : Text

-- `Error`, of which a refusal keeps the status.
pub data S3Error : Type 0 where
  msg transient http sign : S3Error
  permanent : ℕ → S3Error

pub data S3Result {ℓ} (T : Type ℓ) : Type ℓ where
  failure : S3Error → S3Result T
  success : T → S3Result T

abbrev pub is_slash : ℕ → Bool
is_slash c = c == b'/'

unfoldable pub virtual_hosted : S3Config → Text → Text → Option (Text × Text) → Text
virtual_hosted cfg endpoint key none = endpoint ++ codes "/" ++ cfg.bucket ++ codes "/" ++ key
virtual_hosted cfg endpoint key (some (scheme, rest)) =
    scheme ++ codes "://" ++ cfg.bucket ++ codes "." ++ rest ++ codes "/" ++ key

unfoldable pub url_for : S3Config → Text → Text
unfolding virtual_hosted trim_start_by trim_end_by split_at
url_for cfg raw =
    let key = trim_start_by is_slash raw in
    let endpoint =
      trim_end_by is_slash (unwrap_or cfg.endpoint (codes "https://s3.amazonaws.com")) in
    if cfg.path_style
    then endpoint ++ codes "/" ++ cfg.bucket ++ codes "/" ++ key
    else virtual_hosted cfg endpoint key (split_at (codes "://") endpoint)

pub prefixed : Option Text → Text → Text
unfolding trim_start_by trim_end_by
prefixed none key = trim_start_by is_slash key
prefixed (some p) key =
    if is_empty p
    then trim_start_by is_slash key
    else trim_end_by is_slash p ++ codes "/" ++ trim_start_by is_slash key

unfoldable pub full_key : S3Config → Text → Text
unfolding prefixed
full_key cfg key = prefixed cfg.prefix key

pub public_of : S3Config → Option Text → Text → Text
unfolding url_for trim_end_by
public_of cfg none full = url_for cfg full
public_of cfg (some base) full =
    if is_empty base then url_for cfg full else trim_end_by is_slash base ++ codes "/" ++ full

unfoldable pub public_url_for_key : S3Config → Text → Text
unfolding full_key public_of
public_url_for_key cfg key = public_of cfg cfg.public_url (full_key cfg key)

-- `is_server_error`, 408 and 429
unfoldable pub is_transient : ℕ → Bool
is_transient status = leb 500 status && ltb status 600 || status == 408 || status == 429

pub is_success : ℕ → Bool
is_success status = leb 200 status && ltb status 300

-- In seconds, without the jitter.
abbrev pub retry_delays : List ℕ
retry_delays = 1 ∷ 2 ∷ 5 ∷ 15 ∷ []

-- What an attempt meets: the request cannot be signed, the transport fails, or a status comes back.
pub data Reply : Type 0 where
  unsigned broken : Reply
  answered : ℕ → Reply

-- The end that an attempt makes of the loop, if it makes one; the first argument are the statuses that
-- are taken for a success.
unfoldable pub verdict : (ℕ → Bool) → Reply → Option (S3Result (Unit {0}))
unfolding is_transient
verdict accepted unsigned = some (failure sign)
verdict accepted broken = some (failure http)
verdict accepted (answered status) =
    if accepted status
    then some (success tt)
    else if is_transient status
    then none
    else some (failure (permanent status))

-- The loop from the attempt `n` on, with the delays that are left. It gives the delays that it slept,
-- too.
unfoldable pub send : (ℕ → Bool) → (ℕ → Reply) → List ℕ → ℕ → List ℕ × S3Result (Unit {0})
unfolding verdict
send accepted replies [] n = ([], unwrap_or (verdict accepted (replies n)) (failure transient))
send accepted replies (d ∷ ds) n =
    let rest = send accepted replies ds (suc n) in
    elim (verdict accepted (replies n)) [ some r ↦ ([], r) | none ↦ (d ∷ rest.0, rest.1) ]

abbrev pub with_url : Text → S3Result (Unit {0}) → S3Result Text
with_url url (failure e) = failure e
with_url url (success u) = success url

-- The replies of the transport are those to the requests for `url_for (full_key key)`.
unfoldable pub put : S3Config → Text → (ℕ → Reply) → List ℕ × S3Result Text
unfolding send is_success public_url_for_key
put cfg key replies =
    let (slept, r) = send is_success replies retry_delays 0 in
    (slept, with_url (public_url_for_key cfg key) r)

-- `status == StatusCode::NOT_FOUND` is a success of a deletion.
unfoldable pub deleted : ℕ → Bool
unfolding is_success
deleted status = is_success status || status == 404

unfoldable pub delete : (ℕ → Reply) → List ℕ × S3Result (Unit {0})
unfolding send deleted
delete replies = send deleted replies retry_delays 0
