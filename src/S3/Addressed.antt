-- ===== src/S3/Addressed.antt =====
-- What `sign_request` of crates/paur-s3/src/lib.rs signs for an object, in the two styles of addresses.
use paur.Prelude.{
  ℕ, ◌≡◌, refl, sym, ap, subst, ◌∙◌, true, false, Option, none, some, List, [], ◌∷◌, ◌++◌, ◌==◌,
  arith, inl, inr, Bool-cases, if◌then◌else◌, All, any, unwrap_or,
}
use mathlib.Core.List.{append_assoc}
use paur.Prelude.Text.{Text, codes, trim, trim_start_by, trim_end_by, lowercase}
use paur.Prelude.Splitting.{split_at, split_once, strip_prefix}
use paur.S3.{S3Config, success, url_for, virtual_hosted, is_slash}
use paur.S3.Signing.{
  Hashes, Stamp, SignedRequest, url_host, split_uri_query, canonical_uri, headers_to_sign,
  canonical_request, authorization, derive_signing_key, sort_headers, insert_header, text_ltb,
  sign_request,
}

-- No character of a text is `c`.
abbrev pub Without : ℕ → Text → Type 0
Without c s = All (λ x. (x == c) ≡ false) s

pub without : (c : ℕ) (s : Text) → any (λ x. x == c) s ≡ false → Without c s
without c [] h = tt
without c (x ∷ s) h = (ground arith, without c s (ground arith))

split_once-append : (c : ℕ) (s t : Text) → Without c s → split_once c (s ++ c ∷ t) ≡ some (s, t)
unfolding split_once
split_once-append c [] t h = let here : (c == c) ≡ true = ground arith in rw here refl
split_once-append c (x ∷ s) t h = rw (h.0, split_once-append c s t h.1) refl

split_once-none : (c : ℕ) (s : Text) → Without c s → split_once c s ≡ none
unfolding split_once
split_once-none c [] h = refl
split_once-none c (x ∷ s) h = rw (h.0, split_once-none c s h.1) refl

split_at-scheme :
    (s t : Text) → Without b':' s → split_at (codes "://") (s ++ codes "://" ++ t) ≡ some (s, t)
unfolding split_at strip_prefix
split_at-scheme [] t h = refl
split_at-scheme (x ∷ s) t h = rw (h.0, split_at-scheme s t h.1) refl

-- The parts of an address `scheme://host/path`.
url_parts :
    (scheme host path : Text)
    → Without b':' scheme
    → Without b'/' host
    → Without b'?' (host ++ b'/' ∷ path)
    → (url_host (scheme ++ codes "://" ++ (host ++ b'/' ∷ path)) ≡ success (lowercase host))
      × (split_uri_query (scheme ++ codes "://" ++ (host ++ b'/' ∷ path))
          ≡ success (b'/' ∷ path, []))
unfolding url_host split_uri_query
url_parts scheme host path plain slashless unasked =
    let rest = host ++ b'/' ∷ path in
    let scheme_cut = split_at-scheme scheme rest plain in
    let host_cut = split_once-append b'/' host path slashless in
    let query_cut = split_once-none b'?' rest unasked in
    (
      rw (scheme_cut, host_cut, url_host) refl,
      rw (scheme_cut, host_cut, query_cut, split_uri_query)
          (ap (λ (c : Option (Text × Text)). success (canonical_uri c, [])) host_cut),
    )

path_style_assoc :
    (x host bucket key : Text)
    → x ++ host ++ codes "/" ++ bucket ++ codes "/" ++ key
      ≡ x ++ (host ++ b'/' ∷ (bucket ++ b'/' ∷ key))
path_style_assoc x host bucket key =
    append_assoc (x ++ host ++ codes "/" ++ bucket) (codes "/") key
    ∙ append_assoc (x ++ host ++ codes "/") bucket (b'/' ∷ key)
    ∙ append_assoc (x ++ host) (codes "/") (bucket ++ b'/' ∷ key)
    ∙ append_assoc x host (b'/' ∷ (bucket ++ b'/' ∷ key))

virtual_hosted_assoc :
    (x bucket host key : Text)
    → x ++ bucket ++ codes "." ++ host ++ codes "/" ++ key
      ≡ x ++ ((bucket ++ codes "." ++ host) ++ b'/' ∷ key)
virtual_hosted_assoc x bucket host key =
    append_assoc (x ++ bucket ++ codes "." ++ host) (codes "/") key
    ∙ ap (λ y. y ++ host ++ b'/' ∷ key) (append_assoc x bucket (codes "."))
    ∙ ap (λ y. y ++ b'/' ∷ key) (append_assoc x (bucket ++ codes ".") host)
    ∙ append_assoc x (bucket ++ codes "." ++ host) (b'/' ∷ key)

-- The host and the path under which an object is found.
abbrev pub object_host : S3Config → Text → Text
object_host cfg host = if cfg.path_style then host else cfg.bucket ++ codes "." ++ host

abbrev pub object_path : S3Config → Text → Text
object_path cfg key = if cfg.path_style then cfg.bucket ++ b'/' ∷ key else key

-- The address of an object, in both styles.
url_for-parts :
    (cfg : S3Config) (raw scheme host : Text)
    → trim_end_by is_slash (unwrap_or cfg.endpoint (codes "https://s3.amazonaws.com"))
      ≡ scheme ++ codes "://" ++ host
    → Without b':' scheme
    → url_for cfg raw
      ≡ scheme
        ++ codes "://"
        ++ (object_host cfg host ++ b'/' ∷ object_path cfg (trim_start_by is_slash raw))
unfolding url_for virtual_hosted
url_for-parts cfg raw scheme host at plain = elim (Bool-cases cfg.path_style) [
  | inl e ↦
      rw (e, at, url_for)
        (path_style_assoc (scheme ++ codes "://") host cfg.bucket (trim_start_by is_slash raw))
  | inr e ↦
      rw (e, at, split_at-scheme scheme host plain, url_for)
        (virtual_hosted_assoc (scheme ++ codes "://") cfg.bucket host (trim_start_by is_slash raw))
]

-- The host and the path that are read from the address of an object are those of the object.
url_for-signed :
    (cfg : S3Config) (raw scheme host : Text)
    → trim_end_by is_slash (unwrap_or cfg.endpoint (codes "https://s3.amazonaws.com"))
      ≡ scheme ++ codes "://" ++ host
    → Without b':' scheme
    → Without b'/' (object_host cfg host)
    → Without b'?' (object_host cfg host ++ b'/' ∷ object_path cfg (trim_start_by is_slash raw))
    → (url_host (url_for cfg raw) ≡ success (lowercase (object_host cfg host)))
      × (split_uri_query (url_for cfg raw)
          ≡ success (b'/' ∷ object_path cfg (trim_start_by is_slash raw), []))
url_for-signed cfg raw scheme host at plain slashless unasked =
    let path = object_path cfg (trim_start_by is_slash raw) in
    subst
      (λ url.
        (url_host url ≡ success (lowercase (object_host cfg host)))
        × (split_uri_query url ≡ success (b'/' ∷ path, [])))
      (sym (url_for-parts cfg raw scheme host at plain))
      (url_parts scheme (object_host cfg host) path plain slashless unasked)

-- The request in the form of version 4 of the signatures of AWS, written out, for a method, an address, a
-- content type, a host, a path without a query and the hash of the body.
abbrev pub object_request :
    Hashes → Stamp → S3Config → Text → Text → Text → Text → Text → Text → SignedRequest
object_request h now cfg method url content_type host path payload_hash =
    let signed = codes "content-type;host;x-amz-content-sha256;x-amz-date" in
    let canonical =
      method
      ++ codes "\n"
      ++ path
      ++ codes "\n"
      ++ []
      ++ codes "\n"
      ++ ((codes "content-type:" ++ trim content_type)
          ++ codes "\n"
          ++ ((codes "host:" ++ trim host)
              ++ codes "\n"
              ++ ((codes "x-amz-content-sha256:" ++ trim payload_hash)
                  ++ codes "\n"
                  ++ (codes "x-amz-date:" ++ trim now.amz_date))))
      ++ codes "\n\n"
      ++ signed
      ++ codes "\n"
      ++ payload_hash in
    let scope = now.date_stamp ++ codes "/" ++ cfg.region ++ codes "/s3/aws4_request" in
    let to_sign =
      codes "AWS4-HMAC-SHA256\n"
      ++ now.amz_date
      ++ codes "\n"
      ++ scope
      ++ codes "\n"
      ++ h.hex_encode (h.digest (h.as_bytes canonical)) in
    let key =
      h.hmac
        (h.hmac
          (h.hmac (h.hmac (h.as_bytes (codes "AWS4" ++ cfg.secret_key)) now.date_stamp) cfg.region)
          (codes "s3"))
        (codes "aws4_request") in
    record {
      method = method;
      url = url;
      headers =
          (codes "content-type", content_type)
          ∷ (codes "host", host)
          ∷ (codes "x-amz-content-sha256", payload_hash)
          ∷ (codes "x-amz-date", now.amz_date)
          ∷ (
            codes "authorization",
            codes "AWS4-HMAC-SHA256 Credential="
                ++ cfg.access_key
                ++ codes "/"
                ++ scope
                ++ codes ", SignedHeaders="
                ++ signed
                ++ codes ", Signature="
                ++ h.hex_encode (h.hmac key to_sign),
          )
          ∷ [];
    }

-- The request for an object is always signed, in the form of version 4 of the signatures of AWS, for
-- the host of the object in lower case and the path of the object as it is, nothing percent-encoded and
-- without a query: with the endpoint `scheme://host`, slashes at its end aside, the host and the path
-- `/bucket/key` in the path style, and the host with the bucket in front and the path `/key` in the
-- other style, if the scheme has no colon, the host and the bucket no slash and nothing a question mark.
-- It goes to the address of the object.
pub sign_request-object :
    (h : Hashes) (now : Stamp) (cfg : S3Config) (method raw content_type scheme host : Text)
    (body : List ℕ)
    → trim_end_by is_slash (unwrap_or cfg.endpoint (codes "https://s3.amazonaws.com"))
      ≡ scheme ++ codes "://" ++ host
    → Without b':' scheme
    → Without b'/' (object_host cfg host)
    → Without b'?' (object_host cfg host ++ b'/' ∷ object_path cfg (trim_start_by is_slash raw))
    → sign_request h now cfg method (url_for cfg raw) content_type body
      ≡ success (
          object_request h now cfg method
            (url_for cfg raw)
            content_type
            (lowercase (object_host cfg host))
            (b'/' ∷ object_path cfg (trim_start_by is_slash raw))
            (h.hex_encode (h.digest body)))
unfolding sign_request headers_to_sign canonical_request authorization derive_signing_key
    sort_headers insert_header text_ltb
sign_request-object h now cfg method raw content_type scheme host body at plain slashless unasked =
    let (host_read, path_read) = url_for-signed cfg raw scheme host at plain slashless unasked in
    rw (host_read, path_read, sign_request) refl
