-- ===== src/S3/Signing.antt =====
-- `sign_request` of crates/paur-s3/src/lib.rs, by version 4 of the signatures of AWS.
use paur.Prelude.{
  ℕ, Bool, true, false, ◌||◌, ◌&&◌, Option, none, some, List, [], ◌∷◌, ◌++◌, map, ◌==◌, ltb,
  if◌then◌else◌,
}
use paur.Prelude.Text.{Text, codes, trim, lowercase}
use paur.Prelude.Splitting.{split_at, split_once}
use paur.S3.{S3Config, sign, S3Result, failure, success}

-- The crates sha2, hmac and hex, and the bytes of a text.
pub record Hashes : Type 0 where
  pub digest : List ℕ → List ℕ
  pub hmac : List ℕ → Text → List ℕ
  pub hex_encode : List ℕ → Text
  pub as_bytes : Text → List ℕ

-- `format` of the clock, as `%Y%m%dT%H%M%SZ` and `%Y%m%d`.
pub record Stamp : Type 0 where
  pub amz_date : Text
  pub date_stamp : Text

pub record SignedRequest : Type 0 where
  pub method : Text
  pub url : Text
  pub headers : List (Text × Text)

-- `(h, _)`, or all of it
abbrev pub left_or : Text → Option (Text × Text) → Text
left_or s none = s
left_or s (some (h, _)) = h

unfoldable pub url_host : Text → S3Result Text
unfolding split_at split_once lowercase
url_host url = elim (split_at (codes "://") url) [
  | none ↦ failure sign
  | some (scheme, after_scheme) ↦
      success (lowercase (left_or after_scheme (split_once b'/' after_scheme)))
]

abbrev pub query_of : Option (Text × Text) → Text
query_of none = []
query_of (some (_, query)) = query

abbrev pub canonical_uri : Option (Text × Text) → Text
canonical_uri none = codes "/"
canonical_uri (some (_, p)) = b'/' ∷ p

unfoldable pub split_uri_query : Text → S3Result (Text × Text)
unfolding split_at split_once
split_uri_query url = elim (split_at (codes "://") url) [
  | none ↦ failure sign
  | some (scheme, rest) ↦ elim (split_once b'/' rest) [
    | none ↦ failure sign
    | some (host, path_and_query) ↦
        let cut = split_once b'?' rest in
        success (canonical_uri (split_once b'/' (left_or rest cut)), query_of cut)
  ]
]

-- The order of texts.
unfoldable pub text_ltb : Text → Text → Bool
text_ltb s [] = false
text_ltb [] (d ∷ t) = true
text_ltb (c ∷ s) (d ∷ t) = let rest = text_ltb s t in ltb c d || (c == d && rest)

-- `sort_by`, which is stable
unfoldable pub insert_header : Text × Text → List (Text × Text) → List (Text × Text)
unfolding text_ltb
insert_header h [] = h ∷ []
insert_header h (g ∷ gs) =
    let rest = insert_header h gs in if text_ltb g.0 h.0 then g ∷ rest else h ∷ g ∷ gs

unfoldable pub sort_headers : List (Text × Text) → List (Text × Text)
unfolding insert_header
sort_headers [] = []
sort_headers (h ∷ hs) = insert_header h (sort_headers hs)

-- `join`
abbrev pub joined_by : Text → List Text → Text
joined_by sep [] = []
joined_by sep (w ∷ []) = w
joined_by sep (w ∷ v ∷ ws) = w ++ sep ++ joined_by sep (v ∷ ws)

unfoldable pub headers_to_sign : Text → Text → Text → Text → List (Text × Text)
unfolding sort_headers
headers_to_sign host payload_hash amz_date content_type = sort_headers (
    (codes "host", host)
    ∷ (codes "x-amz-content-sha256", payload_hash)
    ∷ (codes "x-amz-date", amz_date)
    ∷ (codes "content-type", content_type)
    ∷ [])

unfoldable pub canonical_request : Text → Text × Text → List (Text × Text) → Text → Text
unfolding trim
canonical_request method (uri, query) headers payload_hash =
    method
    ++ codes "\n"
    ++ uri
    ++ codes "\n"
    ++ query
    ++ codes "\n"
    ++ joined_by (codes "\n") (map (λ h. h.0 ++ codes ":" ++ trim h.1) headers)
    ++ codes "\n\n"
    ++ joined_by (codes ";") (map (λ h. h.0) headers)
    ++ codes "\n"
    ++ payload_hash

unfoldable pub derive_signing_key : Hashes → Text → Text → Text → Text → List ℕ
derive_signing_key h secret date_stamp region service =
    let k_date = h.hmac (h.as_bytes (codes "AWS4" ++ secret)) date_stamp in
    let k_region = h.hmac k_date region in
    let k_service = h.hmac k_region service in h.hmac k_service (codes "aws4_request")

unfoldable pub authorization : Hashes → Stamp → S3Config → List (Text × Text) → Text → Text
unfolding derive_signing_key
authorization h now cfg headers request =
    let credential_scope = now.date_stamp ++ codes "/" ++ cfg.region ++ codes "/s3/aws4_request" in
    let string_to_sign =
      codes "AWS4-HMAC-SHA256\n"
      ++ now.amz_date
      ++ codes "\n"
      ++ credential_scope
      ++ codes "\n"
      ++ h.hex_encode (h.digest (h.as_bytes request)) in
    let signing_key = derive_signing_key h cfg.secret_key now.date_stamp cfg.region (codes "s3") in
    let signature = h.hex_encode (h.hmac signing_key string_to_sign) in
    codes "AWS4-HMAC-SHA256 Credential="
    ++ cfg.access_key
    ++ codes "/"
    ++ credential_scope
    ++ codes ", SignedHeaders="
    ++ joined_by (codes ";") (map (λ h. h.0) headers)
    ++ codes ", Signature="
    ++ signature

unfoldable pub sign_request :
    Hashes → Stamp → S3Config → Text → Text → Text → List ℕ → S3Result SignedRequest
unfolding url_host split_uri_query headers_to_sign canonical_request authorization
sign_request h now cfg method url content_type body = elim (url_host url) [
  | failure e ↦ failure e
  | success host ↦ elim (split_uri_query url) [
    | failure e ↦ failure e
    | success parts ↦
        let payload_hash = h.hex_encode (h.digest body) in
        let headers = headers_to_sign host payload_hash now.amz_date content_type in
        let request = canonical_request method parts headers payload_hash in
        success (record {
          method = method;
          url = url;
          headers =
              headers ++ (codes "authorization", authorization h now cfg headers request) ∷ [];
        })
  ]
]
