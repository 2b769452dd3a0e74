-- ===== src/S3/Bucket.antt =====
-- src/simples3/s3.rs: the requests of a `Bucket`; src/cache/s3.rs: `normalize_key`, and the `Storage`
-- over it.
use sccache.Prelude.{
  ℕ, Text, codes, List, [], ◌∷◌, ◌++◌, Option, none, some, Bool, false, if◌then◌else◌, leb, ltb,
  ◌&&◌, ◌>>=◌, decimal, length,
}
use sccache.Cache.{Bytes, CacheEntry, ZipCodec, Lookup, hit, miss, failed}
use sccache.S3.Credentials.{AwsCredentials}

pub data Ssl : Type 0 where
  yes_ssl no_ssl : Ssl

unfoldable pub base_url : Text → Ssl → Text
base_url endpoint yes_ssl = codes "https" ++ codes "://" ++ endpoint ++ codes "/"
base_url endpoint no_ssl = codes "http" ++ codes "://" ++ endpoint ++ codes "/"

-- A header line of the string that is signed.
abbrev header_line : Text → Text → Text
header_line name value = name ++ codes ":" ++ value ++ codes "\n"

-- The headers of `put` that are signed, each with its value, sorted.
unfoldable pub signed_headers : Option Text → List (Text × Text)
signed_headers none = (codes "x-amz-storage-class", codes "REDUCED_REDUNDANCY") ∷ []
signed_headers (some token) =
    (codes "x-amz-security-token", token)
    ∷ (codes "x-amz-storage-class", codes "REDUCED_REDUNDANCY")
    ∷ []

unfoldable pub canonical_headers : List (Text × Text) → Text
canonical_headers [] = []
canonical_headers ((name, value) ∷ headers) = header_line name value ++ canonical_headers headers

-- What `auth` signs.
unfoldable pub string_to_sign : Text → Text → Text → Text → Text → Text → Text → Text
string_to_sign name verb date path md5 headers content_type =
    verb
    ++ codes "\n"
    ++ md5
    ++ codes "\n"
    ++ content_type
    ++ codes "\n"
    ++ date
    ++ codes "\n"
    ++ headers
    ++ codes "/"
    ++ name
    ++ codes "/"
    ++ path

-- A `PUT` request.
pub record Put : Type 0 where
  pub url : Text
  pub headers : List (Text × Text)
  pub content : Bytes

pub record Bucket : Type 0 where
  pub name : Text
  pub base : Text

-- `Bucket::new`
unfoldable pub new : Text → Text → Ssl → Bucket
unfolding base_url
new name endpoint ssl = record { name = name; base = base_url endpoint ssl }

unfoldable pub url_of : Bucket → Text → Text
url_of bucket key = bucket.base ++ key

-- The status and the body of a response, if there is one.
pub record Response : Type 0 where
  pub status : ℕ
  pub body : Bytes

unfoldable pub is_success : ℕ → Bool
is_success status = leb 200 status && ltb status 300

-- `signature` is the HMAC of SHA-1 in base 64, of a text under a key.
module _ (signature : Text → Text → Text) where
  unfoldable pub auth : Bucket → Text → Text → Text → Text → Text → Text → AwsCredentials → Text
  unfolding string_to_sign
  auth bucket verb date path md5 headers content_type creds =
      codes "AWS "
      ++ creds.key
      ++ codes ":"
      ++ signature (string_to_sign bucket.name verb date path md5 headers content_type) creds.secret

  -- The request of `put`, at a date.
  unfoldable pub put_request : Bucket → Text → Text → Bytes → AwsCredentials → Put
  unfolding signed_headers canonical_headers auth url_of
  put_request bucket date key content creds =
      let signed = signed_headers creds.token in
      let content_type = codes "application/octet-stream" in
      record {
        url = url_of bucket key;
        headers =
            signed
            ++ (codes "Date", date)
              ∷ (codes "Content-Type", content_type)
              ∷ (codes "Content-Length", decimal (length content))
              ∷ (codes "Cache-Control", codes "max-age=1296000")
              ∷ (
                codes "Authorization",
                auth bucket (codes "PUT") date key [] (canonical_headers signed) content_type creds,
              )
              ∷ [];
        content = content;
      }

-- The result of `get`: the body of a successful response.
unfoldable pub body_of : Option Response → Option Bytes
unfolding is_success
body_of none = none
body_of (some r) = if is_success r.status then some r.body else none

-- Whether a `put` is answered with success.
unfoldable pub was_put : Option Response → Bool
unfolding is_success
was_put none = false
was_put (some r) = is_success r.status

-- `normalize_key`; `none` is the panic of the slices.
unfoldable pub normalize_key : Text → Option Text
normalize_key (a ∷ b ∷ c ∷ key) =
    some (a ∷ codes "/" ++ b ∷ codes "/" ++ c ∷ codes "/" ++ a ∷ b ∷ c ∷ key)
normalize_key [] = none
normalize_key (a ∷ []) = none
normalize_key (a ∷ b ∷ []) = none

-- `S3Cache::get`, with the answer to the request for a URL: an error of the network or of the server
-- is a miss; `none` is a panic.
module _ (zip : ZipCodec) (bucket : Bucket) where
  unfoldable pub read_body : Option Bytes → Lookup
  read_body none = miss
  read_body (some bytes) = elim (zip.from bytes) [ none ↦ failed | some entry ↦ hit entry ]

  unfoldable pub get : (Text → Option Response) → Text → Option Lookup
  unfolding normalize_key url_of body_of read_body
  get answer key = do
    path ← normalize_key key
    some (read_body (body_of (answer (url_of bucket path))))

  -- `S3Cache::finish_put`, with what the provider gives: the request that is sent. The outer `none`
  -- is a panic, the inner one an error; the entry is stored if the answer to the request is success.
  module _ (signature : Text → Text → Text) where
    unfoldable pub finish_put :
        Text → Option AwsCredentials → Text → CacheEntry → Option (Option Put)
    unfolding normalize_key put_request
    finish_put date creds key entry = do
      path ← normalize_key key
      some (do
        bytes ← zip.finish entry
        c ← creds
        some (put_request signature bucket date path bytes c))
