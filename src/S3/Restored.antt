-- ===== src/S3/Restored.antt =====
-- What the store on S3 of src/cache/s3.rs finds again.
use sccache.Prelude.{
  Text, ◌≡◌, refl, sym, ap, ◌∙◌, Option, none, some, Option-cases, inl, inr, true, ◌>>=◌,
}
use sccache.Cache.{CacheEntry, ZipCodec, hit}
use sccache.S3.Credentials.{AwsCredentials}
use sccache.S3.Bucket.{
  Bucket, Put, Response, put_request, url_of, normalize_key, is_success, body_of, read_body, get,
  finish_put,
}

module _ (zip : ZipCodec) (bucket : Bucket) (signature : Text → Text → Text) where
  no_request : {q : Put} → ◌≡◌ {A = Option (Option Put)} none (some (some q)) → ⊥
  no_request h = cc

  no_put : {q : Put} → ◌≡◌ {A = Option (Option Put)} (some none) (some (some q)) → ⊥
  no_put h = cc

  same_put : {p q : Put} → ◌≡◌ {A = Option (Option Put)} (some (some p)) (some (some q)) → p ≡ q
  same_put h = cc

  -- An entry that `finish_put` sends is what `get` finds under the same key, if the server answers the
  -- URL that it was sent to with success and with the content that it was sent.
  pub get-finish_put_s3 :
      (answer : Text → Option Response) (date key : Text) (creds : Option AwsCredentials)
      (entry : CacheEntry) (put : Put) (r : Response)
      → finish_put zip bucket signature date creds key entry ≡ some (some put)
      → answer put.url ≡ some r
      → is_success r.status ≡ true
      → r.body ≡ put.content
      → get zip bucket answer key ≡ some (hit entry)
  unfolding get finish_put body_of read_body put_request
  get-finish_put_s3 answer date key creds entry put r h a good same =
      elim (Option-cases (normalize_key key)) [
        | inl short ↦ absurd (no_request (rw (short, ◌>>=◌) at h))
        | inr (path, q) ↦ elim (Option-cases (zip.finish entry)) [
          | inl unzipped ↦ absurd (no_put (rw (q, ◌>>=◌, unzipped) at h))
          | inr (bytes, z) ↦ elim (Option-cases creds) [
            | inl nobody ↦ absurd (no_put (rw (q, ◌>>=◌, z, nobody) at h))
            | inr (c, w) ↦
                let sent : put_request signature bucket date path bytes c ≡ put =
                  same_put (rw (q, ◌>>=◌, z, w) at h) in
                let found : answer (url_of bucket path) ≡ some r =
                  ap (λ p. answer p.url) sent ∙ a in
                let content : r.body ≡ bytes = same ∙ ap (λ p. p.content) (sym sent) in
                let back : zip.from bytes ≡ some entry = zip.from-finish entry bytes z in
                rw (q, ◌>>=◌, found, good, content, back) refl
          ]
        ]
      ]
