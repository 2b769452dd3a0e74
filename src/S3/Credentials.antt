-- ===== src/S3/Credentials.antt =====
-- src/simples3/credential.rs: `AwsCredentials`, the providers and the wrapper that keeps what they
-- provide. Times are in seconds.
use sccache.Prelude.{
  ℕ, suc, ◌+◌, ◌≤◌, Text, List, [], ◌∷◌, ◌≡◌, refl, sym, subst, ◌⊎◌, inl, inr, Option, none, some,
  Bool-cases, Bool, true, false, ◌&&◌, ◌||◌, if◌then◌else◌, is_nonempty, ltb, not_ltb→le, not,
  ◌>>=◌, All,
}

pub record AwsCredentials : Type 0 where
  pub key : Text
  pub secret : Text
  pub token : Option Text
  pub expires_at : ℕ

unfoldable pub credentials_are_expired : ℕ → AwsCredentials → Bool
credentials_are_expired now c = ltb c.expires_at (now + 20)

unfoldable pub in_ten_minutes : ℕ → ℕ
in_ten_minutes now = now + 600

-- AWS_SESSION_TOKEN
unfoldable pub session_token : Option Text → Option Text
session_token none = none
session_token (some val) = if is_nonempty val then some val else none

-- `credentials_from_environment`, with AWS_ACCESS_KEY_ID, AWS_SECRET_ACCESS_KEY and
-- AWS_SESSION_TOKEN; `none` is an error.
unfoldable pub credentials_from_environment :
    ℕ → Option Text → Option Text → Option Text → Option AwsCredentials
unfolding session_token in_ten_minutes
credentials_from_environment now key_var secret_var token_var = do
  key ← key_var
  secret ← secret_var
  if not (is_nonempty key) || not (is_nonempty secret)
      then none
      else some (record {
        key = key;
        secret = secret;
        token = session_token token_var;
        expires_at = in_ten_minutes now;
      })

-- `AutoRefreshingProvider`: which fetch it keeps, and whether that has resolved.
pub record AutoRefreshingProvider : Type 0 where
  pub fetched : ℕ
  pub resolved : Bool

unfoldable pub new_provider : AutoRefreshingProvider
new_provider = record { fetched = 0; resolved = false }

-- The credentials that a fetch brings, by the number of the fetch; `none` is an error.
module _ (fetch : ℕ → Option AwsCredentials) where
  unfoldable pub is_stale : ℕ → Option AwsCredentials → Bool
  unfolding credentials_are_expired
  is_stale now none = false
  is_stale now (some c) = credentials_are_expired now c

  -- `credentials`, at a time, with whether a fetch that was under way is ready when it is polled:
  -- what the provider keeps after the wait, and the result.
  unfoldable pub credentials :
      ℕ → Bool → AutoRefreshingProvider → AutoRefreshingProvider × Option AwsCredentials
  unfolding is_stale
  credentials now is_ready p =
      let stale = (p.resolved || is_ready) && is_stale now (fetch p.fetched) in
      let n = if stale then suc p.fetched else p.fetched in
      (record { fetched = n; resolved = true }, fetch n)

  -- A row of calls, each with its time and whether the fetch was ready, and the results.
  unfoldable pub accesses : AutoRefreshingProvider → List (ℕ × Bool) → List (Option AwsCredentials)
  unfolding credentials
  accesses p [] = []
  accesses p ((now, is_ready) ∷ calls) =
      let (p', result) = credentials now is_ready p in result ∷ accesses p' calls

  never_stale : (b : Bool) (now : ℕ) → (b && is_stale now none) ≡ false
  unfolding is_stale
  never_stale true now = refl
  never_stale false now = refl

  credentials-failed :
      (p : AutoRefreshingProvider) (now : ℕ) (is_ready : Bool)
      → fetch p.fetched ≡ none
      → credentials now is_ready p ≡ (record { fetched = p.fetched; resolved = true }, none)
  unfolding credentials
  credentials-failed p now is_ready h = rw (h, never_stale (p.resolved || is_ready) now, h) refl

  -- Once a fetch has failed, its error is the answer of every later call, whenever it comes: an
  -- error does not expire, and nothing is fetched again.
  pub accesses-failed :
      (p : AutoRefreshingProvider) (calls : List (ℕ × Bool))
      → fetch p.fetched ≡ none
      → All (λ r. r ≡ none) (accesses p calls)
  unfolding accesses
  accesses-failed p [] h = tt
  accesses-failed p ((now, is_ready) ∷ calls) h =
      subst (λ r. All (λ x. x ≡ none) (r.1 ∷ accesses r.0 calls))
        (sym (credentials-failed p now is_ready h))
        (refl, accesses-failed (record { fetched = p.fetched; resolved = true }) calls h)

  -- What a call provides once the provider has been answered is good for twenty seconds more, or has
  -- just been fetched, by the only fetch of that call.
  pub credentials-fresh :
      (p : AutoRefreshingProvider) (now : ℕ) (is_ready : Bool) (c : AwsCredentials)
      → p.resolved ≡ true
      → (credentials now is_ready p).1 ≡ some c
      → ((now + 20 ≤ c.expires_at) × ((credentials now is_ready p).0.fetched ≡ p.fetched))
        ⊎ (((credentials now is_ready p).0.fetched ≡ suc p.fetched)
            × (fetch (suc p.fetched) ≡ some c))
  unfolding credentials is_stale credentials_are_expired
  credentials-fresh p now is_ready c h e = elim (Bool-cases (is_stale now (fetch p.fetched))) [
    | inl stale ↦ inr (rw (h, stale) refl, (rw (h, stale) at e))
    | inr good ↦
        let same : fetch p.fetched ≡ some c = (rw (h, good) at e) in
        let lasts : ltb c.expires_at (now + 20) ≡ false = (rw same at good) in
        inl (not_ltb→le c.expires_at (now + 20) lasts, rw (h, good) refl)
  ]
