-- ===== src/Cache/Collisions.antt =====
-- What the key of `get_cached_or_compile` tells apart, and what it does not.
use sccache.Prelude.{
  ℕ, Text, text_eq, text_eq_iff, List, [], ◌∷◌, ◌++◌, ◌≡◌, ◌≢◌, refl, ◌∙◌, ap, sym, Option, false,
  length, length-append, append_assoc, arith, Bool-cases, ◌⊎◌, inl, inr, ne_of_text_eq,
}
use sccache.Compiler.{ParsedArguments, output_file}
use sccache.Cache.Key.{
  cache_version, cached_env_vars, env_bytes, hash_input, hash_key, joined_args, cache_key,
}

append-inj : (a b : Text) {x y : Text} → length a ≡ length b → a ++ x ≡ b ++ y → (a ≡ b) × (x ≡ y)
append-inj [] [] h e = (refl, e)
append-inj [] (c ∷ b) h e = absurd (omega (arith, h))
append-inj (c ∷ a) [] h e = absurd (omega (arith, h))
append-inj (c ∷ a) (d ∷ b) {x} {y} h e =
    let rest = append-inj a b {x = x} {y = y} (omega (arith, h)) (tails e) in (cc, rest.1)
  where
    tails : {u v : ℕ} {us vs : Text} → u ∷ us ≡ v ∷ vs → us ≡ vs
    tails q = cc

-- Two different texts with one digest.
abbrev pub Collision : (Text → Text) → Type 0
Collision sha1 = (x : Text) × (y : Text) × (x ≢ y) × (sha1 x ≡ sha1 y)

equal_lengths : (a b c : Text) → length a ≡ length b → length (a ++ c) ≡ length (b ++ c)
equal_lengths a b c h = omega (arith, h, length-append a c, length-append b c)

hash_input-inj :
    (digest digest' arguments pre pre' : Text) (env : Text → Option Text)
    → length digest ≡ length digest'
    → hash_input digest env arguments pre ≡ hash_input digest' env arguments pre'
    → (digest ≡ digest') × (pre ≡ pre')
unfolding hash_input
hash_input-inj digest digest' arguments pre pre' env h e =
    let versions = equal_lengths digest digest' cache_version h in
    let args =
      equal_lengths (digest ++ cache_version) (digest' ++ cache_version) arguments versions in
    let vars = env_bytes env cached_env_vars in
    let whole =
      append-inj (digest ++ cache_version ++ arguments ++ vars)
        (digest' ++ cache_version ++ arguments ++ vars)
        (equal_lengths (digest ++ cache_version ++ arguments)
          (digest' ++ cache_version ++ arguments) vars args)
        e in
    let with_args =
      append-inj (digest ++ cache_version ++ arguments) (digest' ++ cache_version ++ arguments) args
        whole.0 in
    let with_version =
      append-inj (digest ++ cache_version) (digest' ++ cache_version) versions with_args.0 in
    ((append-inj digest digest' h with_version.0).0, whole.1)

-- For one command line and one environment, two calls whose compilers' digests have the same length
-- have the same key only if the compilers and the preprocessor outputs are the same, or else sha1
-- has a collision.
pub cache_key_inj :
    (sha1 : Text → Text) (env : Text → Option Text) (p : ParsedArguments)
    (digest digest' pre pre' : Text)
    → length digest ≡ length digest'
    → cache_key sha1 digest env p pre ≡ cache_key sha1 digest' env p pre'
    → ((digest ≡ digest') × (pre ≡ pre')) ⊎ Collision sha1
unfolding cache_key hash_key
cache_key_inj sha1 env p digest digest' pre pre' h e =
    let arguments = joined_args (output_file p) p.common_args in
    let x = hash_input digest env arguments pre in
    let y = hash_input digest' env arguments pre' in
    elim (Bool-cases (text_eq x y)) [
      | inl same ↦
          inl (hash_input-inj digest digest' arguments pre pre' env h ((text_eq_iff x y).0 same))
      | inr differ ↦ inr (x, y, ne_of_text_eq x y differ, e)
    ]

joined_args-append :
    (o : Text) (xs ys : List Text) → joined_args o (xs ++ ys) ≡ joined_args o xs ++ joined_args o ys
unfolding joined_args
joined_args-append o [] ys = refl
joined_args-append o (x ∷ xs) ys = elim (Bool-cases (text_eq x o)) [
  | inl same ↦ rw same (joined_args-append o xs ys)
  | inr differ ↦
      rw (differ, joined_args-append o xs ys)
        (sym (append_assoc x (joined_args o xs) (joined_args o ys)))
]

-- For any sha1, the key does not tell where one argument ends and the next begins: two neighbours, and the one
-- argument that they make when joined, give the same key, if none of the three is the name of the
-- object file.
pub cache_key_joined :
    (sha1 : Text → Text) (digest : Text) (env : Text → Option Text) (p : ParsedArguments)
    (before after : List Text) (a b pre : Text)
    → text_eq a (output_file p) ≡ false
    → text_eq b (output_file p) ≡ false
    → text_eq (a ++ b) (output_file p) ≡ false
    → cache_key sha1 digest env (record p { common_args = before ++ a ∷ b ∷ after }) pre
      ≡ cache_key sha1 digest env (record p { common_args = before ++ (a ++ b) ∷ after }) pre
unfolding cache_key output_file joined_args
cache_key_joined sha1 digest env p before after a b pre ha hb hab =
    ap (λ args. sha1 (digest ++ cache_version ++ args ++ env_bytes env cached_env_vars ++ pre))
      (joined_args-append (output_file p) before (a ∷ b ∷ after)
        ∙ (rw (ha, hb, hab, append_assoc a b (joined_args (output_file p) after)))
        ∙ sym (joined_args-append (output_file p) before ((a ++ b) ∷ after)))
