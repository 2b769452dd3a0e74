-- ===== src/Server/Frames.antt =====
-- What `ProtobufCodec` of src/server.rs makes of a stream of requests, however it is cut.
use sccache.Prelude.{
  ℕ, zero, suc, ◌<◌, text_eq, codes, List, [], ◌∷◌, ◌++◌, ◌≡◌, ◌≢◌, refl, sym, ap, ◌∙◌, ◌⊎◌, inl,
  inr, some, true, length, length-append, append_assoc, append-nil, leb, le→leb, arith, All,
}
use sccache.Protocol.Request.{ClientRequest}
use sccache.Client.Wire.{Bytes}
use sccache.Server.Codec.{
  Protobuf, parsed, wire_error, waits, decoded, decode, on_parsed, drain_to, Drained, drain, feed,
}
use sccache.Server.Cuts.{cuts, drop-append, cons_nil, empty_left, positive}

-- What the codec relies on: a request that is ready, with its required fields set, is written as
-- bytes that begin with its length; it is parsed from them, whatever follows, and a part of them is
-- truncated.
pub record FrameLaws (protobuf : Protobuf) : Type 1 where
  pub Ready : ClientRequest → Type 0
  pub bytes : ClientRequest → Bytes
  pub write_eq : (r : ClientRequest) → Ready r → protobuf.write r ≡ some (bytes r)
  pub parse_whole :
      (r : ClientRequest) (rest : Bytes) → Ready r → protobuf.parse (bytes r ++ rest) ≡ parsed r
  pub parse_part :
      (r : ClientRequest) (xs : Bytes) (y : ℕ) (ys : Bytes)
      → Ready r
      → bytes r ≡ xs ++ y ∷ ys
      → xs ≢ []
      → protobuf.parse xs ≡ wire_error (codes "truncated message")
  pub some_bytes : (r : ClientRequest) → bytes r ≢ []

abbrev pub concat : List Bytes → Bytes
concat [] = []
concat (x ∷ xs) = x ++ concat xs

module _ (protobuf : Protobuf) (laws : FrameLaws protobuf) where
  abbrev pub stream : List ClientRequest → Bytes
  stream [] = []
  stream (r ∷ rs) = laws.bytes r ++ stream rs

  decode-whole :
      (r : ClientRequest) (rest buf : Bytes)
      → laws.Ready r
      → buf ≡ laws.bytes r ++ rest
      → decode protobuf buf ≡ decoded r rest
  unfolding decode on_parsed drain_to
  decode-whole r rest [] ready h = absurd (laws.some_bytes r (empty_left (laws.bytes r) rest h))
  decode-whole r rest (b ∷ buf) ready h =
      let fits : leb (length (laws.bytes r)) (length (laws.bytes r ++ rest)) ≡ true =
        le→leb _ _ (omega (arith, length-append (laws.bytes r) rest)) in
      let whole : on_parsed protobuf (laws.bytes r ++ rest) (protobuf.parse (laws.bytes r ++ rest))
          ≡ decoded r rest =
        rw
          (
            laws.parse_whole r rest ready,
            on_parsed,
            laws.write_eq r ready,
            drain_to,
            fits,
            drop-append (laws.bytes r) rest,
          )
          refl in
      ap (λ x. on_parsed protobuf x (protobuf.parse x)) h ∙ whole

  decode-part :
      (r : ClientRequest) (buf extra : Bytes) (next : ℕ)
      → laws.Ready r
      → laws.bytes r ≡ buf ++ next ∷ extra
      → decode protobuf buf ≡ waits
  unfolding decode on_parsed text_eq
  decode-part r [] extra next ready h = refl
  decode-part r (b ∷ buf) extra next ready h =
      rw (laws.parse_part r (b ∷ buf) next extra ready h nonempty) refl
    where
      nonempty : b ∷ buf ≢ []
      nonempty q = cc

  -- What a drain of a part of a stream leaves.
  record Cut (rs : List ClientRequest) (later : Bytes) (d : Drained protobuf) : Type 0 where
    left : List ClientRequest
    split : rs ≡ d.requests ++ left
    ready : All laws.Ready left
    remains : d.rest ++ later ≡ stream left
    fine_eq : d.fine ≡ true
    goes_on : (left ≡ []) ⊎ (later ≢ [])

  starts : (r : ClientRequest) (rs : List ClientRequest) → stream (r ∷ rs) ≢ []
  starts r rs h = laws.some_bytes r (empty_left (laws.bytes r) (stream rs) (sym h))

  nothing_left :
      (rs : List ClientRequest) (later : Bytes) → later ≡ stream rs → (rs ≡ []) ⊎ (later ≢ [])
  nothing_left [] later h = inl refl
  nothing_left (r ∷ rs) later h = inr (λ e. starts r rs (sym h ∙ e))

  shorter :
      (r : ClientRequest) (buf extra : Bytes) (n : ℕ)
      → buf ≡ laws.bytes r ++ extra
      → length buf < suc n
      → length extra < n
  shorter r buf extra n h b =
      let least = positive (laws.bytes r) (laws.some_bytes r) in
      omega (arith, ap length h, length-append (laws.bytes r) extra, least, b)

  drain-Cut :
      (n : ℕ) (buf later : Bytes) (rs : List ClientRequest)
      → All laws.Ready rs
      → buf ++ later ≡ stream rs
      → length buf < n
      → Cut rs later (drain protobuf n buf)
  unfolding drain decode
  drain-Cut zero buf later rs ready h b = absurd (omega (arith, b))
  drain-Cut (suc n) [] later [] ready h b = record {
    left = [];
    split = refl;
    ready = tt;
    remains = h;
    fine_eq = refl;
    goes_on = inl refl;
  }
  drain-Cut (suc n) (x ∷ buf) later [] ready h b = absurd (cons_nil h)
  drain-Cut (suc n) buf later (r ∷ rs) ready h b =
      elim (cuts (laws.bytes r) buf (stream rs) later (sym h)) [
        | inl l ↦
            let whole = decode-whole r l.extra buf ready.0 l.left_eq in
            let rest =
              drain-Cut n l.extra later rs ready.1 (sym l.right_eq)
                (shorter r buf l.extra n l.left_eq b) in
            rw (whole, drain)
              (record {
                left = rest.left;
                split = ap (λ xs. r ∷ xs) rest.split;
                ready = rest.ready;
                remains = rest.remains;
                fine_eq = rest.fine_eq;
                goes_on = rest.goes_on;
              })
        | inr s ↦
            let part = decode-part r buf s.extra s.next ready.0 s.left_eq in
            rw (part, drain)
              (record {
                left = r ∷ rs;
                split = refl;
                ready = ready;
                remains = h;
                fine_eq = refl;
                goes_on = inr (λ e. cons_nil (sym s.right_eq ∙ e));
              })
      ]

  feed-requests :
      (chunks : List Bytes) (buf : Bytes) (rs : List ClientRequest)
      → All laws.Ready rs
      → buf ++ concat chunks ≡ stream rs
      → (rs ≡ []) ⊎ (concat chunks ≢ [])
      → feed protobuf buf chunks ≡ record { requests = rs; rest = []; fine = true }
  unfolding feed
  feed-requests [] buf rs ready h (inr g) = absurd (g refl)
  feed-requests [] buf rs ready h (inl e) =
      let empty : buf ≡ [] = sym (append-nil buf) ∙ h ∙ ap stream e in
      λ i. record { requests = sym e i; rest = empty i; fine = true }
  feed-requests (chunk ∷ chunks) buf rs ready h g =
      let whole : (buf ++ chunk) ++ concat chunks ≡ stream rs =
        append_assoc buf chunk (concat chunks) ∙ h in
      let n = suc (length (buf ++ chunk)) in
      let cut = drain-Cut n (buf ++ chunk) (concat chunks) rs ready whole (omega arith) in
      let d = drain protobuf n (buf ++ chunk) in
      let rest = feed-requests chunks d.rest cut.left cut.ready cut.remains cut.goes_on in
      rw (cut.fine_eq, rest) (λ i. record { requests = sym cut.split i; rest = []; fine = true })

  -- However the bytes of a row of requests are cut into chunks, the server gets these requests, each
  -- once and in order, without an error, and nothing of the stream is left, if the requests are
  -- ready to be sent.
  pub feed-stream :
      (chunks : List Bytes) (rs : List ClientRequest)
      → All laws.Ready rs
      → concat chunks ≡ stream rs
      → feed protobuf [] chunks ≡ record { requests = rs; rest = []; fine = true }
  feed-stream chunks rs ready h =
      feed-requests chunks [] rs ready h (nothing_left rs (concat chunks) h)
