-- ===== src/Client/Connection.antt =====
-- src/client.rs: `ServerConnection`.
use sccache.Prelude.{
  ℕ, zero, suc, [], ◌∷◌, ◌++◌, ◌≡◌, refl, ap, ◌∙◌, Option, none, some, Bool, true, if◌then◌else◌,
  length, drop, leb, le→leb, length-append, arith,
}
use sccache.Protocol.Request.{ClientRequest}
use sccache.Protocol.Response.{ServerResponse}
use sccache.Client.Wire.{Bytes, Wire, WireLaws}

-- The bytes that the server sends and that have not been read, those that it has been sent, and
-- whether the socket takes more.
pub record ServerConnection : Type 0 where
  pub reader : Bytes
  pub writer : Bytes
  pub writable : Bool

abbrev pub take : ℕ → Bytes → Bytes
take zero bs = []
take (suc n) [] = []
take (suc n) (b ∷ bs) = b ∷ take n bs

module _ (wire : Wire) where
  -- `read_one_response` from the length on: `read_exact` fails if the server has closed before.
  unfoldable pub read_body :
      ServerConnection → Option (ℕ × Bytes) → ServerConnection × Option ServerResponse
  read_body conn none = (conn, none)
  read_body conn (some (len, rest)) =
      if leb len (length rest)
      then (record conn { reader = drop len rest }, wire.parse_response (take len rest))
      else (record conn { reader = [] }, none)

  unfoldable pub read_one_response : ServerConnection → ServerConnection × Option ServerResponse
  unfolding read_body
  read_one_response conn = read_body conn (wire.read_raw_varint32 conn.reader)

  -- `request`: write, flush and read one response.
  unfoldable pub send : ServerConnection → Option Bytes → ServerConnection × Option ServerResponse
  unfolding read_one_response
  send conn none = (conn, none)
  send conn (some bytes) =
      let sent = record conn { writer = conn.writer ++ bytes } in
      if conn.writable then read_one_response sent else (conn, none)

  unfoldable pub request :
      ServerConnection → ClientRequest → ServerConnection × Option ServerResponse
  unfolding send
  request conn req = send conn (wire.write_request req)

take-append : (xs ys : Bytes) → take (length xs) (xs ++ ys) ≡ xs
take-append [] ys = refl
take-append (x ∷ xs) ys = ap (λ zs. x ∷ zs) (take-append xs ys)

drop-append : (xs ys : Bytes) → drop (length xs) (xs ++ ys) ≡ ys
drop-append [] ys = refl
drop-append (x ∷ xs) ys = drop-append xs ys

-- A response that the server wrote is read back, and what follows it stays to be read.
pub read_one_response-encoded :
    (wire : Wire) (laws : WireLaws wire) (conn : ServerConnection) (m : ServerResponse)
    (rest : Bytes)
    → laws.Ready m
    → conn.reader ≡ laws.prefix (length (laws.body m)) ++ (laws.body m ++ rest)
    → read_one_response wire conn ≡ (record conn { reader = rest }, some m)
unfolding read_one_response read_body
read_one_response-encoded wire laws conn m rest ready h =
    let bytes = laws.body m ++ rest in
    let fits : leb (length (laws.body m)) (length bytes) ≡ true =
      le→leb _ _ (omega (arith, length-append (laws.body m) rest)) in
    rw
      (
        h,
        laws.read-prefix m bytes ready,
        read_body,
        fits,
        take-append (laws.body m) rest,
        drop-append (laws.body m) rest,
        laws.parse-body m ready,
      )
      refl

chosen {ℓ} : {A : Type ℓ} (b : Bool) (x y : A) → b ≡ true → (if b then x else y) ≡ x
chosen b x y h = rw h refl

module _ (wire : Wire) (laws : WireLaws wire) where
  -- A request whose response the server has written.
  pub request-encoded :
      (conn : ServerConnection) (req : ClientRequest) (bytes : Bytes) (m : ServerResponse)
      (rest : Bytes)
      → laws.Ready m
      → conn.writable ≡ true
      → wire.write_request req ≡ some bytes
      → conn.reader ≡ laws.prefix (length (laws.body m)) ++ (laws.body m ++ rest)
      → request wire conn req
        ≡ (record conn { reader = rest; writer = conn.writer ++ bytes }, some m)
  unfolding request send
  request-encoded conn req bytes m rest ready takes written h =
      rw (written, send)
        (chosen conn.writable _ _ takes
          ∙ read_one_response-encoded wire laws (record conn { writer = conn.writer ++ bytes }) m
              rest ready h)
