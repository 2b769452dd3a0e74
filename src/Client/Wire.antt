-- ===== src/Client/Wire.antt =====
-- The protobuf library, as src/client.rs and src/server.rs use it.
use sccache.Prelude.{ℕ, List, ◌++◌, ◌≡◌, Option, some, length}
use sccache.Protocol.Request.{ClientRequest}
use sccache.Protocol.Response.{ServerResponse}

abbrev pub Bytes : Type 0
Bytes = List ℕ

-- `write_length_delimited_to_bytes` of both messages, `read_raw_varint32`, which returns what is left,
-- and `parse_from_bytes` of a response; `none` is an error.
pub record Wire : Type 0 where
  pub write_request : ClientRequest → Option Bytes
  pub write_response : ServerResponse → Option Bytes
  pub read_raw_varint32 : Bytes → Option (ℕ × Bytes)
  pub parse_response : Bytes → Option ServerResponse

-- A response that is ready, with its required fields set and its length in 32 bits, is written as its
-- length and then its contents, which are parsed back.
pub record WireLaws (wire : Wire) : Type 1 where
  pub Ready : ServerResponse → Type 0
  pub prefix : ℕ → Bytes
  pub body : ServerResponse → Bytes
  pub read-prefix :
      (m : ServerResponse) (rest : Bytes)
      → Ready m
      → wire.read_raw_varint32 (prefix (length (body m)) ++ rest) ≡ some (length (body m), rest)
  pub parse-body : (m : ServerResponse) → Ready m → wire.parse_response (body m) ≡ some m
  pub write_eq :
      (m : ServerResponse)
      → Ready m
      → wire.write_response m ≡ some (prefix (length (body m)) ++ body m)
