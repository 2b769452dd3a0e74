-- ===== src/Server/Codec.antt =====
-- `ProtobufCodec` of src/server.rs, for the requests that come and the responses that go.
use sccache.Prelude.{
  ℕ, zero, suc, Text, text_eq, codes, List, [], ◌∷◌, ◌++◌, Option, none, some, Bool, true, false,
  if◌then◌else◌, length, drop, leb,
}
use sccache.Protocol.Request.{ClientRequest}
use sccache.Protocol.Response.{ServerResponse}
use sccache.Client.Wire.{Bytes}

-- What `parse_length_delimited_from_bytes` gives.
pub data Parsed : Type 0 where
  parsed : ClientRequest → Parsed
  wire_error : Text → Parsed
  io_error : Parsed
  not_initialized : Text → Parsed

-- The protobuf library: `parse_length_delimited_from_bytes` of a request, and
-- `write_length_delimited_to_bytes`, of which `none` is an error.
pub record Protobuf : Type 0 where
  pub parse : Bytes → Parsed
  pub write : ClientRequest → Option Bytes
  pub write_response : ServerResponse → Option Bytes

pub data Decoded : Type 0 where
  waits : Decoded
  decoded : ClientRequest → Bytes → Decoded
  fails : Decoded
  panics : Decoded

-- `drain_to`, which panics beyond the end.
unfoldable pub drain_to : ClientRequest → Bytes → Option Bytes → Decoded
drain_to req buf none = panics
drain_to req buf (some bytes) =
    if leb (length bytes) (length buf) then decoded req (drop (length bytes) buf) else panics

module _ (protobuf : Protobuf) where
  unfoldable pub on_parsed : Bytes → Parsed → Decoded
  unfolding drain_to
  on_parsed buf (parsed req) = drain_to req buf (protobuf.write req)
  on_parsed buf (wire_error s) = if text_eq s (codes "truncated message") then waits else fails
  on_parsed buf io_error = fails
  on_parsed buf (not_initialized message) = fails

  unfoldable pub decode : Bytes → Decoded
  unfolding on_parsed
  decode [] = waits
  decode (b ∷ buf) = on_parsed (b ∷ buf) (protobuf.parse (b ∷ buf))

  -- `encode`: what the buffer becomes; `none` is an error.
  unfoldable pub encode : ServerResponse → Bytes → Option Bytes
  encode msg buf = elim (protobuf.write_response msg) [
    | none ↦ none
    | some bytes ↦ some (buf ++ bytes)
  ]

  -- The requests that a buffer holds, what is left of it, and whether all went well.
  pub record Drained : Type 0 where
    pub requests : List ClientRequest
    pub rest : Bytes
    pub fine : Bool

  abbrev cons : ClientRequest → Drained → Drained
  cons req d = record d { requests = req ∷ d.requests }

  -- `decode` is called until it waits; on the fuel, each request takes at least a byte.
  unfoldable pub drain : ℕ → Bytes → Drained
  unfolding decode
  drain zero buf = record { requests = []; rest = buf; fine = false }
  drain (suc n) buf = elim (decode buf) [
    | waits ↦ record { requests = []; rest = buf; fine = true }
    | decoded req rest ↦ cons req (drain n rest)
    | fails ↦ record { requests = []; rest = buf; fine = false }
    | panics ↦ record { requests = []; rest = buf; fine = false }
  ]

  -- The bytes come in chunks.
  unfoldable pub feed : Bytes → List Bytes → Drained
  unfolding drain
  feed buf [] = record { requests = []; rest = buf; fine = true }
  feed buf (chunk ∷ chunks) =
      let d = drain (suc (length (buf ++ chunk))) (buf ++ chunk) in
      let later = feed d.rest chunks in
      if d.fine then record later { requests = d.requests ++ later.requests } else d
