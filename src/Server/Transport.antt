-- ===== src/Server/Transport.antt =====
-- `SccacheTransport` of src/server.rs: frames of tokio over the messages of the codec.
use sccache.Prelude.{Text, List, Option, none, some, Bool, false}
use sccache.Protocol.Request.{ClientRequest}
use sccache.Protocol.Response.{ServerResponse}

-- `Frame` of tokio-proto; an error has a text for each of its causes.
pub data Frame (M B : Type 0) : Type 0 where
  message : M → Bool → Frame M B
  body : Option B → Frame M B
  error : List Text → Frame M B

-- `Poll<Option<_>>`
pub data Polled (A : Type 0) : Type 0 where
  ready : Option A → Polled A
  not_ready : Polled A
  fails : Polled A

-- `StartSend`: taken, or given back, or an error.
pub data Sent (A : Type 0) : Type 0 where
  taken : Sent A
  given_back : A → Sent A
  broken : Sent A

abbrev as_frame : Option ClientRequest → Option (Frame ClientRequest (Unit {0}))
as_frame none = none
as_frame (some m) = some (message m false)

-- `poll`, with what the framed stream below gives.
unfoldable pub poll : Polled ClientRequest → Polled (Frame ClientRequest (Unit {0}))
poll (ready m) = ready (as_frame m)
poll not_ready = not_ready
poll fails = fails

unfoldable pub frame_back :
    (ServerResponse → Frame ServerResponse ServerResponse)
    → Sent ServerResponse
    → Sent (Frame ServerResponse ServerResponse)
frame_back frame taken = taken
frame_back frame (given_back m) = given_back (frame m)
frame_back frame broken = broken

-- `start_send`, with `start_send` of the framed sink below.
unfoldable pub start_send :
    (ServerResponse → Sent ServerResponse)
    → Frame ServerResponse ServerResponse
    → Sent (Frame ServerResponse ServerResponse)
unfolding frame_back
start_send send (message m has_body) = frame_back (λ x. message x has_body) (send m)
start_send send (body (some chunk)) = frame_back (λ x. body (some x)) (send chunk)
start_send send (body none) = taken
start_send send (error causes) = broken
