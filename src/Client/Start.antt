-- ===== src/Client/Start.antt =====
-- src/commands.rs and src/server.rs: the port, the start of the server, and how the client learns of
-- it.
use sccache.Prelude.{
  ℕ, zero, suc, Text, List, [], ◌∷◌, Option, none, some, Bool, if◌then◌else◌, ◌==◌, read_decimal,
}
use sccache.Client.Connection.{ServerConnection}

abbrev pub default_port : ℕ
default_port = 4226

-- `u16::from_str`
unfoldable pub parse_u16 : Text → Option ℕ
unfolding read_decimal
parse_u16 [] = none
parse_u16 (c ∷ cs) = if c == 43 then read_decimal 65536 cs else read_decimal 65536 (c ∷ cs)

-- `get_port`, with SCCACHE_SERVER_PORT if it is set and UTF-8.
unfoldable pub get_port : Option Text → ℕ
unfolding parse_u16
get_port none = default_port
get_port (some s) = elim (parse_u16 s) [ none ↦ default_port | some port ↦ port ]

-- `notify_server_startup_internal`: the byte that the server sends.
unfoldable pub notify_server_startup_internal : Bool → List ℕ
notify_server_startup_internal success = (if success then 0 else 1) ∷ []

-- `notify_server_startup`, with what it sends to the socket, if there is one; `none` is an error.
unfoldable pub notify_server_startup : Bool → Option Text → Bool → Option (List ℕ)
unfolding notify_server_startup_internal
notify_server_startup connects none success = some []
notify_server_startup connects (some name) success =
    if connects then some (notify_server_startup_internal success) else none

pub data ServerStartup : Type 0 where
  ok : ServerStartup
  timed_out : ServerStartup
  err : ℕ → ServerStartup

-- The byte that comes over the socket before the timeout.
unfoldable pub startup_of_byte : ℕ → ServerStartup
startup_of_byte byte = if byte == 0 then ok else err byte

-- What the socket brings within `SERVER_STARTUP_TIMEOUT_MS`.
pub data Heard : Type 0 where
  bytes : List ℕ → Heard
  nothing : Heard
  broken : Heard

unfoldable pub startup_of : Heard → Option ServerStartup
unfolding startup_of_byte
startup_of (bytes []) = none
startup_of (bytes (b ∷ bs)) = some (startup_of_byte b)
startup_of nothing = some timed_out
startup_of broken = none

-- `run_server_process` on Unix: `spawned` says whether the socket and the process could be made.
unfoldable pub run_server_process : Bool → Heard → Option ServerStartup
unfolding startup_of
run_server_process spawned heard = if spawned then startup_of heard else none

-- What an attempt to connect meets: `refused` and `timed_out` are `ConnectionRefused` and
-- `TimedOut`.
pub data Attempt : Type 0 where
  connected : ServerConnection → Attempt
  refused : Attempt
  no_answer : Attempt
  fails : Attempt

-- `retry`: the first of these attempts, from `k` on, that succeeds.
unfoldable pub retry : (ℕ → Attempt) → ℕ → ℕ → Option ServerConnection
retry attempt k zero = none
retry attempt k (suc n) =
    let rest = retry attempt (suc k) n in
    elim (attempt k) [
      | connected conn ↦ some conn
      | refused ↦ rest
      | no_answer ↦ rest
      | fails ↦ rest
    ]

-- `connect_with_retry`: ten attempts after the first.
unfoldable pub connect_with_retry : (ℕ → Attempt) → Option ServerConnection
unfolding retry
connect_with_retry attempt = retry attempt 1 10

-- The startup value of the server is not looked at.
unfoldable pub start_and_connect : Option ServerStartup → (ℕ → Attempt) → Option ServerConnection
unfolding connect_with_retry
start_and_connect none attempt = none
start_and_connect (some startup) attempt = connect_with_retry attempt

-- `connect_or_start_server`, with what each attempt meets and what the start of a server gives.
unfoldable pub connect_or_start_server :
    Option ServerStartup → (ℕ → Attempt) → Option ServerConnection
unfolding start_and_connect
connect_or_start_server startup attempt = elim (attempt 0) [
  | connected conn ↦ some conn
  | refused ↦ start_and_connect startup attempt
  | no_answer ↦ start_and_connect startup attempt
  | fails ↦ none
]
