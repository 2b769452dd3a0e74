-- ===== src/Protocol/Request.antt =====
-- src/protocol.rs: `ClientRequest` and `Compile`. A `take_` returns what it takes, and the message
-- that is left.
use sccache.Prelude.{Text, List, [], Option, none, some, Bool, true, false}

pub record Compile : Type 0 where
  pub cwd : Option Text
  pub exe : Option Text
  pub command : List Text

-- `ClientRequest_oneof_request`; the messages `GetStats`, `Shutdown` and `ZeroStats` have no field.
pub data Oneof : Type 0 where
  compile : Compile → Oneof
  get_stats : Oneof
  shutdown : Oneof
  zero_stats : Oneof

pub record ClientRequest : Type 0 where
  pub request : Option Oneof

abbrev pub new_compile : Compile
new_compile = record { cwd = none; exe = none; command = [] }

unfoldable pub set_cwd : Compile → Text → Compile
set_cwd c v = record c { cwd = some v }

unfoldable pub set_exe : Compile → Text → Compile
set_exe c v = record c { exe = some v }

unfoldable pub set_command : Compile → List Text → Compile
set_command c v = record c { command = v }

-- `unwrap_or_else(String::new)`
abbrev text_or_empty : Option Text → Text
text_or_empty none = []
text_or_empty (some t) = t

unfoldable pub take_cwd : Compile → Text × Compile
take_cwd c = (text_or_empty c.cwd, record c { cwd = none })

unfoldable pub take_exe : Compile → Text × Compile
take_exe c = (text_or_empty c.exe, record c { exe = none })

unfoldable pub take_command : Compile → List Text × Compile
take_command c = (c.command, record c { command = [] })

abbrev pub new_request : ClientRequest
new_request = record { request = none }

unfoldable pub has_compile : ClientRequest → Bool
has_compile r = elim r.request [ some (compile c) ↦ true | _ ↦ false ]

unfoldable pub has_get_stats : ClientRequest → Bool
has_get_stats r = elim r.request [ some get_stats ↦ true | _ ↦ false ]

unfoldable pub has_shutdown : ClientRequest → Bool
has_shutdown r = elim r.request [ some shutdown ↦ true | _ ↦ false ]

unfoldable pub has_zero_stats : ClientRequest → Bool
has_zero_stats r = elim r.request [ some zero_stats ↦ true | _ ↦ false ]

unfoldable pub set_compile : ClientRequest → Compile → ClientRequest
set_compile r v = record r { request = some (compile v) }

unfoldable pub set_get_stats : ClientRequest → ClientRequest
set_get_stats r = record r { request = some get_stats }

unfoldable pub set_shutdown : ClientRequest → ClientRequest
set_shutdown r = record r { request = some shutdown }

unfoldable pub set_zero_stats : ClientRequest → ClientRequest
set_zero_stats r = record r { request = some zero_stats }

unfoldable pub take_compile : ClientRequest → Compile × ClientRequest
take_compile r = elim r.request [
  | some (compile c) ↦ (c, record r { request = none })
  | _ ↦ (new_compile, r)
]
