-- ===== src/Server/Active.antt =====
-- `WaitUntilZero` and `ActiveInfo` of src/server.rs: the wait for the connections that are left when
-- the server has been told to stop.
use sccache.Prelude.{ℕ, ◌+◌, Option, none, some, Bool, true, false, if◌then◌else◌, ◌==◌, u64}

-- Tasks are numbered.
pub record Info : Type 0 where
  pub active : ℕ
  pub blocker : Option ℕ

-- `WaitUntilZero::new`
unfoldable pub new : Info
new = record { active = 1; blocker = none }

-- `clone` of `ActiveInfo`
unfoldable pub clone : Info → Info
clone i = record i { active = u64 (i.active + 1) }

-- `drop` of `ActiveInfo`, with the task that it unparks; 0 − 1 wraps.
unfoldable pub drop : Info → Info × Option ℕ
drop i =
    let n = u64 (i.active + 18446744073709551615) in
    if n == 0
    then (record { active = n; blocker = none }, i.blocker)
    else (record i { active = n }, none)

-- `poll` of `WaitUntilZero` by a task: whether it is ready.
unfoldable pub poll : ℕ → Info → Info × Bool
poll task i = if i.active == 0 then (i, true) else (record i { blocker = some task }, false)
