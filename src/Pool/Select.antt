-- ===== src/Pool/Select.antt =====
-- src/mg_web.c: `mg_obtain_server`, which chooses the DB server for a request.
pub mod Round
pub mod Search
pub mod Stuck
use mg_web.Base.{
  ℕ, zero, suc, ◌+◌, Bool, true, false, ◌&&◌, ◌||◌, ltb, ◌==◌, if◌then◌else◌, Option, none, some,
  set,
}
use mg_web.Pool.{State, slot, slot_used}
use mg_web.Types.{Server, PathServer, MgPath}

-- What the call returns. `looping` means that the rounds given were not enough, and `fault` that a
-- null pointer is followed.
pub data Choice : Type 0 where
  found : ℕ → Choice
  exhausted looping fault : Choice

-- An offline server is tried again once `health_check` seconds have gone by.
abbrev pub is_due : ℕ → Server → Bool
is_due time_now srv =
    srv.offline == 1 && ltb 0 srv.health_check && ltb (srv.time_offline + srv.health_check) time_now

-- Whether the server in this slot is taken, and the server then. `stamp` is the second reading of
-- the clock.
unfoldable pub examine : ℕ → ℕ → PathServer → Server → Option Server
examine time_now stamp entry srv =
    if entry.exclusive
    then none
    else if is_due time_now srv
    then some (record srv { time_offline = stamp; offline = 2 })
    else if srv.offline == 0
    then some srv
    else none

abbrev pub next_slot : MgPath → ℕ
next_slot p = if slot_used p (p.server_no + 1) then p.server_no + 1 else 0

-- The path's own server number moves on with load balancing, and at a server that is not online.
unfoldable pub rotate : MgPath → Server → MgPath
rotate p srv =
    if p.load_balancing || ltb 0 srv.offline then record p { server_no = next_slot p } else p

abbrev pub with_path : State → MgPath → State
with_path st p = record st { ppath = p }

-- The `while` loop, for at most the given number of rounds.
unfoldable pub search_from : ℕ → ℕ → ℕ → ℕ → State → Choice × State
search_from zero time_now stamp start st = (looping, st)
search_from (suc rounds) time_now stamp start st =
    elim (slot st.servers st.ppath st.ppath.server_no) [
      | none ↦ (fault, st)
      | some (entry, srv) ↦ elim (examine time_now stamp entry srv) [
        | some taken ↦ (
          found st.ppath.server_no,
          record st { servers = set st.servers entry.psrv taken; ppath = rotate st.ppath taken },
        )
        | none ↦ elim ((rotate st.ppath srv).server_no == start) [
          | true ↦ (exhausted, with_path st (rotate st.ppath srv))
          | false ↦ search_from rounds time_now stamp start (with_path st (rotate st.ppath srv))
        ]
      ]
    ]

unfoldable pub obtain_server : ℕ → ℕ → ℕ → State → Choice × State
obtain_server rounds time_now stamp st = search_from rounds time_now stamp st.ppath.server_no st
