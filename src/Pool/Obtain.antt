-- ===== src/Pool/Obtain.antt =====
-- src/mg_web.c: `mg_obtain_connection`, composed of the choice of a server, the claim of a connection
-- and its opening. Not modelled: the messages, the environment variables that are set for a database
-- opened through its API, and the creation of the connection's mutex.
pub mod Outcome
pub mod Chosen
use mg_web.Base.{
  ℕ, ◌+◌, Bool, false, not, ◌&&◌, ◌||◌, ltb, ◌==◌, if◌then◌else◌, Option, none, some, get_elem?,
}
use mg_web.Pool.{State, Connection, slot, update_connection}
use mg_web.Pool.Claim.{Claimed, claimed, server_busy, no_memory, claim, attach}
use mg_web.Pool.Dial.{Returned, returned, running, connect}
use mg_web.Pool.Failover.{server_online, online}
use mg_web.Pool.Select.{Choice, found, exhausted, looping, fault, obtain_server}
use mg_web.Status.{Rc, success, failure, nocon, maxcon}
use mg_web.Types.{Server}

-- What the call gets from outside: the readings of the clock, the other threads, the allocator, the
-- network and the database; and the rounds and tries that its loops are given.
pub record World : Type 0 where
  pub time_now : ℕ
  pub stamp : ℕ
  pub time_claimed : ℕ
  pub others : ℕ → State → State
  pub memory : Bool
  pub dial : ℕ → Bool
  pub clock : ℕ → ℕ
  pub open_db : Bool
  pub rounds : ℕ
  pub tries : ℕ

-- The preferred server can be used: it is a slot of the path, and online or for exclusive use.
abbrev pub is_available : State → ℕ → Bool
is_available st n = ltb n 32 && elim (slot st.servers st.ppath n) [
  | none ↦ false
  | some (entry, srv) ↦ srv.offline == 0 || entry.exclusive
]

-- The preference is dropped where that server cannot be used.
unfoldable pub prefer : State → State
prefer st = elim st.server_no [
  | none ↦ st
  | some n ↦ if is_available st n then st else record st { server_no = none }
]

-- The choice of a server number, where there is none yet.
unfoldable pub choose : World → State → Choice × State
choose w st = elim st.server_no [
  | some n ↦ (found n, st)
  | none ↦
      let (choice, st') = obtain_server w.rounds w.time_now w.stamp st in
      elim choice [ found n ↦ (found n, record st' { server_no = some n }) | other ↦ (other, st') ]
]

abbrev pub slot_psrv : State → ℕ → Option ℕ
slot_psrv st n = elim (get_elem? st.ppath.servers n) [ none ↦ none | some entry ↦ some entry.psrv ]

-- The return where no server is online: the first server is noted, and all are marked online.
unfoldable pub none_online : State → State × Rc
none_online st =
    ((server_online none (record st { server_no = some 0; psrv = slot_psrv st 0 })).0, failure)

-- A network connection that has been idle up to five seconds before the time-out, or longer.
abbrev pub is_stale : ℕ → Server → Connection → Bool
is_stale time_now srv con =
    srv.net_connection
    && not (srv.idle_timeout == 0)
    && not (con.time_request == 0)
    && ltb (con.time_request + srv.idle_timeout) (time_now + 5)

-- The connection behind the check: its request time, and closed if it was stale.
abbrev pub checked : ℕ → Server → Connection → Connection
checked time_now srv con =
    if is_stale time_now srv con
    then record con { connected = false; time_request = time_now }
    else record con { time_request = time_now }

-- A server that was being tried again is marked online, on success.
unfoldable pub mark_online : ℕ → State → State
mark_online k st = elim (get_elem? st.servers k) [
  | none ↦ st
  | some srv ↦ if srv.offline == 2 then (server_online (some k) st).0 else st
]

abbrev pub dropped : Connection → Connection
dropped con = record con { alloc = false; inuse = false }

unfoldable pub drop_connection : ℕ → State → State
drop_connection c st = record (update_connection st c dropped) { pcon = none }

-- The end of the call on a connection that is to be opened.
unfoldable pub open_connection : World → ℕ → Server → ℕ → State → Returned (State × Rc)
open_connection w k srv c st =
    let st' = attach k srv c st in
    if srv.dbtype == 0
    then returned (drop_connection c st', nocon)
    else elim (connect w.tries w.dial w.clock w.open_db srv c st') [
      | running ↦ running
      | returned (st'', rc) ↦ elim rc [
        | success ↦ returned (mark_online k st'', success)
        | other ↦ returned (drop_connection c st'', other)
      ]
    ]

-- Behind the mutex, on what was claimed.
unfoldable pub use_claimed : World → ℕ → Server → Claimed → State → Returned (State × Rc)
use_claimed w k srv server_busy st = returned (record st { psrv = some k }, maxcon)
use_claimed w k srv no_memory st = returned (record st { psrv = some k }, failure)
use_claimed w k srv (claimed c existing) st = elim (get_elem? st.connections c) [
  | none ↦ running
  | some con ↦
      let st' =
        update_connection (record st { psrv = some k; pcon = some c }) c
          (checked w.time_claimed srv) in
      if existing && not (is_stale w.time_claimed srv con)
      then returned (mark_online k st', success)
      else open_connection w k srv c st'
]

-- On the server in slot `n`. A null pointer is never followed where the path names servers.
unfoldable pub obtain_on : World → ℕ → State → Returned (State × Rc)
obtain_on w n st = elim (slot st.servers st.ppath n) [
  | none ↦ running
  | some (entry, srv) ↦
      let (c, st') = claim w.others w.memory entry.psrv srv st in use_claimed w entry.psrv srv c st'
]

unfoldable pub obtain_connection : World → State → Returned (State × Rc)
obtain_connection w st =
    let (choice, st') = choose w (prefer st) in
    elim choice [
      | found n ↦ obtain_on w n st'
      | exhausted ↦ returned (none_online st')
      | looping ↦ running
      | fault ↦ running
    ]
