-- ===== src/Pool.antt =====
-- src/mg_web.h: the state that a request works on: the DB servers, the connections, and the fields of
-- the request (`MGWEB`) that choose among them. A pointer is a place in a list.
pub mod Store
pub mod Select
pub mod Failover
pub mod Claim
pub mod Dial
pub mod Obtain
mod Tests
use mg_web.Base.{ℕ, List, Bool, Option, none, some, get_elem?, length, ltb, set}
use mg_web.Types.{Server, PathServer, MgPath}

-- `DBXCON`; `psrv` is null in memory that is fresh.
pub record Connection : Type 0 where
  pub alloc : Bool
  pub inuse : Bool
  pub connected : Bool
  pub no_requests : ℕ
  pub time_request : ℕ
  pub timeout : ℕ
  pub psrv : Option ℕ

-- `servers` is the list `mg_server`, `connections` the list `mg_connection`, and `requestno` stands
-- in `mg_system`. The other fields are the request's; `server_no` is `none` for -1.
pub record State : Type 0 where
  pub servers : List Server
  pub connections : List Connection
  pub requestno : ℕ
  pub ppath : MgPath
  pub server_no : Option ℕ
  pub psrv : Option ℕ
  pub pcon : Option ℕ
  pub requestno_in : ℕ
  pub mg_connect_failed : Bool

-- `servers[n].psrv` of a path is not null.
abbrev pub slot_used : MgPath → ℕ → Bool
slot_used p n = ltb n (length p.servers)

-- The slot `n` of the path, and the server that it names; `none` where a null pointer is followed.
abbrev pub slot : List Server → MgPath → ℕ → Option (PathServer × Server)
slot servers p n = elim (get_elem? p.servers n) [
  | none ↦ none
  | some entry ↦ elim (get_elem? servers entry.psrv) [ none ↦ none | some srv ↦ some (entry, srv) ]
]

-- A store through a pointer to a server.
unfoldable pub update_server : State → ℕ → (Server → Server) → State
update_server st k f = elim (get_elem? st.servers k) [
  | none ↦ st
  | some srv ↦ record st { servers = set st.servers k (f srv) }
]

-- A store through a pointer to a connection.
unfoldable pub update_connection : State → ℕ → (Connection → Connection) → State
update_connection st c f = elim (get_elem? st.connections c) [
  | none ↦ st
  | some con ↦ record st { connections = set st.connections c (f con) }
]
