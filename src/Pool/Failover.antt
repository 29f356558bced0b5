-- ===== src/Pool/Failover.antt =====
-- src/mg_web.c: `mg_release_connection`, `mg_server_alternatives`, `mg_server_offline` and
-- `mg_server_online`. The messages for the event log are left out.
pub mod Offline
pub mod Online
use mg_web.Base.{
  ℕ, zero, suc, ◌+◌, ◌-◌, List, [], ◌∷◌, Bool, true, false, not, ◌&&◌, ◌||◌, ◌==◌, if◌then◌else◌,
  Option, none, some, get_elem?, length,
}
use mg_web.Pool.{State, Connection, slot_used, update_server, update_connection}
use mg_web.Status.{Rc, success, failure}
use mg_web.Types.{Server, PathServer, MgPath}

abbrev pub released : Connection → Connection
released con = record con { inuse = false }

abbrev pub closed : Connection → Connection
closed con = record con { connected = false; inuse = false; alloc = false }

-- What closing returns: 0 from `netx_tcp_disconnect`, or what the library of the database returns.
abbrev pub close_rc : State → Rc → Connection → Rc
close_rc st api_exit con = elim con.psrv [
  | none ↦ api_exit
  | some k ↦ elim (get_elem? st.servers k) [
    | none ↦ api_exit
    | some srv ↦ if srv.net_connection then success else api_exit
  ]
]

-- The connection is the request's, `pweb->pcon`.
unfoldable pub release_connection : Bool → Rc → State → State × Rc
release_connection close_connection api_exit st = elim st.pcon [
  | none ↦ (st, failure)
  | some c ↦ elim (get_elem? st.connections c) [
    | none ↦ (st, failure)
    | some con ↦
        if close_connection
        then (update_connection st c closed, close_rc st api_exit con)
        else (update_connection st c released, success)
  ]
]

-- The slots that are not for exclusive use, among the first `n` of the list.
unfoldable pub count_shared : ℕ → List PathServer → ℕ
count_shared zero slots = 0
count_shared (suc n) [] = 0
count_shared (suc n) (entry ∷ slots) = (if entry.exclusive then 0 else 1) + count_shared n slots

-- The current server is discounted where any was counted, so `- 1` does not go below 0.
unfoldable pub server_alternatives : MgPath → ℕ
server_alternatives ppath = if slot_used ppath 1 then count_shared 32 ppath.servers - 1 else 0

-- `pcon->alloc && pcon->psrv == psrv && psrv->net_connection == 1 && pcon->inuse == 0`
abbrev pub is_idle_on : State → ℕ → Connection → Bool
is_idle_on st k con =
    con.alloc
    && elim con.psrv [ none ↦ false | some j ↦ j == k ]
    && elim (get_elem? st.servers k) [ none ↦ false | some srv ↦ srv.net_connection ]
    && not con.inuse

-- The loop over the connections from place `i` on; as many rounds as there are connections left.
unfoldable pub close_idle : ℕ → ℕ → Rc → ℕ → State → State
close_idle zero i api_exit k st = st
close_idle (suc n) i api_exit k st = elim (get_elem? st.connections i) [
  | none ↦ close_idle n (i + 1) api_exit k st
  | some con ↦
      close_idle n (i + 1) api_exit k
        (if is_idle_on st k con then (release_connection true api_exit st).0 else st)
]

-- The guards at the head of `mg_server_offline`; context 10 is the administrator's.
abbrev pub may_go_offline : ℕ → State → Bool
may_go_offline context st =
    context == 10 || (slot_used st.ppath 1 && not (server_alternatives st.ppath == 0))

unfoldable pub server_offline : ℕ → ℕ → Rc → Option ℕ → State → State × Rc
server_offline context now api_exit none st = (st, failure)
server_offline context now api_exit (some k) st =
    let marked = update_server st k (λ srv. record srv { offline = 1; time_offline = now }) in
    if may_go_offline context st
    then (close_idle (length st.connections) 0 api_exit k marked, success)
    else (st, failure)

abbrev pub online : Server → Server
online srv = record srv { offline = 0 }

-- The loop over the slots of a path.
unfoldable pub all_online : List PathServer → State → State
all_online [] st = st
all_online (entry ∷ slots) st = all_online slots (update_server st entry.psrv online)

unfoldable pub server_online : Option ℕ → State → State × Rc
server_online (some k) st = (update_server st k online, success)
server_online none st =
    let st' = all_online st.ppath.servers st in
    if slot_used st.ppath 1 && not (server_alternatives st.ppath == 0)
    then (record st' { ppath = record st.ppath { server_no = 0 } }, success)
    else (st, failure)
