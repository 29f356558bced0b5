-- ===== src/Pool/Store.antt =====
-- The stores through pointers to servers and connections.
use mg_web.Base.{
  ℕ, ◌≡◌, ◌≢◌, refl, arith, some, get_elem?, set, get_elem?-set_ne, get_elem?-set_self,
  get_elem?-lt, Option-cases, inl, inr,
}
use mg_web.Pool.{State, Connection, update_server, update_connection}
use mg_web.Types.{Server}

pub update_server_lem :
    (st : State) (k : ℕ) (f : Server → Server) {srv : Server}
    → get_elem? st.servers k ≡ some srv
    → update_server st k f ≡ record st { servers = set st.servers k (f srv) }
unfolding update_server
update_server_lem st k f e = ground arith

pub update_connection_lem :
    (st : State) (c : ℕ) (f : Connection → Connection) {con : Connection}
    → get_elem? st.connections c ≡ some con
    → update_connection st c f ≡ record st { connections = set st.connections c (f con) }
unfolding update_connection
update_connection_lem st c f e = ground arith

-- A store into a server keeps all but the servers.
pub update_server-connections :
    (st : State) (k : ℕ) (f : Server → Server)
    → ((update_server st k f).connections ≡ st.connections)
      × ((update_server st k f).pcon ≡ st.pcon)
      × ((update_server st k f).ppath ≡ st.ppath)
unfolding update_server
update_server-connections st k f = ground arith

pub update_server_other :
    (st : State) (k j : ℕ) (f : Server → Server)
    → k ≢ j
    → get_elem? (update_server st k f).servers j ≡ get_elem? st.servers j
unfolding update_server
update_server_other st k j f ne = elim (Option-cases (get_elem? st.servers k)) [
  | inl e ↦ ground arith
  | inr (srv, e) ↦ ground (arith, get_elem?-set_ne st.servers k j (f srv) ne)
]

pub update_connection_self :
    (st : State) (c : ℕ) (f : Connection → Connection) {con : Connection}
    → get_elem? st.connections c ≡ some con
    → (get_elem? (update_connection st c f).connections c ≡ some (f con))
      × ((update_connection st c f).pcon ≡ st.pcon)
update_connection_self st c f {con} e =
    rw (update_connection_lem st c f e)
      (get_elem?-set_self st.connections c (f con) (get_elem?-lt st.connections c e), refl)
