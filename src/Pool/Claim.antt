-- ===== src/Pool/Claim.antt =====
-- src/mg_web.c: the part of `mg_obtain_connection` that runs under the global mutex and claims a
-- connection to the chosen DB server, waiting while the server's connections are all in use.
pub mod Scan
pub mod Capacity
pub mod Exclusive
pub mod Overdrawn
use mg_web.Base.{
  ℕ, zero, suc, ◌+◌, ◌%◌, ◌^◌, List, [], ◌∷◌, ◌++◌, Bool, true, false, not, ◌&&◌, ◌||◌, leb, ◌==◌,
  if◌then◌else◌, Option, none, some, length,
}
use mg_web.Pool.{State, Connection, update_server, update_connection}
use mg_web.Types.{Server}

-- How a walk along the connections ends: at one to use, at the server's limit, or at the end.
pub data Walk : Type 0 where
  reuse : ℕ → Walk
  limit ended : Walk

-- `pcon->alloc && pcon->psrv == psrv`
abbrev pub is_on : ℕ → Connection → Bool
is_on k con = con.alloc && elim con.psrv [ none ↦ false | some j ↦ j == k ]

-- `psrv->max_connections && connections_inuse >= psrv->max_connections`
abbrev pub is_full : Server → ℕ → Bool
is_full srv connections_inuse =
    not (srv.max_connections == 0) && leb srv.max_connections connections_inuse

abbrev pub first_free : Option ℕ → Connection → ℕ → Option ℕ
first_free (some f) con i = some f
first_free none con i = if con.alloc then none else some i

-- One pass of the `while` loop, from place `i` on; it returns `pcon_free` too.
unfoldable pub walk : ℕ → Server → List Connection → ℕ → ℕ → Option ℕ → Walk × Option ℕ
walk k srv [] i connections_inuse pcon_free = (ended, pcon_free)
walk k srv (con ∷ rest) i connections_inuse pcon_free =
    let busy = is_on k con && con.inuse in
    let inuse = if busy then connections_inuse + 1 else connections_inuse in
    let onward = walk k srv rest (i + 1) inuse (first_free pcon_free con i) in
    if is_on k con && (not srv.net_connection || not con.inuse)
    then (reuse i, pcon_free)
    else if busy && is_full srv inuse
    then (limit, pcon_free)
    else onward

-- `NETX_QUEUE_TIMEOUT`, or the server's own time-out.
unfoldable pub queue_timeout : Server → ℕ
queue_timeout srv = if srv.timeout == 0 then 60 else srv.timeout

-- The passes, with a second of sleep outside the mutex after each that ends at the limit. What the
-- other threads do meanwhile is `others`, given the seconds that are left. `pcon_free` is kept from
-- one pass to the next.
unfoldable pub walk_queued :
    (ℕ → State → State) → ℕ → Server → ℕ → Option ℕ → State → Walk × Option ℕ × State
walk_queued others k srv zero pcon_free st =
    let (w, free) = walk k srv st.connections 0 0 pcon_free in (w, free, st)
walk_queued others k srv (suc left) pcon_free st =
    let (w, free) = walk k srv st.connections 0 0 pcon_free in
    elim w [
      | limit ↦ walk_queued others k srv left free (others left st)
      | reuse c ↦ (reuse c, free, st)
      | ended ↦ (ended, free, st)
    ]

-- What the claim comes to: a connection, with `use_existing`; `server_busy`; or no memory for one.
pub data Claimed : Type 0 where
  claimed : ℕ → Bool → Claimed
  server_busy no_memory : Claimed

abbrev pub in_use : Connection → Connection
in_use con = record con { inuse = true }

abbrev pub recycled : Connection → Connection
recycled con = record con { alloc = true; inuse = true; connected = false; no_requests = 0 }

-- A block of zeros from `mg_malloc`, and what is stored in it.
abbrev pub fresh : Connection
fresh = record {
  alloc = true;
  inuse = true;
  connected = false;
  no_requests = 0;
  time_request = 0;
  timeout = 0;
  psrv = none;
}

-- Take what the walk has found. `memory` tells whether `mg_malloc` succeeds.
unfoldable pub take_connection : Bool → Walk × Option ℕ × State → Claimed × State
take_connection memory (reuse c, free, st) = (claimed c true, update_connection st c in_use)
take_connection memory (limit, free, st) = (server_busy, st)
take_connection memory (ended, some f, st) = (claimed f false, update_connection st f recycled)
take_connection memory (ended, none, st) =
    if memory
    then (
      claimed (length st.connections) false,
      record st { connections = st.connections ++ (fresh ∷ []) },
    )
    else (no_memory, st)

-- The number of the request, drawn once for each request; `unsigned long` wraps around.
unfoldable pub number_request : ℕ → State → State
number_request k st =
    if st.requestno_in == 0
    then update_server
        (record st { requestno_in = st.requestno; requestno = (st.requestno + 1) % 2 ^ 64 }) k
        (λ srv. record srv { no_requests = (srv.no_requests + 1) % 2 ^ 64 })
    else st

unfoldable pub claim : (ℕ → State → State) → Bool → ℕ → Server → State → Claimed × State
claim others memory k srv st =
    let (c, st') = take_connection memory (walk_queued others k srv (queue_timeout srv) none st) in
    (c, number_request k st')

-- What `mg_obtain_connection` stores in a connection that is to be opened, behind the mutex.
unfoldable pub attach : ℕ → Server → ℕ → State → State
attach k srv c st =
    update_connection st c
      (λ con. record con { connected = false; timeout = srv.timeout; psrv = some k })
