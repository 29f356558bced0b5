-- ===== src/Pool/Obtain/Outcome.antt =====
-- What a request holds when the call has returned.
use mg_web.Base.{
  if_both, ℕ, ◌≤◌, ◌<◌, ◌≡◌, ◌≢◌, refl, ap, ◌∙◌, subst, Bool, true, false, not, ◌&&◌, ◌==◌,
  if◌then◌else◌, none, some, get_elem?, arith, ◌⊎◌, inl, inr,
}
use mg_web.Pool.{State, Connection, slot, update_connection}
use mg_web.Pool.Claim.{Claimed, claimed, server_busy, no_memory, claim, attach, walk, limit}
use mg_web.Pool.Dial.{
  Returned, returned, running, connect, settle, dial_loop, Dialed, connected, refused, dialing,
}
use mg_web.Pool.Obtain.{
  World, mark_online, drop_connection, open_connection, use_claimed, checked, is_stale, obtain_on,
  dropped,
}
use mg_web.Pool.Claim.Exclusive.{CanTake, HeldAfter, claim-HeldAfter}
use mg_web.Pool.Dial.Retry.{MayRetry, dial_loop-ne-dialing}
use mg_web.Pool.Failover.{server_online, online}
use mg_web.Pool.Store.{update_connection_self, update_server-connections}
use mg_web.Status.{Rc, success, failure, nocon, maxcon}
use mg_web.Types.{Server, PathServer}

-- The connection `c` of the state, with its flags.
abbrev HasFlags : State → ℕ → Bool → Bool → Type 0
HasFlags st c alloc inuse =
    (con : Connection) × (get_elem? st.connections c ≡ some con)
    × (con.alloc ≡ alloc)
    × (con.inuse ≡ inuse)

-- Success: the request holds the connection `c`, allocated and in use. No connection: the request
-- holds none, and `c` is free again.
abbrev pub Settled : ℕ → Returned (State × Rc) → Type 0
Settled c (returned (st, success)) = (st.pcon ≡ some c) × HasFlags st c true true
Settled c (returned (st, nocon)) = (st.pcon ≡ none) × HasFlags st c false false
Settled c (returned (st, failure)) = ⊥
Settled c (returned (st, maxcon)) = ⊥
Settled c running = ⊥

mark_online-same :
    (k : ℕ) (st : State)
    → ((mark_online k st).connections ≡ st.connections) × ((mark_online k st).pcon ≡ st.pcon)
unfolding mark_online server_online
mark_online-same k st = ground (arith, update_server-connections st k online)

drop_connection-HasFlags :
    (c : ℕ) (st : State) (con : Connection)
    → get_elem? st.connections c ≡ some con
    → ((drop_connection c st).pcon ≡ none) × HasFlags (drop_connection c st) c false false
unfolding drop_connection
drop_connection-HasFlags c st con at =
    (refl, (dropped con, (update_connection_self st c dropped at).0, refl, refl))

-- What opening the connection comes to.
abbrev Connects : ℕ → State → Returned (State × Rc) → Type 0
Connects c st (returned (st', success)) = (st'.pcon ≡ st.pcon) × HasFlags st' c true true
Connects c st (returned (st', nocon)) =
    (con : Connection) × (get_elem? st'.connections c ≡ some con)
Connects c st (returned (st', failure)) = ⊥
Connects c st (returned (st', maxcon)) = ⊥
Connects c st running = ⊥

settle-Connects :
    (c : ℕ) (st : State) (d : Dialed) (con : Connection)
    → get_elem? st.connections c ≡ some con
    → con.inuse ≡ true
    → d ≢ dialing
    → Connects c st (settle c st d)
unfolding settle
settle-Connects c st (connected n) con at busy ends =
    let (at', same) = update_connection_self st c _ at in (same, (_, at', refl, busy))
settle-Connects c st (refused n) con at busy ends =
    (_, (update_connection_self (record st { mg_connect_failed = true }) c _ at).0)
settle-Connects c st dialing con at busy ends = absurd (ends refl)

connect-Connects :
    (tries : ℕ) (dial : ℕ → Bool) (clock : ℕ → ℕ) (open_db : Bool) (srv : Server) (c : ℕ)
    (st : State) (con : Connection)
    → get_elem? st.connections c ≡ some con
    → con.inuse ≡ true
    → dial_loop tries dial clock srv 0 ≢ dialing
    → Connects c st (connect tries dial clock open_db srv c st)
unfolding connect
connect-Connects tries dial clock open_db srv c st con at busy ends =
    let start = record st { mg_connect_failed = false } in
    if_both (Connects c st) srv.net_connection
      (settle-Connects c start (dial_loop tries dial clock srv 0) con at busy ends)
      (if_both (Connects c st) open_db
        (let (at', same) = update_connection_self start c _ at in (same, (_, at', refl, busy)))
        (_, (update_connection_self (record start { mg_connect_failed = true }) c _ at).0))

Settled-success :
    (c : ℕ) (k : ℕ) (st : State)
    → st.pcon ≡ some c
    → HasFlags st c true true
    → Settled c (returned (mark_online k st, success))
Settled-success c k st own (con, at, used, busy) =
    let (cons, pcon) = mark_online-same k st in
    (pcon ∙ own, (con, ap (λ l. get_elem? l c) cons ∙ at, used, busy))

-- The end of `open_connection`, on what opening came to.
finish_open-Settled :
    (c k : ℕ) (st : State) (r : Returned (State × Rc))
    → st.pcon ≡ some c
    → Connects c st r
    → Settled c (elim r [
      | running ↦ running
      | returned (st'', rc) ↦ elim rc [
        | success ↦ returned (mark_online k st'', success)
        | other ↦ returned (drop_connection c st'', other)
      ]
    ])
finish_open-Settled c k st running own h = absurd h
finish_open-Settled c k st (returned (st', success)) own (same, flags) =
    Settled-success c k st' (same ∙ own) flags
finish_open-Settled c k st (returned (st', nocon)) own (con, at) =
    drop_connection-HasFlags c st' con at
finish_open-Settled c k st (returned (st', failure)) own h = absurd h
finish_open-Settled c k st (returned (st', maxcon)) own h = absurd h

open_connection-Settled :
    (w : World) (k : ℕ) (srv : Server) (c : ℕ) (st : State) (con : Connection)
    → st.pcon ≡ some c
    → get_elem? st.connections c ≡ some con
    → con.inuse ≡ true
    → dial_loop w.tries w.dial w.clock srv 0 ≢ dialing
    → Settled c (open_connection w k srv c st)
unfolding open_connection attach
open_connection-Settled w k srv c st con own at busy ends =
    let st' = attach k srv c st in
    let (at', same) =
      update_connection_self st c
        (λ con. record con { connected = false; timeout = srv.timeout; psrv = some k }) at in
    if_both (Settled c) (srv.dbtype == 0) (drop_connection-HasFlags c st' _ at') (
      finish_open-Settled c k st' _ (same ∙ own)
        (connect-Connects w.tries w.dial w.clock w.open_db srv c st' _ at' busy ends))

use_claimed-Settled :
    (w : World) (k : ℕ) (srv : Server) (c : ℕ) (existing : Bool) (st : State) (con : Connection)
    → get_elem? st.connections c ≡ some con
    → con.alloc ≡ true
    → con.inuse ≡ true
    → dial_loop w.tries w.dial w.clock srv 0 ≢ dialing
    → Settled c (use_claimed w k srv (claimed c existing) st)
unfolding use_claimed
use_claimed-Settled w k srv c existing st con at used busy ends =
    let own = record st { psrv = some k; pcon = some c } in
    let check = checked w.time_claimed srv in
    let kept : ((check con).alloc ≡ true) × ((check con).inuse ≡ true) = ground arith in
    let (at', same) = update_connection_self own c check at in
    let st' = update_connection own c check in
    subst (Settled c)
      {x = if existing && not (is_stale w.time_claimed srv con)
        then returned (mark_online k st', success)
        else open_connection w k srv c st'}
      (ground arith)
      (if_both (Settled c) (existing && not (is_stale w.time_claimed srv con))
        (Settled-success c k st' same (check con, at', kept.0, kept.1))
        (open_connection-Settled w k srv c st' (check con) same at' kept.1 ends))

-- What the call has come to, with the connections before it: the request holds a connection that
-- could be taken, or has tried one and given it back; or it got none, and no connection is changed.
abbrev pub Obtained : ℕ → Server → State → Returned (State × Rc) → Type 0
Obtained k srv st r =
    ((c : ℕ) × (existing : Bool) × CanTake k srv st.connections c existing × Settled c r)
    ⊎ ((st' : State) × (rc : Rc) × (r ≡ returned (st', rc))
        × ((rc ≡ maxcon) ⊎ (rc ≡ failure))
        × (st'.connections ≡ st.connections))

use_claimed-Obtained :
    (w : World) (k : ℕ) (srv : Server) (st : State) (r : Claimed) (st' : State)
    → dial_loop w.tries w.dial w.clock srv 0 ≢ dialing
    → HeldAfter k srv st r st'
    → Obtained k srv st (use_claimed w k srv r st')
unfolding use_claimed
use_claimed-Obtained w k srv st (claimed c existing) st' ends (unheld, ((con, at, used, busy), _)) =
    inl (c, existing, unheld, use_claimed-Settled w k srv c existing st' con at used busy ends)
use_claimed-Obtained w k srv st server_busy st' ends same =
    inr (record st' { psrv = some k }, maxcon, refl, inl refl, same)
use_claimed-Obtained w k srv st no_memory st' ends same =
    inr (record st' { psrv = some k }, failure, refl, inr refl, same)

-- The call on a server of the path, where the first pass does not find the server at its limit and
-- the configuration bounds the attempts to connect, and no other thread acts behind the claim: it
-- returns. On success the request holds a connection, now allocated and in use, that was one of
-- the server's before, and an idle one if it is a network server, or was not allocated, or is new.
-- If there is no connection, the request holds none, and the one that it tried is free again. If
-- memory is short or the server is busy, no connection is changed.
pub obtain_on-Obtained :
    (w : World) (n : ℕ) (st : State) (entry : PathServer) (srv : Server) (last : ℕ)
    → slot st.servers st.ppath n ≡ some (entry, srv)
    → (walk entry.psrv srv st.connections 0 0 none).0 ≢ limit
    → ¬ MayRetry w.clock srv last
    → 0 < last
    → last ≤ w.tries
    → Obtained entry.psrv srv st (obtain_on w n st)
unfolding obtain_on
obtain_on-Obtained w n st entry srv last at room up pos enough =
    let r = claim w.others w.memory entry.psrv srv st in
    let ends = dial_loop-ne-dialing w.tries last w.dial w.clock srv up pos enough in
    rw (at, obtain_on)
      (use_claimed-Obtained w entry.psrv srv st r.0 r.1 ends
        (claim-HeldAfter w.others w.memory entry.psrv srv st room))
