-- ===== src/Pool/Tests.antt =====
-- Three servers with a connection or two, and the theorems about them at these.
use mg_web.Base.{
  ℕ, zero, suc, ◌≤◌, ◌<◌, ◌≡◌, ◌≢◌, refl, List, [], ◌∷◌, Bool, true, false, none, some, ◌⊎◌, inl,
  arith, get_elem?, set, length,
}
use mg_web.Pool.{State, Connection, slot}
use mg_web.Pool.Claim.{claimed, claim, attach, walk, queue_timeout, limit}
use mg_web.Pool.Claim.Exclusive.{HeldAfter, claim-HeldAfter, claim-stale}
use mg_web.Pool.Dial.{returned, dial_loop}
use mg_web.Pool.Claim.Overdrawn.{attach-claim}
use mg_web.Pool.Claim.Scan.{allocated}
use mg_web.Pool.Dial.Retry.{MayRetry, Attempts, dial_loop-Attempts_all}
use mg_web.Pool.Failover.{count_shared, server_offline, server_online}
use mg_web.Pool.Failover.Offline.{IsOther, server_offline_lem}
use mg_web.Pool.Failover.Online.{OnlineAt, server_online-all}
use mg_web.Pool.Obtain.{World, obtain_on, obtain_connection}
use mg_web.Pool.Obtain.Chosen.{undecided, obtain_connection-searched}
use mg_web.Pool.Obtain.Outcome.{Obtained, obtain_on-Obtained}
use mg_web.Pool.Select.{found, exhausted, looping, obtain_server, search_from, examine, rotate}
use mg_web.Pool.Select.Search.{IsLinked, IsUnusable, Takes, obtain_server-Ends}
use mg_web.Pool.Select.Stuck.{obtain_server-looping}
use mg_web.Status.{success, failure}
use mg_web.Types.{Server, PathServer, MgPath}

abbrev up : Server
up = record {
  dbtype = 2;
  offline = 0;
  no_requests = 0;
  time_offline = 0;
  idle_timeout = 0;
  health_check = 0;
  con_retry_time = 0;
  con_retry_no = 3;
  max_connections = 1;
  timeout = 1;
  net_connection = true;
}

abbrev down : Server
down = record up { offline = 1; time_offline = 50; health_check = 20 }

abbrev on_slot : ℕ → Bool → PathServer
on_slot k exclusive = record { lcname = []; psrv = k; exclusive = exclusive }

abbrev path : Bool → Bool → MgPath
path balanced second_exclusive = record {
  name = b'/' ∷ [];
  name_len = 1;
  load_balancing = balanced;
  server_no = 0;
  servers = on_slot 0 false ∷ on_slot 1 second_exclusive ∷ on_slot 2 false ∷ [];
}

abbrev held : ℕ → Connection
held k = record {
  alloc = true;
  inuse = true;
  connected = true;
  no_requests = 1;
  time_request = 10;
  timeout = 1;
  psrv = some k;
}

abbrev unused : Connection
unused = record (held 0) { alloc = false; inuse = false }

abbrev state : MgPath → List Server → List Connection → State
state p servers connections = record {
  servers = servers;
  connections = connections;
  requestno = 7;
  ppath = p;
  server_no = none;
  psrv = none;
  pcon = none;
  requestno_in = 0;
  mg_connect_failed = false;
}

-- The first server is down since second 50, and tried again behind second 70.
abbrev balanced : State
balanced = state (path true false) (down ∷ up ∷ up ∷ []) (held 1 ∷ unused ∷ [])

-- The second server is for exclusive use, and there is no load balancing.
abbrev stuck : State
stuck = state (path false true) (down ∷ up ∷ up ∷ []) []

abbrev alone : ℕ → State → State
alone t st = st

abbrev world : World
world = record {
  time_now = 60;
  stamp = 60;
  time_claimed = 60;
  others = alone;
  memory = true;
  dial = λ n. true;
  clock = λ n. n;
  open_db = true;
  rounds = 3;
  tries = 1;
}

obtain_server_test : (obtain_server 3 60 60 balanced).0 ≡ found 1
unfolding obtain_server search_from examine rotate
obtain_server_test = refl

obtain_server_retry_test : (obtain_server 3 71 71 balanced).0 ≡ found 0
unfolding obtain_server search_from examine rotate
obtain_server_retry_test = refl

balanced_linked :
    (i : ℕ)
    → i < length balanced.ppath.servers
    → (entry : PathServer) × (srv : Server) × (slot balanced.servers balanced.ppath i
        ≡ some (entry, srv))
balanced_linked zero lt = (_, _, refl)
balanced_linked (suc zero) lt = (_, _, refl)
balanced_linked (suc (suc zero)) lt = (_, _, refl)
balanced_linked (suc (suc (suc i))) lt = absurd (omega arith)

balanced-IsLinked : IsLinked balanced
balanced-IsLinked = record { current = omega arith; linked = balanced_linked }

obtain_server-Ends_example :
    Takes 60 60 0 balanced (obtain_server 3 60 60 balanced)
    ⊎ ((obtain_server 3 60 60 balanced ≡ (exhausted, balanced))
        × ((k : ℕ) → k < length balanced.ppath.servers → IsUnusable 60 balanced k))
obtain_server-Ends_example =
    obtain_server-Ends 3 60 60 balanced balanced-IsLinked (λ i entry srv at. inl refl) (omega arith)

obtain_server-looping_example : (obtain_server 1001 60 60 stuck).0 ≡ looping
obtain_server-looping_example =
    obtain_server-looping 1000 60 60 stuck (on_slot 0 false) (on_slot 1 true) down up refl refl
      (omega arith) (λ u. ground arith) (omega arith) refl refl refl

not_full : (walk 2 up balanced.connections 0 0 none).0 ≢ limit
unfolding walk
not_full e = cc

claim-HeldAfter_example : let r = claim alone true 2 up balanced in HeldAfter 2 up balanced r.0 r.1
claim-HeldAfter_example = claim-HeldAfter alone true 2 up balanced not_full

-- Another request takes the free connection, and the one in use is closed.
abbrev meanwhile : ℕ → State → State
meanwhile t st = record st { connections = held 2 ∷ unused ∷ [] }

abbrev waiting : State
waiting = state (path true false) (up ∷ up ∷ up ∷ []) (unused ∷ held 1 ∷ [])

claim-stale_example : (claim meanwhile true 1 up waiting).0 ≡ claimed 0 false
unfolding walk queue_timeout
claim-stale_example = claim-stale meanwhile true 1 up waiting 0 0 refl refl refl

-- One connection of two that are allowed, in use.
abbrev two_allowed : Server
two_allowed = record up { max_connections = 2 }

abbrev one_left : State
one_left = state (path true false) (up ∷ two_allowed ∷ []) (held 1 ∷ [])

abbrev second_request : State
second_request = (claim alone true 1 two_allowed one_left).1

abbrev both_claimed : State
both_claimed = (claim alone true 1 two_allowed second_request).1

attach-claim_example :
    ((claim alone true 1 two_allowed one_left).0 ≡ claimed 1 false)
    × ((claim alone true 1 two_allowed second_request).0 ≡ claimed 2 false)
    × (2 < allocated 1 (attach 1 two_allowed 2 (attach 1 two_allowed 1 both_claimed)).connections)
unfolding walk allocated
attach-claim_example =
    attach-claim alone 1 two_allowed one_left second_request both_claimed refl refl refl refl

no_more : ¬ MayRetry (λ n. n) up 1
no_more may = ground arith

dial_loop-Attempts_all_example :
    Attempts (λ n. false) (λ n. n) up 0 (dial_loop 4 (λ n. false) (λ n. n) up 0)
dial_loop-Attempts_all_example =
    dial_loop-Attempts_all 4 1 (λ n. false) (λ n. n) up no_more (omega arith) (omega arith)

obtain_on-Obtained_example : Obtained 2 up balanced (obtain_on world 2 balanced)
obtain_on-Obtained_example =
    obtain_on-Obtained world 2 balanced (on_slot 2 false) up 1 refl not_full no_more (omega arith)
      (omega arith)

obtain_connection-searched_example :
    ((t : Takes 60 60 0 (undecided balanced) (obtain_server 3 60 60 (undecided balanced)))
      × (obtain_connection world balanced
          ≡ obtain_on world t.place
              (record (obtain_server 3 60 60 (undecided balanced)).1 { server_no = some t.place })))
    ⊎ (((k : ℕ) → k < length balanced.ppath.servers → IsUnusable 60 balanced k)
        × ((st' : State) × (obtain_connection world balanced ≡ returned (st', failure))
            × ((count_shared 32 balanced.ppath.servers < 2)
                ⊎ ((n : ℕ) (entry : PathServer)
                    → get_elem? balanced.ppath.servers n ≡ some entry
                    → OnlineAt st' entry.psrv))))
obtain_connection-searched_example =
    obtain_connection-searched world balanced balanced-IsLinked (λ i entry srv at. inl refl)
      (omega arith) (λ n e can. cc)

server_offline_lem_example :
    let r = server_offline 0 90 success (some 1) balanced in
    (((◌≡◌ {A = ℕ} 0 10) ⊎ (2 ≤ count_shared 32 balanced.ppath.servers))
      × (r.1 ≡ success)
      × (r.0.servers ≡ set balanced.servers 1 (record up { offline = 1; time_offline = 90 }))
      × ((j : ℕ)
          → IsOther balanced j
          → get_elem? r.0.connections j ≡ get_elem? balanced.connections j))
    ⊎ ((◌≢◌ {A = ℕ} 0 10)
        × (count_shared 32 balanced.ppath.servers < 2)
        × (r ≡ (balanced, failure)))
server_offline_lem_example = server_offline_lem 0 90 success 1 balanced up refl

server_online-all_example :
    let r = server_online none balanced in
    ((2 ≤ count_shared 32 balanced.ppath.servers)
      × (r.1 ≡ success)
      × ((n : ℕ) (entry : PathServer)
          → get_elem? balanced.ppath.servers n ≡ some entry
          → OnlineAt r.0 entry.psrv)
      × (r.0.ppath ≡ record balanced.ppath { server_no = 0 })
      × (r.0.connections ≡ balanced.connections))
    ⊎ ((count_shared 32 balanced.ppath.servers < 2) × (r ≡ (balanced, failure)))
server_online-all_example = server_online-all balanced
