-- ===== src/Pool/Claim/Overdrawn.antt =====
-- src/mg_web.c, `mg_obtain_connection`: the connection that is claimed under the mutex counts for its server only behind the
-- mutex, once its `psrv` is stored.
use mg_web.Base.{
  ℕ, ◌+◌, ◌<◌, ◌≡◌, ◌≢◌, refl, sym, ap, ◌∙◌, subst, List, [], ◌∷◌, ◌++◌, true, false, Option, none,
  some, get_elem?, set, length, arith, length-append, append_assoc,
}
use mg_web.Pool.{State, Connection}
use mg_web.Pool.Claim.{
  Walk, ended, limit, walk, queue_timeout, claimed, take_connection, claim, attach, fresh,
}
use mg_web.Pool.Claim.Capacity.{walk_queued-stop, number_request-connections}
use mg_web.Pool.Claim.Scan.{allocated}
use mg_web.Pool.Store.{update_connection_lem}
use mg_web.Types.{Server}

-- A connection that is new and not yet attached changes nothing for the next pass.
walk-fresh :
    (k : ℕ) (srv : Server) (cons : List Connection) (i n : ℕ) (free : Option ℕ)
    → walk k srv cons i n free ≡ (ended, none)
    → walk k srv (cons ++ (fresh ∷ [])) i n free ≡ (ended, none)
unfolding walk
walk-fresh k srv [] i n none e = refl
walk-fresh k srv [] i n (some f) e = e
walk-fresh k srv (con ∷ rest) i n none e = ground (
  arith,
  walk-fresh k srv rest (i + 1) n none,
  walk-fresh k srv rest (i + 1) (n + 1) none,
  walk-fresh k srv rest (i + 1) n (some i),
  walk-fresh k srv rest (i + 1) (n + 1) (some i),
)
walk-fresh k srv (con ∷ rest) i n (some f) e = ground (
  arith,
  walk-fresh k srv rest (i + 1) n (some f),
  walk-fresh k srv rest (i + 1) (n + 1) (some f),
)

-- A claim that finds neither a connection to use nor a free one makes a new one.
claim-fresh :
    (others : ℕ → State → State) (k : ℕ) (srv : Server) (st : State)
    → walk k srv st.connections 0 0 none ≡ (ended, none)
    → ((claim others true k srv st).0 ≡ claimed (length st.connections) false)
      × ((claim others true k srv st).1.connections ≡ st.connections ++ (fresh ∷ []))
unfolding claim take_connection
claim-fresh others k srv st e =
    let stop : (walk k srv st.connections 0 0 none).0 ≢ limit =
      λ at_limit. absurd (let other = ap (λ (r : Walk × Option ℕ). r.0) e in cc) in
    let passes = walk_queued-stop others k srv (queue_timeout srv) none st stop in
    let made : State = record st { connections = st.connections ++ (fresh ∷ []) } in
    rw (passes, e) (refl, number_request-connections k made)

get_elem?-middle :
    (xs ys : List Connection) (x : Connection) → get_elem? (xs ++ (x ∷ ys)) (length xs) ≡ some x
get_elem?-middle [] ys x = refl
get_elem?-middle (z ∷ xs) ys x = get_elem?-middle xs ys x

set-middle :
    (xs ys : List Connection) (x y : Connection)
    → set (xs ++ (x ∷ ys)) (length xs) y ≡ xs ++ (y ∷ ys)
set-middle [] ys x y = refl
set-middle (z ∷ xs) ys x y = ap (◌∷◌ z) (set-middle xs ys x y)

abbrev attached : ℕ → Server → Connection → Connection
attached k srv con = record con { connected = false; timeout = srv.timeout; psrv = some k }

attach-middle :
    (k : ℕ) (srv : Server) (xs ys : List Connection) (x : Connection) (st : State)
    → st.connections ≡ xs ++ (x ∷ ys)
    → (attach k srv (length xs) st).connections ≡ xs ++ (attached k srv x ∷ ys)
unfolding attach
attach-middle k srv xs ys x st e =
    let at : get_elem? st.connections (length xs) ≡ some x =
      ap (λ (l : List Connection). get_elem? l (length xs)) e ∙ get_elem?-middle xs ys x in
    rw (update_connection_lem st (length xs) (attached k srv) at) (
      ap (λ (l : List Connection). set l (length xs) (attached k srv x)) e
      ∙ set-middle xs ys x (attached k srv x))

allocated-two :
    (k : ℕ) (srv : Server) (xs : List Connection)
    → allocated k (xs ++ (attached k srv fresh ∷ attached k srv fresh ∷ [])) ≡ allocated k xs + 2
unfolding allocated
allocated-two k srv [] = ground arith
allocated-two k srv (x ∷ xs) = omega (arith, allocated-two k srv xs)

-- Two requests for a server with one connection less than its limit, all of them in use, where no connection is free: the second
-- one claims its connection behind the first one's critical section, and before that one has stored the server in its connection.
-- Then both are given a connection, and once both are attached, more than the limit are allocated to the server.
pub attach-claim :
    (others : ℕ → State → State) (k : ℕ) (srv : Server) (st second both : State)
    → walk k srv st.connections 0 0 none ≡ (ended, none)
    → allocated k st.connections + 1 ≡ srv.max_connections
    → second.connections ≡ (claim others true k srv st).1.connections
    → both.connections ≡ (claim others true k srv second).1.connections
    → let n = length st.connections in
      ((claim others true k srv st).0 ≡ claimed n false)
      × ((claim others true k srv second).0 ≡ claimed (n + 1) false)
      × (srv.max_connections < allocated k (attach k srv (n + 1) (attach k srv n both)).connections)
attach-claim others k srv st second both passed almost then_second then_both =
    let cons = st.connections in
    let n = length cons in
    let (first_new, first_list) = claim-fresh others k srv st passed in
    let listed : second.connections ≡ cons ++ (fresh ∷ []) = then_second ∙ first_list in
    let passed2 : walk k srv second.connections 0 0 none ≡ (ended, none) =
      ap (λ (l : List Connection). walk k srv l 0 0 none) listed
      ∙ walk-fresh k srv cons 0 0 none passed in
    let (second_new, second_list) = claim-fresh others k srv second passed2 in
    let place : length second.connections ≡ n + 1 =
      ap length listed ∙ length-append cons (fresh ∷ []) in
    let whole : both.connections ≡ cons ++ (fresh ∷ fresh ∷ []) =
      then_both
      ∙ second_list
      ∙ ap (λ (l : List Connection). l ++ (fresh ∷ [])) listed
      ∙ append_assoc cons (fresh ∷ []) (fresh ∷ []) in
    let new = attached k srv fresh in
    let one : (attach k srv n both).connections ≡ (cons ++ (new ∷ [])) ++ (fresh ∷ []) =
      attach-middle k srv cons (fresh ∷ []) fresh both whole
      ∙ sym (append_assoc cons (new ∷ []) (fresh ∷ [])) in
    let behind : length (cons ++ (new ∷ [])) ≡ n + 1 = length-append cons (new ∷ []) in
    let two : (attach k srv (n + 1) (attach k srv n both)).connections ≡ cons ++ (new ∷ new ∷ []) =
      subst (λ c. (attach k srv c (attach k srv n both)).connections ≡ cons ++ (new ∷ new ∷ []))
        behind
        (attach-middle k srv (cons ++ (new ∷ [])) [] fresh (attach k srv n both) one
          ∙ append_assoc cons (new ∷ []) (new ∷ [])) in
    let count : allocated k (attach k srv (n + 1) (attach k srv n both)).connections
        ≡ allocated k cons + 2 =
      ap (allocated k) two ∙ allocated-two k srv cons in
    (first_new, second_new ∙ ap (λ c. claimed c false) place, omega (arith, count, almost))
