-- ===== src/Pool/Claim/Exclusive.antt =====
-- Whose connection is claimed.
use mathlib.Core.Path.{ap₂}
use mg_web.Base.{
  ℕ, zero, suc, ◌+◌, ◌-◌, ◌<◌, ◌≡◌, ◌≢◌, refl, sym, ap, ◌∙◌, subst, List, [], ◌∷◌, ◌++◌, Bool, true,
  false, Option, none, some, get_elem?, length, arith, inl, inr, ◌⊎◌, get_elem?-set_self,
  get_elem?-set_ne, get_elem?-lt, Bool-cases,
}
use mg_web.Pool.{State, Connection, update_connection}
use mg_web.Pool.Claim.{
  Walk, reuse, limit, ended, walk, walk_queued, queue_timeout, is_on, Claimed, claimed, server_busy,
  no_memory, take_connection, number_request, claim, in_use, recycled, fresh,
}
use mg_web.Pool.Claim.Capacity.{
  walk_queued-stop, walk_queued-wait, number_request-connections, get_elem?-append_self,
}
use mg_web.Pool.Claim.Scan.{walk-reuse, walk-free}
use mg_web.Pool.Store.{update_connection_lem}
use mg_web.Types.{Server}

-- The connection `c` can be taken: it is one of server `k`, and with a network server idle, where with
-- an API it may be in use; or it is not allocated; or it is a new one behind the list.
abbrev pub CanTake : ℕ → Server → List Connection → ℕ → Bool → Type 0
CanTake k srv cons c true =
    (con : Connection) × (get_elem? cons c ≡ some con)
    × (is_on k con ≡ true)
    × (srv.net_connection ≡ true → con.inuse ≡ false)
CanTake k srv cons c false =
    ((con : Connection) × (get_elem? cons c ≡ some con) × (con.alloc ≡ false)) ⊎ (c ≡ length cons)

-- What the claim makes of the list: `c` is allocated and in use, and the others are as they were.
abbrev pub Holds : List Connection → List Connection → ℕ → Type 0
Holds cons cons' c =
    ((con : Connection) × (get_elem? cons' c ≡ some con) × (con.alloc ≡ true) × (con.inuse ≡ true))
    × ((j : ℕ) → j < length cons → j ≢ c → get_elem? cons' j ≡ get_elem? cons j)

abbrev pub HeldAfter : ℕ → Server → State → Claimed → State → Type 0
HeldAfter k srv st (claimed c existing) st' =
    CanTake k srv st.connections c existing × Holds st.connections st'.connections c
HeldAfter k srv st server_busy st' = st'.connections ≡ st.connections
HeldAfter k srv st no_memory st' = st'.connections ≡ st.connections

update-Holds :
    (st : State) (c : ℕ) (f : Connection → Connection) (con : Connection)
    → get_elem? st.connections c ≡ some con
    → (f con).alloc ≡ true
    → (f con).inuse ≡ true
    → Holds st.connections (update_connection st c f).connections c
update-Holds st c f con at used busy = rw (update_connection_lem st c f at) (
  (
    f con,
    get_elem?-set_self st.connections c (f con) (get_elem?-lt st.connections c at),
    used,
    busy,
  ),
  λ j _ ne. get_elem?-set_ne st.connections c j (f con) (λ e. ne (sym e)),
)

get_elem?-append_before :
    (cons : List Connection) (con : Connection) (j : ℕ)
    → j < length cons
    → get_elem? (cons ++ (con ∷ [])) j ≡ get_elem? cons j
get_elem?-append_before [] con j lt = absurd (omega arith)
get_elem?-append_before (x ∷ cons) con zero lt = refl
get_elem?-append_before (x ∷ cons) con (suc j) lt = get_elem?-append_before cons con j (omega arith)

take_connection-HeldAfter :
    (k : ℕ) (srv : Server) (memory : Bool) (w : Walk) (free : Option ℕ) (st : State)
    → walk k srv st.connections 0 0 none ≡ (w, free)
    → let r = take_connection memory (w, free, st) in HeldAfter k srv st r.0 r.1
unfolding take_connection
take_connection-HeldAfter k srv memory (reuse c) free st e =
    let (con, _, at, on, idle) =
      walk-reuse k srv st.connections 0 0 c none (ap (λ (r : Walk × Option ℕ). r.0) e) in
    let place : c - 0 ≡ c = omega arith in
    let at' : get_elem? st.connections c ≡ some con =
      subst (λ j. get_elem? st.connections j ≡ some con) place at in
    ((con, at', on, idle), update-Holds st c in_use con at' (ground arith) refl)
take_connection-HeldAfter k srv memory limit free st e = refl
take_connection-HeldAfter k srv memory ended (some f) st e =
    let noted = walk-free k srv st.connections 0 0 f none (ap (λ (r : Walk × Option ℕ). r.1) e) in
    let place : f - 0 ≡ f = omega arith in
    elim noted [
      | inl given ↦ cc
      | inr (con, _, at, off) ↦
          let at' : get_elem? st.connections f ≡ some con =
            subst (λ j. get_elem? st.connections j ≡ some con) place at in
          (inl (con, at', off), update-Holds st f recycled con at' refl refl)
    ]
take_connection-HeldAfter k srv memory ended none st e = elim (Bool-cases memory) [
  | inr short ↦ rw short refl
  | inl enough ↦ rw enough (
    inr refl,
    (
      (fresh, get_elem?-append_self st.connections fresh, refl, refl),
      λ j lt _. get_elem?-append_before st.connections fresh j lt,
    ),
  )
]

HeldAfter-connections :
    (k : ℕ) (srv : Server) (st : State) (r : Claimed) (s t : State)
    → t.connections ≡ s.connections
    → HeldAfter k srv st r s
    → HeldAfter k srv st r t
HeldAfter-connections k srv st (claimed c existing) s t same h =
    (h.0, subst (λ l. Holds st.connections l c) (sym same) h.1)
HeldAfter-connections k srv st server_busy s t same h = same ∙ h
HeldAfter-connections k srv st no_memory s t same h = same ∙ h

-- A claim whose first pass does not find the server at its limit takes a connection of the server,
-- and an idle one if it is a network server, or takes one that is not allocated, or adds a new one;
-- it marks it as allocated and in use, and leaves all others alone. Where it takes none, it changes
-- no connection.
pub claim-HeldAfter :
    (others : ℕ → State → State) (memory : Bool) (k : ℕ) (srv : Server) (st : State)
    → (walk k srv st.connections 0 0 none).0 ≢ limit
    → let r = claim others memory k srv st in HeldAfter k srv st r.0 r.1
unfolding claim
claim-HeldAfter others memory k srv st stop =
    let p = walk k srv st.connections 0 0 none in
    let r = take_connection memory (p.0, p.1, st) in
    rw (walk_queued-stop others k srv (queue_timeout srv) none st stop) (
      HeldAfter-connections k srv st r.0 r.1 (number_request k r.1)
        (number_request-connections k r.1) (take_connection-HeldAfter k srv memory p.0 p.1 st refl))

walk-free_kept :
    (k : ℕ) (srv : Server) (cons : List Connection) (i n f : ℕ)
    → (walk k srv cons i n (some f)).1 ≡ some f
unfolding walk
walk-free_kept k srv [] i n f = refl
walk-free_kept k srv (con ∷ rest) i n f =
    ground
      (arith, walk-free_kept k srv rest (i + 1) n f, walk-free_kept k srv rest (i + 1) (n + 1) f)

-- A free connection that the first pass has noted before it met the limit is claimed after a wait
-- whose pass gets to the end of the list, whatever other request has taken it meanwhile.
pub claim-stale :
    (others : ℕ → State → State) (memory : Bool) (k : ℕ) (srv : Server) (st : State) (left f : ℕ)
    → queue_timeout srv ≡ suc left
    → walk k srv st.connections 0 0 none ≡ (limit, some f)
    → (walk k srv (others left st).connections 0 0 (some f)).0 ≡ ended
    → (claim others memory k srv st).0 ≡ claimed f false
unfolding claim
claim-stale others memory k srv st left f timeout first second =
    let st' = others left st in
    let p = walk k srv st'.connections 0 0 (some f) in
    let waited : walk_queued others k srv (suc left) none st
        ≡ walk_queued others k srv left (some f) st' =
      walk_queued-wait others k srv left none st (ap (λ (r : Walk × Option ℕ). r.0) first)
      ∙ ap (λ (r : Walk × Option ℕ). walk_queued others k srv left r.1 st') first in
    let last : walk_queued others k srv left (some f) st' ≡ (ended, some f, st') =
      walk_queued-stop others k srv left (some f) st' (λ e. cc)
      ∙ ap₂ (λ (w : Walk) (g : Option ℕ). (w, g, st')) second
          (walk-free_kept k srv st'.connections 0 0 f) in
    rw (timeout, waited ∙ last) (unfold take_connection in refl)
