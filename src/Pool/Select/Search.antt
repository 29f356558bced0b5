-- ===== src/Pool/Select/Search.antt =====
-- Which server the search finds, and that it ends.
use native.Mathlib.Decide.{ℕ_discrete}
use mg_web.Base.{
  Bool-cases, ℕ, zero, suc, ◌+◌, ◌-◌, ◌≤◌, ◌<◌, ◌≡◌, ◌≢◌, sym, ap, ◌∙◌, subst, Bool, true, some,
  arith, set, ◌⊎◌, inl, inr, ltb, length, if◌then◌else◌,
}
use mg_web.Pool.{State, slot}
use mg_web.Pool.Select.{search_from, rotate, with_path, Choice, found, exhausted, obtain_server}
use mg_web.Pool.Select.Round.{
  search_from-take, search_from-last, search_from-pass, rotate_on, IsUsable, IsMarked,
  examine-IsUsable,
}
use mg_web.Types.{Server, PathServer, MgPath}

-- The path with another server number, and the state with that path.
abbrev at_path : MgPath → ℕ → MgPath
at_path p i = record p { server_no = i }

abbrev pub at_slot : State → ℕ → State
at_slot st i = with_path st (at_path st.ppath i)

-- The path's own number is a slot in use, and each slot in use names a server.
pub record IsLinked (st : State) : Type 0 where
  pub current : st.ppath.server_no < length st.ppath.servers
  pub linked :
      (i : ℕ)
      → i < length st.ppath.servers
      → (entry : PathServer) × (srv : Server) × (slot st.servers st.ppath i ≡ some (entry, srv))

-- With load balancing, or where each exclusive server of the path is offline, each round that takes
-- no server moves on to the next slot.
abbrev pub Advances : State → Type 0
Advances st =
    (i : ℕ) (entry : PathServer) (srv : Server)
    → slot st.servers st.ppath i ≡ some (entry, srv)
    → (st.ppath.load_balancing ≡ true) ⊎ ((entry.exclusive ≡ true → 0 < srv.offline))

abbrev pub IsUnusable : ℕ → State → ℕ → Type 0
IsUnusable now st i =
    (entry : PathServer) (srv : Server)
    → slot st.servers st.ppath i ≡ some (entry, srv)
    → ¬ IsUsable now entry srv

-- The slots from `start` on up to `i`, round the end of the list.
abbrev pub Between : ℕ → ℕ → ℕ → Type 0
Between start i k = ((start ≤ k) × (k < i)) ⊎ ((i < start) × (start ≤ k)) ⊎ ((i < start) × (k < i))

-- The search has taken the server in slot `i`: it is usable, none before it is, and the state is
-- changed in the mark on that server and in the path's number.
pub record Takes (now stamp start : ℕ) (st : State) (r : Choice × State) : Type 0 where
  pub place : ℕ
  pub entry : PathServer
  pub srv : Server
  pub taken : Server
  pub within : place < length st.ppath.servers
  pub at : slot st.servers st.ppath place ≡ some (entry, srv)
  pub usable : IsUsable now entry srv
  pub marked : IsMarked stamp srv taken
  pub none_before :
      (k : ℕ) → k < length st.ppath.servers → Between start place k → IsUnusable now st k
  pub result : r ≡ (
    found place,
    record st {
      servers = set st.servers entry.psrv taken;
      ppath = rotate (at_path st.ppath place) taken;
    },
  )

abbrev Ends : ℕ → ℕ → ℕ → State → Choice × State → Type 0
Ends now stamp start st r =
    Takes now stamp start st r
    ⊎ ((r ≡ (exhausted, at_slot st start))
        × ((k : ℕ) → k < length st.ppath.servers → IsUnusable now st k))

-- The rounds that are left until the number is `start` again.
abbrev remaining : ℕ → ℕ → ℕ → ℕ
remaining start i n = if ltb i start then start - i else start + n - i

abbrev next : ℕ → ℕ → ℕ
next i n = if ltb (i + 1) n then i + 1 else 0

Between-next :
    (start i n k : ℕ)
    → i < n
    → k < n
    → Between start (next i n) k
    → next i n ≢ start
    → Between start i k ⊎ (k ≡ i)
Between-next start i n k lt ltk b ne = ground arith

Between-all : (start i n k : ℕ) → i < n → k < n → next i n ≡ start → Between start i k ⊎ (k ≡ i)
Between-all start i n k lt ltk e = ground arith

remaining-next :
    (start i n rounds : ℕ)
    → i < n
    → start < n
    → next i n ≢ start
    → remaining start i n ≤ suc rounds
    → (remaining start (next i n) n ≤ rounds) × (next i n < n)
remaining-next start i n rounds lt lts ne le = ground arith

IsUnusable-intro :
    (now : ℕ) (st : State) (i k : ℕ) {entry : PathServer} {srv : Server}
    → slot st.servers st.ppath i ≡ some (entry, srv)
    → ¬ IsUsable now entry srv
    → k ≡ i
    → IsUnusable now st k
IsUnusable-intro now st i k {entry} {srv} at no_use e entry' srv' at' =
    let there : slot st.servers st.ppath i ≡ some (entry', srv') =
      subst (λ j. slot st.servers st.ppath j ≡ some (entry', srv')) e at' in
    let same : ◌≡◌ {A = PathServer × Server} (entry, srv) (entry', srv') = cc in
    subst (λ (q : PathServer × Server). ¬ IsUsable now q.0 q.1) same no_use

moves :
    {lb : Bool} (now : ℕ) (entry : PathServer) (srv : Server)
    → ¬ IsUsable now entry srv
    → (lb ≡ true) ⊎ (entry.exclusive ≡ true → 0 < srv.offline)
    → (lb ≡ true) ⊎ (0 < srv.offline)
moves now entry srv no_use (inl lb) = inl lb
moves now entry srv no_use (inr h) = elim (Bool-cases entry.exclusive) [
  | inl ex ↦ inr (h ex)
  | inr shared ↦ let off : srv.offline ≢ 0 = λ z. no_use (shared, inl z) in inr (omega arith)
]

module _ (now stamp start : ℕ) (st : State) (linked : IsLinked st) (adv : Advances st)
    (begins : start < length st.ppath.servers) where
  search_from-Ends :
      (rounds i : ℕ)
      → i < length st.ppath.servers
      → remaining start i (length st.ppath.servers) ≤ rounds
      → ((k : ℕ) → k < length st.ppath.servers → Between start i k → IsUnusable now st k)
      → Ends now stamp start st (search_from rounds now stamp start (at_slot st i))
  search_from-Ends zero i lt enough before = absurd (ground arith)
  search_from-Ends (suc rounds) i lt enough before =
      let (entry, srv, at) = linked.linked i lt in
      elim (examine-IsUsable now stamp entry srv) [
        | inr (taken, e, usable, marked) ↦ inl (record {
          place = i;
          entry = entry;
          srv = srv;
          taken = taken;
          within = lt;
          at = at;
          usable = usable;
          marked = marked;
          none_before = before;
          result = search_from-take rounds now stamp start (at_slot st i) at e;
        })
        | inl (e, no_use) ↦
            let p = st.ppath in
            let n = length p.servers in
            let moved : rotate (at_path p i) srv ≡ at_path p (next i n) =
              rotate_on (at_path p i) srv (moves now entry srv no_use (adv i entry srv at)) in
            elim (ℕ_discrete (next i n) start) [
              | yes last ↦ inr (
                search_from-last rounds now stamp start (at_slot st i) at e (rw moved last)
                    ∙ ap (λ q. (exhausted, with_path st q)) (moved ∙ ap (at_path p) last),
                λ k ltk. elim (Between-all start i n k lt ltk last) [
                  | inl b ↦ before k ltk b
                  | inr same ↦ IsUnusable-intro now st i k at no_use same
                ],
              )
              | no more ↦
                  let (fewer, lt') = remaining-next start i n rounds lt begins more enough in
                  subst (Ends now stamp start st)
                    (sym (
                      search_from-pass rounds now stamp start (at_slot st i) at e (rw moved more)
                      ∙ ap (λ q. search_from rounds now stamp start (with_path st q)) moved))
                    (search_from-Ends rounds (next i n) lt' fewer (λ k ltk b.
                      elim (Between-next start i n k lt ltk b more) [
                        | inl b' ↦ before k ltk b'
                        | inr same ↦ IsUnusable-intro now st i k at no_use same
                      ]))
            ]
      ]

-- On a state whose path names servers, where the search can move on, as many rounds as the path has
-- servers are enough. Either the search takes the first usable server from the path's own number on,
-- round the list: not exclusive, and online or due for a retry, which is then marked; or it returns
-- -1, no server of the path is usable, and the state is as before.
pub obtain_server-Ends :
    (rounds now stamp : ℕ) (st : State)
    → IsLinked st
    → Advances st
    → length st.ppath.servers ≤ rounds
    → Takes now stamp st.ppath.server_no st (obtain_server rounds now stamp st)
      ⊎ ((obtain_server rounds now stamp st ≡ (exhausted, st))
          × ((k : ℕ) → k < length st.ppath.servers → IsUnusable now st k))
unfolding obtain_server
obtain_server-Ends rounds now stamp st linked adv enough =
    let start = st.ppath.server_no in
    search_from-Ends now stamp start st linked adv linked.current rounds start linked.current
      (ground arith) (λ k _ b. absurd (omega arith))
