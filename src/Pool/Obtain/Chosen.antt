-- ===== src/Pool/Obtain/Chosen.antt =====
-- Which server a request gets, and what happens where none is online.
use mg_web.Base.{
  ℕ, ◌≤◌, ◌<◌, ◌≡◌, true, false, none, some, get_elem?, length, arith, ◌⊎◌, inl, inr, Bool-cases,
  Option-cases,
}
use mg_web.Pool.{State, slot}
use mg_web.Pool.Dial.{returned}
use mg_web.Pool.Failover.{count_shared, server_online}
use mg_web.Pool.Failover.Online.{OnlineAt, server_online-all}
use mg_web.Pool.Obtain.{
  World, is_available, prefer, choose, none_online, obtain_on, obtain_connection, slot_psrv,
}
use mg_web.Pool.Select.{obtain_server}
use mg_web.Pool.Select.Search.{IsLinked, Advances, IsUnusable, Takes, obtain_server-Ends}
use mg_web.Status.{failure}
use mg_web.Types.{Server, PathServer}

-- The preference for slot `n` can be met: the slot is in use, its number below 32, and its server is
-- online or for exclusive use.
abbrev pub CanServe : State → ℕ → Type 0
CanServe st n =
    (entry : PathServer) × (srv : Server) × (n < 32)
    × (slot st.servers st.ppath n ≡ some (entry, srv))
    × ((srv.offline ≡ 0) ⊎ (entry.exclusive ≡ true))

is_available-true : (st : State) (n : ℕ) → CanServe st n → is_available st n ≡ true
is_available-true st n (entry, srv, small, at, fit) = rw at (ground arith)

is_available-false : (st : State) (n : ℕ) → ¬ CanServe st n → is_available st n ≡ false
is_available-false st n cannot = elim (Bool-cases (is_available st n)) [
  | inr no_use ↦ no_use
  | inl use_it ↦ elim (Option-cases (slot st.servers st.ppath n)) [
    | inl e ↦ ground arith
    | inr ((entry, srv), e) ↦ absurd (cannot (entry, srv, ground arith, e, ground arith))
  ]
]

prefer-kept : (st : State) (n : ℕ) → st.server_no ≡ some n → CanServe st n → prefer st ≡ st
unfolding prefer
prefer-kept st n e can = ground (arith, is_available-true st n can)

-- The request has no preference, or one that cannot be met.
abbrev pub IsUndecided : State → Type 0
IsUndecided st = (n : ℕ) → st.server_no ≡ some n → ¬ CanServe st n

prefer-dropped : (st : State) → IsUndecided st → prefer st ≡ record st { server_no = none }
unfolding prefer
prefer-dropped st und = elim (Option-cases st.server_no) [
  | inl e ↦ ground arith
  | inr (n, e) ↦ ground (arith, is_available-false st n (und n e))
]

abbrev pub undecided : State → State
undecided st = record st { server_no = none }

-- A request with no preference that can be met, on a path whose servers the search can get through:
-- it gets the server that the search takes, noted as its server number; or no server of the path
-- is usable, and the call fails, where all the path's servers have been marked online unless fewer than
-- two of them are shared.
pub obtain_connection-searched :
    (w : World) (st : State)
    → IsLinked st
    → Advances st
    → length st.ppath.servers ≤ w.rounds
    → IsUndecided st
    → ((t : Takes w.time_now w.stamp st.ppath.server_no
          (undecided st)
          (obtain_server w.rounds w.time_now w.stamp (undecided st)))
        × (obtain_connection w st
            ≡ obtain_on w t.place
                (record (obtain_server w.rounds w.time_now w.stamp (undecided st)).1 {
                  server_no = some t.place;
                })))
      ⊎ (((k : ℕ) → k < length st.ppath.servers → IsUnusable w.time_now st k)
          × ((st' : State) × (obtain_connection w st ≡ returned (st', failure))
              × ((count_shared 32 st.ppath.servers < 2)
                  ⊎ ((n : ℕ) (entry : PathServer)
                      → get_elem? st.ppath.servers n ≡ some entry
                      → OnlineAt st' entry.psrv))))
unfolding obtain_connection choose none_online
obtain_connection-searched w st linked adv enough und =
    let u = undecided st in
    let start = prefer-dropped st und in
    let linked' : IsLinked u = record { current = linked.current; linked = linked.linked } in
    elim (obtain_server-Ends w.rounds w.time_now w.stamp u linked' adv enough) [
      | inl t ↦ inl (t, ground (arith, start, t.result))
      | inr (e, unusable) ↦
          let before = record u { server_no = some 0; psrv = slot_psrv u 0 } in
          inr (
            unusable,
            (
              (server_online none before).0,
              ground (arith, start, e),
              elim (server_online-all before) [
                | inl (_, _, on, _, _) ↦ inr on
                | inr (few, _) ↦ inl few
              ],
            ),
          )
    ]
