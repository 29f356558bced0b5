-- ===== src/Pool/Failover/Online.antt =====
-- What it changes to mark servers as online.
use mg_web.Base.{
  ℕ, zero, suc, ◌≤◌, ◌<◌, ◌≡◌, refl, sym, ◌∙◌, subst, List, [], ◌∷◌, none, some, arith, get_elem?,
  get_elem?-set_self, get_elem?-lt, Bool-cases, Option-cases, ◌⊎◌, inl, inr, ◌&&◌, not, ◌==◌,
}
use mg_web.Pool.{State, slot_used, update_server}
use mg_web.Pool.Failover.{count_shared, server_alternatives, all_online, online, server_online}
use mg_web.Pool.Failover.Offline.{server_alternatives-zero, count_shared-le}
use mg_web.Pool.Store.{update_server_other, update_server-connections}
use mg_web.Status.{success, failure}
use mg_web.Types.{Server, PathServer}
use native.Mathlib.Decide.{ℕ_discrete}

-- If there is a server `k`, it is online.
abbrev pub OnlineAt : State → ℕ → Type 0
OnlineAt st k = (srv : Server) → get_elem? st.servers k ≡ some srv → srv.offline ≡ 0

online-OnlineAt_self : (st : State) (k : ℕ) → OnlineAt (update_server st k online) k
unfolding update_server
online-OnlineAt_self st k srv e = elim (Option-cases (get_elem? st.servers k)) [
  | inl missing ↦ ground arith
  | inr (old, found) ↦
      ground (arith, get_elem?-set_self st.servers k (online old) (get_elem?-lt st.servers k found))
]

online-OnlineAt : (st : State) (j k : ℕ) → OnlineAt st k → OnlineAt (update_server st j online) k
online-OnlineAt st j k on = elim (ℕ_discrete j k) [
  | yes same ↦ subst (OnlineAt (update_server st j online)) same (online-OnlineAt_self st j)
  | no other ↦ λ srv e. on srv (sym (update_server_other st j k online other) ∙ e)
]

all_online-keeps :
    (slots : List PathServer) (st : State) (k : ℕ)
    → OnlineAt st k
    → OnlineAt (all_online slots st) k
unfolding all_online
all_online-keeps [] st k on = on
all_online-keeps (entry ∷ slots) st k on =
    all_online-keeps slots (update_server st entry.psrv online) k
      (online-OnlineAt st entry.psrv k on)

-- The slot `n` of the list names server `k`.
all_online-OnlineAt :
    (slots : List PathServer) (st : State) (n : ℕ) (entry : PathServer)
    → get_elem? slots n ≡ some entry
    → OnlineAt (all_online slots st) entry.psrv
unfolding all_online
all_online-OnlineAt [] st n entry e = cc
all_online-OnlineAt (first ∷ slots) st zero entry e =
    subst
      (λ (p : PathServer). OnlineAt (all_online slots (update_server st first.psrv online)) p.psrv)
      {x = first} {y = entry} (cc)
      (all_online-keeps slots _ first.psrv (online-OnlineAt_self st first.psrv))
all_online-OnlineAt (first ∷ slots) st (suc n) entry e =
    all_online-OnlineAt slots (update_server st first.psrv online) n entry e

all_online-connections :
    (slots : List PathServer) (st : State)
    → ((all_online slots st).connections ≡ st.connections) × ((all_online slots st).pcon ≡ st.pcon)
unfolding all_online
all_online-connections [] st = (refl, refl)
all_online-connections (entry ∷ slots) st =
    let rest = all_online-connections slots (update_server st entry.psrv online) in
    let here = update_server-connections st entry.psrv online in (rest.0 ∙ here.0, rest.1 ∙ here.1)

-- Marking all servers of a request's path as online: with two shared servers or more, every server
-- that a slot of the path names is online, the path's number is 0 again, and no connection is
-- touched; with fewer, the call fails and changes nothing.
pub server_online-all :
    (st : State)
    → let r = server_online none st in
      ((2 ≤ count_shared 32 st.ppath.servers)
        × (r.1 ≡ success)
        × ((n : ℕ) (entry : PathServer)
            → get_elem? st.ppath.servers n ≡ some entry
            → OnlineAt r.0 entry.psrv)
        × (r.0.ppath ≡ record st.ppath { server_no = 0 })
        × (r.0.connections ≡ st.connections))
      ⊎ ((count_shared 32 st.ppath.servers < 2) × (r ≡ (st, failure)))
unfolding server_online
server_online-all st =
    let few = server_alternatives-zero st.ppath in
    let le = count_shared-le 32 st.ppath.servers in
    elim (Bool-cases (slot_used st.ppath 1 && not (server_alternatives st.ppath == 0))) [
      | inl may ↦ rw may (
          inl (
            ground (arith, few, le),
            refl,
            all_online-OnlineAt st.ppath.servers st,
            refl,
            (all_online-connections st.ppath.servers st).0,
          ))
      | inr not_so ↦ rw not_so (inr (ground (arith, few, le), refl))
    ]
