-- ===== src/Pool/Failover/Offline.antt =====
-- What it changes to mark a server as offline.
use mg_web.Base.{
  if_both, ℕ, zero, suc, ◌+◌, ◌≤◌, ◌<◌, ◌≡◌, ◌≢◌, ◌↔◌, refl, sym, ap, subst, ◌∙◌, List, [], ◌∷◌,
  Bool, true, false, if◌then◌else◌, some, arith, get_elem?, set, length, get_elem?-set_ne,
  Bool-cases, Option-cases, ◌⊎◌, inl, inr,
}
use mg_web.Pool.{State, Connection, update_server, update_connection}
use mg_web.Pool.Failover.{
  release_connection, count_shared, server_alternatives, is_idle_on, close_idle, may_go_offline,
  server_offline, closed, released,
}
use mg_web.Pool.Store.{update_server-connections}
use mg_web.Status.{Rc, success, failure}
use mg_web.Types.{Server, PathServer, MgPath}

-- Another connection than the request's is not touched.
abbrev pub IsOther : State → ℕ → Type 0
IsOther st j = st.pcon ≢ some j

-- The two states differ in the request's own connection at most.
record SameBut (st st' : State) : Type 0 where
  servers_same : st'.servers ≡ st.servers
  pcon_same : st'.pcon ≡ st.pcon
  others_same : (j : ℕ) → IsOther st j → get_elem? st'.connections j ≡ get_elem? st.connections j

SameBut-refl : (st : State) → SameBut st st
SameBut-refl st = record { servers_same = refl; pcon_same = refl; others_same = λ j o. refl }

SameBut-trans : {s t u : State} → SameBut s t → SameBut t u → SameBut s u
SameBut-trans p q = record {
  servers_same = q.servers_same ∙ p.servers_same;
  pcon_same = q.pcon_same ∙ p.pcon_same;
  others_same = λ j o. q.others_same j (λ e. o (sym p.pcon_same ∙ e)) ∙ p.others_same j o;
}

SameBut-of_eq : {s t : State} → t ≡ s → SameBut s t
SameBut-of_eq {s} e = subst (SameBut s) (sym e) (SameBut-refl s)

update_connection-SameBut :
    (st : State) (c : ℕ) (f : Connection → Connection)
    → st.pcon ≡ some c
    → SameBut st (update_connection st c f)
unfolding update_connection
update_connection-SameBut st c f own = elim (Option-cases (get_elem? st.connections c)) [
  | inl e ↦ SameBut-of_eq (ground arith)
  | inr (con, e) ↦
      subst (SameBut st) {x = record st { connections = set st.connections c (f con) }}
        (ground arith)
        (record {
          servers_same = refl;
          pcon_same = refl;
          others_same =
              λ j o. get_elem?-set_ne st.connections c j (f con) (λ e. o (own ∙ ap some e));
        })
]

-- A release does nothing, or one store into the request's own connection.
release_connection-cases :
    (close : Bool) (rc : Rc) (st : State)
    → ((release_connection close rc st).0 ≡ st)
      ⊎ ((c : ℕ) × (f : Connection → Connection) × (st.pcon ≡ some c)
          × ((release_connection close rc st).0 ≡ update_connection st c f))
unfolding release_connection
release_connection-cases close rc st = elim (Option-cases st.pcon) [
  | inl e ↦ inl (ground arith)
  | inr (c, own) ↦ elim (Option-cases (get_elem? st.connections c)) [
    | inl e ↦ inl (ground arith)
    | inr (con, e) ↦ inr (c, if close then closed else released, own, ground arith)
  ]
]

release_connection-SameBut :
    (close : Bool) (rc : Rc) (st : State) → SameBut st (release_connection close rc st).0
release_connection-SameBut close rc st = elim (release_connection-cases close rc st) [
  | inl e ↦ SameBut-of_eq e
  | inr (c, f, own, e) ↦ subst (SameBut st) (sym e) (update_connection-SameBut st c f own)
]

close_idle-SameBut : (n i : ℕ) (rc : Rc) (k : ℕ) (st : State) → SameBut st (close_idle n i rc k st)
unfolding close_idle
close_idle-SameBut zero i rc k st = SameBut-refl st
close_idle-SameBut (suc n) i rc k st = elim (Option-cases (get_elem? st.connections i)) [
  | inl e ↦
      subst (SameBut st) {x = close_idle n (i + 1) rc k st} (ground arith)
        (close_idle-SameBut n (i + 1) rc k st)
  | inr (con, e) ↦
      let st' = if is_idle_on st k con then (release_connection true rc st).0 else st in
      subst (SameBut st) {x = close_idle n (i + 1) rc k st'} (ground arith) (
        SameBut-trans
          (if_both (SameBut st) (is_idle_on st k con) (release_connection-SameBut true rc st)
            (SameBut-refl st))
          (close_idle-SameBut n (i + 1) rc k st'))
]

pub count_shared-le : (n : ℕ) (slots : List PathServer) → count_shared n slots ≤ length slots
unfolding count_shared
count_shared-le zero slots = omega arith
count_shared-le (suc n) [] = omega arith
count_shared-le (suc n) (entry ∷ slots) = ground (arith, count_shared-le n slots)

-- There are alternatives exactly where two servers of the path, or more, are shared.
pub server_alternatives-zero :
    (p : MgPath) → (server_alternatives p ≡ 0) ↔ (count_shared 32 p.servers < 2)
unfolding server_alternatives
server_alternatives-zero p = ground (arith, count_shared-le 32 p.servers)

may_go_offline-true :
    (context : ℕ) (st : State)
    → may_go_offline context st ≡ true
    → (context ≡ 10) ⊎ (2 ≤ count_shared 32 st.ppath.servers)
may_go_offline-true context st h =
    ground (arith, server_alternatives-zero st.ppath, count_shared-le 32 st.ppath.servers)

may_go_offline-false :
    (context : ℕ) (st : State)
    → may_go_offline context st ≡ false
    → (context ≢ 10) × (count_shared 32 st.ppath.servers < 2)
may_go_offline-false context st h =
    ground (arith, server_alternatives-zero st.ppath, count_shared-le 32 st.ppath.servers)

-- Marking server `k` offline: the administrator always may, and a request may where two servers of
-- its path or more are shared; then the mark and the time are stored in that server alone, and no
-- other connection than the request's own is changed, not even an idle one to that server.
-- Elsewhere the call fails and changes nothing.
pub server_offline_lem :
    (context now : ℕ) (rc : Rc) (k : ℕ) (st : State) (srv : Server)
    → get_elem? st.servers k ≡ some srv
    → let r = server_offline context now rc (some k) st in
      (((context ≡ 10) ⊎ (2 ≤ count_shared 32 st.ppath.servers))
        × (r.1 ≡ success)
        × (r.0.servers ≡ set st.servers k (record srv { offline = 1; time_offline = now }))
        × ((j : ℕ) → IsOther st j → get_elem? r.0.connections j ≡ get_elem? st.connections j))
      ⊎ ((context ≢ 10) × (count_shared 32 st.ppath.servers < 2) × (r ≡ (st, failure)))
unfolding server_offline update_server
server_offline_lem context now rc k st srv e =
    let mark = λ (s : Server). record s { offline = 1; time_offline = now } in
    let marked = update_server st k mark in
    let kept = update_server-connections st k mark in
    let same = close_idle-SameBut (length st.connections) 0 rc k marked in
    elim (Bool-cases (may_go_offline context st)) [
      | inl may ↦ rw may (
          inl (
            may_go_offline-true context st may,
            refl,
            same.servers_same ∙ ground arith,
            λ j o. same.others_same j (λ e. o (sym kept.1 ∙ e)) ∙ ap (λ l. get_elem? l j) kept.0,
          ))
      | inr not_so ↦
          let (other, few) = may_go_offline-false context st not_so in
          rw not_so (inr (other, few, refl))
    ]
