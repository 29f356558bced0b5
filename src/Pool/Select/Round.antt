-- ===== src/Pool/Select/Round.antt =====
-- One round of the search for a server.
use mg_web.Base.{
  Bool-cases, ==_iff, ne→==_false, ℕ, suc, ◌+◌, ◌<◌, ◌≡◌, ◌≢◌, refl, true, false, some, none, arith,
  ◌==◌, set, ◌⊎◌, inl, inr,
}
use mg_web.Pool.{State, slot}
use mg_web.Pool.Select.{
  search_from, rotate, examine, next_slot, with_path, found, exhausted, is_due,
}
use mg_web.Types.{Server, PathServer, MgPath}

-- A server that the search takes, and one that it passes.
module _ (rounds now stamp start : ℕ) (st : State) {entry : PathServer} {srv : Server}
    (at : slot st.servers st.ppath st.ppath.server_no ≡ some (entry, srv)) where
  pub search_from-take :
      {taken : Server}
      → examine now stamp entry srv ≡ some taken
      → search_from (suc rounds) now stamp start st ≡ (
        found st.ppath.server_no,
        record st { servers = set st.servers entry.psrv taken; ppath = rotate st.ppath taken },
      )
  unfolding search_from
  search_from-take e = rw (at, search_from) (rw e)

  pub search_from-last :
      examine now stamp entry srv ≡ none
      → (rotate st.ppath srv).server_no ≡ start
      → search_from (suc rounds) now stamp start st
        ≡ (exhausted, with_path st (rotate st.ppath srv))
  unfolding search_from
  search_from-last e last = rw (at, search_from) (rw e (rw ((==_iff _ start).1 last)))

  pub search_from-pass :
      examine now stamp entry srv ≡ none
      → (rotate st.ppath srv).server_no ≢ start
      → search_from (suc rounds) now stamp start st
        ≡ search_from rounds now stamp start (with_path st (rotate st.ppath srv))
  unfolding search_from
  search_from-pass e more = rw (at, search_from) (rw e (rw (ne→==_false _ start more)))

-- The server number behind a round.
pub rotate_still :
    (p : MgPath) (srv : Server) → p.load_balancing ≡ false → srv.offline ≡ 0 → rotate p srv ≡ p
unfolding rotate
rotate_still p srv lb on = ground arith

pub rotate_on :
    (p : MgPath) (srv : Server)
    → (p.load_balancing ≡ true) ⊎ (0 < srv.offline)
    → rotate p srv ≡ record p { server_no = next_slot p }
unfolding rotate
rotate_on p srv h = ground arith

-- A server that serves any request and is online, or is due to be tried again.
abbrev pub IsUsable : ℕ → PathServer → Server → Type 0
IsUsable now entry srv =
    (entry.exclusive ≡ false)
    × ((srv.offline ≡ 0)
        ⊎ ((srv.offline ≡ 1)
            × (0 < srv.health_check)
            × (srv.time_offline + srv.health_check < now)))

-- What is written into the server that is taken: a retry is marked, and its time put forward.
abbrev pub IsMarked : ℕ → Server → Server → Type 0
IsMarked stamp srv taken =
    ((srv.offline ≡ 0) × (taken ≡ srv))
    ⊎ ((srv.offline ≡ 1) × (taken ≡ record srv { time_offline = stamp; offline = 2 }))

pub examine-IsUsable :
    (now stamp : ℕ) (entry : PathServer) (srv : Server)
    → ((examine now stamp entry srv ≡ none) × (¬ IsUsable now entry srv))
      ⊎ ((taken : Server) × (examine now stamp entry srv ≡ some taken)
          × IsUsable now entry srv
          × IsMarked stamp srv taken)
unfolding examine
examine-IsUsable now stamp entry srv = elim (Bool-cases entry.exclusive) [
  | inl only ↦ inl (rw only, λ u. cc (u.0))
  | inr shared ↦ elim (Bool-cases (is_due now srv)) [
    | inl due ↦ inr (
      record srv { time_offline = stamp; offline = 2 },
      rw (shared, due),
      (shared, inr (ground arith, ground arith, ground arith)),
      inr (ground arith, refl),
    )
    | inr not_due ↦ elim (Bool-cases (srv.offline == 0)) [
      | inl on ↦
          inr
            (srv, rw (shared, not_due, on), (shared, inl (ground arith)), inl (ground arith, refl))
      | inr off ↦ inl (rw (shared, not_due, off), λ u. ground arith)
    ]
  ]
]
