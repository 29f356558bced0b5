-- ===== src/Pool/Select/Stuck.antt =====
-- Where the search for a server does not end.
use mg_web.Base.{
  ap, ◌∙◌, subst, sym, inl, inr, ◌<◌, ℕ, zero, suc, ◌≡◌, ◌≢◌, refl, true, false, some, none, arith,
}
use mg_web.Pool.{State, slot}
use mg_web.Pool.Select.{search_from, examine, with_path, next_slot, obtain_server, looping, Choice}
use mg_web.Pool.Select.Round.{search_from-pass, rotate_still, rotate_on, IsUsable, examine-IsUsable}
use mg_web.Types.{Server, PathServer}

examine-exclusive :
    (now stamp : ℕ) (entry : PathServer) (srv : Server)
    → entry.exclusive ≡ true
    → examine now stamp entry srv ≡ none
unfolding examine
examine-exclusive now stamp entry srv ex = ground arith

-- At an exclusive server that is online, without load balancing, a round changes nothing.
search_from-stuck :
    (rounds now stamp start : ℕ) (st : State) (entry : PathServer) (srv : Server)
    → slot st.servers st.ppath st.ppath.server_no ≡ some (entry, srv)
    → entry.exclusive ≡ true
    → srv.offline ≡ 0
    → st.ppath.load_balancing ≡ false
    → st.ppath.server_no ≢ start
    → search_from rounds now stamp start st ≡ (looping, st)
unfolding search_from
search_from-stuck zero now stamp start st entry srv at ex on lb ne = refl
search_from-stuck (suc rounds) now stamp start st entry srv at ex on lb ne =
    search_from-pass rounds now stamp start st at (examine-exclusive now stamp entry srv ex)
      (rw (rotate_still st.ppath srv lb on) ne)
    ∙ subst (λ p. search_from rounds now stamp start (with_path st p) ≡ (looping, st))
        (sym (rotate_still st.ppath srv lb on))
        (search_from-stuck rounds now stamp start st entry srv at ex on lb ne)

-- The search does not end, whatever the number of rounds: without load balancing, the server at the
-- path's server number cannot be taken and is offline, and the server in the next slot, another
-- one, is for exclusive use and online.
pub obtain_server-looping :
    (rounds now stamp : ℕ) (st : State) (first next : PathServer) (srv srv' : Server)
    → st.ppath.load_balancing ≡ false
    → slot st.servers st.ppath st.ppath.server_no ≡ some (first, srv)
    → 0 < srv.offline
    → ¬ IsUsable now first srv
    → next_slot st.ppath ≢ st.ppath.server_no
    → slot st.servers st.ppath (next_slot st.ppath) ≡ some (next, srv')
    → next.exclusive ≡ true
    → srv'.offline ≡ 0
    → (obtain_server (suc rounds) now stamp st).0 ≡ looping
unfolding obtain_server
obtain_server-looping rounds now stamp st first next srv srv' lb at off no_use ne at' ex on =
    let start = st.ppath.server_no in
    let moved = rotate_on st.ppath srv (inr off) in
    elim (examine-IsUsable now stamp first srv) [
      | inl (e, _) ↦
          ap (λ (r : Choice × State). r.0)
            (search_from-pass rounds now stamp start st at e (rw moved ne)
              ∙ ap (λ p. search_from rounds now stamp start (with_path st p)) moved
              ∙ search_from-stuck rounds now stamp start
                  (with_path st (record st.ppath { server_no = next_slot st.ppath })) next srv' at'
                  ex on lb ne)
      | inr (_, _, u, _) ↦ absurd (no_use u)
    ]
