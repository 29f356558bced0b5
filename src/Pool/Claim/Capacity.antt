-- ===== src/Pool/Claim/Capacity.antt =====
-- The passes, the waits and the claim.
use mg_web.Base.{
  ℕ, zero, suc, ◌+◌, ◌%◌, ◌^◌, ◌≢◌, ◌≡◌, refl, sym, subst, List, [], ◌∷◌, ◌++◌, Option, some,
  get_elem?, length, arith, inl, inr, ◌⊎◌,
}
use mg_web.Pool.{State, Connection}
use mg_web.Pool.Claim.{Walk, reuse, limit, ended, walk, walk_queued, number_request}
use mg_web.Pool.Store.{update_server-connections}
use mg_web.Types.{Server}

Walk-cases : (w : Walk) → (w ≡ limit) ⊎ (w ≢ limit)
Walk-cases (reuse c) = inr (λ e. cc)
Walk-cases limit = inl refl
Walk-cases ended = inr (λ e. cc)

-- A pass that does not end at the limit is the last.
pub walk_queued-stop :
    (others : ℕ → State → State) (k : ℕ) (srv : Server) (left : ℕ) (free : Option ℕ) (st : State)
    → (walk k srv st.connections 0 0 free).0 ≢ limit
    → walk_queued others k srv left free st
      ≡ ((walk k srv st.connections 0 0 free).0, (walk k srv st.connections 0 0 free).1, st)
unfolding walk_queued
walk_queued-stop others k srv zero free st stop = refl
walk_queued-stop others k srv (suc left) free st stop = ground arith

pub walk_queued-wait :
    (others : ℕ → State → State) (k : ℕ) (srv : Server) (left : ℕ) (free : Option ℕ) (st : State)
    → (walk k srv st.connections 0 0 free).0 ≡ limit
    → walk_queued others k srv (suc left) free st
      ≡ walk_queued others k srv left (walk k srv st.connections 0 0 free).1 (others left st)
unfolding walk_queued
walk_queued-wait others k srv left free st wait = ground arith

-- The claim goes by one last pass, on a state that the other threads have left; what they keep holds
-- of it.
pub walk_queued-last {ℓ} :
    (P : State → Type ℓ) (others : ℕ → State → State) (k : ℕ) (srv : Server) (left : ℕ)
    (free : Option ℕ) (st : State)
    → ((t : ℕ) (s : State) → P s → P (others t s))
    → P st
    → let r = walk_queued others k srv left free st in
      P r.2 × ((free' : Option ℕ) × (walk k srv r.2.connections 0 0 free' ≡ (r.0, r.1)))
unfolding walk_queued
walk_queued-last P others k srv zero free st keeps p = (p, (free, refl))
walk_queued-last P others k srv (suc left) free st keeps p =
    let free' = (walk k srv st.connections 0 0 free).1 in
    elim (Walk-cases (walk k srv st.connections 0 0 free).0) [
      | inl wait ↦
          subst
            (λ (r : Walk × Option ℕ × State).
              P r.2 × ((f : Option ℕ) × (walk k srv r.2.connections 0 0 f ≡ (r.0, r.1))))
            (sym (walk_queued-wait others k srv left free st wait))
            (walk_queued-last P others k srv left free' (others left st) keeps (keeps left st p))
      | inr stop ↦
          subst
            (λ (r : Walk × Option ℕ × State).
              P r.2 × ((f : Option ℕ) × (walk k srv r.2.connections 0 0 f ≡ (r.0, r.1))))
            (sym (walk_queued-stop others k srv (suc left) free st stop)) (p, (free, refl))
    ]

pub number_request-connections :
    (k : ℕ) (st : State) → (number_request k st).connections ≡ st.connections
unfolding number_request
number_request-connections k st = ground (
  arith,
  update_server-connections
      (record st { requestno_in = st.requestno; requestno = (st.requestno + 1) % 2 ^ 64 }) k
      (λ srv. record srv { no_requests = (srv.no_requests + 1) % 2 ^ 64 }),
)

pub get_elem?-append_self :
    (cons : List Connection) (con : Connection)
    → get_elem? (cons ++ (con ∷ [])) (length cons) ≡ some con
get_elem?-append_self [] con = refl
get_elem?-append_self (x ∷ cons) con = get_elem?-append_self cons con
