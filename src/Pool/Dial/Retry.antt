-- ===== src/Pool/Dial/Retry.antt =====
-- How often a connection is tried.
use mg_web.Base.{
  ℕ, zero, suc, ◌+◌, ◌≤◌, ◌<◌, ◌≡◌, ◌≢◌, subst, Bool, true, false, arith, ◌⊎◌, inl, inr, Bool-cases,
}
use native.Mathlib.Decide.{ℕ_discrete}
use mg_web.Pool.Dial.{Dialed, connected, refused, dialing, gives_up, dial_loop}
use mg_web.Types.{Server}

-- The configuration allows another attempt behind `n` that have failed: a time for retries is set
-- and has not gone by, and the number of retries, if one is set, is not used up.
abbrev pub MayRetry : (ℕ → ℕ) → Server → ℕ → Type 0
MayRetry clock srv n =
    (0 < srv.con_retry_time)
    × (clock n ≤ srv.con_retry_time)
    × ((srv.con_retry_no ≡ 0) ⊎ (n ≤ srv.con_retry_no))

gives_up-false :
    (clock : ℕ → ℕ) (srv : Server) (n : ℕ) → gives_up clock srv n ≡ false → MayRetry clock srv n
gives_up-false clock srv n h = ground arith

gives_up-true :
    (clock : ℕ → ℕ) (srv : Server) (n : ℕ) → gives_up clock srv n ≡ true → ¬ MayRetry clock srv n
gives_up-true clock srv n h may = ground arith

-- The attempts from `m` on: each but the last fails and may be retried; the last succeeds, or fails
-- and may not be retried.
abbrev pub Attempts : (ℕ → Bool) → (ℕ → ℕ) → Server → ℕ → Dialed → Type 0
Attempts dial clock srv m (connected n) =
    (m < n)
    × ((j : ℕ) → m ≤ j → j + 1 < n → (dial j ≡ false) × MayRetry clock srv (j + 1))
    × ((j : ℕ) → j + 1 ≡ n → dial j ≡ true)
Attempts dial clock srv m (refused n) =
    (m < n)
    × ((j : ℕ) → m ≤ j → j + 1 < n → (dial j ≡ false) × MayRetry clock srv (j + 1))
    × ((j : ℕ) → j + 1 ≡ n → dial j ≡ false)
    × (¬ MayRetry clock srv n)
Attempts dial clock srv m dialing = ⊥

module _ (dial : ℕ → Bool) (clock : ℕ → ℕ) (srv : Server) where
  earlier :
      (m n : ℕ)
      → (dial m ≡ false) × MayRetry clock srv (m + 1)
      → ((j : ℕ) → m + 1 ≤ j → j + 1 < n → (dial j ≡ false) × MayRetry clock srv (j + 1))
      → (j : ℕ) → m ≤ j
      → j + 1 < n
      → (dial j ≡ false) × MayRetry clock srv (j + 1)
  earlier m n first rest j le lt = elim (ℕ_discrete m j) [
    | yes same ↦ subst (λ i. (dial i ≡ false) × MayRetry clock srv (i + 1)) same first
    | no other ↦ rest j (omega arith) lt
  ]

  Attempts-cons :
      (m : ℕ) (d : Dialed)
      → (dial m ≡ false) × MayRetry clock srv (m + 1)
      → Attempts dial clock srv (m + 1) d
      → Attempts dial clock srv m d
  Attempts-cons m (connected n) first (lt, rest, last) = (omega arith, earlier m n first rest, last)
  Attempts-cons m (refused n) first (lt, rest, last, up) =
      (omega arith, earlier m n first rest, last, up)
  Attempts-cons m dialing first h = h

  last_attempt : (m : ℕ) {b : Bool} → dial m ≡ b → (j : ℕ) → j + 1 ≡ m + 1 → dial j ≡ b
  last_attempt m {b} h j e = subst (λ i. dial i ≡ b) (omega arith) h

  no_attempt : (m j : ℕ) → m ≤ j → j + 1 < m + 1 → (dial j ≡ false) × MayRetry clock srv (j + 1)
  no_attempt m j le lt = absurd (omega arith)

  dial_loop-Attempts :
      (tries m last : ℕ)
      → ¬ MayRetry clock srv last
      → m < last
      → last ≤ m + tries
      → Attempts dial clock srv m (dial_loop tries dial clock srv m)
  unfolding dial_loop
  dial_loop-Attempts zero m last up lt enough = absurd (omega arith)
  dial_loop-Attempts (suc tries) m last up lt enough = elim (Bool-cases (dial m)) [
    | inl made ↦ rw made (omega arith, no_attempt m, last_attempt m made)
    | inr shut ↦ elim (Bool-cases (gives_up clock srv (m + 1))) [
      | inl stop ↦
          rw (shut, stop)
            (omega arith, no_attempt m, last_attempt m shut, gives_up-true clock srv (m + 1) stop)
      | inr again ↦
          let may = gives_up-false clock srv (m + 1) again in
          let ne : m + 1 ≢ last = λ e. up (subst (MayRetry clock srv) e may) in
          rw (shut, again)
            (Attempts-cons m _ (shut, may)
              (dial_loop-Attempts tries (m + 1) last up (omega arith) (omega arith)))
    ]
  ]

-- If the configuration allows no retry behind `last` attempts, because the number of retries is
-- used up, or the time for them has gone by or is not set, then `last` tries are enough: the
-- attempts go on while they fail and may be retried, and end in a connection or in a refusal.
pub dial_loop-Attempts_all :
    (tries last : ℕ) (dial : ℕ → Bool) (clock : ℕ → ℕ) (srv : Server)
    → ¬ MayRetry clock srv last
    → 0 < last
    → last ≤ tries
    → Attempts dial clock srv 0 (dial_loop tries dial clock srv 0)
dial_loop-Attempts_all tries last dial clock srv up pos enough =
    dial_loop-Attempts dial clock srv tries 0 last up pos (omega arith)

-- So the loop does not run out of tries.
pub dial_loop-ne-dialing :
    (tries last : ℕ) (dial : ℕ → Bool) (clock : ℕ → ℕ) (srv : Server)
    → ¬ MayRetry clock srv last
    → 0 < last
    → last ≤ tries
    → dial_loop tries dial clock srv 0 ≢ dialing
dial_loop-ne-dialing tries last dial clock srv up pos enough e =
    subst (Attempts dial clock srv 0) e
      (dial_loop-Attempts_all tries last dial clock srv up pos enough)
