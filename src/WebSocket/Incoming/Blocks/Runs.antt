-- ===== src/WebSocket/Incoming/Blocks/Runs.antt =====
-- The loop over a block, and the bytes one by one.
use mg_web.Base.{
  ℕ, zero, suc, ◌+◌, ◌<◌, ◌≡◌, refl, sym, ap, ◌∙◌, List, [], ◌∷◌, ◌++◌, true, Option, some, inl,
  inr, arith, subst, append_assoc, length,
}
use mg_web.WebSocket.Reading.{Framing, framing_close, ReadState, Event, Session, Passed, is_close}
use mg_web.WebSocket.Incoming.{switch, add_events, read_block, incoming_frame}
use mg_web.WebSocket.Incoming.Blocks.Steps.{closed_with, seen, is_ready, Closes, Follows, Lands}
use mg_web.WebSocket.Incoming.Blocks.Landing.{Lands-switch, Follows-switch}

-- The bytes one by one.
unfoldable pub run : Session → ReadState → List ℕ → ReadState × List Event
run env st [] = (st, [])
run env st (b ∷ bytes) =
    let (st', rest, events) = switch st.framing_state env st (b ∷ []) in
    let (last, later) = run env st' bytes in (last, events ++ later)

abbrev pub Agrees : Option (ReadState × List Event) → ReadState × List Event → Type 0
Agrees result q =
    (p : ReadState × List Event) × (result ≡ some p) × (seen p.0 ≡ seen q.0) × (p.1 ≡ q.1)

-- What the two loops do behind a case.
abbrev pub run_behind : Session → List ℕ → Passed → ReadState × List Event
run_behind env bytes p = let (last, later) = run env p.0 bytes in (last, p.2 ++ later)

abbrev pub read_behind : ℕ → Session → Passed → Option (ReadState × List Event)
read_behind rounds env p = add_events p.2 (read_block rounds env p.0 p.1)

-- A closed machine reads nothing.
pub switch-closed :
    (env : Session) (st : ReadState) (bytes : List ℕ)
    → st.framing_state ≡ framing_close
    → switch st.framing_state env st bytes ≡ (st, [], [])
unfolding switch
switch-closed env st bytes here = ap (λ s. switch s env st bytes) here

pub run-closed :
    (env : Session) (st : ReadState) (bytes : List ℕ)
    → st.framing_state ≡ framing_close
    → run env st bytes ≡ (st, [])
unfolding run
run-closed env st [] here = refl
run-closed env st (b ∷ bytes) here =
    ap (run_behind env bytes) (switch-closed env st (b ∷ []) here) ∙ run-closed env st bytes here

pub read_block-nil :
    (rounds : ℕ) (env : Session) (st : ReadState) → read_block rounds env st [] ≡ some (st, [])
unfolding read_block
read_block-nil zero env st = refl
read_block-nil (suc n) env st = refl

pub read_block-closed :
    (rounds : ℕ) (env : Session) (st : ReadState) (bytes : List ℕ)
    → st.framing_state ≡ framing_close
    → read_block (suc rounds) env st bytes ≡ some (st, [])
unfolding read_block
read_block-closed rounds env st [] here = refl
read_block-closed rounds env st (b ∷ bytes) here =
    ap (read_behind rounds env) (switch-closed env st (b ∷ bytes) here)
    ∙ ap (add_events []) (read_block-nil rounds env st)

pub seen-closed :
    (st : ReadState) → st.framing_state ≡ framing_close → seen st ≡ closed_with st.status_code
seen-closed st here = simp here

pub is_close-closed : (s : Framing) → is_close s ≡ true → s ≡ framing_close
is_close-closed s e = ground arith

-- Both loops after a byte that closes the machine.
pub Agrees-closed :
    (rounds : ℕ) (env : Session) (p q : Passed) (bytes : List ℕ)
    → Closes p q
    → Agrees (read_behind (suc rounds) env p) (run_behind env bytes q)
Agrees-closed rounds env p q bytes (closed, closed', code, events) =
    let stays = run-closed env q.0 bytes closed' in
    (
      (p.0, p.2 ++ []),
      ap (add_events p.2) (read_block-closed rounds env p.0 p.1 closed),
      seen-closed p.0 closed
          ∙ ap closed_with code
          ∙ sym (ap (λ (r : ReadState × List Event). seen r.0) stays ∙ seen-closed q.0 closed'),
      ap (λ l. l ++ []) events ∙ sym (ap (λ (r : ReadState × List Event). q.2 ++ r.1) stays),
    )

-- Events in front.
pub Agrees-add_events :
    (events : List Event) (o : Option (ReadState × List Event)) (q : ReadState × List Event)
    → Agrees o q
    → Agrees (add_events events o) (q.0, events ++ q.1)
Agrees-add_events events o q (p, e, same, later) =
    ((p.0, events ++ p.1), ap (add_events events) e, same, ap (λ l. events ++ l) later)

-- Both loops go on from a state where a byte has left the machine.
pub Agrees-onward :
    (rounds : ℕ) (env : Session) (p : Passed) (c : ℕ) (bs : List ℕ)
    → Lands p
    → 0 < rounds
    → (is_ready p.0 ≡ true → Agrees (read_block rounds env p.0 (c ∷ bs)) (run env p.0 (c ∷ bs)))
    → Agrees (read_block rounds env p.0 (c ∷ bs)) (run env p.0 (c ∷ bs))
Agrees-onward zero env p c bs lands pos onward = absurd (omega arith)
Agrees-onward (suc rounds) env p c bs (inr (ready, _)) pos onward = onward ready
Agrees-onward (suc rounds) env p c bs (inl closed) pos onward = (
  (p.0, []),
  read_block-closed rounds env p.0 (c ∷ bs) closed,
  sym (ap (λ r. seen r.0) (run-closed env p.0 (c ∷ bs) closed)),
  sym (ap (λ r. r.1) (run-closed env p.0 (c ∷ bs) closed)),
)

-- The last byte.
pub Agrees-last :
    (rounds : ℕ) (env : Session) (p : Passed)
    → Lands p
    → Agrees (read_behind (suc rounds) env p) (run_behind env [] p)
unfolding run
Agrees-last rounds env p lands = ((p.0, p.2 ++ []), ap (add_events p.2) (ends lands), refl, refl)
  where
    ends : Lands p → read_block (suc rounds) env p.0 p.1 ≡ some (p.0, [])
    ends (inl closed) = read_block-closed rounds env p.0 p.1 closed
    ends (inr (_, e)) = ap (read_block (suc rounds) env p.0) e ∙ read_block-nil (suc rounds) env p.0

-- A byte and more behind it.
pub Agrees-more :
    (rounds : ℕ) (env : Session) (whole one : Passed) (c : ℕ) (bs : List ℕ)
    → Follows env whole one (c ∷ bs)
    → Lands one
    → ((r : ℕ)
        → suc (length bs) < r
        → is_ready one.0 ≡ true
        → Agrees (read_block r env one.0 (c ∷ bs)) (run env one.0 (c ∷ bs)))
    → suc (length bs) < rounds
    → Agrees (read_behind rounds env whole) (run_behind env (c ∷ bs) one)
unfolding read_block
Agrees-more zero env whole one c bs follows lands onward enough = absurd (omega arith)
Agrees-more (suc rounds) env whole one c bs (inl closes) lands onward enough =
    Agrees-closed rounds env whole one (c ∷ bs) closes
Agrees-more (suc rounds) env whole one c bs (inr (inl (silent, passes))) lands onward enough =
    let q = run env one.0 (c ∷ bs) in
    subst (λ w. Agrees (read_behind (suc rounds) env w) (run_behind env (c ∷ bs) one)) (sym passes)
      (subst
        (λ events. Agrees (read_block (suc (suc rounds)) env one.0 (c ∷ bs)) (q.0, events ++ q.1))
        (sym silent)
        (Agrees-onward (suc (suc rounds)) env one c bs lands (omega arith)
          (onward (suc (suc rounds)) (omega arith))))
Agrees-more (suc rounds) env whole one c bs (inr (inr ends)) lands onward enough =
    subst (λ w. Agrees (read_behind (suc rounds) env w) (run_behind env (c ∷ bs) one)) (sym ends)
      (Agrees-add_events one.2 (read_block (suc rounds) env one.0 (c ∷ bs)) (run env one.0 (c ∷ bs))
        (Agrees-onward (suc rounds) env one c bs lands (omega arith) (onward (suc rounds) enough)))

-- Enough rounds for the block are more than it has bytes.
pub read_block-run :
    (env : Session) (b : ℕ) (bytes : List ℕ) (st : ReadState) (rounds : ℕ)
    → is_ready st ≡ true
    → suc (length bytes) < rounds
    → Agrees (read_block rounds env st (b ∷ bytes)) (run env st (b ∷ bytes))
unfolding run read_block
read_block-run env b bytes st zero ready enough = absurd (omega arith)
read_block-run env b [] st (suc zero) ready enough = absurd (omega arith)
read_block-run env b [] st (suc (suc rounds)) ready enough =
    Agrees-last rounds env (switch st.framing_state env st (b ∷ []))
      (Lands-switch st.framing_state env st b refl ready)
read_block-run env b (c ∷ bs) st (suc rounds) ready enough =
    Agrees-more rounds env (switch st.framing_state env st (b ∷ c ∷ bs))
      (switch st.framing_state env st (b ∷ [])) c bs
      (Follows-switch st.framing_state env st b c bs refl ready)
      (Lands-switch st.framing_state env st b refl ready)
      (λ r more ready'. read_block-run env c bs _ r ready' more) (omega arith)

-- The bytes of two blocks, one by one.
pub run-append :
    (env : Session) (st : ReadState) (xs ys : List ℕ)
    → run env st (xs ++ ys) ≡ (
        let (st', events) = run env st xs in
        let (last, later) = run env st' ys in (last, events ++ later))
unfolding run
run-append env st [] ys = refl
run-append env st (x ∷ xs) ys =
    let p = switch st.framing_state env st (x ∷ []) in
    ap (λ (r : ReadState × List Event). (r.0, p.2 ++ r.1)) (run-append env p.0 xs ys)
    ∙ ap (λ (l : List Event). ((run env (run env p.0 xs).0 ys).0, l))
        (sym (append_assoc p.2 (run env p.0 xs).1 (run env (run env p.0 xs).0 ys).1))

pub Lands-is_ready : (p : Passed) → Lands p → is_ready p.0 ≡ true
Lands-is_ready p (inl closed) = ground arith
Lands-is_ready p (inr (ready, _)) = ready

pub run-is_ready :
    (env : Session) (st : ReadState) (xs : List ℕ)
    → is_ready st ≡ true
    → is_ready (run env st xs).0 ≡ true
unfolding run
run-is_ready env st [] ready = ready
run-is_ready env st (x ∷ xs) ready =
    run-is_ready env (switch st.framing_state env st (x ∷ [])).0 xs (
      Lands-is_ready (switch st.framing_state env st (x ∷ []))
        (Lands-switch st.framing_state env st x refl ready))

pub incoming_frame-run :
    (env : Session) (st : ReadState) (block : List ℕ)
    → is_ready st ≡ true
    → Agrees (incoming_frame env st block) (run env st block)
unfolding incoming_frame run
incoming_frame-run env st [] ready = ((st, []), read_block-nil 1 env st, refl, refl)
incoming_frame-run env st (b ∷ bs) ready =
    read_block-run env b bs st (suc (length bs) + 1) ready (omega arith)
