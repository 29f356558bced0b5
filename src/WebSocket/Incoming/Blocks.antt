-- ===== src/WebSocket/Incoming/Blocks.antt =====
-- What the client sent is read the same way whatever blocks it comes in.
pub mod Steps
pub mod Count
pub mod Copies
pub mod Taken
pub mod Payload
pub mod Bytes
pub mod Landing
pub mod Runs
use mg_web.Base.{
  ℕ, suc, ◌+◌, ◌≡◌, refl, sym, ap, ◌∙◌, List, [], ◌++◌, true, false, some, ◌⊎◌, inl, inr,
  Bool-cases, ◌≢◌, arith, subst, length,
}
use mg_web.WebSocket.Reading.{framing_close, ReadState, Event, Session, is_close}
use mg_web.WebSocket.Incoming.{read_block, incoming_frame}
use mg_web.WebSocket.Incoming.Blocks.Steps.{closed_with, going, seen, is_ready}
use mg_web.WebSocket.Incoming.Blocks.Runs.{
  run, Agrees, run-closed, read_block-closed, seen-closed, is_close-closed, run-append,
  run-is_ready, incoming_frame-run,
}

-- States of which the same is seen.
abbrev pub Alike : ReadState → ReadState → Type 0
Alike s t =
    (s ≡ t)
    ⊎ ((s.framing_state ≡ framing_close)
        × (t.framing_state ≡ framing_close)
        × (s.status_code ≡ t.status_code))

seen-going : (st : ReadState) → is_close st.framing_state ≡ false → seen st ≡ going st
seen-going st runs = rw runs refl

going-ne-closed_with : (s : ReadState) (n : ℕ) → going s ≢ closed_with n
going-ne-closed_with s n e = cc

closed_with-inj : (m n : ℕ) → closed_with m ≡ closed_with n → m ≡ n
closed_with-inj m n e = cc

going-inj : (s t : ReadState) → going s ≡ going t → s ≡ t
going-inj s t e = cc

pub seen-cases : (s t : ReadState) → seen s ≡ seen t → Alike s t
seen-cases s t same = elim (Bool-cases (is_close s.framing_state)) as (λ _. Alike s t) [
  | inl a ↦
      let closed = is_close-closed s.framing_state a in
      let is_seen = sym (seen-closed s closed) ∙ same in
      elim (Bool-cases (is_close t.framing_state)) as (λ _. Alike s t) [
        | inl b ↦
            let closed' = is_close-closed t.framing_state b in
            inr (
              closed,
              closed',
              closed_with-inj s.status_code t.status_code (is_seen ∙ seen-closed t closed'),
            )
        | inr b ↦ absurd (going-ne-closed_with t s.status_code (sym (is_seen ∙ seen-going t b)))
      ]
  | inr a ↦
      let is_seen = sym (seen-going s a) ∙ same in
      elim (Bool-cases (is_close t.framing_state)) as (λ _. Alike s t) [
        | inl b ↦ absurd (
            going-ne-closed_with s t.status_code
              (is_seen ∙ seen-closed t (is_close-closed t.framing_state b)))
        | inr b ↦ inl (going-inj s t (is_seen ∙ seen-going t b))
      ]
]

-- A block that comes in a state like the one expected.
pub incoming_frame-Alike :
    (env : Session) (s t : ReadState) (ys : List ℕ)
    → is_ready t ≡ true
    → Alike s t
    → Agrees (incoming_frame env s ys) (run env t ys)
unfolding incoming_frame
incoming_frame-Alike env s t ys ready (inl same) =
    subst (λ u. Agrees (incoming_frame env u ys) (run env t ys)) (sym same)
      (incoming_frame-run env t ys ready)
incoming_frame-Alike env s t ys ready (inr (closed, closed', code)) =
    let stays = run-closed env t ys closed' in
    let one_more : length ys + 1 ≡ suc (length ys) = omega arith in
    (
      (s, []),
      ap (λ n. read_block n env s ys) one_more ∙ read_block-closed (length ys) env s ys closed,
      seen-closed s closed
          ∙ ap closed_with code
          ∙ sym (ap (λ (r : ReadState × List Event). seen r.0) stays ∙ seen-closed t closed'),
      sym (ap (λ (r : ReadState × List Event). r.1) stays),
    )

-- Between two bytes, `mg_websocket_incoming_frame` returns for every block; and two blocks, one after
-- the other, have the same effect as the two in one: the same messages and pongs in the same order, and
-- the same state, or the machine is closed with the same status code.
pub incoming_frame-append :
    (env : Session) (st : ReadState) (xs ys : List ℕ)
    → is_ready st ≡ true
    → (p : ReadState × List Event) × (q : ReadState × List Event) × (whole : ReadState × List Event)
      × (incoming_frame env st xs ≡ some p)
      × (incoming_frame env p.0 ys ≡ some q)
      × (incoming_frame env st (xs ++ ys) ≡ some whole)
      × (seen whole.0 ≡ seen q.0)
      × (whole.1 ≡ p.1 ++ q.1)
incoming_frame-append env st xs ys ready =
    let (p, p_is, p_seen, p_events) = incoming_frame-run env st xs ready in
    let (whole, whole_is, whole_seen, whole_events) = incoming_frame-run env st (xs ++ ys) ready in
    let mid = run env st xs in
    let (q, q_is, q_seen, q_events) =
      incoming_frame-Alike env p.0 mid.0 ys (run-is_ready env st xs ready)
        (seen-cases p.0 mid.0 p_seen) in
    let splits = run-append env st xs ys in
    (
      p,
      q,
      whole,
      p_is,
      q_is,
      whole_is,
      whole_seen ∙ ap (λ (r : ReadState × List Event). seen r.0) splits ∙ sym q_seen,
      whole_events
          ∙ ap (λ (r : ReadState × List Event). r.1) splits
          ∙ sym (ap (λ l. l ++ q.1) p_events ∙ ap (λ l. mid.1 ++ l) q_events),
    )
