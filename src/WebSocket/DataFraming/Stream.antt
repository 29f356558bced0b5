-- ===== src/WebSocket/DataFraming/Stream.antt =====
-- What a session does with the bytes of the client, whatever blocks they come in.
use mg_web.Base.{
  ℕ, ◌/◌, ◌%◌, ◌≡◌, refl, sym, ap, ◌∙◌, List, [], ◌∷◌, ◌++◌, true, false, some, inl, inr,
  Bool-cases, append-nil, if◌then◌else◌,
}
use mg_web.WebSocket.Reading.{Framing, ReadState, Event, Session, framing_close, is_close}
use mg_web.WebSocket.Incoming.{add_events, incoming_frame}
use mg_web.WebSocket.Incoming.Blocks.Steps.{closed_with, seen, is_ready}
use mg_web.WebSocket.Incoming.Blocks.Runs.{
  run, Agrees, is_close-closed, seen-closed, run-closed, run-append, run-is_ready,
}
use mg_web.WebSocket.Incoming.Blocks.{Alike, seen-cases, incoming_frame-Alike}
use mg_web.WebSocket.DataFraming.{
  read_state, read_failed, take_blocks, read_blocks, status_code_buffer, data_framing,
}

abbrev pub concat : List (List ℕ) → List ℕ
concat [] = []
concat (block ∷ blocks) = block ++ concat blocks

seen-Alike : (s t : ReadState) → Alike s t → seen s ≡ seen t
seen-Alike s t (inl same) = ap seen same
seen-Alike s t (inr (closed, closed', code)) =
    seen-closed s closed ∙ ap closed_with code ∙ sym (seen-closed t closed')

read_failed-closed : (s : ReadState) → s.framing_state ≡ framing_close → read_failed s ≡ s
read_failed-closed s closed =
    ap
      (λ (f : Framing).
        if is_close f then s else record s { framing_state = framing_close; status_code = 1002 })
      closed

status-Alike :
    (s t : ReadState) → Alike s t → (read_failed s).status_code ≡ (read_failed t).status_code
status-Alike s t (inl same) = ap (λ (u : ReadState). (read_failed u).status_code) same
status-Alike s t (inr (closed, closed', code)) =
    ap (λ (u : ReadState). u.status_code) (read_failed-closed s closed)
    ∙ code
    ∙ sym (ap (λ (u : ReadState). u.status_code) (read_failed-closed t closed'))

Alike-closed :
    (s t : ReadState)
    → Alike s t
    → s.framing_state ≡ framing_close
    → t.framing_state ≡ framing_close
Alike-closed s t (inl same) closed = ap (λ (u : ReadState). u.framing_state) (sym same) ∙ closed
Alike-closed s t (inr (_, closed', _)) closed = closed'

take_blocks-closed :
    (env : Session) (st : ReadState) (blocks : List (List ℕ))
    → is_close st.framing_state ≡ true
    → take_blocks env st blocks ≡ some (st, [])
unfolding take_blocks
take_blocks-closed env st [] closed = refl
take_blocks-closed env st (block ∷ blocks) closed = rw (take_blocks, closed) refl

pub take_blocks-∷ :
    (env : Session) (st : ReadState) (block : List ℕ) (blocks : List (List ℕ))
    (p q : ReadState × List Event)
    → is_close st.framing_state ≡ false
    → incoming_frame env st block ≡ some p
    → take_blocks env p.0 blocks ≡ some q
    → take_blocks env st (block ∷ blocks) ≡ some (q.0, p.1 ++ q.1)
unfolding take_blocks
take_blocks-∷ env st block blocks p q runs first later =
    rw (take_blocks, runs, first) (ap (add_events p.1) later)

-- The loop does what the bytes do one by one.
take_blocks-run :
    (env : Session) (blocks : List (List ℕ)) (s t : ReadState)
    → is_ready t ≡ true
    → Alike s t
    → Agrees (take_blocks env s blocks) (run env t (concat blocks))
unfolding take_blocks run
take_blocks-run env [] s t ready alike = ((s, []), refl, seen-Alike s t alike, refl)
take_blocks-run env (block ∷ blocks) s t ready alike =
    elim (Bool-cases (is_close s.framing_state))
      as (λ _. Agrees (take_blocks env s (block ∷ blocks)) (run env t (block ++ concat blocks))) [
        | inl closed ↦
            let is_closed = is_close-closed s.framing_state closed in
            let stays =
              run-closed env t (block ++ concat blocks) (Alike-closed s t alike is_closed) in
            (
              (s, []),
              take_blocks-closed env s (block ∷ blocks) closed,
              seen-Alike s t alike ∙ sym (ap (λ (r : ReadState × List Event). seen r.0) stays),
              sym (ap (λ (r : ReadState × List Event). r.1) stays),
            )
        | inr runs ↦
            let (p, p_is, p_seen, p_events) = incoming_frame-Alike env s t block ready alike in
            let mid = run env t block in
            let (q, q_is, q_seen, q_events) =
              take_blocks-run env blocks p.0 mid.0 (run-is_ready env t block ready)
                (seen-cases p.0 mid.0 p_seen) in
            let splits = run-append env t block (concat blocks) in
            (
              (q.0, p.1 ++ q.1),
              take_blocks-∷ env s block blocks p q runs p_is q_is,
              q_seen ∙ sym (ap (λ (r : ReadState × List Event). seen r.0) splits),
              ap (λ l. l ++ q.1) p_events
                  ∙ ap (λ l. mid.1 ++ l) q_events
                  ∙ sym (ap (λ (r : ReadState × List Event). r.1) splits),
            )
      ]

pub data_framing-take_blocks :
    (env : Session) (blocks : List (List ℕ)) (p : ReadState × List Event)
    → take_blocks env read_state blocks ≡ some p
    → data_framing env blocks ≡ some (p.1, status_code_buffer (read_failed p.0))
unfolding data_framing read_blocks
data_framing-take_blocks env blocks p e = rw (data_framing, read_blocks, e) refl

-- `mg_websocket_data_framing` comes to an end for every list of blocks with a read that fails behind it, and what it does, the
-- messages to the DB server and the pongs in their order and the status code in the closing frame, is what it does for the
-- same bytes in one block.
pub data_framing-concat :
    (env : Session) (blocks : List (List ℕ))
    → (result : List Event × List ℕ) × (data_framing env blocks ≡ some result)
      × (data_framing env (concat blocks ∷ []) ≡ some result)
data_framing-concat env blocks =
    let bytes = concat blocks in
    let (p, p_is, p_seen, p_events) =
      take_blocks-run env blocks read_state read_state refl (inl refl) in
    let (q, q_is, q_seen, q_events) =
      take_blocks-run env (bytes ∷ []) read_state read_state refl (inl refl) in
    let one = ap (run env read_state) (append-nil bytes) in
    let code = status-Alike q.0 p.0 (
      seen-cases q.0 p.0
        (q_seen ∙ ap (λ (r : ReadState × List Event). seen r.0) one ∙ sym p_seen)) in
    let events = q_events ∙ ap (λ (r : ReadState × List Event). r.1) one ∙ sym p_events in
    (
      (p.1, status_code_buffer (read_failed p.0)),
      data_framing-take_blocks env blocks p p_is,
      data_framing-take_blocks env (bytes ∷ []) q q_is
          ∙ ap (λ (l : List Event). some (l, status_code_buffer (read_failed q.0))) events
          ∙ ap (λ n. some (p.1, n / 256 % 256 ∷ n % 256 ∷ [])) code,
    )
