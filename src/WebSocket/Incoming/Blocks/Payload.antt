-- ===== src/WebSocket/Incoming/Blocks/Payload.antt =====
-- The payload of a frame, whatever blocks it comes in.
use mg_web.Base.{
  ℕ, zero, suc, ◌-◌, ◌<◌, ◌≡◌, refl, sym, ap, ◌∙◌, List, [], ◌∷◌, true, Option, none, some, ◌⊎◌,
  inl, inr, arith, length, min,
}
use mg_web.WebSocket.Reading.{framing_application_data, FrameData, ReadState, Event, Session, frame}
use mg_web.WebSocket.Payload.{complete, count_down, case_application_data, finish, next_frame}
use mg_web.WebSocket.Incoming.{switch}
use mg_web.WebSocket.Incoming.Blocks.Steps.{is_ready, Follows, Follows-waits, Lands}
use mg_web.WebSocket.Incoming.Blocks.Count.{
  copy_data-zero, case_application_data-count_down, case_application_data-nil,
  case_application_data-empty, counted,
}
use mg_web.WebSocket.Incoming.Blocks.Taken.{copy_data-Takes}

pub zero_or_pos : (n : ℕ) → (n ≡ 0) ⊎ (0 < n)
zero_or_pos zero = inl refl
zero_or_pos (suc n) = inr (omega arith)

-- Bytes behind none.
pub Follows-none :
    (env : Session) (st : ReadState) (more : List ℕ)
    → st.framing_state ≡ framing_application_data
    → Follows env (case_application_data st more) (case_application_data st []) more
unfolding switch case_application_data
Follows-none env st more here =
    elim (zero_or_pos st.payload_length)
      as (λ _. Follows env (case_application_data st more) (case_application_data st []) more) [
        | inl e ↦ inr (inr (case_application_data-empty st more e))
        | inr pos ↦
            Follows-waits env st framing_application_data (case_application_data st more)
              (case_application_data st []) more (case_application_data-nil st pos) here refl
      ]

-- One byte and more.
pub Follows-application_data :
    (env : Session) (st : ReadState) (b c : ℕ) (bs : List ℕ)
    → st.framing_state ≡ framing_application_data
    → 0 < st.payload_length
    → Follows env
        (case_application_data st (b ∷ c ∷ bs))
        (case_application_data st (b ∷ []))
        (c ∷ bs)
Follows-application_data env st b c bs here pos =
    let m = min (st.payload_length - 1) (suc (length bs)) in
    let more = case_application_data-count_down st (b ∷ c ∷ bs) (suc m) (omega arith) in
    let one = case_application_data-count_down st (b ∷ []) 1 (omega arith) in
    elim (copy_data-Takes st b pos)
      as (λ _.
        Follows env (case_application_data st (b ∷ c ∷ bs)) (case_application_data st (b ∷ []))
          (c ∷ bs)) [
            | inl breaks ↦
                let w = breaks m (c ∷ bs) in
                let o = breaks 0 [] in rw (more, one) (inl (w.0, o.0, w.1 ∙ sym o.1, w.2 ∙ sym o.2))
            | inr (f, off, counts) ↦
                rw
                  (
                    more
                        ∙ counts m (c ∷ bs)
                        ∙ sym (case_application_data-count_down (counted st f off) (c ∷ bs) m refl),
                    one
                        ∙ counts 0 []
                        ∙ sym (
                            case_application_data-count_down (counted st f off) [] 0 (omega arith)),
                  )
                  (Follows-none env (counted st f off) (c ∷ bs) here)
          ]

pub Lands-next_frame :
    (refused : Option ℕ) (f : FrameData) (st : ReadState) (events : List Event)
    → st.mask_index < 4
    → Lands (next_frame refused st f, [], events)
Lands-next_frame none f st events room = ground arith
Lands-next_frame (some code) f st events room = inl refl

pub count_down-done :
    (f : FrameData) (st : ReadState)
    → st.payload_length ≡ 0
    → count_down 0 (f, st, []) ≡ (
      next_frame (finish st.fin st.opcode f).2 (record st { payload_length = 0 }) f,
      [],
      (complete (record st { payload_length = 0 }) f).1,
    )
unfolding count_down complete
count_down-done f st e = let z : st.payload_length - 0 ≡ 0 = omega arith in rw z refl

pub Lands-count_down :
    (f : FrameData) (st : ReadState)
    → st.payload_length ≡ 0
    → st.mask_index < 4
    → Lands (count_down 0 (f, st, []))
Lands-count_down f st e room = rw (count_down-done f st e) (
    Lands-next_frame (finish st.fin st.opcode f).2 f (record st { payload_length = 0 })
      (complete (record st { payload_length = 0 }) f).1 room)

pub is_ready-application_data :
    (st : ReadState)
    → st.framing_state ≡ framing_application_data
    → st.mask_index < 4
    → 0 < st.payload_length
    → is_ready st ≡ true
is_ready-application_data st here room pos = ground arith

-- No byte ends a payload, or leaves it waiting.
pub Lands-none :
    (st : ReadState)
    → st.framing_state ≡ framing_application_data
    → st.mask_index < 4
    → Lands (case_application_data st [])
Lands-none st here room =
    elim (zero_or_pos st.payload_length) as (λ _. Lands (case_application_data st [])) [
      | inl e ↦
          rw
            (case_application_data-count_down st [] 0 (omega arith)
              ∙ ap (count_down 0) (copy_data-zero st []))
            (Lands-count_down (frame st) st e room)
      | inr pos ↦
          rw (case_application_data-nil st pos)
            (inr (is_ready-application_data st here room pos, refl))
    ]

pub Lands-application_data :
    (st : ReadState) (b : ℕ)
    → st.framing_state ≡ framing_application_data
    → st.mask_index < 4
    → 0 < st.payload_length
    → Lands (case_application_data st (b ∷ []))
Lands-application_data st b here room pos =
    let one = case_application_data-count_down st (b ∷ []) 1 (omega arith) in
    elim (copy_data-Takes st b pos) as (λ _. Lands (case_application_data st (b ∷ []))) [
      | inl breaks ↦ rw one (inl (breaks 0 []).0)
      | inr (f, off, counts) ↦
          rw
            (one
              ∙ counts 0 []
              ∙ sym (case_application_data-count_down (counted st f off) [] 0 (omega arith)))
            (Lands-none (counted st f off) here room)
    ]
