-- ===== src/WebSocket/Incoming/Blocks/Landing.antt =====
-- Where one byte leaves the machine.
use mg_web.Base.{
  ℕ, ◌+◌, ◌*◌, ◌<◌, ◌≡◌, refl, List, [], ◌∷◌, true, not, ◌&&◌, ltb, ◌⊎◌, inl, inr, arith,
  Bool-cases, set, length,
}
use mg_web.WebSocket.Reading.{
  Framing, framing_start, framing_payload_length, framing_payload_length_ext, framing_mask,
  framing_extension_data, framing_application_data, framing_close, ReadState, Session, frame,
}
use mg_web.WebSocket.Incoming.{
  case_extension_data, case_mask, case_payload_length_ext, case_payload_length, open_frame,
  case_start, switch,
}
use mg_web.WebSocket.Incoming.Blocks.Steps.{is_ready, Follows, Lands}
use mg_web.WebSocket.Incoming.Blocks.Payload.{
  zero_or_pos, Lands-none, Lands-application_data, Follows-application_data,
}
use mg_web.WebSocket.Incoming.Blocks.Bytes.{
  Nat-cases, Follows-start, Follows-payload_length, Follows-payload_length_ext, Follows-mask,
  case_mask-∷, case_mask-full, case_mask-nil, behind_mask, behind_length, is_refused,
  case_payload_length_ext-refused, case_payload_length_ext-none, case_payload_length_ext-nil,
  case_payload_length_ext-more, case_payload_length_ext-∷,
}

Lands-start :
    (env : Session) (st : ReadState) (b : ℕ)
    → st.mask_index < 4
    → Lands (case_start env st (b ∷ []))
unfolding case_start open_frame
Lands-start env st b room = ground arith

Lands-payload_length :
    (env : Session) (st : ReadState) (b : ℕ)
    → st.mask_index < 4
    → Lands (case_payload_length env st (b ∷ []))
unfolding case_payload_length
Lands-payload_length env st b room = ground arith

Lands-extension_data :
    (env : Session) (st : ReadState) → st.mask_index < 4 → Lands (case_extension_data env st [])
unfolding case_extension_data
Lands-extension_data env st room =
    elim (Bool-cases (
        ltb 0 st.payload_length
        && not (env.memory (length (frame st).application_data + st.payload_length))))
      as (λ _. Lands (case_extension_data env st [])) [
        | inl e ↦ rw e (inl refl)
        | inr e ↦
            rw e (Lands-none (record st { framing_state = framing_application_data }) refl room)
      ]

Lands-mask :
    (env : Session) (st : ReadState) (b : ℕ)
    → st.framing_state ≡ framing_mask
    → st.mask_index < 4
    → Lands (case_mask env st (b ∷ []))
Lands-mask env st b here room =
    let read = record st { mask = set st.mask st.mask_index b; mask_index = st.mask_index + 1 } in
    let whole : (read.mask_index ≡ 4) ⊎ (read.mask_index < 4) = ground arith in
    rw (case_mask-∷ env st b [] room) elim whole as (λ _. Lands (case_mask env read [])) [
      | inl e ↦
          rw (case_mask-full env read [] e)
            (Lands-extension_data env (behind_mask read) (omega arith))
      | inr lt ↦ rw (case_mask-nil env read lt) (inr (ground arith, refl))
    ]

Lands-payload_length_ext_none :
    (env : Session) (st : ReadState)
    → st.framing_state ≡ framing_payload_length_ext
    → st.mask_index < 4
    → st.masking ≡ true
    → Lands (case_payload_length_ext env st [])
Lands-payload_length_ext_none env st here room masked =
    elim (zero_or_pos st.payload_length_bytes_remaining)
      as (λ _. Lands (case_payload_length_ext env st [])) [
        | inl e ↦
            elim (Bool-cases (is_refused st)) as (λ _. Lands (case_payload_length_ext env st [])) [
              | inl over ↦ rw (case_payload_length_ext-refused env st [] e over) (inl refl)
              | inr fits ↦
                  rw (case_payload_length_ext-none env st e fits masked) (inr (ground arith, refl))
            ]
        | inr missing ↦ rw (case_payload_length_ext-nil env st missing) (inr (ground arith, refl))
      ]

Lands-payload_length_ext :
    (env : Session) (st : ReadState) (b : ℕ)
    → st.framing_state ≡ framing_payload_length_ext
    → st.mask_index < 4
    → st.masking ≡ true
    → Lands (case_payload_length_ext env st (b ∷ []))
Lands-payload_length_ext env st b here room masked =
    elim (Nat-cases st.payload_length_bytes_remaining)
      as (λ _. Lands (case_payload_length_ext env st (b ∷ []))) [
        | inl e ↦
            elim (Bool-cases (is_refused st))
              as (λ _. Lands (case_payload_length_ext env st (b ∷ []))) [
                | inl over ↦ rw (case_payload_length_ext-refused env st (b ∷ []) e over) (inl refl)
                | inr fits ↦
                    rw (case_payload_length_ext-more env st b [] e fits masked)
                      (Lands-mask env (behind_length st) b refl room)
              ]
        | inr (n, e) ↦ rw (case_payload_length_ext-∷ env st n b [] e) (
            Lands-payload_length_ext_none env
              (record st {
                payload_length = st.payload_length * 256 + b;
                payload_length_bytes_remaining = n;
              })
              here room masked)
      ]

-- One byte, in any state between two bytes.
pub Lands-switch :
    (s : Framing) (env : Session) (st : ReadState) (b : ℕ)
    → st.framing_state ≡ s
    → is_ready st ≡ true
    → Lands (switch s env st (b ∷ []))
unfolding switch
Lands-switch framing_start env st b here ready = Lands-start env st b (ground arith)
Lands-switch framing_payload_length env st b here ready =
    Lands-payload_length env st b (ground arith)
Lands-switch framing_payload_length_ext env st b here ready =
    Lands-payload_length_ext env st b here (ground arith) (ground arith)
Lands-switch framing_mask env st b here ready = Lands-mask env st b here (ground arith)
Lands-switch framing_extension_data env st b here ready = absurd (ground arith)
Lands-switch framing_application_data env st b here ready =
    Lands-application_data st b here (ground arith) (ground arith)
Lands-switch framing_close env st b here ready = inl here

-- More behind it.
pub Follows-switch :
    (s : Framing) (env : Session) (st : ReadState) (b c : ℕ) (bs : List ℕ)
    → st.framing_state ≡ s
    → is_ready st ≡ true
    → Follows env (switch s env st (b ∷ c ∷ bs)) (switch s env st (b ∷ [])) (c ∷ bs)
unfolding switch
Follows-switch framing_start env st b c bs here ready = Follows-start env st b c bs
Follows-switch framing_payload_length env st b c bs here ready =
    Follows-payload_length env st b c bs
Follows-switch framing_payload_length_ext env st b c bs here ready =
    Follows-payload_length_ext env st b c bs here (ground arith) (ground arith)
Follows-switch framing_mask env st b c bs here ready =
    Follows-mask env st b c bs here (ground arith)
Follows-switch framing_extension_data env st b c bs here ready = absurd (ground arith)
Follows-switch framing_application_data env st b c bs here ready =
    Follows-application_data env st b c bs here (ground arith)
Follows-switch framing_close env st b c bs here ready = inl (here, here, refl, refl)
