-- ===== src/WebSocket/Incoming/Blocks/Steps.antt =====
-- What a block and the bytes of it, one by one, are compared by.
use mg_web.Base.{
  ℕ, ◌≡◌, sym, ap, ◌∙◌, List, [], Bool, true, false, ◌&&◌, ltb, if◌then◌else◌, ◌⊎◌, inl, inr,
}
use mg_web.WebSocket.Reading.{
  Framing, framing_start, framing_payload_length, framing_payload_length_ext, framing_mask,
  framing_extension_data, framing_application_data, framing_close, ReadState, Session, Passed,
  is_close,
}
use mg_web.WebSocket.Incoming.{switch}

-- What is left of the state once the machine is closed: the status code.
pub data Seen : Type 0 where
  closed_with : ℕ → Seen
  going : ReadState → Seen

abbrev pub seen : ReadState → Seen
seen st = if is_close st.framing_state then closed_with st.status_code else going st

-- The states between two bytes.
abbrev pub is_ready : ReadState → Bool
is_ready st = elim st.framing_state [
  | framing_start ↦ ltb st.mask_index 4
  | framing_payload_length ↦ ltb st.mask_index 4
  | framing_payload_length_ext ↦ ltb st.mask_index 4 && st.masking
  | framing_mask ↦ ltb st.mask_index 4
  | framing_extension_data ↦ false
  | framing_application_data ↦ ltb st.mask_index 4 && ltb 0 st.payload_length
  | framing_close ↦ true
]

-- Where a byte leaves the machine.
abbrev pub Lands : Passed → Type 0
Lands p = (p.0.framing_state ≡ framing_close) ⊎ ((is_ready p.0 ≡ true) × (p.1 ≡ []))

-- The machine is closed, with the same code and events.
abbrev pub Closes : Passed → Passed → Type 0
Closes p q =
    (p.0.framing_state ≡ framing_close)
    × (q.0.framing_state ≡ framing_close)
    × (p.0.status_code ≡ q.0.status_code)
    × (p.2 ≡ q.2)

-- What a case makes of a byte and more behind it, `whole`, given what it makes of the byte, `one`: it
-- closes; it goes on as if the byte had come alone; or it ends there.
abbrev pub Follows : Session → Passed → Passed → List ℕ → Type 0
Follows env whole one more =
    Closes whole one
    ⊎ ((one.2 ≡ []) × (whole ≡ switch one.0.framing_state env one.0 more))
    ⊎ (whole ≡ (one.0, more, one.2))

-- A case that waits for a byte goes on as its state says.
pub Follows-waits :
    (env : Session) (st : ReadState) (s : Framing) (whole one : Passed) (more : List ℕ)
    → one ≡ (st, [], [])
    → st.framing_state ≡ s
    → whole ≡ switch s env st more
    → Follows env whole one more
Follows-waits env st s whole one more waits here whole_is = inr (
    inl (
      ap (λ p. p.2) waits,
      whole_is
          ∙ sym (
              ap (λ p. switch p.0.framing_state env p.0 more) waits
              ∙ ap (λ s'. switch s' env st more) here),
    ))
