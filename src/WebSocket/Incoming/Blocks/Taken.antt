-- ===== src/WebSocket/Incoming/Blocks/Taken.antt =====
-- One byte of a payload: it is taken, or it breaks a text.
use mg_web.Base.{
  ℕ, suc, ◌+◌, ◌<◌, ◌≡◌, refl, List, ◌∷◌, true, false, ◌==◌, ◌⊎◌, inl, inr, Bool-cases,
}
use mg_web.WebSocket.Utf8.{is_er, validate_utf8}
use mg_web.WebSocket.Reading.{FrameData, ReadState, frame}
use mg_web.WebSocket.Payload.{copy_data, copy_masked_text, copy_masked, copy_text, copy_plain}
use mg_web.WebSocket.Incoming.Blocks.Count.{counted}
use mg_web.WebSocket.Incoming.Blocks.Copies.{
  Breaks, Counts, unmasked, with_byte, copy_plain-suc, copy_masked-suc, copy_text-suc,
  copy_masked_text-suc, Breaks-copy_text, Breaks-copy_masked_text,
}

pub copy_data-copy_masked_text :
    (n : ℕ) (st : ReadState) (bytes : List ℕ)
    → st.masking ≡ true
    → (st.opcode == 1) ≡ true
    → copy_data n st bytes ≡ copy_masked_text n st bytes
unfolding copy_data copy_masked_text
copy_data-copy_masked_text n st bytes m o = rw (m, o) refl

pub copy_data-copy_masked :
    (n : ℕ) (st : ReadState) (bytes : List ℕ)
    → st.masking ≡ true
    → (st.opcode == 1) ≡ false
    → copy_data n st bytes ≡ copy_masked n st bytes
unfolding copy_data copy_masked
copy_data-copy_masked n st bytes m o = rw (m, o) refl

pub copy_data-copy_text :
    (n : ℕ) (st : ReadState) (bytes : List ℕ)
    → st.masking ≡ false
    → (st.opcode == 1) ≡ true
    → copy_data n st bytes ≡ copy_text n st bytes
unfolding copy_data copy_text
copy_data-copy_text n st bytes m o = rw (m, o) refl

pub copy_data-copy_plain :
    (n : ℕ) (st : ReadState) (bytes : List ℕ)
    → st.masking ≡ false
    → (st.opcode == 1) ≡ false
    → copy_data n st bytes ≡ copy_plain n st bytes
unfolding copy_data copy_plain
copy_data-copy_plain n st bytes m o = rw (m, o) refl

-- One byte of a payload.
abbrev pub Takes : ReadState → ℕ → Type 0
Takes st b = Breaks st b ⊎ ((f : FrameData) × (off : ℕ) × Counts st b f off)

pub copy_data-Takes_masked :
    (st : ReadState) (b : ℕ) → 0 < st.payload_length → st.masking ≡ true → Takes st b
copy_data-Takes_masked st b pos m = elim (Bool-cases (st.opcode == 1)) [
  | inl o ↦ elim (Bool-cases (is_er (validate_utf8 (frame st).utf8_state (unmasked st b)))) [
    | inl v ↦ inl (λ n rest.
        rw (copy_data-copy_masked_text (suc n) st (b ∷ rest) m o)
          (Breaks-copy_masked_text st b n rest o v))
    | inr v ↦ inr (
      (with_byte st (unmasked st b) (validate_utf8 (frame st).utf8_state (unmasked st b))),
      st.mask_offset + 1,
      λ n rest.
          rw
            (
              copy_data-copy_masked_text (suc n) st (b ∷ rest) m o,
              copy_data-copy_masked_text n
                  (counted st
                    (with_byte st (unmasked st b)
                      (validate_utf8 (frame st).utf8_state (unmasked st b)))
                    (st.mask_offset + 1))
                  rest m o,
            )
            (copy_masked_text-suc st b n rest pos v),
    )
  ]
  | inr o ↦ inr (
    (with_byte st (unmasked st b) (frame st).utf8_state),
    st.mask_offset + 1,
    λ n rest.
        rw
          (
            copy_data-copy_masked (suc n) st (b ∷ rest) m o,
            copy_data-copy_masked n
                (counted st (with_byte st (unmasked st b) (frame st).utf8_state)
                  (st.mask_offset + 1))
                rest m o,
          )
          (copy_masked-suc st b n rest pos),
  )
]

pub copy_data-Takes_clear :
    (st : ReadState) (b : ℕ) → 0 < st.payload_length → st.masking ≡ false → Takes st b
copy_data-Takes_clear st b pos m = elim (Bool-cases (st.opcode == 1)) [
  | inl o ↦ elim (Bool-cases (is_er (validate_utf8 (frame st).utf8_state b))) [
    | inl v ↦ inl (λ n rest.
        rw (copy_data-copy_text (suc n) st (b ∷ rest) m o) (Breaks-copy_text st b n rest o v))
    | inr v ↦ inr (
      (with_byte st b (validate_utf8 (frame st).utf8_state b)),
      st.mask_offset,
      λ n rest.
          rw
            (
              copy_data-copy_text (suc n) st (b ∷ rest) m o,
              copy_data-copy_text n
                  (counted st (with_byte st b (validate_utf8 (frame st).utf8_state b))
                    (st.mask_offset))
                  rest m o,
            )
            (copy_text-suc st b n rest pos v),
    )
  ]
  | inr o ↦ inr (
    (with_byte st b (frame st).utf8_state),
    st.mask_offset,
    λ n rest.
        rw
          (
            copy_data-copy_plain (suc n) st (b ∷ rest) m o,
            copy_data-copy_plain n
                (counted st (with_byte st b (frame st).utf8_state) (st.mask_offset)) rest m o,
          )
          (copy_plain-suc st b n rest pos),
  )
]

pub copy_data-Takes : (st : ReadState) (b : ℕ) → 0 < st.payload_length → Takes st b
copy_data-Takes st b pos = elim (Bool-cases st.masking) [
  | inl m ↦ copy_data-Takes_masked st b pos m
  | inr m ↦ copy_data-Takes_clear st b pos m
]
