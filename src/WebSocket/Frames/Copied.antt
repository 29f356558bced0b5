-- ===== src/WebSocket/Frames/Copied.antt =====
-- A payload that comes in one piece is copied as it was sent.
use mg_web.Base.{
  ℕ, ◌+◌, ◌≡◌, refl, ap, ◌∙◌, List, [], ◌∷◌, ◌++◌, true, false, length, ◌==◌, arith, take, drop,
  inl, inr, Bool-cases, if◌then◌else◌,
}
use mg_web.WebSocket.Utf8.{Utf8State, s0, is_er, validate}
use mg_web.WebSocket.Reading.{ReadState, frame}
use mg_web.WebSocket.Payload.{
  copy_data, copy_masked, copy_masked_text, copy_plain, copy_text, unmask, unmask_text, cut_short,
}
use mg_web.WebSocket.Incoming.{is_zero_mask}
use mg_web.WebSocket.Incoming.Blocks.Taken.{
  copy_data-copy_masked, copy_data-copy_masked_text, copy_data-copy_plain, copy_data-copy_text,
}
use mg_web.WebSocket.Frames.{Key, key_bytes, under_mask, are_bytes}
use mg_web.WebSocket.Frames.Unmasked.{unmask-under_mask, unmask_text-under_mask, under_mask-zero}

-- The state behind the key of a frame.
abbrev pub masked_by : ReadState → Key → ReadState
masked_by st k = record st {
  mask = key_bytes k;
  mask_offset = 0;
  mask_index = 0;
  masking = if is_zero_mask (key_bytes k) then false else true;
}

abbrev pub Copies : ReadState → Key → List ℕ → Utf8State → Type 0
Copies st k payload u =
    (off : ℕ) × (copy_data (length payload) (masked_by st k) (under_mask (key_bytes k) 0 payload)
      ≡ (
        record (frame st) { application_data = payload; utf8_state = u },
        record (masked_by st k) { mask_offset = off },
        [],
      ))

take-all : (xs : List ℕ) → take (length xs) xs ≡ xs
take-all [] = refl
take-all (x ∷ xs) = ap (λ l. x ∷ l) (take-all xs)

drop-all : (xs : List ℕ) → drop (length xs) xs ≡ []
drop-all [] = refl
drop-all (x ∷ xs) = drop-all xs

-- What is there, what is taken and what is left.
all_parts :
    {old : List ℕ} (payload : List ℕ)
    → old ≡ []
    → (let n = length payload in
        ◌≡◌ {A = List ℕ × List ℕ × List ℕ} (old, take n payload, drop n payload) ([], payload, []))
all_parts payload fresh = rw (fresh, take-all payload, drop-all payload) refl

zero_key :
    (k : Key)
    → is_zero_mask (key_bytes k) ≡ true
    → (k.k0 ≡ 0) × (k.k1 ≡ 0) × (k.k2 ≡ 0) × (k.k3 ≡ 0)
zero_key k z = ground arith

module _ (st : ReadState) (k : Key) (payload : List ℕ) (keys : are_bytes (key_bytes k) ≡ true)
    (bytes : are_bytes payload ≡ true) (fresh : (frame st).application_data ≡ []) where
  copy_masked-Copies :
      is_zero_mask (key_bytes k) ≡ false
      → (st.opcode == 1) ≡ false
      → Copies st k payload (frame st).utf8_state
  unfolding copy_masked
  copy_masked-Copies z o =
      let s = masked_by st k in
      let r : unmask (length payload) (key_bytes k) 0 (frame st).application_data
            (under_mask (key_bytes k) 0 payload)
          ≡ (payload, 0 + length payload, []) =
        ap (λ a. unmask (length payload) (key_bytes k) 0 a (under_mask (key_bytes k) 0 payload))
          fresh
        ∙ unmask-under_mask k 0 [] payload keys bytes in
      let masking : s.masking ≡ true = ap (λ b. if b then false else true) z in
      (
        _,
        copy_data-copy_masked (length payload) s (under_mask (key_bytes k) 0 payload) masking o
            ∙ ap
                (λ (p : List ℕ × ℕ × List ℕ). (
                  record (frame st) { application_data = p.0 },
                  record s { mask_offset = p.1 },
                  p.2,
                ))
                r,
      )

  copy_plain-Copies :
      is_zero_mask (key_bytes k) ≡ true
      → (st.opcode == 1) ≡ false
      → Copies st k payload (frame st).utf8_state
  unfolding copy_plain
  copy_plain-Copies z o =
      let s = masked_by st k in
      let (z0, z1, z2, z3) = zero_key k z in
      let copied : copy_plain (length payload) s payload
          ≡ (record (frame st) { application_data = payload }, record s { mask_offset = 0 }, []) =
        ap
          (λ (p : List ℕ × List ℕ × List ℕ).
            (record (frame st) { application_data = p.0 ++ p.1 }, s, p.2))
          (all_parts payload fresh) in
      let masking : s.masking ≡ false = ap (λ b. if b then false else true) z in
      (
        0,
        ap (copy_data (length payload) s) (under_mask-zero k 0 payload z0 z1 z2 z3 bytes)
            ∙ copy_data-copy_plain (length payload) s payload masking o
            ∙ copied,
      )

  module _ (clean : (frame st).utf8_state ≡ s0) (valid : validate s0 payload ≡ s0) where
    copy_masked_text-Copies :
        is_zero_mask (key_bytes k) ≡ false → (st.opcode == 1) ≡ true → Copies st k payload s0
    unfolding copy_masked_text
    copy_masked_text-Copies z o =
        let s = masked_by st k in
        let n = length payload in
        let sent = under_mask (key_bytes k) 0 payload in
        let r : unmask_text n (key_bytes k) 0 (frame st).utf8_state (frame st).application_data sent
            ≡ (payload, s0, 0 + n, []) =
          ap (λ a. unmask_text n (key_bytes k) 0 (frame st).utf8_state a sent) fresh
          ∙ ap (λ u. unmask_text n (key_bytes k) 0 u [] sent) clean
          ∙ unmask_text-under_mask k 0 s0 [] payload keys bytes (ap is_er valid)
          ∙ ap (λ u. (payload, u, 0 + n, [])) valid in
        let masking : s.masking ≡ true = ap (λ b. if b then false else true) z in
        (
          _,
          copy_data-copy_masked_text n s sent masking o
              ∙ ap
                  (λ (p : List ℕ × Utf8State × ℕ × List ℕ). (
                    record (frame st) { application_data = p.0; utf8_state = p.1 },
                    cut_short (is_er p.1) n (record s { mask_offset = p.2 }),
                    p.3,
                  ))
                  r,
        )

    copy_text-Copies :
        is_zero_mask (key_bytes k) ≡ true → (st.opcode == 1) ≡ true → Copies st k payload s0
    unfolding copy_text
    copy_text-Copies z o =
        let s = masked_by st k in
        let n = length payload in
        let (z0, z1, z2, z3) = zero_key k z in
        let u : validate (frame st).utf8_state (take n payload) ≡ s0 =
          ap (λ u. validate u (take n payload)) clean
          ∙ ap (validate s0) (take-all payload)
          ∙ valid in
        let masking : s.masking ≡ false = ap (λ b. if b then false else true) z in
        (
          0,
          ap (copy_data n s) (under_mask-zero k 0 payload z0 z1 z2 z3 bytes)
              ∙ copy_data-copy_text n s payload masking o
              ∙ ap
                  (λ (v : Utf8State). (
                    record (frame st) {
                      application_data = (frame st).application_data ++ take n payload;
                      utf8_state = v;
                    },
                    cut_short (is_er v) n s,
                    drop n payload,
                  ))
                  u
              ∙ ap
                  (λ (p : List ℕ × List ℕ × List ℕ).
                    (record (frame st) { application_data = p.0 ++ p.1; utf8_state = s0 }, s, p.2))
                  (all_parts payload fresh),
        )

-- Whatever the key: text, and other data.
pub copy_data-text :
    (st : ReadState) (k : Key) (payload : List ℕ)
    → are_bytes (key_bytes k) ≡ true
    → are_bytes payload ≡ true
    → (frame st).application_data ≡ []
    → (frame st).utf8_state ≡ s0
    → validate s0 payload ≡ s0
    → (st.opcode == 1) ≡ true
    → Copies st k payload s0
copy_data-text st k payload keys bytes fresh clean valid o =
    elim (Bool-cases (is_zero_mask (key_bytes k))) as (λ _. Copies st k payload s0) [
      | inl z ↦ copy_text-Copies st k payload keys bytes fresh clean valid z o
      | inr z ↦ copy_masked_text-Copies st k payload keys bytes fresh clean valid z o
    ]

pub copy_data-data :
    (st : ReadState) (k : Key) (payload : List ℕ)
    → are_bytes (key_bytes k) ≡ true
    → are_bytes payload ≡ true
    → (frame st).application_data ≡ []
    → (st.opcode == 1) ≡ false
    → Copies st k payload (frame st).utf8_state
copy_data-data st k payload keys bytes fresh o =
    elim (Bool-cases (is_zero_mask (key_bytes k)))
      as (λ _. Copies st k payload (frame st).utf8_state) [
        | inl z ↦ copy_plain-Copies st k payload keys bytes fresh z o
        | inr z ↦ copy_masked-Copies st k payload keys bytes fresh z o
      ]
