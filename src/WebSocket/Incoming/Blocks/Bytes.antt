-- ===== src/WebSocket/Incoming/Blocks/Bytes.antt =====
-- One byte of a block, and what the cases make of the bytes behind it.
use mg_web.Base.{
  ℕ, zero, suc, ◌+◌, ◌*◌, ◌^◌, ◌<◌, ◌≡◌, refl, ap, ◌∙◌, List, [], ◌∷◌, Bool, true, false, not, ◌&&◌,
  ◌||◌, ltb, leb, if◌then◌else◌, ◌⊎◌, inl, inr, arith, Bool-cases, ne→==_false, set, length,
}
use mg_web.WebSocket.Reading.{
  framing_payload_length_ext, framing_mask, framing_extension_data, framing_application_data,
  ReadState, Session, frame, refuse, too_large,
}
use mg_web.WebSocket.Incoming.{
  case_extension_data, read_mask, payload_limit, is_zero_mask, case_mask, read_length_bytes,
  check_length, case_payload_length_ext, case_payload_length, case_start, switch,
}
use mg_web.WebSocket.Incoming.Blocks.Steps.{Follows, Follows-waits}
use mg_web.WebSocket.Incoming.Blocks.Payload.{zero_or_pos, Follows-none}

pub Follows-payload_length :
    (env : Session) (st : ReadState) (b c : ℕ) (bs : List ℕ)
    → Follows env
        (case_payload_length env st (b ∷ c ∷ bs))
        (case_payload_length env st (b ∷ []))
        (c ∷ bs)
unfolding case_payload_length switch
Follows-payload_length env st b c bs = ground arith

pub Follows-start :
    (env : Session) (st : ReadState) (b c : ℕ) (bs : List ℕ)
    → Follows env (case_start env st (b ∷ c ∷ bs)) (case_start env st (b ∷ [])) (c ∷ bs)
unfolding case_start switch
Follows-start env st b c bs = ground arith

pub Follows-extension_data :
    (env : Session) (st : ReadState) (more : List ℕ)
    → Follows env (case_extension_data env st more) (case_extension_data env st []) more
unfolding case_extension_data
Follows-extension_data env st more =
    elim (Bool-cases (
        ltb 0 st.payload_length
        && not (env.memory (length (frame st).application_data + st.payload_length))))
      as (λ _. Follows env (case_extension_data env st more) (case_extension_data env st []) more) [
        | inl e ↦ rw e (inl (refl, refl, refl, refl))
        | inr e ↦
            rw e
              (Follows-none env (record st { framing_state = framing_application_data }) more refl)
      ]

pub read_mask-full : (mask bytes : List ℕ) → read_mask mask 4 bytes ≡ (mask, 4, bytes)
unfolding read_mask
read_mask-full mask [] = refl
read_mask-full mask (b ∷ bytes) = refl

-- A byte of the mask is read as if it came alone.
pub case_mask-∷ :
    (env : Session) (st : ReadState) (b : ℕ) (bytes : List ℕ)
    → st.mask_index < 4
    → case_mask env st (b ∷ bytes)
      ≡ case_mask env
          (record st { mask = set st.mask st.mask_index b; mask_index = st.mask_index + 1 })
          bytes
unfolding case_mask read_mask
case_mask-∷ env st b bytes room = let e : ltb st.mask_index 4 ≡ true = ground arith in rw e refl

-- The state behind the mask.
abbrev pub behind_mask : ReadState → ReadState
behind_mask st = record st {
  framing_state = framing_extension_data;
  mask_offset = 0;
  mask_index = 0;
  masking = if is_zero_mask st.mask then false else st.masking;
}

pub case_mask-full :
    (env : Session) (st : ReadState) (bytes : List ℕ)
    → st.mask_index ≡ 4
    → case_mask env st bytes ≡ case_extension_data env (behind_mask st) bytes
unfolding case_mask
case_mask-full env st bytes e =
    let full : read_mask st.mask st.mask_index bytes ≡ (st.mask, 4, bytes) =
      ap (λ i. read_mask st.mask i bytes) e ∙ read_mask-full st.mask bytes in
    simp full

pub case_mask-nil :
    (env : Session) (st : ReadState) → st.mask_index < 4 → case_mask env st [] ≡ (st, [], [])
unfolding case_mask read_mask
case_mask-nil env st room = rw (ne→==_false st.mask_index 4 (λ e. absurd (omega arith))) refl

pub Follows-mask_none :
    (env : Session) (st : ReadState) (more : List ℕ)
    → st.framing_state ≡ framing_mask
    → (st.mask_index ≡ 4) ⊎ (st.mask_index < 4)
    → Follows env (case_mask env st more) (case_mask env st []) more
unfolding switch case_mask
Follows-mask_none env st more here (inl e) =
    rw (case_mask-full env st more e, case_mask-full env st [] e)
      (Follows-extension_data env (behind_mask st) more)
Follows-mask_none env st more here (inr lt) =
    Follows-waits env st framing_mask (case_mask env st more) (case_mask env st []) more
      (case_mask-nil env st lt) here refl

pub Follows-mask :
    (env : Session) (st : ReadState) (b c : ℕ) (bs : List ℕ)
    → st.framing_state ≡ framing_mask
    → st.mask_index < 4
    → Follows env (case_mask env st (b ∷ c ∷ bs)) (case_mask env st (b ∷ [])) (c ∷ bs)
Follows-mask env st b c bs here room =
    rw (case_mask-∷ env st b (c ∷ bs) room, case_mask-∷ env st b [] room)
      (Follows-mask_none env
        (record st { mask = set st.mask st.mask_index b; mask_index = st.mask_index + 1 }) (c ∷ bs)
        here (ground arith))

-- A byte of the length is read as if it came alone.
pub case_payload_length_ext-∷ :
    (env : Session) (st : ReadState) (n b : ℕ) (bytes : List ℕ)
    → st.payload_length_bytes_remaining ≡ suc n
    → case_payload_length_ext env st (b ∷ bytes)
      ≡ case_payload_length_ext env
          (record st {
            payload_length = st.payload_length * 256 + b;
            payload_length_bytes_remaining = n;
          })
          bytes
unfolding case_payload_length_ext read_length_bytes
case_payload_length_ext-∷ env st n b bytes e =
    let r : read_length_bytes st.payload_length_bytes_remaining st.payload_length (b ∷ bytes)
        ≡ read_length_bytes n (st.payload_length * 256 + b) bytes =
      ap (λ k. read_length_bytes k st.payload_length (b ∷ bytes)) e ∙ refl in
    ap
      (λ r.
        check_length env (record st { payload_length = r.1; payload_length_bytes_remaining = r.0 })
          r.2)
      r

pub Nat-cases : (n : ℕ) → (n ≡ 0) ⊎ ((m : ℕ) × (n ≡ suc m))
Nat-cases zero = inl refl
Nat-cases (suc n) = inr (n, refl)

-- Whether a length is refused, and the state behind one that is not.
abbrev pub is_refused : ReadState → Bool
is_refused st = leb (2 ^ 63) st.payload_length || ltb payload_limit st.payload_length

abbrev pub behind_length : ReadState → ReadState
behind_length st = record st { framing_state = framing_mask; payload_length_bytes_remaining = 0 }

pub case_payload_length_ext-refused :
    (env : Session) (st : ReadState) (bytes : List ℕ)
    → st.payload_length_bytes_remaining ≡ 0
    → is_refused st ≡ true
    → case_payload_length_ext env st bytes
      ≡ (refuse (record st { payload_length_bytes_remaining = 0 }) (too_large env), bytes, [])
unfolding case_payload_length_ext read_length_bytes check_length
case_payload_length_ext-refused env st bytes e over = simp (e, over)

pub case_payload_length_ext-none :
    (env : Session) (st : ReadState)
    → st.payload_length_bytes_remaining ≡ 0
    → is_refused st ≡ false
    → st.masking ≡ true
    → case_payload_length_ext env st [] ≡ (behind_length st, [], [])
unfolding case_payload_length_ext read_length_bytes check_length
case_payload_length_ext-none env st e fits masked = simp (e, fits, masked)

pub case_payload_length_ext-more :
    (env : Session) (st : ReadState) (b : ℕ) (bytes : List ℕ)
    → st.payload_length_bytes_remaining ≡ 0
    → is_refused st ≡ false
    → st.masking ≡ true
    → case_payload_length_ext env st (b ∷ bytes) ≡ case_mask env (behind_length st) (b ∷ bytes)
unfolding case_payload_length_ext read_length_bytes check_length
case_payload_length_ext-more env st b bytes e fits masked = simp (e, fits, masked)

read_length_bytes-nil : (n len : ℕ) → read_length_bytes n len [] ≡ (n, len, [])
unfolding read_length_bytes
read_length_bytes-nil zero len = refl
read_length_bytes-nil (suc n) len = refl

pub case_payload_length_ext-nil :
    (env : Session) (st : ReadState)
    → 0 < st.payload_length_bytes_remaining
    → case_payload_length_ext env st [] ≡ (st, [], [])
unfolding case_payload_length_ext check_length
case_payload_length_ext-nil env st missing =
    ap
      (λ r.
        check_length env (record st { payload_length = r.1; payload_length_bytes_remaining = r.0 })
          r.2)
      (read_length_bytes-nil st.payload_length_bytes_remaining st.payload_length)
    ∙ rw (ne→==_false st.payload_length_bytes_remaining 0 (λ e. absurd (omega arith))) refl

pub Follows-payload_length_ext_none :
    (env : Session) (st : ReadState) (c : ℕ) (bs : List ℕ)
    → st.framing_state ≡ framing_payload_length_ext
    → st.masking ≡ true
    → Follows env
        (case_payload_length_ext env st (c ∷ bs))
        (case_payload_length_ext env st [])
        (c ∷ bs)
unfolding switch
Follows-payload_length_ext_none env st c bs here masked =
    elim (zero_or_pos st.payload_length_bytes_remaining)
      as (λ _.
        Follows env (case_payload_length_ext env st (c ∷ bs)) (case_payload_length_ext env st [])
          (c ∷ bs)) [
            | inl e ↦
                elim (Bool-cases (is_refused st))
                  as (λ _.
                    Follows env (case_payload_length_ext env st (c ∷ bs))
                      (case_payload_length_ext env st []) (c ∷ bs)) [
                        | inl over ↦
                            rw
                              (
                                case_payload_length_ext-refused env st (c ∷ bs) e over,
                                case_payload_length_ext-refused env st [] e over,
                              )
                              (inl (refl, refl, refl, refl))
                        | inr fits ↦
                            Follows-waits env (behind_length st) framing_mask
                              (case_payload_length_ext env st (c ∷ bs))
                              (case_payload_length_ext env st []) (c ∷ bs)
                              (case_payload_length_ext-none env st e fits masked) refl
                              (case_payload_length_ext-more env st c bs e fits masked)
                      ]
            | inr missing ↦
                Follows-waits env st framing_payload_length_ext
                  (case_payload_length_ext env st (c ∷ bs)) (case_payload_length_ext env st [])
                  (c ∷ bs) (case_payload_length_ext-nil env st missing) here refl
          ]

pub Follows-payload_length_ext :
    (env : Session) (st : ReadState) (b c : ℕ) (bs : List ℕ)
    → st.framing_state ≡ framing_payload_length_ext
    → st.mask_index < 4
    → st.masking ≡ true
    → Follows env
        (case_payload_length_ext env st (b ∷ c ∷ bs))
        (case_payload_length_ext env st (b ∷ []))
        (c ∷ bs)
Follows-payload_length_ext env st b c bs here room masked =
    elim (Nat-cases st.payload_length_bytes_remaining)
      as (λ _.
        Follows env (case_payload_length_ext env st (b ∷ c ∷ bs))
          (case_payload_length_ext env st (b ∷ [])) (c ∷ bs)) [
            | inl e ↦
                elim (Bool-cases (is_refused st))
                  as (λ _.
                    Follows env (case_payload_length_ext env st (b ∷ c ∷ bs))
                      (case_payload_length_ext env st (b ∷ [])) (c ∷ bs)) [
                        | inl over ↦
                            rw
                              (
                                case_payload_length_ext-refused env st (b ∷ c ∷ bs) e over,
                                case_payload_length_ext-refused env st (b ∷ []) e over,
                              )
                              (inl (refl, refl, refl, refl))
                        | inr fits ↦
                            rw
                              (
                                case_payload_length_ext-more env st b (c ∷ bs) e fits masked,
                                case_payload_length_ext-more env st b [] e fits masked,
                              )
                              (Follows-mask env (behind_length st) b c bs refl room)
                      ]
            | inr (n, e) ↦
                rw
                  (
                    case_payload_length_ext-∷ env st n b (c ∷ bs) e,
                    case_payload_length_ext-∷ env st n b [] e,
                  )
                  (Follows-payload_length_ext_none env
                    (record st {
                      payload_length = st.payload_length * 256 + b;
                      payload_length_bytes_remaining = n;
                    })
                    c bs here masked)
          ]
