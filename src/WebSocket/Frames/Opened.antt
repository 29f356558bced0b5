-- ===== src/WebSocket/Frames/Opened.antt =====
-- The header of a frame that comes whole: from the start of the frame to its payload.
use mg_web.Base.{
  ℕ, ◌+◌, ◌*◌, ◌/◌, ◌%◌, ◌^◌, ◌≤◌, ◌<◌, ◌≡◌, refl, sym, ap, ◌∙◌, List, [], ◌∷◌, ◌++◌, Bool, true,
  false, not, ◌&&◌, ◌||◌, ltb, leb, length, ◌==◌, arith, inl, inr, Bool-cases, if◌then◌else◌,
}
use mg_web.WebSocket.Utf8.{s0}
use mg_web.WebSocket.Reading.{
  ReadState, FrameData, Session, frame, framing_start, framing_payload_length,
  framing_payload_length_ext, framing_mask, framing_extension_data, framing_application_data,
}
use mg_web.WebSocket.Incoming.{
  payload_limit, case_start, open_frame, case_payload_length, case_payload_length_ext, check_length,
  read_length_bytes, case_mask, read_mask, case_extension_data,
}
use mg_web.WebSocket.Payload.{case_application_data}
use mg_web.WebSocket.Incoming.Blocks.Bytes.{read_mask-full, case_payload_length_ext-more}
use mg_web.WebSocket.Frames.{
  Kind, text, binary, ping, answer, opcode, is_control, Key, key_bytes, masked_length, under_mask,
  ClientFrame, IsValid, encode_frame,
}
use mg_web.WebSocket.Frames.Copied.{masked_by}

-- A state between two frames, where no message is in parts; `k` is what the mask holds.
abbrev pub idle : ReadState → Key → ReadState
idle st k = record st {
  framing_state = framing_start;
  control_frame = record st.control_frame { application_data = [] };
  message_frame = record st.message_frame { application_data = []; fin = true };
  mask = key_bytes k;
  mask_index = 0;
}

abbrev pub fresh_frame : FrameData → Kind → FrameData
fresh_frame f kind = record f { application_data = []; opcode = opcode kind; utf8_state = s0 }

-- The state behind the first byte.
abbrev pub begun : ReadState → Key → Kind → ReadState
begun st k kind = record (idle st k) {
  framing_state = framing_payload_length;
  fin = true;
  opcode = opcode kind;
  is_control = is_control kind;
  control_frame =
      if is_control kind
      then fresh_frame st.control_frame kind
      else record st.control_frame { application_data = [] };
  message_frame =
      if is_control kind
      then record st.message_frame { application_data = []; fin = true }
      else record (fresh_frame st.message_frame kind) { fin = true };
  payload_length = 0;
  payload_length_bytes_remaining = 0;
}

case_start-begun :
    (env : Session) (st : ReadState) (k : Key) (kind : Kind) (c : ℕ) (more : List ℕ)
    → case_start env (idle st k) ((128 + opcode kind) ∷ c ∷ more)
      ≡ case_payload_length env (begun st k kind) (c ∷ more)
unfolding case_start open_frame
case_start-begun env st k text c more = refl
case_start-begun env st k binary c more = refl
case_start-begun env st k ping c more = refl
case_start-begun env st k answer c more = refl

-- The state behind the length.
abbrev pub measured : ReadState → ℕ → ReadState
measured st n = record st {
  framing_state = framing_mask;
  payload_length = n;
  masking = true;
  payload_length_bytes_remaining = 0;
}

or_false : {a b : Bool} → a ≡ false → b ≡ false → (a || b) ≡ false
or_false e f = ground arith

&&-false : (b : Bool) → (b && false) ≡ false
&&-false true = refl
&&-false false = refl

is_fit : (n : ℕ) → n ≤ 33554432 → (leb (2 ^ 63) n ≡ false) × (ltb payload_limit n ≡ false)
is_fit n fits = ground arith

case_payload_length-short :
    (env : Session) (st : ReadState) (n a : ℕ) (rest : List ℕ)
    → n < 126
    → case_payload_length env st ((128 + n) ∷ a ∷ rest) ≡ case_mask env (measured st n) (a ∷ rest)
unfolding case_payload_length
case_payload_length-short env st n a rest short =
    let low : (128 + n) % 128 ≡ n = omega arith in
    let high : (128 + n) / 128 % 2 ≡ 1 = omega arith in
    let eq_126 : (n == 126) ≡ false = ground arith in
    let eq_127 : (n == 127) ≡ false = ground arith in
    let long : ltb 125 n ≡ false = ground arith in
    let (positive, fits) = is_fit n (omega arith) in
    let small = record st {
      framing_state = framing_payload_length_ext;
      payload_length = n;
      masking = true;
      payload_length_bytes_remaining = 0;
    } in
    let counted : case_payload_length env st ((128 + n) ∷ a ∷ rest)
        ≡ case_payload_length_ext env small (a ∷ rest) =
      rw (low, high, eq_126, eq_127, long, &&-false (leb 8 st.opcode)) refl in
    counted ∙ case_payload_length_ext-more env small a rest refl (or_false positive fits) refl

case_payload_length-two :
    (env : Session) (st : ReadState) (n a : ℕ) (rest : List ℕ)
    → leb 8 st.opcode ≡ false
    → 126 ≤ n
    → n < 65536
    → case_payload_length env st (254 ∷ n / 256 ∷ n % 256 ∷ a ∷ rest)
      ≡ case_mask env (measured st n) (a ∷ rest)
unfolding case_payload_length case_payload_length_ext check_length read_length_bytes
case_payload_length-two env st n a rest message low high =
    let value : (0 + n / 256) * 256 + n % 256 ≡ n = omega arith in
    let (positive, fits) = is_fit n (omega arith) in rw (message, value, positive, fits) refl

case_payload_length-eight :
    (env : Session) (st : ReadState) (n a : ℕ) (rest : List ℕ)
    → leb 8 st.opcode ≡ false
    → n ≤ 33554432
    → case_payload_length env st
        (255 ∷ 0 ∷ 0 ∷ 0 ∷ 0 ∷ n / 2 ^ 24 ∷ n / 2 ^ 16 % 256 ∷ n / 256 % 256 ∷ n % 256 ∷ a ∷ rest)
      ≡ case_mask env (measured st n) (a ∷ rest)
unfolding case_payload_length case_payload_length_ext check_length read_length_bytes
case_payload_length-eight env st n a rest message high =
    let value : (((0 + n / 16777216) * 256 + n / 65536 % 256) * 256 + n / 256 % 256) * 256 + n % 256
        ≡ n =
      omega arith in
    let (positive, fits) = is_fit n high in rw (message, value, positive, fits) refl

-- A length in any of the three forms.
case_payload_length-masked_length :
    (env : Session) (st : ReadState) (n a : ℕ) (rest : List ℕ)
    → (leb 8 st.opcode ≡ true → n < 126)
    → n ≤ 33554432
    → case_payload_length env st (masked_length n ++ (a ∷ rest))
      ≡ case_mask env (measured st n) (a ∷ rest)
unfolding masked_length
case_payload_length-masked_length env st n a rest control high =
    elim (Bool-cases (ltb n 126))
      as (λ _.
        case_payload_length env st (masked_length n ++ (a ∷ rest))
        ≡ case_mask env (measured st n) (a ∷ rest)) [
          | inl e ↦ rw e (case_payload_length-short env st n a rest (ground arith))
          | inr e ↦
              let message : leb 8 st.opcode ≡ false = ground arith in
              elim (Bool-cases (ltb n 65536))
                as (λ _.
                  case_payload_length env st (masked_length n ++ (a ∷ rest))
                  ≡ case_mask env (measured st n) (a ∷ rest)) [
                    | inl e' ↦
                        rw (e, e')
                          (case_payload_length-two env st n a rest message (ground arith)
                            (ground arith))
                    | inr e' ↦ rw (e, e') (case_payload_length-eight env st n a rest message high)
                  ]
        ]

case_mask-key :
    (env : Session) (st : ReadState) (k key : Key) (n : ℕ) (rest : List ℕ)
    → st.mask ≡ key_bytes k
    → st.mask_index ≡ 0
    → case_mask env (measured st n) (key_bytes key ++ rest)
      ≡ case_extension_data env
          (record (masked_by (measured st n) key) { framing_state = framing_extension_data })
          rest
unfolding case_mask read_mask
case_mask-key env st k key n rest shape index =
    let bytes = key_bytes key ++ rest in
    let r : read_mask st.mask st.mask_index bytes ≡ (key_bytes key, 4, rest) =
      ap (λ m. read_mask m st.mask_index bytes) shape
      ∙ ap (λ i. read_mask (key_bytes k) i bytes) index
      ∙ read_mask-full (key_bytes key) rest in
    rw r refl

case_extension_data-memory :
    (env : Session) (st : ReadState) (bytes : List ℕ)
    → (frame st).application_data ≡ []
    → env.memory st.payload_length ≡ true
    → case_extension_data env st bytes
      ≡ case_application_data (record st { framing_state = framing_application_data }) bytes
unfolding case_extension_data
case_extension_data-memory env st bytes fresh memory =
    let none_before : 0 + st.payload_length ≡ st.payload_length = omega arith in
    let had : env.memory (length (frame st).application_data + st.payload_length) ≡ true =
      ap (λ (old : List ℕ). env.memory (length old + st.payload_length)) fresh
      ∙ ap env.memory none_before
      ∙ memory in
    let enough : (ltb 0 st.payload_length
          && not (env.memory (length (frame st).application_data + st.payload_length)))
        ≡ false =
      ap (λ b. ltb 0 st.payload_length && not b) had ∙ &&-false (ltb 0 st.payload_length) in
    rw enough refl

masked_length-more :
    (n : ℕ) (rest : List ℕ) → (c : ℕ) × (more : List ℕ) × (masked_length n ++ rest ≡ c ∷ more)
unfolding masked_length
masked_length-more n rest =
    elim (Bool-cases (ltb n 126))
      as (λ _. (c : ℕ) × (more : List ℕ) × (masked_length n ++ rest ≡ c ∷ more)) [
        | inl e ↦ (128 + n, rest, rw e refl)
        | inr e ↦
            elim (Bool-cases (ltb n 65536))
              as (λ _. (c : ℕ) × (more : List ℕ) × (masked_length n ++ rest ≡ c ∷ more)) [
                | inl e' ↦ (254, n / 256 ∷ n % 256 ∷ rest, rw (e, e') refl)
                | inr e' ↦ (
                  255,
                  0 ∷ 0 ∷ 0 ∷ 0 ∷ n / 2 ^ 24 ∷ n / 2 ^ 16 % 256 ∷ n / 256 % 256 ∷ n % 256 ∷ rest,
                  rw (e, e') refl,
                )
              ]
      ]

-- The state where the payload comes.
abbrev pub arrived : ReadState → Key → ClientFrame → ReadState
arrived st k f = record (masked_by (measured (begun st k f.kind) (length f.payload)) f.key) {
  framing_state = framing_application_data;
}

frame-begun :
    (st : ReadState) (k : Key) (kind : Kind) → (frame (begun st k kind)).application_data ≡ []
frame-begun st k text = refl
frame-begun st k binary = refl
frame-begun st k ping = refl
frame-begun st k answer = refl

is_control-short : (kind : Kind) → leb 8 (opcode kind) ≡ true → is_control kind ≡ true
is_control-short kind e = ground arith

pub case_start-arrived :
    (env : Session) (st : ReadState) (k : Key) (f : ClientFrame)
    → IsValid f
    → env.memory (length f.payload) ≡ true
    → case_start env (idle st k) (encode_frame f)
      ≡ case_application_data (arrived st k f) (under_mask (key_bytes f.key) 0 f.payload)
unfolding encode_frame
case_start-arrived env st k f valid memory =
    let n = length f.payload in
    let sent = under_mask (key_bytes f.key) 0 f.payload in
    let (c, more, shape) = masked_length-more n (key_bytes f.key ++ sent) in
    ap (λ l. case_start env (idle st k) ((128 + opcode f.kind) ∷ l)) shape
    ∙ case_start-begun env st k f.kind c more
    ∙ ap (case_payload_length env (begun st k f.kind)) (sym shape)
    ∙ case_payload_length-masked_length env (begun st k f.kind) n f.key.k0 _
        (λ e. valid.is_short (is_control-short f.kind e)) valid.fits
    ∙ case_mask-key env (begun st k f.kind) k f.key n sent refl refl
    ∙ case_extension_data-memory env
        (record (masked_by (measured (begun st k f.kind) n) f.key) {
          framing_state = framing_extension_data;
        })
        sent (frame-begun st k f.kind) memory
