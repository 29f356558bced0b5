-- ===== src/WebSocket/Incoming/Blocks/Copies.antt =====
-- The four loops that copy a payload, byte by byte.
use mg_web.Base.{
  ℕ, zero, suc, ◌+◌, ◌-◌, ◌%◌, ◌<◌, ◌≡◌, refl, sym, ap, ◌∙◌, List, [], ◌∷◌, ◌++◌, Bool, true, false,
  ◌==◌, arith, append_assoc, take, drop, get_or,
}
use mg_web.WebSocket.Utf8.{Utf8State, er, is_er, validate, validate_utf8}
use mg_web.WebSocket.Reading.{framing_close, FrameData, ReadState, frame, with_frame}
use mg_web.WebSocket.Payload.{
  complete, copy_data, copy_masked_text, copy_masked, copy_text, copy_plain, count_down, cut_short,
  finish, unmask_text, unmask,
}
use Prim.Native.Nat.{bit_xor}
use mg_web.WebSocket.Incoming.Blocks.Count.{count_down-suc, counted, frame-with_frame}

-- A byte breaks a text: the machine is closed, whatever follows.
abbrev pub Breaks : ReadState → ℕ → Type 0
Breaks st b =
    (n : ℕ) (rest : List ℕ)
    → let p = count_down (suc n) (copy_data (suc n) st (b ∷ rest)) in
      (p.0.framing_state ≡ framing_close) × (p.0.status_code ≡ 1007) × (p.2 ≡ [])

-- A byte is taken, and the ones behind it are taken as if they came later.
abbrev pub Counts : ReadState → ℕ → FrameData → ℕ → Type 0
Counts st b f off =
    (n : ℕ) (rest : List ℕ)
    → count_down (suc n) (copy_data (suc n) st (b ∷ rest))
      ≡ count_down n (copy_data n (counted st f off) rest)

-- The byte behind the mask, and the frame with a byte more.
abbrev pub unmasked : ReadState → ℕ → ℕ
unmasked st b = bit_xor b (get_or st.mask (st.mask_offset % 4) 0)

abbrev pub with_byte : ReadState → ℕ → Utf8State → FrameData
with_byte st b u = record (frame st) {
  application_data = (frame st).application_data ++ (b ∷ []);
  utf8_state = u;
}

pub copy_plain-suc :
    (st : ReadState) (b n : ℕ) (rest : List ℕ)
    → 0 < st.payload_length
    → count_down (suc n) (copy_plain (suc n) st (b ∷ rest))
      ≡ count_down n
          (copy_plain n (counted st (with_byte st b (frame st).utf8_state) st.mask_offset) rest)
unfolding copy_plain
copy_plain-suc st b n rest pos =
    let g = with_byte st b (frame st).utf8_state in
    rw (frame-with_frame (record st { payload_length = st.payload_length - 1 }) g) (
      ap
        (λ bytes.
          count_down (suc n) (record (frame st) { application_data = bytes }, st, drop n rest))
        (sym (append_assoc (frame st).application_data (b ∷ []) (take n rest)))
      ∙ count_down-suc n (record g { application_data = g.application_data ++ take n rest }) g st
          (drop n rest) pos)

pub copy_masked-suc :
    (st : ReadState) (b n : ℕ) (rest : List ℕ)
    → 0 < st.payload_length
    → count_down (suc n) (copy_masked (suc n) st (b ∷ rest))
      ≡ count_down n (
          copy_masked n
            (counted st (with_byte st (unmasked st b) (frame st).utf8_state) (st.mask_offset + 1))
            rest)
unfolding copy_masked unmask
copy_masked-suc st b n rest pos =
    let g = with_byte st (unmasked st b) (frame st).utf8_state in
    let later = unmask n st.mask (st.mask_offset + 1) g.application_data rest in
    rw
      (frame-with_frame
        (record st { payload_length = st.payload_length - 1; mask_offset = st.mask_offset + 1 }) g)
      (count_down-suc n (record g { application_data = later.0 }) g
        (record st { mask_offset = later.1 }) later.2 pos)

-- What a text that breaks leaves to be counted.
pub cut_short-suc :
    (invalid : Bool) (n : ℕ) (st : ReadState)
    → (n ≡ 0 → invalid ≡ false)
    → (cut_short invalid (suc n) st).payload_length - 1
      ≡ (cut_short invalid n (record st { payload_length = st.payload_length - 1 })).payload_length
cut_short-suc invalid n st calm = ground arith

pub cut_short-pos :
    (invalid : Bool) (n : ℕ) (st : ReadState)
    → 0 < st.payload_length
    → 0 < (cut_short invalid (suc n) st).payload_length
cut_short-pos invalid n st pos = ground arith

-- The same for text, which may break behind the byte.
pub count_down-cut_short :
    (invalid : Bool) (n : ℕ) (f g : FrameData) (st : ReadState) (rest : List ℕ)
    → 0 < st.payload_length
    → (n ≡ 0 → invalid ≡ false)
    → count_down (suc n) (f, cut_short invalid (suc n) st, rest)
      ≡ count_down n (
        f,
        cut_short invalid n (with_frame (record st { payload_length = st.payload_length - 1 }) g),
        rest,
      )
count_down-cut_short invalid n f g st rest pos calm =
    count_down-suc n f g (cut_short invalid (suc n) st) rest (cut_short-pos invalid n st pos)
    ∙ ap (λ left. count_down n (f, with_frame (record st { payload_length = left }) g, rest))
        (cut_short-suc invalid n st calm)

pub validate-valid :
    (u : Utf8State) (b : ℕ) (s : List ℕ)
    → is_er (validate_utf8 u b) ≡ false
    → validate u (b ∷ s) ≡ validate (validate_utf8 u b) s
unfolding validate
validate-valid u b s valid = rw (validate, valid) refl

pub validate-invalid :
    (u : Utf8State) (b : ℕ) (s : List ℕ)
    → is_er (validate_utf8 u b) ≡ true
    → validate u (b ∷ s) ≡ er
unfolding validate
validate-invalid u b s invalid = rw (validate, invalid) refl

pub validate-none :
    (n : ℕ) (u : Utf8State) (s : List ℕ)
    → is_er u ≡ false
    → n ≡ 0
    → is_er (validate u (take n s)) ≡ false
unfolding validate
validate-none zero u s valid e = valid
validate-none (suc n) u s valid e = absurd (omega arith)

pub copy_text-suc :
    (st : ReadState) (b n : ℕ) (rest : List ℕ)
    → 0 < st.payload_length
    → is_er (validate_utf8 (frame st).utf8_state b) ≡ false
    → count_down (suc n) (copy_text (suc n) st (b ∷ rest))
      ≡ count_down n (
          copy_text n
            (counted st (with_byte st b (validate_utf8 (frame st).utf8_state b)) st.mask_offset)
            rest)
unfolding copy_text
copy_text-suc st b n rest pos valid =
    let g = with_byte st b (validate_utf8 (frame st).utf8_state b) in
    let u = validate g.utf8_state (take n rest) in
    let text = (frame st).application_data in
    rw
      (
        frame-with_frame (record st { payload_length = st.payload_length - 1 }) g,
        validate-valid (frame st).utf8_state b (take n rest) valid,
        append_assoc text (b ∷ []) (take n rest),
      )
      (count_down-cut_short (is_er u) n
        (record g { application_data = text ++ (b ∷ take n rest); utf8_state = u }) g st
        (drop n rest) pos (validate-none n g.utf8_state rest valid))

pub unmask_text-valid :
    (n : ℕ) (mask : List ℕ) (off : ℕ) (u : Utf8State) (acc : List ℕ) (b : ℕ) (bytes : List ℕ)
    → (let c = bit_xor b (get_or mask (off % 4) 0) in
        is_er (validate_utf8 u c) ≡ false
        → unmask_text (suc n) mask off u acc (b ∷ bytes)
          ≡ unmask_text n mask (off + 1) (validate_utf8 u c) (acc ++ (c ∷ [])) bytes)
unfolding unmask_text
unmask_text-valid n mask off u acc b bytes valid = rw (unmask_text, valid) refl

pub unmask_text-invalid :
    (n : ℕ) (mask : List ℕ) (off : ℕ) (u : Utf8State) (acc : List ℕ) (b : ℕ) (bytes : List ℕ)
    → is_er (validate_utf8 u (bit_xor b (get_or mask (off % 4) 0))) ≡ true
    → unmask_text (suc n) mask off u acc (b ∷ bytes) ≡ (acc, er, off + 1, bytes)
unfolding unmask_text
unmask_text-invalid n mask off u acc b bytes invalid = rw (unmask_text, invalid) refl

pub unmask_text-none :
    (n : ℕ) (mask : List ℕ) (off : ℕ) (u : Utf8State) (acc bytes : List ℕ)
    → is_er u ≡ false
    → n ≡ 0
    → is_er (unmask_text n mask off u acc bytes).1 ≡ false
unfolding unmask_text
unmask_text-none zero mask off u acc bytes valid e = valid
unmask_text-none (suc n) mask off u acc bytes valid e = absurd (omega arith)

pub copy_masked_text-suc :
    (st : ReadState) (b n : ℕ) (rest : List ℕ)
    → 0 < st.payload_length
    → is_er (validate_utf8 (frame st).utf8_state (unmasked st b)) ≡ false
    → count_down (suc n) (copy_masked_text (suc n) st (b ∷ rest))
      ≡ count_down n (
          copy_masked_text n
            (counted st
              (with_byte st (unmasked st b) (validate_utf8 (frame st).utf8_state (unmasked st b)))
              (st.mask_offset + 1))
            rest)
unfolding copy_masked_text
copy_masked_text-suc st b n rest pos valid =
    let g = with_byte st (unmasked st b) (validate_utf8 (frame st).utf8_state (unmasked st b)) in
    let off = st.mask_offset + 1 in
    let later = unmask_text n st.mask off g.utf8_state g.application_data rest in
    rw
      (
        frame-with_frame (record st { payload_length = st.payload_length - 1; mask_offset = off })
            g,
        unmask_text-valid n st.mask st.mask_offset (frame st).utf8_state (frame st).application_data
            b rest valid,
      )
      (count_down-cut_short (is_er later.1) n
        (record g { application_data = later.0; utf8_state = later.1 }) g
        (record st { mask_offset = later.2 }) later.3 pos
        (unmask_text-none n st.mask off g.utf8_state g.application_data rest valid))

-- A text that breaks at its first byte.
pub count_down-breaks :
    (n : ℕ) (f : FrameData) (st : ReadState) (rest : List ℕ)
    → (st.opcode == 1) ≡ true
    → is_er f.utf8_state ≡ true
    → let p = count_down (suc n) (f, cut_short true (suc n) st, rest) in
      (p.0.framing_state ≡ framing_close) × (p.0.status_code ≡ 1007) × (p.2 ≡ [])
unfolding count_down complete finish
count_down-breaks n f st rest is_text invalid = ground arith

pub Breaks-copy_text :
    (st : ReadState) (b n : ℕ) (rest : List ℕ)
    → (st.opcode == 1) ≡ true
    → is_er (validate_utf8 (frame st).utf8_state b) ≡ true
    → let p = count_down (suc n) (copy_text (suc n) st (b ∷ rest)) in
      (p.0.framing_state ≡ framing_close) × (p.0.status_code ≡ 1007) × (p.2 ≡ [])
unfolding copy_text
Breaks-copy_text st b n rest is_text invalid =
    rw (validate-invalid (frame st).utf8_state b (take n rest) invalid) (
      count_down-breaks n
        (record (frame st) {
          application_data = (frame st).application_data ++ (b ∷ take n rest);
          utf8_state = er;
        })
        st (drop n rest) is_text refl)

pub Breaks-copy_masked_text :
    (st : ReadState) (b n : ℕ) (rest : List ℕ)
    → (st.opcode == 1) ≡ true
    → is_er (validate_utf8 (frame st).utf8_state (unmasked st b)) ≡ true
    → let p = count_down (suc n) (copy_masked_text (suc n) st (b ∷ rest)) in
      (p.0.framing_state ≡ framing_close) × (p.0.status_code ≡ 1007) × (p.2 ≡ [])
unfolding copy_masked_text
Breaks-copy_masked_text st b n rest is_text invalid =
    rw
      (unmask_text-invalid n st.mask st.mask_offset (frame st).utf8_state
        (frame st).application_data b rest invalid)
      (count_down-breaks n (record (frame st) { utf8_state = er })
        (record st { mask_offset = st.mask_offset + 1 }) rest is_text refl)
