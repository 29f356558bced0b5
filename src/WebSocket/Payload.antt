-- ===== src/WebSocket/Payload.antt =====
-- src/mg_websocket.c, `mg_websocket_incoming_frame`: the case for application data. The payload is
-- copied, or taken out of its mask; text is validated; and a payload that is complete ends its frame.
use Prim.Native.Nat.{bit_xor}
use mg_web.Base.{
  ℕ, zero, suc, ◌+◌, ◌-◌, ◌%◌, min, List, [], ◌∷◌, ◌++◌, Bool, true, false, not, ◌&&◌, ◌||◌, ltb,
  ◌==◌, if◌then◌else◌, Option, none, some, length, get_or, take, drop,
}
use mg_web.WebSocket.Utf8.{Utf8State, er, is_s0, is_er, validate_utf8, validate}
use mg_web.WebSocket.Reading.{
  FrameData, ReadState, Event, Passed, frame, with_frame, refuse, framing_start, tcp_write, pong,
}

-- The switch on the opcode at the end of a payload: whether the data are a message, the frame's bytes
-- as a pong, and the code for which the machine is closed.
unfoldable pub finish : Bool → ℕ → FrameData → Bool × List Event × Option ℕ
finish fin op f =
    if op == 1
    then (if (fin && not (is_s0 f.utf8_state)) || is_er f.utf8_state
        then (false, [], some 1007)
        else (true, [], none))
    else if op == 2
    then (true, [], none)
    else if op == 8
    then (false, [], some 1000)
    else if op == 9
    then (false, pong f.application_data ∷ [], none)
    else if op == 10
    then (false, [], none)
    else (false, [], some 1002)

-- Where the machine goes on, the next frame starts, and the data of the last one are gone.
abbrev pub next_frame : Option ℕ → ReadState → FrameData → ReadState
next_frame (some code) st f = with_frame (refuse st code) f
next_frame none st f =
    with_frame (record st { framing_state = framing_start })
      (if st.fin then record f { application_data = [] } else f)

-- The last part of the case for application data, where `payload_length` has come down to 0.
unfoldable pub complete : ReadState → FrameData → ReadState × List Event
unfolding finish
complete st f =
    let (is_message, events, refused) = finish st.fin st.opcode f in
    let written =
      if st.fin && is_message && ltb 0 (length f.application_data)
      then (tcp_write f.application_data ∷ [])
      else [] in
    (next_frame refused st f, events ++ written)

-- The loop that takes the mask off text: the data, the automaton, `mask_offset`, and the bytes left.
-- It ends at a byte that is not valid, which it has taken.
unfoldable pub unmask_text :
    ℕ → List ℕ → ℕ → Utf8State → List ℕ → List ℕ → List ℕ × Utf8State × ℕ × List ℕ
unmask_text zero mask off u acc bytes = (acc, u, off, bytes)
unmask_text (suc n) mask off u acc [] = (acc, u, off, [])
unmask_text (suc n) mask off u acc (b ∷ bytes) =
    let c = bit_xor b (get_or mask (off % 4) 0) in
    elim (is_er (validate_utf8 u c)) [
      | true ↦ (acc, er, off + 1, bytes)
      | false ↦ unmask_text n mask (off + 1) (validate_utf8 u c) (acc ++ (c ∷ [])) bytes
    ]

-- The loop for other data.
unfoldable pub unmask : ℕ → List ℕ → ℕ → List ℕ → List ℕ → List ℕ × ℕ × List ℕ
unmask zero mask off acc bytes = (acc, off, bytes)
unmask (suc n) mask off acc [] = (acc, off, [])
unmask (suc n) mask off acc (b ∷ bytes) =
    unmask n mask (off + 1) (acc ++ (bit_xor b (get_or mask (off % 4) 0) ∷ [])) bytes

-- The frame with the data that `n` bytes more bring, the state, and the bytes left.
abbrev pub Copied : Type 0
Copied = FrameData × ReadState × List ℕ

-- Of text that is not valid, no more is waited for.
abbrev pub cut_short : Bool → ℕ → ReadState → ReadState
cut_short invalid n st = record st {
  payload_length = if invalid && ltb 0 n then n else st.payload_length;
}

unfoldable pub copy_masked_text : ℕ → ReadState → List ℕ → Copied
unfolding unmask_text
copy_masked_text n st bytes =
    let f = frame st in
    let (text, u, off, rest) =
      unmask_text n st.mask st.mask_offset f.utf8_state f.application_data bytes in
    (
      record f { application_data = text; utf8_state = u },
      cut_short (is_er u) n (record st { mask_offset = off }),
      rest,
    )

unfoldable pub copy_masked : ℕ → ReadState → List ℕ → Copied
unfolding unmask
copy_masked n st bytes =
    let f = frame st in
    let (bytes', off, rest) = unmask n st.mask st.mask_offset f.application_data bytes in
    (record f { application_data = bytes' }, record st { mask_offset = off }, rest)

-- Where the mask is 0.
unfoldable pub copy_text : ℕ → ReadState → List ℕ → Copied
copy_text n st bytes =
    let f = frame st in
    let u = validate f.utf8_state (take n bytes) in
    (
      record f { application_data = f.application_data ++ take n bytes; utf8_state = u },
      cut_short (is_er u) n st,
      drop n bytes,
    )

unfoldable pub copy_plain : ℕ → ReadState → List ℕ → Copied
copy_plain n st bytes =
    let f = frame st in
    (record f { application_data = f.application_data ++ take n bytes }, st, drop n bytes)

unfoldable pub copy_data : ℕ → ReadState → List ℕ → Copied
copy_data n st bytes =
    if st.masking
    then (if st.opcode == 1 then copy_masked_text n st bytes else copy_masked n st bytes)
    else if st.opcode == 1
    then copy_text n st bytes
    else copy_plain n st bytes

-- What follows the copy of `n` bytes.
unfoldable pub count_down : ℕ → Copied → Passed
count_down n (f, st, rest) =
    let st' = record st { payload_length = st.payload_length - n } in
    if st'.payload_length == 0
    then (let (done, events) = complete st' f in (done, rest, events))
    else (with_frame st' f, rest, [])

unfoldable pub case_application_data : ReadState → List ℕ → Passed
case_application_data st bytes =
    let n = min st.payload_length (length bytes) in count_down n (copy_data n st bytes)
