-- ===== src/WebSocket/Incoming.antt =====
-- src/mg_websocket.c: `mg_websocket_incoming_frame`, the state machine that takes the frames of the client
-- apart, whatever blocks they come in. A block is the list of its bytes, and `block_offset` is how many of
-- them are gone. Each case of the `switch` is a function, which calls the next one where the source falls
-- through.
pub mod Blocks
use mg_web.Base.{
  ℕ, zero, suc, ◌+◌, ◌*◌, ◌/◌, ◌%◌, ◌^◌, List, [], ◌∷◌, ◌++◌, Bool, true, false, not, ◌&&◌, ◌||◌,
  ltb, leb, ◌==◌, if◌then◌else◌, Option, none, some, length, get_or, set,
}
use mg_web.WebSocket.Utf8.{s0}
use mg_web.WebSocket.Reading.{
  Framing, ReadState, Event, Session, Passed, frame, refuse, too_large, internal_error,
  framing_start, framing_payload_length, framing_payload_length_ext, framing_mask,
  framing_extension_data, framing_application_data, framing_close,
}
use mg_web.WebSocket.Payload.{case_application_data}

unfoldable pub case_extension_data : Session → ReadState → List ℕ → Passed
case_extension_data env st bytes =
    if ltb 0 st.payload_length
      && not (env.memory (length (frame st).application_data + st.payload_length))
    then (refuse st (internal_error env), bytes, [])
    else case_application_data (record st { framing_state = framing_application_data }) bytes

-- The loop that reads the mask: the mask, `mask_index`, and the bytes left.
unfoldable pub read_mask : List ℕ → ℕ → List ℕ → List ℕ × ℕ × List ℕ
read_mask mask index [] = (mask, index, [])
read_mask mask index (b ∷ bytes) =
    if ltb index 4 then read_mask (set mask index b) (index + 1) bytes else (mask, index, b ∷ bytes)

abbrev pub is_zero_mask : List ℕ → Bool
is_zero_mask mask =
    get_or mask 0 0 == 0 && get_or mask 1 0 == 0 && get_or mask 2 0 == 0 && get_or mask 3 0 == 0

unfoldable pub case_mask : Session → ReadState → List ℕ → Passed
unfolding read_mask
case_mask env st bytes =
    let (mask, index, rest) = read_mask st.mask st.mask_index bytes in
    if index == 4
    then case_extension_data env
        (record st {
          framing_state = framing_extension_data;
          mask = mask;
          mask_offset = 0;
          mask_index = 0;
          masking = if is_zero_mask mask then false else st.masking;
        })
        rest
    else (record st { mask = mask; mask_index = index }, rest, [])

-- The loop that reads the bytes of a length: how many are missing, the length, and the bytes left.
unfoldable pub read_length_bytes : ℕ → ℕ → List ℕ → ℕ × ℕ × List ℕ
read_length_bytes zero len bytes = (0, len, bytes)
read_length_bytes (suc n) len [] = (suc n, len, [])
read_length_bytes (suc n) len (b ∷ bytes) = read_length_bytes n (len * 256 + b) bytes

abbrev pub payload_limit : ℕ
payload_limit = 32 * 1024 * 1024

-- What follows the loop. A length with the highest of 64 bits is negative.
unfoldable pub check_length : Session → ReadState → List ℕ → Passed
check_length env st rest =
    let masked = record st { framing_state = framing_mask } in
    if st.payload_length_bytes_remaining == 0
    then (if leb (2 ^ 63) st.payload_length || ltb payload_limit st.payload_length
        then (refuse st (too_large env), rest, [])
        else if st.masking
        then elim rest [ [] ↦ (masked, [], []) | b ∷ more ↦ case_mask env masked (b ∷ more) ]
        else (record st { framing_state = framing_extension_data }, rest, []))
    else elim rest [ [] ↦ (st, [], []) | b ∷ more ↦ case_mask env st (b ∷ more) ]

unfoldable pub case_payload_length_ext : Session → ReadState → List ℕ → Passed
unfolding read_length_bytes
case_payload_length_ext env st bytes =
    let (missing, len, rest) =
      read_length_bytes st.payload_length_bytes_remaining st.payload_length bytes in
    check_length env (record st { payload_length = len; payload_length_bytes_remaining = missing })
      rest

unfoldable pub case_payload_length : Session → ReadState → List ℕ → Passed
case_payload_length env st [] = (st, [], [])
case_payload_length env st (b ∷ bytes) =
    let short = b % 128 in
    let extended = if short == 126 then 2 else if short == 127 then 8 else 0 in
    let st' = record st {
      payload_length = if ltb 125 short then 0 else short;
      masking = b / 128 % 2 == 1;
      payload_length_bytes_remaining = extended;
    } in
    let st'' = record st' { framing_state = framing_payload_length_ext } in
    if not st'.masking || (leb 8 st.opcode && not (extended == 0))
    then (refuse st' 1002, bytes, [])
    else elim bytes [ [] ↦ (st'', [], []) | c ∷ more ↦ case_payload_length_ext env st'' (c ∷ more) ]

-- The two branches for a control frame and for a message frame; `false` where the frame is refused.
unfoldable pub open_frame : Bool → ℕ → ReadState → Bool × ReadState
open_frame fin op st =
    if leb 8 op
    then (if fin
        then (
          true,
          record st {
            is_control = true;
            control_frame = record st.control_frame { opcode = op; utf8_state = s0 };
          },
        )
        else (false, st))
    else (let st' = record st { is_control = false } in
        if not (op == 0)
        then (if st.message_frame.fin
            then (
              true,
              record st' {
                message_frame = record st.message_frame { opcode = op; utf8_state = s0; fin = fin };
              },
            )
            else (false, st'))
        else if st.message_frame.fin
        then (false, st')
        else if st.message_frame.opcode == 0
        then (false, record st' { opcode = 0 })
        else (
          true,
          record st' {
            opcode = st.message_frame.opcode;
            message_frame = record st.message_frame { fin = fin };
          },
        ))

unfoldable pub case_start : Session → ReadState → List ℕ → Passed
unfolding open_frame
case_start env st [] = (st, [], [])
case_start env st (b ∷ bytes) =
    if not (b / 64 % 2 == 0) || not (b / 32 % 2 == 0) || not (b / 16 % 2 == 0)
    then (refuse st 1002, b ∷ bytes, [])
    else (let fin = b / 128 % 2 == 1 in
        let (opens, st') =
          open_frame fin (b % 16)
            (record st { fin = fin; opcode = b % 16; framing_state = framing_payload_length }) in
        let st'' = record st' { payload_length = 0; payload_length_bytes_remaining = 0 } in
        if opens
        then elim bytes [ [] ↦ (st'', [], []) | c ∷ more ↦ case_payload_length env st'' (c ∷ more) ]
        else (refuse st' 1002, bytes, []))

-- The `switch`.
unfoldable pub switch : Framing → Session → ReadState → List ℕ → Passed
switch framing_start env st bytes = case_start env st bytes
switch framing_payload_length env st bytes = case_payload_length env st bytes
switch framing_payload_length_ext env st bytes = case_payload_length_ext env st bytes
switch framing_mask env st bytes = case_mask env st bytes
switch framing_extension_data env st bytes = case_extension_data env st bytes
switch framing_application_data env st bytes = case_application_data st bytes
switch framing_close env st bytes = (st, [], [])

abbrev pub add_events :
    List Event → Option (ReadState × List Event) → Option (ReadState × List Event)
add_events events none = none
add_events events (some (st, later)) = some (st, events ++ later)

-- The `while` loop, for at most the given number of rounds; nothing where they are not enough.
unfoldable pub read_block : ℕ → Session → ReadState → List ℕ → Option (ReadState × List Event)
read_block rounds env st [] = some (st, [])
read_block zero env st (b ∷ bytes) = none
read_block (suc rounds) env st (b ∷ bytes) =
    let (st', rest, events) = switch st.framing_state env st (b ∷ bytes) in
    let onward = read_block rounds env st' rest in add_events events onward

unfoldable pub incoming_frame : Session → ReadState → List ℕ → Option (ReadState × List Event)
incoming_frame env st block = read_block (length block + 1) env st block
