-- ===== src/WebSocket.antt =====
-- src/mg_websocket.c: the WebSocket sessions. Here `mg_websocket_create_header`, the header of a frame that goes to
-- the client; the modules below are about what comes from the client.
pub mod Header
pub mod Utf8
pub mod Reading
pub mod Payload
pub mod Incoming
pub mod DataFraming
pub mod Frames
mod Tests
use mg_web.Base.{ℕ, ◌+◌, ◌*◌, ◌/◌, ◌%◌, ◌^◌, List, [], ◌∷◌, ◌++◌, Bool, true, ltb, if◌then◌else◌}

-- `MG_WS_MESSAGE_TYPE_*`
pub data MessageType : Type 0 where
  invalid text binary close ping pong : MessageType

-- The `switch`: the opcode, `MG_WS_OPCODE_*`, for a type of message.
unfoldable pub opcode_of : MessageType → ℕ
opcode_of text = 1
opcode_of binary = 2
opcode_of ping = 9
opcode_of pong = 10
opcode_of close = 8
opcode_of invalid = 8

-- The `switch` sets the flag `closing` of the socket for these.
unfoldable pub closing_after : MessageType → Bool → Bool
closing_after close closing = true
closing_after invalid closing = true
closing_after text closing = closing
closing_after binary closing = closing
closing_after ping closing = closing
closing_after pong closing = closing

-- `MG_WS_FRAME_SET_LENGTH`
abbrev pub frame_set_length : ℕ → ℕ → ℕ
frame_set_length x64 idx = x64 / 2 ^ (8 * idx) % 256

-- The bytes that are stored behind the first; `MG_WS_FRAME_SET_MASK(0)` is 0.
unfoldable pub length_bytes : ℕ → List ℕ
length_bytes payload_length =
    if ltb payload_length 126
    then (frame_set_length payload_length 0 ∷ [])
    else ((if ltb payload_length 65536
          then (126 ∷ [])
          else (127
              ∷ frame_set_length payload_length 7
              ∷ frame_set_length payload_length 6
              ∷ frame_set_length payload_length 5
              ∷ frame_set_length payload_length 4
              ∷ frame_set_length payload_length 3
              ∷ frame_set_length payload_length 2
              ∷ []))
        ++ (frame_set_length payload_length 1 ∷ frame_set_length payload_length 0 ∷ []))

-- The flag `closing` of the socket afterwards, and the bytes from `header` on; `pos` is their number.
unfoldable pub create_header : Bool → MessageType → ℕ → Bool × List ℕ
create_header closing type payload_length =
    (closing_after type closing, (128 + opcode_of type % 16) ∷ length_bytes payload_length)
