-- ===== src/WebSocket/Reading.antt =====
-- src/mg_websocket.c, src/mg_web.h: `MGWSFDATA`, `MGWSRSTATE`, the state of
-- `mg_websocket_incoming_frame` between two blocks from the client, and what it does.
use mg_web.Base.{ℕ, List, Bool, true, false, leb, if◌then◌else◌}
use mg_web.WebSocket.Utf8.{Utf8State}

-- `MG_WS_DATA_FRAMING_*`
pub data Framing : Type 0 where
  framing_start framing_payload_length framing_payload_length_ext framing_mask : Framing
  framing_extension_data framing_application_data framing_close : Framing

-- `MGWSFDATA`: the first `application_data_offset` bytes of the data, and the frame's own fields.
pub record FrameData : Type 0 where
  pub application_data : List ℕ
  pub fin : Bool
  pub opcode : ℕ
  pub utf8_state : Utf8State

-- `MGWSRSTATE`; `is_control` tells which frame `frame` points to. `extension_bytes_remaining` stays 0.
pub record ReadState : Type 0 where
  pub framing_state : Framing
  pub status_code : ℕ
  pub fin : Bool
  pub opcode : ℕ
  pub control_frame : FrameData
  pub message_frame : FrameData
  pub is_control : Bool
  pub payload_length : ℕ
  pub payload_length_bytes_remaining : ℕ
  pub masking : Bool
  pub mask : List ℕ
  pub mask_index : ℕ
  pub mask_offset : ℕ

-- What the call does: a message goes to the DB server, or a pong is queued for the client.
pub data Event : Type 0 where
  tcp_write pong : List ℕ → Event

-- The version of the protocol, and whether `realloc` has so many bytes.
pub record Session : Type 0 where
  pub protocol_version : ℕ
  pub memory : ℕ → Bool

-- The state behind a case, the bytes that are left, and what was done.
abbrev pub Passed : Type 0
Passed = ReadState × List ℕ × List Event

abbrev pub frame : ReadState → FrameData
frame st = if st.is_control then st.control_frame else st.message_frame

abbrev pub with_frame : ReadState → FrameData → ReadState
with_frame st f = record st {
  control_frame = if st.is_control then f else st.control_frame;
  message_frame = if st.is_control then st.message_frame else f;
}

abbrev pub refuse : ReadState → ℕ → ReadState
refuse st code = record st { framing_state = framing_close; status_code = code }

-- The codes for a payload that is too long, and for want of memory.
abbrev pub too_large : Session → ℕ
too_large env = if leb 13 env.protocol_version then 1009 else 1004

abbrev pub internal_error : Session → ℕ
internal_error env = if leb 13 env.protocol_version then 1011 else 1001

abbrev pub is_close : Framing → Bool
is_close framing_close = true
is_close _ = false
