-- ===== src/WebSocket/DataFraming.antt =====
-- src/mg_websocket.c: `mg_websocket_data_framing`, the loop of a WebSocket session that reads from the client.
-- The blocks are what `mg_websocket_frame_read` of the web server reads, until a read fails; src/apache/mg_web_apache.c,
-- src/nginx/mg_web_nginx.c and src/iis/mg_web_iis.cpp close the session alike then.
pub mod Stream
use mg_web.Base.{ℕ, ◌/◌, ◌%◌, List, [], ◌∷◌, true, false, Option, none, some, if◌then◌else◌}
use mg_web.WebSocket.Utf8.{s0}
use mg_web.WebSocket.Reading.{
  FrameData, ReadState, Event, Session, framing_start, framing_close, is_close,
}
use mg_web.WebSocket.Incoming.{add_events, incoming_frame}

abbrev pub control_frame : FrameData
control_frame = record { application_data = []; fin = true; opcode = 8; utf8_state = s0 }

abbrev pub message_frame : FrameData
message_frame = record { application_data = []; fin = true; opcode = 0; utf8_state = s0 }

-- `read_state` before the loop.
abbrev pub read_state : ReadState
read_state = record {
  framing_state = framing_start;
  status_code = 1000;
  fin = false;
  opcode = 0xff;
  control_frame = control_frame;
  message_frame = message_frame;
  is_control = true;
  payload_length = 0;
  payload_length_bytes_remaining = 0;
  masking = false;
  mask = 0 ∷ 0 ∷ 0 ∷ 0 ∷ [];
  mask_index = 0;
  mask_offset = 0;
}

-- The loop over the blocks that come, which ends where the machine is closed.
unfoldable pub take_blocks : Session → ReadState → List (List ℕ) → Option (ReadState × List Event)
take_blocks env st [] = some (st, [])
take_blocks env st (block ∷ blocks) = elim (is_close st.framing_state) [
  | true ↦ some (st, [])
  | false ↦ elim (incoming_frame env st block) [
    | none ↦ none
    | some (st', events) ↦ add_events events (take_blocks env st' blocks)
  ]
]

-- A read that fails, which the loop comes to where the machine is not closed: `mg_websocket_frame_read` closes it, with the
-- code of a protocol error.
abbrev pub read_failed : ReadState → ReadState
read_failed st =
    if is_close st.framing_state
    then st
    else record st { framing_state = framing_close; status_code = 1002 }

-- The whole loop: the blocks that come, and then a read that fails.
unfoldable pub read_blocks : Session → ReadState → List (List ℕ) → Option (ReadState × List Event)
unfolding take_blocks
read_blocks env st blocks = elim (take_blocks env st blocks) [
  | none ↦ none
  | some (st', events) ↦ some (read_failed st', events)
]

-- `status_code_buffer`, the payload of the closing frame.
abbrev pub status_code_buffer : ReadState → List ℕ
status_code_buffer st = st.status_code / 256 % 256 ∷ st.status_code % 256 ∷ []

-- What is done for the blocks, and the payload of the closing frame.
unfoldable pub data_framing : Session → List (List ℕ) → Option (List Event × List ℕ)
unfolding read_blocks
data_framing env blocks = elim (read_blocks env read_state blocks) [
  | none ↦ none
  | some (st, events) ↦ some (events, status_code_buffer st)
]
