-- ===== src/WebSocket/Tests.antt =====
-- Tests of the headers of frames, and a witness.
use mg_web.Base.{ℕ, ◌≡◌, refl, List, [], ◌∷◌, ◌++◌, true, false, ◌⊎◌, ◌↔◌, some, length, arith}
use mg_web.WebSocket.{close, text, ping, create_header, length_bytes, closing_after, opcode_of}
use mg_web.WebSocket.Utf8.{s0, validate, validate_utf8}
use mg_web.WebSocket.Utf8.WellFormed.{WellFormed, validate-WellFormed}
use mg_web.WebSocket.Reading.{ReadState, Event, tcp_write, Session}
use mg_web.WebSocket.Incoming.{
  incoming_frame, read_block, switch, case_start, case_payload_length, case_payload_length_ext,
  check_length, case_mask, case_extension_data,
}
use mg_web.WebSocket.Payload.{
  case_application_data, count_down, copy_data, copy_masked_text, complete,
}
use mg_web.WebSocket.Incoming.Blocks.Steps.{seen}
use mg_web.WebSocket.Incoming.Blocks.{incoming_frame-append}
use mg_web.WebSocket.DataFraming.{read_state, read_blocks, take_blocks, data_framing}
use mg_web.WebSocket.DataFraming.Stream.{data_framing-concat}
use mg_web.WebSocket.Header.{create_header-read_header, read_header, header_size, rfc_opcode}

ping_test : create_header false ping 300 ≡ (false, 137 ∷ 126 ∷ 1 ∷ 44 ∷ [])
unfolding create_header length_bytes closing_after opcode_of
ping_test = refl

close_test : create_header false close 2 ≡ (true, 136 ∷ 2 ∷ [])
unfolding create_header length_bytes closing_after opcode_of
close_test = refl

abbrev hello : List ℕ
hello = b'h' ∷ b'e' ∷ b'l' ∷ b'l' ∷ b'o' ∷ []

create_header-read_header_example :
    let r = create_header false text 5 in
    (read_header (r.1 ++ hello)
      ≡ some (record {
        fin = true;
        opcode = rfc_opcode text;
        masked = false;
        payload_length = 5;
        payload = hello;
      }))
    × (length r.1 ≡ header_size 5)
    × ((r.0 ≡ true) ↔ ((false ≡ true) ⊎ (rfc_opcode text ≡ 8)))
create_header-read_header_example = create_header-read_header false text hello (omega arith)

abbrev always : Session
always = record { protocol_version = 13; memory = λ size. true }

-- "Hello" under a mask, as in RFC 6455, in two blocks.
abbrev hello_start : List ℕ
hello_start = 0x81 ∷ 0x85 ∷ 0x37 ∷ 0xfa ∷ 0x21 ∷ []

abbrev hello_rest : List ℕ
hello_rest = 0x3d ∷ 0x7f ∷ 0x9f ∷ 0x4d ∷ 0x51 ∷ 0x58 ∷ []

hello_test :
    data_framing always (hello_start ∷ hello_rest ∷ [])
    ≡ some (tcp_write (b'H' ∷ b'e' ∷ b'l' ∷ b'l' ∷ b'o' ∷ []) ∷ [], 3 ∷ 234 ∷ [])
unfolding data_framing read_blocks take_blocks incoming_frame read_block switch case_start
    case_payload_length case_payload_length_ext check_length case_mask case_extension_data
    case_application_data count_down copy_data copy_masked_text validate_utf8 complete
hello_test = refl

-- A frame without a mask is refused with the code 1002.
unmasked_test : data_framing always ((0x81 ∷ 0x01 ∷ b'a' ∷ []) ∷ []) ≡ some ([], 3 ∷ 234 ∷ [])
unfolding data_framing read_blocks take_blocks incoming_frame read_block switch case_start
    case_payload_length
unmasked_test = refl

incoming_frame-append_example :
    (p : ReadState × List Event) × (q : ReadState × List Event) × (whole : ReadState × List Event)
    × (incoming_frame always read_state hello_start ≡ some p)
    × (incoming_frame always p.0 hello_rest ≡ some q)
    × (incoming_frame always read_state (hello_start ++ hello_rest) ≡ some whole)
    × (seen whole.0 ≡ seen q.0)
    × (whole.1 ≡ p.1 ++ q.1)
incoming_frame-append_example = incoming_frame-append always read_state hello_start hello_rest refl

data_framing-concat_example :
    (result : List Event × List ℕ) × (data_framing always (hello_start ∷ hello_rest ∷ [])
      ≡ some result)
    × (data_framing always ((hello_start ++ hello_rest) ∷ []) ≡ some result)
data_framing-concat_example = data_framing-concat always (hello_start ∷ hello_rest ∷ [])

validate-WellFormed_example :
    (validate s0 (0xe2 ∷ 0x82 ∷ 0xac ∷ []) ≡ s0) ↔ WellFormed (0xe2 ∷ 0x82 ∷ 0xac ∷ [])
validate-WellFormed_example = validate-WellFormed (0xe2 ∷ 0x82 ∷ 0xac ∷ [])
