-- ===== src/WebSocket/Frames/Tests.antt =====
-- Tests of the frames of a client, and a witness.
use mg_web.Base.{ℕ, ◌≡◌, refl, List, [], ◌∷◌, map, true, some, arith}
use mg_web.WebSocket.Utf8.{validate, validate_utf8, lead}
use mg_web.WebSocket.Reading.{Session, tcp_write, pong}
use mg_web.WebSocket.DataFraming.{data_framing}
use mg_web.WebSocket.DataFraming.Stream.{concat}
use mg_web.WebSocket.Frames.{
  ClientFrame, text, ping, encode_frame, under_mask, masked_length, are_bytes, IsValid, due,
}
use mg_web.WebSocket.Frames.Delivered.{AreValid, no_frames, more_frames, all_due, data_framing-due}

abbrev always : Session
always = record { protocol_version = 13; memory = λ size. true }

abbrev hello : List ℕ
hello = b'H' ∷ b'e' ∷ b'l' ∷ b'l' ∷ b'o' ∷ []

abbrev hello_frame : ClientFrame
hello_frame = record {
  kind = text;
  key = record { k0 = 0x37; k1 = 0xfa; k2 = 0x21; k3 = 0x3d };
  payload = hello;
}

abbrev ping_frame : ClientFrame
ping_frame = record {
  kind = ping;
  key = record { k0 = 0; k1 = 0; k2 = 0; k3 = 0 };
  payload = 7 ∷ [];
}

-- The masked text of RFC 6455, 5.7.
abbrev hello_bytes : List ℕ
hello_bytes = 0x81 ∷ 0x85 ∷ 0x37 ∷ 0xfa ∷ 0x21 ∷ 0x3d ∷ 0x7f ∷ 0x9f ∷ 0x4d ∷ 0x51 ∷ 0x58 ∷ []

hello_frame_test : encode_frame hello_frame ≡ hello_bytes
unfolding encode_frame under_mask masked_length
hello_frame_test = refl

hello_frame-IsValid : IsValid hello_frame
unfolding are_bytes validate validate_utf8 lead
hello_frame-IsValid = record {
  key = refl;
  bytes = refl;
  fits = omega arith;
  is_short = λ e. omega arith;
  is_text = λ e. refl;
}

ping_frame-IsValid : IsValid ping_frame
unfolding are_bytes validate validate_utf8 lead
ping_frame-IsValid = record {
  key = refl;
  bytes = refl;
  fits = omega arith;
  is_short = λ e. omega arith;
  is_text = λ e. refl;
}

abbrev ping_bytes : List ℕ
ping_bytes = 0x89 ∷ 0x81 ∷ 0 ∷ 0 ∷ 0 ∷ 0 ∷ 7 ∷ []

two_frames_sent :
    concat (
      (0x81 ∷ 0x85 ∷ [])
      ∷ (0x37 ∷ 0xfa ∷ 0x21 ∷ 0x3d ∷ 0x7f ∷ 0x9f ∷ 0x4d ∷ 0x51 ∷ 0x58 ∷ ping_bytes)
      ∷ [])
    ≡ concat (map encode_frame (hello_frame ∷ ping_frame ∷ []))
unfolding encode_frame under_mask masked_length
two_frames_sent = refl

two_frames-AreValid : AreValid always (hello_frame ∷ ping_frame ∷ [])
two_frames-AreValid =
    more_frames hello_frame (ping_frame ∷ []) hello_frame-IsValid refl
      (more_frames ping_frame [] ping_frame-IsValid refl no_frames)

data_framing-due_example :
    data_framing always (
      (0x81 ∷ 0x85 ∷ [])
      ∷ (0x37 ∷ 0xfa ∷ 0x21 ∷ 0x3d ∷ 0x7f ∷ 0x9f ∷ 0x4d ∷ 0x51 ∷ 0x58 ∷ ping_bytes)
      ∷ [])
    ≡ some (all_due (hello_frame ∷ ping_frame ∷ []), 3 ∷ 234 ∷ [])
data_framing-due_example =
    data_framing-due always (hello_frame ∷ ping_frame ∷ [])
      ((0x81 ∷ 0x85 ∷ [])
        ∷ (0x37 ∷ 0xfa ∷ 0x21 ∷ 0x3d ∷ 0x7f ∷ 0x9f ∷ 0x4d ∷ 0x51 ∷ 0x58 ∷ ping_bytes)
        ∷ [])
      two_frames-AreValid two_frames_sent

two_frames_test : all_due (hello_frame ∷ ping_frame ∷ []) ≡ tcp_write hello ∷ pong (7 ∷ []) ∷ []
unfolding all_due due
two_frames_test = refl
