-- ===== src/WebSocket/Frames.antt =====
-- The frames of a client, as RFC 6455 has them: a frame that is whole, with its payload under a mask. This is no
-- code of the program, but what its code is compared with.
pub mod Xor
pub mod Unmasked
pub mod Copied
pub mod Opened
pub mod Delivered
mod Tests
use Prim.Native.Nat.{bit_xor}
use mg_web.Base.{
  ℕ, ◌+◌, ◌/◌, ◌%◌, ◌^◌, ◌≤◌, ◌<◌, ◌≡◌, List, [], ◌∷◌, ◌++◌, Bool, true, false, ◌&&◌, ltb,
  if◌then◌else◌, length, get_or,
}
use mg_web.WebSocket.Utf8.{s0, validate}
use mg_web.WebSocket.Reading.{Event, tcp_write, pong}

-- What a frame may be, but for a close frame and a part of a message.
pub data Kind : Type 0 where
  text binary ping answer : Kind

abbrev pub opcode : Kind → ℕ
opcode text = 1
opcode binary = 2
opcode ping = 9
opcode answer = 10

abbrev pub is_control : Kind → Bool
is_control text = false
is_control binary = false
is_control ping = true
is_control answer = true

pub record Key : Type 0 where
  pub k0 : ℕ
  pub k1 : ℕ
  pub k2 : ℕ
  pub k3 : ℕ

abbrev pub key_bytes : Key → List ℕ
key_bytes k = k.k0 ∷ k.k1 ∷ k.k2 ∷ k.k3 ∷ []

pub record ClientFrame : Type 0 where
  pub kind : Kind
  pub key : Key
  pub payload : List ℕ

-- Byte `i` of the payload is under byte `i % 4` of the key.
unfoldable pub under_mask : List ℕ → ℕ → List ℕ → List ℕ
under_mask key i [] = []
under_mask key i (b ∷ bytes) = bit_xor b (get_or key (i % 4) 0) ∷ under_mask key (i + 1) bytes

-- The second byte and the longer forms of the length, with the bit for a mask.
unfoldable pub masked_length : ℕ → List ℕ
masked_length n =
    if ltb n 126
    then ((128 + n) ∷ [])
    else if ltb n 65536
    then (254 ∷ n / 256 ∷ n % 256 ∷ [])
    else (255 ∷ 0 ∷ 0 ∷ 0 ∷ 0 ∷ n / 2 ^ 24 ∷ n / 2 ^ 16 % 256 ∷ n / 256 % 256 ∷ n % 256 ∷ [])

unfoldable pub encode_frame : ClientFrame → List ℕ
unfolding under_mask masked_length
encode_frame f =
    (128 + opcode f.kind) ∷ masked_length (length f.payload)
    ++ (key_bytes f.key ++ under_mask (key_bytes f.key) 0 f.payload)

-- What is due for a frame.
unfoldable pub due : ClientFrame → List Event
due f = elim f.kind [
  | text ↦ if ltb 0 (length f.payload) then (tcp_write f.payload ∷ []) else []
  | binary ↦ if ltb 0 (length f.payload) then (tcp_write f.payload ∷ []) else []
  | ping ↦ pong f.payload ∷ []
  | answer ↦ []
]

-- The bytes of a list.
unfoldable pub are_bytes : List ℕ → Bool
are_bytes [] = true
are_bytes (b ∷ bytes) = ltb b 256 && are_bytes bytes

-- A frame as the client may send it, of at most 32 MiB: a control frame is short, and a text is valid.
pub record IsValid (f : ClientFrame) : Type 0 where
  pub key : are_bytes (key_bytes f.key) ≡ true
  pub bytes : are_bytes f.payload ≡ true
  pub fits : length f.payload ≤ 33554432
  pub is_short : is_control f.kind ≡ true → length f.payload < 126
  pub is_text : f.kind ≡ text → validate s0 f.payload ≡ s0
