-- ===== src/WebSocket/Header.antt =====
-- A reader of frame headers after RFC 6455, section 5.2, and what it reads of the headers here.
use mg_web.Base.{
  ℕ, zero, suc, ◌+◌, ◌*◌, ◌/◌, ◌%◌, ◌^◌, ◌<◌, ◌≡◌, refl, List, [], ◌∷◌, ◌++◌, Bool, true, false,
  ltb, ◌==◌, not, if◌then◌else◌, Option, none, some, arith, Bool-cases, ◌↔◌, ne→==_false, inl, inr,
  ◌⊎◌, ltb→lt, length,
}
use mg_web.WebSocket.{
  MessageType, invalid, text, binary, close, ping, pong, opcode_of, closing_after, length_bytes,
  frame_set_length, create_header,
}

-- A number of so many bytes, the highest first, and the bytes behind it.
unfoldable pub big_endian : ℕ → ℕ → List ℕ → Option (ℕ × List ℕ)
big_endian zero acc s = some (acc, s)
big_endian (suc n) acc [] = none
big_endian (suc n) acc (b ∷ s) = big_endian n (acc * 256 + b) s

-- The last frame of a message or not, its opcode, whether it is masked, its length, and what follows.
pub record Frame : Type 0 where
  pub fin : Bool
  pub opcode : ℕ
  pub masked : Bool
  pub payload_length : ℕ
  pub payload : List ℕ

unfoldable pub read_length : ℕ → List ℕ → Option (ℕ × List ℕ)
read_length b s =
    if b == 126 then big_endian 2 0 s else if b == 127 then big_endian 8 0 s else some (b, s)

unfoldable pub read_header : List ℕ → Option Frame
read_header (a ∷ b ∷ s) = elim (read_length (b % 128) s) [
  | none ↦ none
  | some (n, rest) ↦ some (record {
    fin = not (a / 128 == 0);
    opcode = a % 16;
    masked = not (b / 128 == 0);
    payload_length = n;
    payload = rest;
  })
]
read_header _ = none

two_bytes : (n : ℕ) → n < 65536 → (0 * 256 + frame_set_length n 1) * 256 + frame_set_length n 0 ≡ n
two_bytes n h = omega arith

eight_bytes :
    (n : ℕ)
    → n < 2 ^ 64
    → (((((((0 * 256 + frame_set_length n 7) * 256 + frame_set_length n 6) * 256
                            + frame_set_length n 5)
                          * 256
                        + frame_set_length n 4)
                      * 256
                    + frame_set_length n 3)
                  * 256
                + frame_set_length n 2)
              * 256
            + frame_set_length n 1)
          * 256
        + frame_set_length n 0
      ≡ n
eight_bytes n h =
    let b7 : 0 * 256 + frame_set_length n 7 ≡ n / 2 ^ 56 = omega arith in
    let b6 : n / 2 ^ 56 * 256 + frame_set_length n 6 ≡ n / 2 ^ 48 = omega arith in
    let b5 : n / 2 ^ 48 * 256 + frame_set_length n 5 ≡ n / 2 ^ 40 = omega arith in
    let b4 : n / 2 ^ 40 * 256 + frame_set_length n 4 ≡ n / 2 ^ 32 = omega arith in
    let b3 : n / 2 ^ 32 * 256 + frame_set_length n 3 ≡ n / 2 ^ 24 = omega arith in
    let b2 : n / 2 ^ 24 * 256 + frame_set_length n 2 ≡ n / 2 ^ 16 = omega arith in
    let b1 : n / 2 ^ 16 * 256 + frame_set_length n 1 ≡ n / 2 ^ 8 = omega arith in
    let b0 : n / 2 ^ 8 * 256 + frame_set_length n 0 ≡ n = omega arith in
    rw (b7, b6, b5, b4, b3, b2, b1, b0)

-- How many bytes a header has, which is as few as possible.
abbrev pub header_size : ℕ → ℕ
header_size n = if ltb n 126 then 2 else if ltb n 65536 then 4 else 10

read_header-bytes :
    (op n : ℕ) (payload : List ℕ)
    → op < 16
    → n < 2 ^ 64
    → read_header ((128 + op) ∷ (length_bytes n ++ payload))
      ≡ some (record {
        fin = true;
        opcode = op;
        masked = false;
        payload_length = n;
        payload = payload;
      })
unfolding read_header read_length length_bytes big_endian
read_header-bytes op n payload small h =
    let fin : ((128 + op) / 128 == 0) ≡ false = ne→==_false _ 0 (λ e. absurd (omega arith)) in
    let same : (128 + op) % 16 ≡ op = omega arith in
    elim (Bool-cases (ltb n 126)) [
      | inl t ↦
          let lt = ltb→lt n 126 t in
          let b : n / 2 ^ 0 % 256 ≡ n = omega arith in
          let low : n % 128 ≡ n = omega arith in
          let plain : (frame_set_length n 0 / 128 == 0) ≡ true = ground arith in
          let ne126 = ne→==_false n 126 (λ e. absurd (omega arith)) in
          let ne127 = ne→==_false n 127 (λ e. absurd (omega arith)) in
          rw (t, b, read_header, low, read_length, ne126, ne127, fin, same, plain) refl
      | inr f ↦ elim (Bool-cases (ltb n 65536)) [
        | inl t ↦ rw (f, t, fin, same, two_bytes n (ltb→lt n 65536 t)) refl
        | inr f' ↦ rw (f, f', fin, same, eight_bytes n h) refl
      ]
    ]

length-length_bytes : (n : ℕ) → length (length_bytes n) + 1 ≡ header_size n
unfolding length_bytes
length-length_bytes n = ground arith

-- The opcodes of RFC 6455, section 11.8; an unknown type of message is sent as a close.
abbrev pub rfc_opcode : MessageType → ℕ
rfc_opcode text = 0x1
rfc_opcode binary = 0x2
rfc_opcode close = 0x8
rfc_opcode ping = 0x9
rfc_opcode pong = 0xa
rfc_opcode invalid = 0x8

opcode_of-rfc_opcode : (type : MessageType) → opcode_of type ≡ rfc_opcode type
unfolding opcode_of
opcode_of-rfc_opcode invalid = refl
opcode_of-rfc_opcode text = refl
opcode_of-rfc_opcode binary = refl
opcode_of-rfc_opcode close = refl
opcode_of-rfc_opcode ping = refl
opcode_of-rfc_opcode pong = refl

opcode_of-lt : (type : MessageType) → opcode_of type < 16
unfolding opcode_of
opcode_of-lt invalid = omega arith
opcode_of-lt text = omega arith
opcode_of-lt binary = omega arith
opcode_of-lt close = omega arith
opcode_of-lt ping = omega arith
opcode_of-lt pong = omega arith

closing_after-opcode_of :
    (type : MessageType) (closing : Bool)
    → (closing_after type closing ≡ true) ↔ ((closing ≡ true) ⊎ (opcode_of type ≡ 8))
unfolding closing_after opcode_of
closing_after-opcode_of invalid closing = ground arith
closing_after-opcode_of text closing = ground arith
closing_after-opcode_of binary closing = ground arith
closing_after-opcode_of close closing = ground arith
closing_after-opcode_of ping closing = ground arith
closing_after-opcode_of pong closing = ground arith

-- `mg_websocket_create_header`, for a payload shorter than 2 ^ 64: a reader of frames finds a last
-- frame with the opcode of RFC 6455 for the type of message, without a mask, with the length of the payload, and the
-- payload behind the header. The header has 2, 4 or 10 bytes, as few as the length allows. The
-- socket is closing afterwards just if it was or the opcode is that of a close.
pub create_header-read_header :
    (closing : Bool) (type : MessageType) (payload : List ℕ)
    → length payload < 2 ^ 64
    → let r = create_header closing type (length payload) in
      (read_header (r.1 ++ payload)
        ≡ some (record {
          fin = true;
          opcode = rfc_opcode type;
          masked = false;
          payload_length = length payload;
          payload = payload;
        }))
      × (length r.1 ≡ header_size (length payload))
      × ((r.0 ≡ true) ↔ ((closing ≡ true) ⊎ (rfc_opcode type ≡ 8)))
unfolding create_header
create_header-read_header closing type payload h =
    let small = opcode_of-lt type in
    let same : opcode_of type % 16 ≡ opcode_of type = omega (arith, small) in
    let size : suc (length (length_bytes (length payload))) ≡ header_size (length payload) =
      omega (arith, length-length_bytes (length payload)) in
    rw (← opcode_of-rfc_opcode type) (
      rw same (read_header-bytes (opcode_of type) (length payload) payload small h),
      size,
      closing_after-opcode_of type closing,
    )
