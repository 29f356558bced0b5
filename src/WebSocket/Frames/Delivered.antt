-- ===== src/WebSocket/Frames/Delivered.antt =====
-- What the state machine does with a frame that comes whole, and with many.
use mg_web.Base.{
  ℕ, suc, ◌+◌, ◌-◌, ◌/◌, ◌%◌, map, append-nil, ◌≡◌, refl, sym, ap, ◌∙◌, List, [], ◌∷◌, ◌++◌, true,
  min, length, arith, some, Bool, false, if◌then◌else◌,
}
use mg_web.WebSocket.Utf8.{s0}
use mg_web.WebSocket.Reading.{
  ReadState, FrameData, Session, Event, Passed, frame, framing_application_data, framing_close,
  is_close,
}
use mg_web.WebSocket.Payload.{count_down, complete, finish}
use mg_web.WebSocket.Incoming.{case_start, switch, read_block, incoming_frame, add_events}
use mg_web.WebSocket.Incoming.Blocks.Count.{case_application_data-count_down}
use mg_web.WebSocket.Incoming.Blocks.Runs.{read_block-nil}
use mg_web.WebSocket.DataFraming.{read_state, take_blocks, data_framing}
use mg_web.WebSocket.DataFraming.Stream.{
  concat, data_framing-concat, data_framing-take_blocks, take_blocks-∷,
}
use mg_web.WebSocket.Frames.{
  Kind, text, binary, ping, answer, opcode, Key, key_bytes, under_mask, ClientFrame, IsValid,
  encode_frame, due, masked_length,
}
use mg_web.WebSocket.Frames.Copied.{Copies, copy_data-text, copy_data-data}
use mg_web.WebSocket.Frames.Opened.{idle, begun, measured, arrived, case_start-arrived}

length-under_mask :
    (key : List ℕ) (i : ℕ) (payload : List ℕ) → length (under_mask key i payload) ≡ length payload
unfolding under_mask
length-under_mask key i [] = refl
length-under_mask key i (b ∷ payload) = ap suc (length-under_mask key (i + 1) payload)

-- The state before the payload, but for the mask.
abbrev waiting : ReadState → Key → ClientFrame → ReadState
waiting st k f = record (measured (begun st k f.kind) (length f.payload)) {
  framing_state = framing_application_data;
}

abbrev of_kind : Kind → Key → List ℕ → ClientFrame
of_kind kind key payload = record { kind = kind; key = key; payload = payload }

copied :
    (st : ReadState) (k : Key) (kind : Kind) (key : Key) (payload : List ℕ)
    → IsValid (of_kind kind key payload)
    → Copies (waiting st k (of_kind kind key payload)) key payload s0
copied st k text key payload valid =
    copy_data-text (waiting st k (of_kind text key payload)) key payload valid.key valid.bytes refl
      refl (valid.is_text refl) refl
copied st k binary key payload valid =
    copy_data-data (waiting st k (of_kind binary key payload)) key payload valid.key valid.bytes
      refl refl
copied st k ping key payload valid =
    copy_data-data (waiting st k (of_kind ping key payload)) key payload valid.key valid.bytes refl
      refl
copied st k answer key payload valid =
    copy_data-data (waiting st k (of_kind answer key payload)) key payload valid.key valid.bytes
      refl refl

count_down-whole :
    (n : ℕ) (f : FrameData) (st : ReadState)
    → st.payload_length ≡ n
    → count_down n (f, st, [])
      ≡ (let p = complete (record st { payload_length = 0 }) f in (p.0, [], p.1))
unfolding count_down
count_down-whole n f st e = let z : st.payload_length - n ≡ 0 = omega arith in rw z refl

-- The state behind the frame.
abbrev completed : ReadState → Key → ClientFrame → ℕ → ReadState × List Event
completed st k f off =
    complete (record (arrived st k f) { mask_offset = off; payload_length = 0 })
      (record (frame (waiting st k f)) { application_data = f.payload; utf8_state = s0 })

completed-idle :
    (st : ReadState) (k : Key) (kind : Kind) (key : Key) (payload : List ℕ) (off : ℕ)
    → (let f = of_kind kind key payload in
        completed st k f off ≡ (idle (completed st k f off).0 key, due f))
unfolding complete finish due
completed-idle st k text key payload off = refl
completed-idle st k binary key payload off = refl
completed-idle st k ping key payload off = refl
completed-idle st k answer key payload off = refl

completed-status :
    (st : ReadState) (k : Key) (kind : Kind) (key : Key) (payload : List ℕ) (off : ℕ)
    → (completed st k (of_kind kind key payload) off).0.status_code ≡ st.status_code
unfolding complete finish
completed-status st k text key payload off = refl
completed-status st k binary key payload off = refl
completed-status st k ping key payload off = refl
completed-status st k answer key payload off = refl

-- A frame that comes between two frames is taken, and what is due for it is done.
case_start-due :
    (env : Session) (st : ReadState) (k : Key) (f : ClientFrame)
    → IsValid f
    → env.memory (length f.payload) ≡ true
    → (st' : ReadState) × (case_start env (idle st k) (encode_frame f)
        ≡ (idle st' f.key, [], due f))
      × (st'.status_code ≡ st.status_code)
case_start-due env st k f valid memory =
    let n = length f.payload in
    let sent = under_mask (key_bytes f.key) 0 f.payload in
    let (off, copies) = copied st k f.kind f.key f.payload valid in
    let same : length sent ≡ n = length-under_mask (key_bytes f.key) 0 f.payload in
    let whole : min n (length sent) ≡ n = omega arith in
    (
      (completed st k f off).0,
      case_start-arrived env st k f valid memory
          ∙ case_application_data-count_down (arrived st k f) sent n whole
          ∙ ap (count_down n) copies
          ∙ count_down-whole n
              (record (frame (waiting st k f)) { application_data = f.payload; utf8_state = s0 })
              (record (arrived st k f) { mask_offset = off }) refl
          ∙ ap (λ (p : ReadState × List Event). (p.0, [], p.1))
              (completed-idle st k f.kind f.key f.payload off),
      completed-status st k f.kind f.key f.payload off,
    )

read_block-start :
    (rounds : ℕ) (env : Session) (st : ReadState) (k : Key) (b : ℕ) (bytes : List ℕ)
    (st' : ReadState) (events : List Event)
    → case_start env (idle st k) (b ∷ bytes) ≡ (st', [], events)
    → read_block (suc rounds) env (idle st k) (b ∷ bytes) ≡ some (st', events)
unfolding read_block switch
read_block-start rounds env st k b bytes st' events e =
    ap (λ (p : Passed). add_events p.2 (read_block rounds env p.0 p.1)) e
    ∙ ap (add_events events) (read_block-nil rounds env st')
    ∙ ap (λ l. some (st', l)) (append-nil events)

incoming_frame-due :
    (env : Session) (st : ReadState) (k : Key) (f : ClientFrame)
    → IsValid f
    → env.memory (length f.payload) ≡ true
    → (st' : ReadState) × (incoming_frame env (idle st k) (encode_frame f)
        ≡ some (idle st' f.key, due f))
      × (st'.status_code ≡ st.status_code)
unfolding incoming_frame encode_frame
incoming_frame-due env st k f valid memory =
    let (st', is_due, status) = case_start-due env st k f valid memory in
    let rest =
      masked_length (length f.payload)
      ++ (key_bytes f.key ++ under_mask (key_bytes f.key) 0 f.payload) in
    let rounds : length (encode_frame f) + 1 ≡ suc (length (encode_frame f)) = omega arith in
    (
      st',
      ap (λ n. read_block n env (idle st k) (encode_frame f)) rounds
          ∙ read_block-start (length (encode_frame f)) env st k (128 + opcode f.kind) rest
              (idle st' f.key) (due f) is_due,
      status,
    )

-- Frames that the client may send, for which there is memory.
pub data AreValid (env : Session) : List ClientFrame → Type 0 where
  no_frames : AreValid env []
  more_frames :
      (f : ClientFrame) (fs : List ClientFrame)
      → IsValid f
      → env.memory (length f.payload) ≡ true
      → AreValid env fs
      → AreValid env (f ∷ fs)

unfoldable pub all_due : List ClientFrame → List Event
all_due [] = []
all_due (f ∷ fs) = due f ++ all_due fs

take_blocks-due :
    (env : Session) (fs : List ClientFrame) (st : ReadState) (k : Key)
    → AreValid env fs
    → (st' : ReadState) × (take_blocks env (idle st k) (map encode_frame fs)
        ≡ some (st', all_due fs))
      × (is_close st'.framing_state ≡ false)
unfolding take_blocks all_due
take_blocks-due env [] st k no_frames = (idle st k, refl, refl)
take_blocks-due env (f ∷ fs) st k (more_frames _ _ valid memory later) =
    let (mid, first, _) = incoming_frame-due env st k f valid memory in
    let (st', rest, open') = take_blocks-due env fs mid f.key later in
    (
      st',
      take_blocks-∷ env (idle st k) (encode_frame f) (map encode_frame fs) (idle mid f.key, due f)
          (st', all_due fs) refl first rest,
      open',
    )

-- The state behind the read that fails.
abbrev lost : ReadState → ReadState
lost st = record st { framing_state = framing_close; status_code = 1002 }

-- A session in which the client sends frames that are valid, whole messages, pings and pongs, in whatever blocks the bytes come,
-- where there is memory for them, and then a read fails: each message that is not empty goes to the DB server as it was before
-- it was put under its mask, each ping is answered with a pong with the same payload, in the order of the frames, and
-- the status code in the closing frame is 1002.
pub data_framing-due :
    (env : Session) (fs : List ClientFrame) (blocks : List (List ℕ))
    → AreValid env fs
    → concat blocks ≡ concat (map encode_frame fs)
    → data_framing env blocks ≡ some (all_due fs, 3 ∷ 234 ∷ [])
data_framing-due env fs blocks valid sent =
    let zeros : Key = record { k0 = 0; k1 = 0; k2 = 0; k3 = 0 } in
    let (st', framed, is_open) = take_blocks-due env fs read_state zeros valid in
    let (a, a_is, a_one) = data_framing-concat env blocks in
    let (b, b_is, b_one) = data_framing-concat env (map encode_frame fs) in
    a_is
    ∙ sym a_one
    ∙ ap (λ bytes. data_framing env (bytes ∷ [])) sent
    ∙ b_one
    ∙ sym b_is
    ∙ data_framing-take_blocks env (map encode_frame fs) (st', all_due fs) framed
    ∙ ap (λ (n : ℕ). some (all_due fs, n / 256 % 256 ∷ n % 256 ∷ []))
        (ap (λ (b : Bool). (if b then st' else lost st').status_code) is_open)
