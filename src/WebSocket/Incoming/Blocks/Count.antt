-- ===== src/WebSocket/Incoming/Blocks/Count.antt =====
-- Counting down a payload, and what is left of it when no byte comes.
use mg_web.Base.{
  ℕ, suc, ◌-◌, ◌<◌, ◌≡◌, refl, ap, ◌∙◌, List, [], if◌then◌else◌, Option, none, some, arith,
  ne→==_false, append-nil, length, min,
}
use mg_web.WebSocket.Utf8.{validate}
use mg_web.WebSocket.Reading.{framing_start, FrameData, ReadState, frame, with_frame, refuse}
use mg_web.WebSocket.Payload.{
  complete, copy_data, copy_masked_text, copy_masked, copy_text, copy_plain, count_down,
  case_application_data, finish, next_frame, unmask_text, unmask,
}

-- With no byte to read, nothing changes.
pub copy_data-zero :
    (st : ReadState) (bytes : List ℕ) → copy_data 0 st bytes ≡ (frame st, st, bytes)
unfolding copy_data copy_masked_text copy_masked copy_text copy_plain validate unmask_text unmask
copy_data-zero st bytes = ground (arith, append-nil (frame st).application_data)

pub case_application_data-count_down :
    (st : ReadState) (bytes : List ℕ) (n : ℕ)
    → min st.payload_length (length bytes) ≡ n
    → case_application_data st bytes ≡ count_down n (copy_data n st bytes)
unfolding case_application_data
case_application_data-count_down st bytes n e = ap (λ k. count_down k (copy_data k st bytes)) e

pub count_down-waits :
    (n : ℕ) (f : FrameData) (st : ReadState) (rest : List ℕ)
    → n < st.payload_length
    → count_down n (f, st, rest)
      ≡ (with_frame (record st { payload_length = st.payload_length - n }) f, rest, [])
unfolding count_down
count_down-waits n f st rest lt =
    rw (ne→==_false (st.payload_length - n) 0 (λ e. absurd (omega arith)))

-- A payload that is not empty waits for a byte.
pub case_application_data-nil :
    (st : ReadState) → 0 < st.payload_length → case_application_data st [] ≡ (st, [], [])
case_application_data-nil st pos =
    case_application_data-count_down st [] 0 (omega arith)
    ∙ ap (count_down 0) (copy_data-zero st [])
    ∙ count_down-waits 0 (frame st) st [] pos
    ∙ ground arith

pub count_down-rest :
    (n : ℕ) (f : FrameData) (st : ReadState) (bytes : List ℕ)
    → st.payload_length ≡ n
    → count_down n (f, st, bytes) ≡ (let p = count_down n (f, st, []) in (p.0, bytes, p.2))
unfolding count_down complete
count_down-rest n f st bytes e =
    let none_left : st.payload_length - n ≡ 0 = omega arith in rw none_left refl

-- An empty payload is complete, and no byte is read.
pub case_application_data-empty :
    (st : ReadState) (bytes : List ℕ)
    → st.payload_length ≡ 0
    → case_application_data st bytes ≡ (let p = case_application_data st [] in (p.0, bytes, p.2))
case_application_data-empty st bytes none_left =
    let whole =
      case_application_data-count_down st bytes 0 (omega arith)
      ∙ ap (count_down 0) (copy_data-zero st bytes) in
    let none =
      case_application_data-count_down st [] 0 (omega arith)
      ∙ ap (count_down 0) (copy_data-zero st []) in
    rw (whole, none) (count_down-rest 0 (frame st) st bytes none_left)

pub with_frame-with_frame :
    (st : ReadState) (f g : FrameData) → with_frame (with_frame st g) f ≡ with_frame st f
with_frame-with_frame st f g = ground arith

pub next_frame-with_frame :
    (refused : Option ℕ) (st : ReadState) (f g : FrameData)
    → next_frame refused (with_frame st g) f ≡ next_frame refused st f
next_frame-with_frame (some code) st f g = with_frame-with_frame (refuse st code) f g
next_frame-with_frame none st f g =
    with_frame-with_frame (record st { framing_state = framing_start })
      (if st.fin then record f { application_data = [] } else f) g

-- A byte that does not end the payload is counted first.
pub count_down-suc :
    (n : ℕ) (f g : FrameData) (st : ReadState) (rest : List ℕ)
    → 0 < st.payload_length
    → count_down (suc n) (f, st, rest)
      ≡ count_down n (f, with_frame (record st { payload_length = st.payload_length - 1 }) g, rest)
unfolding count_down complete
count_down-suc n f g st rest pos =
    let e : st.payload_length - suc n ≡ st.payload_length - 1 - n = omega arith in
    rw
      (
        e,
        next_frame-with_frame (finish st.fin st.opcode f).2
            (record st { payload_length = st.payload_length - 1 - n }) f g,
        with_frame-with_frame (record st { payload_length = st.payload_length - 1 - n }) f g,
      )
      refl

-- The state behind a valid byte that does not end the payload.
abbrev pub counted : ReadState → FrameData → ℕ → ReadState
counted st f off =
    with_frame (record st { payload_length = st.payload_length - 1; mask_offset = off }) f

pub frame-with_frame : (st : ReadState) (f : FrameData) → frame (with_frame st f) ≡ f
frame-with_frame st f = ground arith
