-- ===== src/WebSocket/Utf8.antt =====
-- src/mg_websocket.h: the table `validate_utf8`, an automaton that tells valid UTF-8 text. A row of the
-- table is a state, and an entry of the row is the next state for a byte.
pub mod WellFormed
use mg_web.Base.{ℕ, List, [], ◌∷◌, Bool, true, false, ◌&&◌, leb, ltb, ◌==◌, if◌then◌else◌}

-- `T1` to `T3` wait for so many more bytes of a character, `S1` to `S4` for a second byte of limited
-- range. `S0` is `UTF8_VALID`, and `ER` is `UTF8_INVALID`, which has no row: the loops end there.
pub data Utf8State : Type 0 where
  s0 t1 t2 s1 s2 t3 s3 s4 er : Utf8State

abbrev pub is_er : Utf8State → Bool
is_er er = true
is_er _ = false

abbrev pub is_s0 : Utf8State → Bool
is_s0 s0 = true
is_s0 _ = false

abbrev pub between : ℕ → ℕ → ℕ → Bool
between lo hi c = leb lo c && leb c hi

-- The row of the start state.
unfoldable pub lead : ℕ → Utf8State
lead c =
    if ltb c 0x80
    then s0
    else if ltb c 0xc2
    then er
    else if ltb c 0xe0
    then t1
    else if c == 0xe0
    then s1
    else if c == 0xed
    then s2
    else if ltb c 0xf0
    then t2
    else if c == 0xf0
    then s3
    else if ltb c 0xf4
    then t3
    else if c == 0xf4
    then s4
    else er

-- `validate_utf8[state + c]`
unfoldable pub validate_utf8 : Utf8State → ℕ → Utf8State
unfolding lead
validate_utf8 s0 c = lead c
validate_utf8 t1 c = if between 0x80 0xbf c then s0 else er
validate_utf8 t2 c = if between 0x80 0xbf c then t1 else er
validate_utf8 s1 c = if between 0xa0 0xbf c then t1 else er
validate_utf8 s2 c = if between 0x80 0x9f c then t1 else er
validate_utf8 t3 c = if between 0x80 0xbf c then t2 else er
validate_utf8 s3 c = if between 0x90 0xbf c then t2 else er
validate_utf8 s4 c = if between 0x80 0x8f c then t2 else er
validate_utf8 er c = er

-- The loop over a stretch of text, which ends at an invalid byte.
unfoldable pub validate : Utf8State → List ℕ → Utf8State
validate u [] = u
validate u (c ∷ s) = elim (is_er (validate_utf8 u c)) [
  | true ↦ er
  | false ↦ validate (validate_utf8 u c) s
]
