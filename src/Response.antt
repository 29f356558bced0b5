-- ===== src/Response.antt =====
-- src/mg_web.c: `mg_parse_headers`, which looks for some headers in what the DB server has sent. A pointer into
-- the response is the string from there on. Its cuts at `pz` and `ps` are undone before it goes on.
pub mod Lines
pub mod Noted
mod Tests
use mg_web.Base.{
  ℕ, zero, suc, [], ◌∷◌, Bool, true, false, ◌&&◌, ltb, ◌==◌, if◌then◌else◌, Option, none, some,
  length, drop,
}
use mg_web.Text.{CString, lcase, strstr}

-- What the call stores in `MGWEB`: `response_clen_server`, where nothing stands for -1, and three pointers. `N` is
-- the type `int`, and `strtol` below the function of the C library, on base 10, with its result as an `int`.
pub record Response (N : Type 0) : Type 0 where
  pub clen_server : Option N
  pub content_type : Option CString
  pub cache_control : Option CString
  pub connection : Option CString

abbrev pub crlf : CString
crlf = b'\r' ∷ b'\n' ∷ []

abbrev pub content_length : CString
content_length =
    b'c' ∷ b'o' ∷ b'n' ∷ b't' ∷ b'e' ∷ b'n' ∷ b't' ∷ b'-' ∷ b'l' ∷ b'e' ∷ b'n' ∷ b'g' ∷ b't' ∷ b'h'
    ∷ []

abbrev pub content_type : CString
content_type =
    b'c' ∷ b'o' ∷ b'n' ∷ b't' ∷ b'e' ∷ b'n' ∷ b't' ∷ b'-' ∷ b't' ∷ b'y' ∷ b'p' ∷ b'e' ∷ []

abbrev pub cache_control : CString
cache_control =
    b'c' ∷ b'a' ∷ b'c' ∷ b'h' ∷ b'e' ∷ b'-' ∷ b'c' ∷ b'o' ∷ b'n' ∷ b't' ∷ b'r' ∷ b'o' ∷ b'l' ∷ []

abbrev pub connection : CString
connection = b'c' ∷ b'o' ∷ b'n' ∷ b'n' ∷ b'e' ∷ b'c' ∷ b't' ∷ b'i' ∷ b'o' ∷ b'n' ∷ []

abbrev pub has : CString → CString → Bool
has s t = elim (strstr s t) [ none ↦ false | some found ↦ true ]

-- `while (*(++ pv) == ' ')`, behind the first step.
unfoldable pub skip_blanks : CString → CString
skip_blanks [] = []
skip_blanks (c ∷ s) = let rest = skip_blanks s in if c == b' ' then rest else (c ∷ s)

-- The tests on the name in lower case; `pn` is the place of the header, and `pv` its value.
unfoldable pub note :
    {N : Type 0} → (CString → N) → CString → CString → CString → Response N → Response N
note strtol head pv pn web =
    if has head content_length
    then record web { clen_server = some (strtol pv) }
    else if has head content_type
    then record web { content_type = some pn }
    else if has head cache_control
    then record web { cache_control = some pn }
    else if has head connection
    then record web { connection = some pn }
    else web

-- One line; `pn` is its place.
unfoldable pub parse_line :
    {N : Type 0} → (CString → N) → CString → CString → Response N → Response N
unfolding note skip_blanks
parse_line strtol line pn web = elim (strstr line (b':' ∷ [])) [
  | none ↦ web
  | some (name, ps) ↦
      if ltb 0 (length name) && ltb (length name) 60
      then note strtol (lcase name) (skip_blanks (drop 1 ps)) pn web
      else web
]

-- The loop, for at most the given number of lines; nothing where they are not enough.
unfoldable pub parse_lines :
    {N : Type 0} → ℕ → (CString → N) → CString → Response N → Option (Response N)
unfolding parse_line
parse_lines rounds strtol [] web = some web
parse_lines zero strtol (c ∷ pn) web = none
parse_lines (suc rounds) strtol (c ∷ pn) web = elim (strstr (c ∷ pn) crlf) [
  | none ↦ some (parse_line strtol (c ∷ pn) (c ∷ pn) web)
  | some (line, pz) ↦ parse_lines rounds strtol (drop 2 pz) (parse_line strtol line (c ∷ pn) web)
]

unfoldable pub parse_headers : {N : Type 0} → (CString → N) → CString → Option (Response N)
parse_headers strtol response_headers =
    parse_lines (length response_headers) strtol response_headers
      (record { clen_server = none; content_type = none; cache_control = none; connection = none })
