-- ===== src/Response/Lines.antt =====
-- What `mg_parse_headers` makes of a list of headers.
use mg_web.Base.{
  ℕ, zero, suc, ◌≤◌, ◌<◌, ◌≡◌, refl, ap, ◌∙◌, List, [], ◌∷◌, ◌++◌, Bool, true, false, not, ◌&&◌,
  ltb, ◌==◌, none, some, length, drop, arith, length-append,
}
use mg_web.Text.{CString, lcase, strstr, starts_with}
use mg_web.Response.{Response, crlf, skip_blanks, note, parse_line, parse_lines, parse_headers}

-- A byte does not occur in a string.
unfoldable pub lacks : ℕ → CString → Bool
lacks c [] = true
lacks c (a ∷ s) = not (a == c) && lacks c s

-- The first occurrence of a string is not in front of the first of its first byte.
strstr-lacks :
    (c : ℕ) (t s rest : CString)
    → lacks c s ≡ true
    → starts_with (c ∷ rest) (c ∷ t) ≡ true
    → strstr (s ++ (c ∷ rest)) (c ∷ t) ≡ some (s, c ∷ rest)
unfolding strstr lacks starts_with
strstr-lacks c t [] rest free here = rw here refl
strstr-lacks c t (a ∷ s) rest free here =
    let later = strstr-lacks c t s rest (ground arith) here in
    let other : (a == c) ≡ false = ground arith in rw (other, later) refl

strstr-lacks_all : (c : ℕ) (t s : CString) → lacks c s ≡ true → strstr s (c ∷ t) ≡ none
unfolding strstr lacks starts_with
strstr-lacks_all c t [] free = refl
strstr-lacks_all c t (a ∷ s) free =
    let later = strstr-lacks_all c t s (ground arith) in
    let other : (a == c) ≡ false = ground arith in rw (other, later) refl

-- A line of a response: a header, or another line without a colon, such as the status or an empty one.
pub data Line : Type 0 where
  header : CString → CString → Line
  plain : CString → Line

unfoldable pub line_bytes : Line → CString
line_bytes (header name value) = name ++ (b':' ∷ b' ' ∷ value)
line_bytes (plain s) = s

-- The name has no colon and 1 to 59 bytes, and the value does not begin with a blank.
pub data IsLine : Line → Type 0 where
  is_header :
      (name value : CString)
      → lacks b':' name ≡ true
      → 0 < length name
      → length name < 60
      → skip_blanks value ≡ value
      → lacks b'\r' (line_bytes (header name value)) ≡ true
      → IsLine (header name value)
  is_plain : (s : CString) → lacks b':' s ≡ true → lacks b'\r' s ≡ true → IsLine (plain s)

pub data AreLines : List Line → Type 0 where
  no_lines : AreLines []
  more_lines : (l : Line) (ls : List Line) → IsLine l → AreLines ls → AreLines (l ∷ ls)

unfoldable pub response_bytes : List Line → CString
response_bytes [] = []
response_bytes (l ∷ ls) = line_bytes l ++ (b'\r' ∷ b'\n' ∷ response_bytes ls)

-- The headers are noted, line by line, each with its place.
unfoldable pub note_lines : {N : Type 0} → (CString → N) → List Line → Response N → Response N
unfolding note response_bytes
note_lines strtol [] web = web
note_lines strtol (header name value ∷ ls) web =
    note_lines strtol ls
      (note strtol (lcase name) value (response_bytes (header name value ∷ ls)) web)
note_lines strtol (plain s ∷ ls) web = note_lines strtol ls web

module _ {N : Type 0} (strtol : CString → N) where
  parse_lines-∷ :
      (rounds : ℕ) (c : ℕ) (s line pz : CString) (web : Response N)
      → strstr (c ∷ s) crlf ≡ some (line, pz)
      → parse_lines (suc rounds) strtol (c ∷ s) web
        ≡ parse_lines rounds strtol (drop 2 pz) (parse_line strtol line (c ∷ s) web)
  unfolding parse_lines
  parse_lines-∷ rounds c s line pz web e = rw (parse_lines, e) refl

  parse_lines-line :
      (rounds : ℕ) (line rest : CString) (web : Response N)
      → lacks b'\r' line ≡ true
      → (let pn = line ++ (b'\r' ∷ b'\n' ∷ rest) in
          parse_lines (suc rounds) strtol pn web
          ≡ parse_lines rounds strtol rest (parse_line strtol line pn web))
  unfolding starts_with
  parse_lines-line rounds [] rest web free =
      parse_lines-∷ rounds b'\r' (b'\n' ∷ rest) [] (b'\r' ∷ b'\n' ∷ rest) web
        (strstr-lacks b'\r' (b'\n' ∷ []) [] (b'\n' ∷ rest) free refl)
  parse_lines-line rounds (a ∷ line) rest web free =
      parse_lines-∷ rounds a (line ++ (b'\r' ∷ b'\n' ∷ rest)) (a ∷ line) (b'\r' ∷ b'\n' ∷ rest) web
        (strstr-lacks b'\r' (b'\n' ∷ []) (a ∷ line) (b'\n' ∷ rest) free refl)

  parse_line-header :
      (name value pn : CString) (web : Response N)
      → lacks b':' name ≡ true
      → 0 < length name
      → length name < 60
      → skip_blanks value ≡ value
      → parse_line strtol (name ++ (b':' ∷ b' ' ∷ value)) pn web
        ≡ note strtol (lcase name) value pn web
  unfolding parse_line skip_blanks starts_with
  parse_line-header name value pn web free pos short blanks =
      let found = strstr-lacks b':' [] name (b' ' ∷ value) free refl in
      let p : ltb 0 (length name) ≡ true = ground arith in
      let q : ltb (length name) 60 ≡ true = ground arith in
      rw (parse_line, found, p, q) (ap (λ pv. note strtol (lcase name) pv pn web) blanks)

  parse_line-plain :
      (s pn : CString) (web : Response N) → lacks b':' s ≡ true → parse_line strtol s pn web ≡ web
  unfolding parse_line
  parse_line-plain s pn web free = rw (parse_line, strstr-lacks_all b':' [] s free) refl

  parse_lines-note_lines :
      (ls : List Line) (rounds : ℕ) (web : Response N)
      → AreLines ls
      → length ls ≤ rounds
      → parse_lines rounds strtol (response_bytes ls) web ≡ some (note_lines strtol ls web)
  unfolding parse_lines response_bytes line_bytes note_lines
  parse_lines-note_lines [] zero web no_lines enough = refl
  parse_lines-note_lines [] (suc rounds) web no_lines enough = refl
  parse_lines-note_lines (l ∷ ls) zero web lines enough = absurd (omega arith)
  parse_lines-note_lines (header name value ∷ ls) (suc rounds) web
        (more_lines _ _ (is_header _ _ free pos short blanks whole) rest) enough =
      let pn = response_bytes (header name value ∷ ls) in
      parse_lines-line rounds (line_bytes (header name value)) (response_bytes ls) web whole
      ∙ ap (parse_lines rounds strtol (response_bytes ls))
          (parse_line-header name value pn web free pos short blanks)
      ∙ parse_lines-note_lines ls rounds (note strtol (lcase name) value pn web) rest (omega arith)
  parse_lines-note_lines (plain s ∷ ls) (suc rounds) web
        (more_lines _ _ (is_plain _ free whole) rest) enough =
      parse_lines-line rounds s (response_bytes ls) web whole
      ∙ ap (parse_lines rounds strtol (response_bytes ls))
          (parse_line-plain s (response_bytes (plain s ∷ ls)) web free)
      ∙ parse_lines-note_lines ls rounds web rest (omega arith)

length-response_bytes : (ls : List Line) → length ls ≤ length (response_bytes ls)
unfolding response_bytes
length-response_bytes [] = omega arith
length-response_bytes (l ∷ ls) =
    let later = length-response_bytes ls in
    let sum = length-append (line_bytes l) (b'\r' ∷ b'\n' ∷ response_bytes ls) in omega arith

-- The headers of a whole response are noted.
pub parse_headers-note_lines :
    {N : Type 0} (strtol : CString → N) (ls : List Line)
    → AreLines ls
    → parse_headers strtol (response_bytes ls)
      ≡ some (
          note_lines strtol ls (record {
            clen_server = none;
            content_type = none;
            cache_control = none;
            connection = none;
          }))
unfolding parse_headers
parse_headers-note_lines strtol ls lines =
    parse_lines-note_lines strtol ls (length (response_bytes ls)) _ lines (length-response_bytes ls)
