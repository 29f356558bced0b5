-- ===== src/Affinity.antt =====
-- src/mg_web.c: `mg_find_sa_variable_ex` and `mg_find_sa_cookie`, which find the DB server that a
-- request asks for, by a variable of its query string or form or by a cookie. The two search in the
-- same way and differ in the bytes that separate the pairs; the search stands here once. The bytes
-- that the source overwrites with zeros and restores are not changed here.
pub mod Value
pub mod Scan
pub mod Pairs
pub mod Boundary
mod Tests
use mg_web.Base.{
  ℕ, zero, suc, ◌+◌, ◌-◌, ◌*◌, ◌%◌, ◌^◌, List, [], ◌∷◌, Bool, true, false, ◌&&◌, ◌||◌, ltb, ◌==◌,
  if◌then◌else◌, Option, none, some, length, take, drop, min,
}
use mg_web.Text.{CString, c_string, is_digit, lcase, strcmp_eq, strstr, until}
use mg_web.Types.{PathServer}

-- The server number that is found, or -1. `out_of_bounds` means that a negative number is taken for a
-- place in the array `servers`, and `looping` that the rounds given were not enough.
pub data Affinity : Type 0 where
  server : ℕ → Affinity
  absent out_of_bounds looping : Affinity

-- What a second try finds, where the first one found nothing.
unfoldable pub or_else : Affinity → Affinity → Affinity
or_else absent rest = rest
or_else (server n) rest = server n
or_else out_of_bounds rest = out_of_bounds
or_else looping rest = looping

-- The digits at the head of a string, behind those that make `acc`.
unfoldable pub decimal : ℕ → CString → ℕ
decimal acc [] = acc
decimal acc (c ∷ s) = let rest = decimal (acc * 10 + (c - 48)) s in if is_digit c then rest else acc

-- `strtol(pv, NULL, 10)` of a string that begins with a digit; it stops at `LONG_MAX`.
abbrev pub strtol : CString → ℕ
strtol pv = min (decimal 0 pv) (2 ^ 63 - 1)

-- The number as an `int`, looked up in the array: negative numbers pass the test against 32.
unfoldable pub by_number : List PathServer → ℕ → Affinity
by_number servers w =
    if ltb w (2 ^ 31)
    then (if ltb w 32 && ltb w (length servers) then server w else absent)
    else out_of_bounds

-- The loop over the names of the servers, from number `n` on.
unfoldable pub by_name : List PathServer → CString → ℕ → Affinity
by_name [] sname n = absent
by_name (entry ∷ servers) sname n =
    let rest = by_name servers sname (n + 1) in
    if strcmp_eq entry.lcname sname then server n else rest

abbrev pub starts_digit : CString → Bool
starts_digit pv = elim pv [ [] ↦ false | c ∷ s ↦ is_digit c ]

unfoldable pub value_server : List PathServer → CString → Affinity
value_server servers pv =
    if starts_digit pv
    then by_number servers (strtol pv % 2 ^ 32)
    else if ltb (length pv) 60
    then by_name servers (lcase pv) 0
    else absent

-- The bytes that may stand in front of a name, and the one that ends a value.
pub record Separators : Type 0 where
  pub opens : ℕ → Bool
  pub ends : ℕ

abbrev pub query_string : Separators
query_string = record { opens = λ c. c == b'&'; ends = b'&' }

abbrev pub cookies : Separators
cookies = record { opens = λ c. c == b';' || c == b' '; ends = b';' }

-- The byte in front of the place is one of them, or there is none.
abbrev pub is_open : Separators → Option ℕ → Bool
is_open sep prev = elim prev [ none ↦ true | some c ↦ sep.opens c ]

abbrev pub is_at : ℕ → CString → Bool
is_at chr s = elim s [ [] ↦ false | c ∷ rest ↦ c == chr ]

-- The byte at the end of `s`, or `prev` where it is empty.
unfoldable pub last_of : Option ℕ → CString → Option ℕ
last_of prev [] = prev
last_of prev (c ∷ s) = last_of (some c) s

-- At an occurrence of the name, `s`, behind the byte `prev`.
unfoldable pub occurrence : Separators → List PathServer → CString → Option ℕ → CString → Affinity
occurrence sep servers name prev s =
    if is_open sep prev && is_at b'=' (drop (length name) s)
    then value_server servers (until sep.ends (drop (length name + 1) s))
    else absent

-- The `while` loop, for at most the given number of rounds, on what is left of the string.
unfoldable pub search : ℕ → Separators → List PathServer → CString → Option ℕ → CString → Affinity
search zero sep servers name prev s = looping
search (suc rounds) sep servers name prev s = elim (strstr s name) [
  | none ↦ absent
  | some (before, pn) ↦
      or_else (occurrence sep servers name (last_of prev before) pn) (
        search rounds sep servers name (last_of (last_of prev before) name) (drop (length name) pn))
]

unfoldable pub find_sa_variable_ex : List PathServer → CString → Option (List ℕ) → ℕ → Affinity
find_sa_variable_ex servers name none nvpairs_len = absent
find_sa_variable_ex servers name (some nvpairs) nvpairs_len =
    if nvpairs_len == 0
    then absent
    else (let s = c_string (take nvpairs_len nvpairs) in
        search (length s + 1) query_string servers name none s)

-- What `mg_get_cgi_variable` answers for a buffer of a given size.
pub data CgiAnswer : Type 0 where
  cgi_value : CString → CgiAnswer
  too_long failed : CgiAnswer

-- The loop that reads the cookies, from round `n` on with a buffer of `len` bytes; `malloc n` tells
-- whether the buffer for the round after `n` is allocated.
unfoldable pub read_cookie : ℕ → ℕ → ℕ → (ℕ → Bool) → (ℕ → CgiAnswer) → Option CString
read_cookie zero n len malloc get_cgi_variable = none
read_cookie (suc left) n len malloc get_cgi_variable = elim (get_cgi_variable len) [
  | cgi_value request_cookie ↦ some request_cookie
  | failed ↦ none
  | too_long ↦
      let again = read_cookie left (n + 1) ((n + 2) * 4096) malloc get_cgi_variable in
      if malloc n then again else none
]

unfoldable pub find_sa_cookie :
    List PathServer → CString → Bool → (ℕ → Bool) → (ℕ → CgiAnswer) → Affinity
find_sa_cookie servers sa_cookie allocated malloc get_cgi_variable =
    if allocated
    then elim (read_cookie 3 0 4096 malloc get_cgi_variable) [
      | none ↦ absent
      | some s ↦ search (length s + 1) cookies servers sa_cookie none s
    ]
    else absent
