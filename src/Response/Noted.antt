-- ===== src/Response/Noted.antt =====
-- What `mg_parse_headers` of src/mg_web.c has stored behind a response: for each field, what the last header of it has.
use mg_web.Base.{
  ℕ, ◌≡◌, refl, ap, ◌∙◌, List, [], ◌∷◌, Bool, true, false, not, ◌&&◌, ◌||◌, if◌then◌else◌, Option,
  none, some, Bool-cases, inl, inr,
}
use mg_web.Response.{Response, has, note, parse_headers}
use mg_web.Response.Lines.{
  Line, header, plain, AreLines, response_bytes, note_lines, parse_headers-note_lines,
}
use mg_web.Text.{CString, lcase, starts_with, strstr}

-- The fields of a response that matter.
pub data Field : Type 0 where
  length_field type_field cache_field connection_field : Field

abbrev pub field_name : Field → CString
field_name length_field =
    b'c' ∷ b'o' ∷ b'n' ∷ b't' ∷ b'e' ∷ b'n' ∷ b't' ∷ b'-' ∷ b'l' ∷ b'e' ∷ b'n' ∷ b'g' ∷ b't' ∷ b'h'
    ∷ []
field_name type_field =
    b'c' ∷ b'o' ∷ b'n' ∷ b't' ∷ b'e' ∷ b'n' ∷ b't' ∷ b'-' ∷ b't' ∷ b'y' ∷ b'p' ∷ b'e' ∷ []
field_name cache_field =
    b'c' ∷ b'a' ∷ b'c' ∷ b'h' ∷ b'e' ∷ b'-' ∷ b'c' ∷ b'o' ∷ b'n' ∷ b't' ∷ b'r' ∷ b'o' ∷ b'l' ∷ []
field_name connection_field =
    b'c' ∷ b'o' ∷ b'n' ∷ b'n' ∷ b'e' ∷ b'c' ∷ b't' ∷ b'i' ∷ b'o' ∷ b'n' ∷ []

-- Whether `t` stands somewhere in `s`.
unfoldable pub occurs : CString → CString → Bool
occurs t [] = starts_with [] t
occurs t (c ∷ s) = starts_with (c ∷ s) t || occurs t s

-- Which headers count for a field: those with its name in theirs, and with none of the names in front.
abbrev pub is_of : Field → CString → Bool
is_of length_field name = occurs (field_name length_field) name
is_of type_field name =
    not (occurs (field_name length_field) name) && occurs (field_name type_field) name
is_of cache_field name =
    not (occurs (field_name length_field) name)
    && not (occurs (field_name type_field) name)
    && occurs (field_name cache_field) name
is_of connection_field name =
    not (occurs (field_name length_field) name)
    && not (occurs (field_name type_field) name)
    && not (occurs (field_name cache_field) name)
    && occurs (field_name connection_field) name

-- The later one, if there is one.
abbrev pub later {ℓ} : {A : Type ℓ} → Option A → Option A → Option A
later (some x) y = some x
later none y = y

abbrev pub given_if {ℓ} : {A : Type ℓ} → Bool → A → Option A
given_if true x = some x
given_if false x = none

-- The value of the last header of the length, as `f` takes it, and the place of the last header of another field.
abbrev pub last_value : {N : Type 0} → (CString → N) → List Line → Option N
last_value f [] = none
last_value f (header name value ∷ ls) =
    later (last_value f ls) (given_if (is_of length_field (lcase name)) (f value))
last_value f (plain s ∷ ls) = last_value f ls

abbrev pub last_place : Field → List Line → Option CString
last_place field [] = none
last_place field (header name value ∷ ls) =
    later (last_place field ls)
      (given_if (is_of field (lcase name)) (response_bytes (header name value ∷ ls)))
last_place field (plain s ∷ ls) = last_place field ls

abbrev is_found : Option (CString × CString) → Bool
is_found none = false
is_found (some r) = true

abbrev behind : ℕ → Option (CString × CString) → Option (CString × CString)
behind c none = none
behind c (some r) = some (c ∷ r.0, r.1)

is_found-behind :
    (c : ℕ) (found : Option (CString × CString)) → is_found (behind c found) ≡ is_found found
is_found-behind c none = refl
is_found-behind c (some r) = refl

is_found-if : (b : Bool) (s : CString) → is_found (if b then some ([], s) else none) ≡ b
is_found-if true s = refl
is_found-if false s = refl

is_found-else :
    (b : Bool) (s : CString) (o : Option (CString × CString))
    → is_found (if b then some ([], s) else o) ≡ (b || is_found o)
is_found-else true s o = refl
is_found-else false s o = refl

has-occurs : (s t : CString) → has s t ≡ occurs t s
unfolding strstr occurs
has-occurs [] t = is_found-if (starts_with [] t) []
has-occurs (c ∷ s) t =
    is_found-else (starts_with (c ∷ s) t) (c ∷ s) (behind c (strstr s t))
    ∙ ap (◌||◌ (starts_with (c ∷ s) t)) (is_found-behind c (strstr s t) ∙ has-occurs s t)

later_assoc {ℓ} : {A : Type ℓ} (x y z : Option A) → later x (later y z) ≡ later (later x y) z
later_assoc (some x) y z = refl
later_assoc none y z = refl

later-none {ℓ} : {A : Type ℓ} (x : Option A) → later x none ≡ x
later-none (some x) = refl
later-none none = refl

module _ {N : Type 0} (strtol : CString → N) where
  -- What one header adds.
  abbrev with_header : CString → CString → CString → Response N → Response N
  with_header head value place web = record {
    clen_server = later (given_if (is_of length_field head) (strtol value)) web.clen_server;
    content_type = later (given_if (is_of type_field head) place) web.content_type;
    cache_control = later (given_if (is_of cache_field head) place) web.cache_control;
    connection = later (given_if (is_of connection_field head) place) web.connection;
  }

  note-with_header :
      (head value place : CString) (web : Response N)
      → note strtol head value place web ≡ with_header head value place web
  unfolding note
  note-with_header head value place web =
      let in_length = has-occurs head (field_name length_field) in
      let in_type = has-occurs head (field_name type_field) in
      let in_cache = has-occurs head (field_name cache_field) in
      let in_connection = has-occurs head (field_name connection_field) in
      rw (in_length, in_type, in_cache, in_connection)
        (elim (Bool-cases (occurs (field_name length_field) head)) [
          | inl a ↦ rw a refl
          | inr a ↦ elim (Bool-cases (occurs (field_name type_field) head)) [
            | inl b ↦ rw (a, b) refl
            | inr b ↦ elim (Bool-cases (occurs (field_name cache_field) head)) [
              | inl c ↦ rw (a, b, c) refl
              | inr c ↦ elim (Bool-cases (occurs (field_name connection_field) head)) [
                | inl d ↦ rw (a, b, c, d) refl
                | inr d ↦ rw (a, b, c, d) refl
              ]
            ]
          ]
        ])

  -- What the headers add to what was there.
  abbrev with_lines : List Line → Response N → Response N
  with_lines ls web = record {
    clen_server = later (last_value strtol ls) web.clen_server;
    content_type = later (last_place type_field ls) web.content_type;
    cache_control = later (last_place cache_field ls) web.cache_control;
    connection = later (last_place connection_field ls) web.connection;
  }

  note_lines-with_lines :
      (ls : List Line) (web : Response N) → note_lines strtol ls web ≡ with_lines ls web
  unfolding note_lines
  note_lines-with_lines [] web = refl
  note_lines-with_lines (plain s ∷ ls) web = note_lines-with_lines ls web
  note_lines-with_lines (header name value ∷ ls) web =
      let place = response_bytes (header name value ∷ ls) in
      let head = lcase name in
      ap (note_lines strtol ls) (note-with_header head value place web)
      ∙ note_lines-with_lines ls (with_header head value place web)
      ∙ rw
          (
            later_assoc (last_value strtol ls) (given_if (is_of length_field head) (strtol value))
                web.clen_server,
            later_assoc (last_place type_field ls) (given_if (is_of type_field head) place)
                web.content_type,
            later_assoc (last_place cache_field ls) (given_if (is_of cache_field head) place)
                web.cache_control,
            later_assoc (last_place connection_field ls)
                (given_if (is_of connection_field head) place) web.connection,
          )
          refl

-- `mg_parse_headers` of a response that consists of lines, each with its end, headers with a name of 1 to
-- 59 bytes and lines without a colon: the call returns. The number that it stores is that of the value of the last
-- header with `content-length` in its name, in lower case, and -1 if there is none; and the pointers lead to
-- the last header with `content-type`, with `cache-control` and with `connection` in its name, where a header counts
-- for the first of the four that its name has, and are null if there is none.
pub parse_headers-last_place :
    {N : Type 0} (strtol : CString → N) (ls : List Line)
    → AreLines ls
    → parse_headers strtol (response_bytes ls)
      ≡ some (record {
        clen_server = last_value strtol ls;
        content_type = last_place type_field ls;
        cache_control = last_place cache_field ls;
        connection = last_place connection_field ls;
      })
parse_headers-last_place strtol ls lines =
    parse_headers-note_lines strtol ls lines
    ∙ ap some (note_lines-with_lines strtol ls _)
    ∙ rw
        (
          later-none (last_value strtol ls),
          later-none (last_place type_field ls),
          later-none (last_place cache_field ls),
          later-none (last_place connection_field ls),
        )
        refl
