-- ===== src/Config/Parse/Returns.antt =====
-- `mg_parse_config` returns, where each section has a name.
use mg_web.Base.{
  ℕ, zero, suc, ◌+◌, ◌≤◌, length, arith, ◌≡◌, refl, ap, ◌∙◌, ◌⊎◌, inl, inr, List, [], ◌∷◌, Bool,
  true, false, ◌||◌, if◌then◌else◌, Option, none, some, ◌==◌, take, ltb, Bool-cases, All, if_both,
  if_cases, subst,
}
use mg_web.Text.{CString, lcase}
use mg_web.Config.{MgSys, ConfigError, infinite_line, infinite_loop}
use mg_web.Config.Words.{words_of, line_text, too_long, split_line, size_after}
use mg_web.Config.Words.Split.{fields, words_of-fields}
use mg_web.Config.ServerSection.{server_line}
use mg_web.Config.TlsSection.{tls_line}
use mg_web.Config.LocationSection.{location_effect}
use mg_web.Config.GlobalSection.{add_cgi, global_line}
use mg_web.Config.Parse.{Library, Parser, fail}
use mg_web.Config.Parse.Lines.{
  is_error, begins_with, parameter_line, take_words, in_array, parse_words, parse_one_line,
  parse_all_lines, parse_config, next_line, cuts_off, cut_rest, is_break, config_stops,
  finish_config, new_parser,
}
use mg_web.Config.Parse.Safe.{
  HasObjects, HasFailed, IsSafe, failed, ready, fail-HasObjects, fail-HasFailed, in_server-IsSafe,
  in_tls-IsSafe, in_location-IsSafe, environment_line-IsSafe,
}
use mg_web.Config.Parse.Fitting.{
  HasRoom, WhereRoom, lost, kept, fail-HasRoom, take_words-WhereRoom, words_of-All,
}
use mg_web.Config.Parse.Messages.{IsShort}
use mg_web.Config.Parse.Named.{is_nameless, opens, section_line-IsSafe}

parameter_line-IsSafe :
    (lib : Library) (ln : ℕ) (line : CString) (words : List CString) (p : Parser)
    → lib.buffers ln ≡ true
    → HasObjects p
    → IsSafe (parameter_line lib ln line words p)
unfolding parameter_line
parameter_line-IsSafe lib ln line words p enough h =
    let p_cgi : Parser = record p { sys = record p.sys { cgi = add_cgi words p.sys.cgi } } in
    let p_global : Parser = record p { sys = global_line lib.strtol ln words p.sys } in
    if_cases IsSafe p.inserver
      (λ inside.
        if_both IsSafe p.inenv
          (environment_line-IsSafe (lib.memory ln) (lib.buffers ln) line p enough inside h)
          (in_server-IsSafe (server_line lib.strtol ln words) p inside h))
      (λ outside.
        if_cases IsSafe p.inpath
          (λ inside. in_location-IsSafe words (location_effect (lib.memory ln) ln words) p inside h)
          (λ outside2.
            if_cases IsSafe p.intls
              (λ inside. in_tls-IsSafe (tls_line lib.strtod_is_zero ln words) p inside h)
              (λ outside3.
                if_both IsSafe p.incgi
                  (ready p_cgi (record { server = h.server; location = h.location; tls = h.tls }))
                  (ready p_global
                    (record { server = h.server; location = h.location; tls = h.tls })))))

has_name :
    (word : CString) (words : List CString) (p : Parser)
    → begins_with b'<' word ≡ true
    → (is_nameless (word ∷ words) ≡ false) ⊎ HasFailed p
    → words ≡ []
    → opens (lcase word) ≡ true
    → HasFailed p
has_name word words p section (inr h) none_left opened = h
has_name word [] p section (inl h) none_left opened =
    absurd (let both : is_nameless (word ∷ []) ≡ true = rw (section, opened) refl in cc)
has_name word (name ∷ words) p section (inl h) none_left opened = absurd cc

-- The words name their section, or there is an error.
take_words-IsSafe :
    (lib : Library) (ln : ℕ) (line : CString) (words : List CString) (p : Parser)
    → (is_nameless words ≡ false) ⊎ HasFailed p
    → lib.buffers ln ≡ true
    → HasObjects p
    → IsSafe (take_words lib ln line words p)
unfolding take_words
take_words-IsSafe lib ln line [] p named enough h = ready p h
take_words-IsSafe lib ln line (word ∷ words) p named enough h =
    if_both IsSafe (begins_with b'#' word) (ready p h) (
      if_cases IsSafe (begins_with b'<' word)
        (λ section.
          section_line-IsSafe p h (lib.memory ln) ln (lcase word) words
            (has_name word words p section named))
        (λ other. parameter_line-IsSafe lib ln line (word ∷ words) p enough h))

-- The words have been taken, without a fault and with a message that fits.
pub record IsGood (o : Option Parser) : Type 0 where
  pub safe : IsSafe o
  pub room : WhereRoom o

is_there : (o : Option Parser) → IsSafe o → (p : Parser) × (o ≡ some p)
is_there _ (failed p h) = (p, refl)
is_there _ (ready p h) = (p, refl)

never_lost : ¬ IsSafe none
never_lost safe = let (p, e) = is_there none safe in cc

in_array-kept : (p : Parser) → IsSafe (some p) → HasRoom p → IsGood (in_array (some p))
in_array-kept p safe room = rw room.fits.fits (record { safe = safe; room = kept p room })

in_array-IsGood : (o : Option Parser) → IsSafe o → WhereRoom o → IsGood (in_array o)
in_array-IsGood _ safe (kept p room) = in_array-kept p safe room
in_array-IsGood _ safe lost = absurd (never_lost safe)

parse_words-IsGood :
    (lib : Library) (ln : ℕ) (line : CString) (words : List CString) (p : Parser)
    → (is_nameless words ≡ false) ⊎ HasFailed p
    → All IsShort words
    → lib.buffers ln ≡ true
    → HasObjects p
    → HasRoom p
    → IsGood (parse_words lib ln line words p)
unfolding parse_words
parse_words-IsGood lib ln line words p named short enough h room =
    in_array-IsGood _ (take_words-IsSafe lib ln line words p named enough h)
      (take_words-WhereRoom lib ln line words p short room)

-- The lines of a text; the last has no end.
abbrev add_first : ℕ → List CString → List CString
add_first c [] = []
add_first c (l ∷ ls) = (c ∷ l) ∷ ls

unfoldable pub lines : CString → List CString
lines [] = [] ∷ []
lines (c ∷ s) = let rest = lines s in if c == b'\n' then [] ∷ rest else add_first c rest

abbrev lines_behind : Option CString → List CString
lines_behind none = []
lines_behind (some s) = lines s

lines-split : (s : CString) → lines s ≡ (split_line s).0 ∷ lines_behind (split_line s).1
unfolding lines split_line
lines-split [] = refl
lines-split (c ∷ s) =
    elim (Bool-cases (c == b'\n'))
      as (λ _. lines (c ∷ s) ≡ (split_line (c ∷ s)).0 ∷ lines_behind (split_line (c ∷ s)).1) [
        | inl e ↦ rw (lines, split_line, e) refl
        | inr e ↦ rw (lines, split_line, e) (ap (add_first c) (lines-split s))
      ]

-- A line that names the section it opens, if it opens one, and has up to 400 bytes.
abbrev pub IsReadable : CString → Type 0
IsReadable line = (is_nameless (fields line) ≡ false) × (length line ≤ 400)

take-is_nameless : (ws : List CString) → is_nameless (take 32 ws) ≡ is_nameless ws
take-is_nameless [] = refl
take-is_nameless (w ∷ []) = refl
take-is_nameless (w ∷ v ∷ ws) = refl

parse_one_line-IsGood :
    (lib : Library) (ln size : ℕ) (s : CString) (p : Parser)
    → IsReadable s
    → lib.buffers ln ≡ true
    → HasObjects p
    → HasRoom p
    → IsGood (parse_one_line lib ln size s p)
unfolding parse_one_line
parse_one_line-IsGood lib ln size s p (named, short_line) enough h room =
    elim (Bool-cases (too_long size s)) as (λ _. IsGood (parse_one_line lib ln size s p)) [
      | inl long ↦
          rw (parse_one_line, long)
            (parse_words-IsGood lib ln (line_text s) (words_of size s) (fail (some infinite_line) p)
              (inr (fail-HasFailed infinite_line p)) (words_of-All size s short_line) enough
              (fail-HasObjects (some infinite_line) p h)
              (fail-HasRoom (some infinite_line) p (record { fits = refl }) room))
      | inr short ↦
          let names : is_nameless (words_of size s) ≡ false =
            ap is_nameless (words_of-fields size s short) ∙ take-is_nameless (fields s) ∙ named in
          rw (parse_one_line, short)
            (parse_words-IsGood lib ln (line_text s) (words_of size s) (fail none p) (inl names)
              (words_of-All size s short_line) enough (fail-HasObjects none p h)
              (fail-HasRoom none p (record { fits = refl }) room))
    ]

AreReadable-cut :
    (cut : Bool) (rest : Option CString)
    → All IsReadable (lines_behind rest)
    → All IsReadable (lines_behind (cut_rest cut rest))
unfolding lines fields
AreReadable-cut cut none named = tt
AreReadable-cut false (some s) named = named
AreReadable-cut true (some s) named = ((refl, omega arith), tt)

AreReadable-behind :
    (error : Option ConfigError) (cut : Bool) (rest : Option CString)
    → All IsReadable (lines_behind rest)
    → All IsReadable (lines_behind (next_line error cut rest))
unfolding lines fields
AreReadable-behind error cut rest named =
    if_both (λ (s : Option CString). All IsReadable (lines_behind s)) (is_break error) {x = none}
      {y = cut_rest cut rest} tt (AreReadable-cut cut rest named)

abbrev Returns : Option Parser → Type 0
Returns o = (p : Parser) × (o ≡ some p)

room_of : (p : Parser) → WhereRoom (some p) → HasRoom p
room_of _ (kept p room) = room

IsGood-some :
    (o : Option Parser) → IsGood o → (p : Parser) × (o ≡ some p) × IsSafe (some p) × HasRoom p
IsGood-some none good = absurd (never_lost good.safe)
IsGood-some (some p) good = (p, refl, good.safe, room_of p good.room)

or_right : (a b : Bool) → (a || b) ≡ false → b ≡ false
or_right true b h = absurd cc
or_right false b h = h

running :
    (p : Parser) (config_size size : ℕ)
    → IsSafe (some p)
    → config_stops config_size size p.sys.config_error ≡ false
    → HasObjects p
running p config_size size (ready _ h) goes_on = h
running p config_size size (failed _ h) goes_on = absurd (
    let none_yet : is_error p.sys.config_error ≡ false =
      or_right (ltb config_size size) _ goes_on in
    cc)

module _ (lib : Library) (memory : (ln : ℕ) → lib.buffers ln ≡ true) (config_size : ℕ) where
  parse_all_lines-Returns :
      (left ln size : ℕ) (s : Option CString) (p : Parser)
      → IsSafe (some p)
      → HasRoom p
      → All IsReadable (lines_behind s)
      → Returns (parse_all_lines lib config_size left ln size s p)
  unfolding parse_all_lines
  parse_all_lines-Returns left ln size none p h room named = (p, refl)
  parse_all_lines-Returns zero ln size (some s) p h room named = (fail (some infinite_loop) p, refl)
  parse_all_lines-Returns (suc left) ln size (some []) p h room named = (p, refl)
  parse_all_lines-Returns (suc left) ln size (some (c ∷ s)) p h room named =
      let line : CString = (split_line (c ∷ s)).0 in
      let (first, others) = subst (All IsReadable) (lines-split (c ∷ s)) named in
      elim (Bool-cases (config_stops config_size size p.sys.config_error))
        as (λ _. Returns (parse_all_lines lib config_size (suc left) ln size (some (c ∷ s)) p)) [
          | inl stops ↦ (p, rw (parse_all_lines, stops) refl)
          | inr goes_on ↦
              let (p2, e, h2, room2) = IsGood-some _ (
                parse_one_line-IsGood lib ln size line p first (memory ln)
                  (running p config_size size h goes_on) room) in
              let next : Option CString =
                next_line p2.sys.config_error (cuts_off (words_of size line) line)
                  (split_line (c ∷ s)).1 in
              rw (parse_all_lines, goes_on, e)
                (parse_all_lines-Returns left (ln + 1) (size_after size line) next p2 h2 room2 (
                  AreReadable-behind p2.sys.config_error (cuts_off (words_of size line) line)
                    (split_line (c ∷ s)).1 others))
        ]

-- `mg_parse_config` returns, where the buffers of the environments get the memory that they ask for, whatever memory there is for
-- anything else, for each configuration whose lines have up to 400 bytes, and in which no line opens a section of a server,
-- a location or a TLS configuration without another word on it. (The words of a line are what stands between blanks.) It goes
-- through no null pointer then, and each message fits into `config_error`.
pub parse_config-Returns :
    (lib : Library) (config_size : ℕ) (config : CString) (sys : MgSys)
    → ((ln : ℕ) → lib.buffers ln ≡ true)
    → All IsReadable (lines config)
    → Returns (parse_config lib config_size config sys)
unfolding parse_config
parse_config-Returns lib config_size config sys memory named =
    let start : HasObjects (new_parser sys) = record {
      server = λ i. absurd cc;
      location = λ i. absurd cc;
      tls = λ i. absurd cc;
    } in
    let (p, e) =
      parse_all_lines-Returns lib memory config_size 1000 1 0 (some config) (new_parser sys)
        (ready (new_parser sys) start) (record { fits = record { fits = refl } }) named in
    (_, ap finish_config e)
