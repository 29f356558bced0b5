-- ===== src/Config/Parse/Run.antt =====
-- `mg_parse_config` as what the lines do to the state, one after the other.
use mg_web.Base.{
  ℕ, zero, suc, ◌+◌, ◌≤◌, ◌≡◌, ◌≢◌, refl, sym, ap, ◌∙◌, inl, inr, List, [], ◌∷◌, ◌++◌, Bool, true,
  false, ◌==◌, ltb, if◌then◌else◌, Option, none, some, length, take, arith, Bool-cases,
  Option-cases, All, length-append,
}
use mg_web.Text.{CString}
use mg_web.Config.{MgSys, ConfigError}
use mg_web.Config.Words.{words_of, line_text, too_long, split_line, size_after}
use mg_web.Config.Words.Split.{fields, words_of-fields}
use mg_web.Config.Parse.{Library, Parser, fail}
use mg_web.Config.Parse.Lines.{
  is_error, is_break, parse_words, parse_one_line, parse_all_lines, parse_config, next_line,
  cut_rest, cuts_off, config_stops, finish_config, new_parser,
}

-- A text of lines, each with its end.
abbrev pub unlines : List CString → CString
unlines [] = []
unlines (l ∷ ls) = l ++ (b'\n' ∷ unlines ls)

abbrev pub total : List CString → ℕ
total [] = 0
total (l ∷ ls) = length l + total ls

-- The lines from number `ln` on, up to an error.
unfoldable pub run : Library → ℕ → List CString → Parser → Option Parser
run lib ln [] p = some p
run lib ln (l ∷ ls) p = elim (is_error p.sys.config_error) [
  | true ↦ some p
  | false ↦ elim (parse_words lib ln (line_text l) (take 32 (fields l)) p) [
    | none ↦ none
    | some p2 ↦ run lib (ln + 1) ls p2
  ]
]

-- A line without a line end in it, which is not that of a location whose name the `/` does not fit behind.
abbrev pub IsWhole : CString → Type 0
IsWhole l = All (λ c. (c == b'\n') ≡ false) l × (cuts_off (take 32 (fields l)) l ≡ false)

split_line-append :
    (l s : CString)
    → All (λ c. (c == b'\n') ≡ false) l
    → split_line (l ++ (b'\n' ∷ s)) ≡ (l, some s)
unfolding split_line
split_line-append [] s h = refl
split_line-append (c ∷ l) s (h, others) =
    rw (split_line, h)
      (ap (λ (r : CString × Option CString). (c ∷ r.0, r.1)) (split_line-append l s others))

run-failed :
    (lib : Library) (ln : ℕ) (ls : List CString) (p : Parser)
    → is_error p.sys.config_error ≡ true
    → run lib ln ls p ≡ some p
unfolding run
run-failed lib ln [] p h = refl
run-failed lib ln (l ∷ ls) p h = rw (run, h) refl

is_break-is_error : (e : Option ConfigError) → is_break e ≡ true → is_error e ≡ true
is_break-is_error none h = absurd cc
is_break-is_error (some e) h = refl

module _ (lib : Library) (config_size : ℕ) where
  -- What the loop does with a line and what stands behind it.
  abbrev advance : ℕ → ℕ → ℕ → CString × Option CString → Parser → Option Parser
  advance left ln size split p = elim (config_stops config_size size p.sys.config_error) [
    | true ↦ some p
    | false ↦ elim (parse_one_line lib ln size split.0 p) [
      | none ↦ none
      | some p2 ↦
          parse_all_lines lib config_size left (ln + 1) (size_after size split.0)
            (next_line p2.sys.config_error (cuts_off (words_of size split.0) split.0) split.1) p2
    ]
  ]

  parse_all_lines-advance :
      (left ln size : ℕ) (t : CString) (p : Parser)
      → length t ≢ 0
      → parse_all_lines lib config_size (suc left) ln size (some t) p
        ≡ advance left ln size (split_line t) p
  unfolding parse_all_lines
  parse_all_lines-advance left ln size [] p h = absurd (h refl)
  parse_all_lines-advance left ln size (c ∷ s) p h = refl

  parse_one_line-short :
      (ln size : ℕ) (l : CString) (p : Parser)
      → too_long size l ≡ false
      → parse_one_line lib ln size l p ≡ parse_words lib ln (line_text l) (take 32 (fields l)) p
  unfolding parse_one_line fail
  parse_one_line-short ln size l p short =
      rw (parse_one_line, short)
        (ap (λ (ws : List CString). parse_words lib ln (line_text l) ws p)
          (words_of-fields size l short))

  -- Behind a line, the loop goes on with what stands there, or stops, since there is an error.
  behind-run :
      (ls : List CString) (left ln size : ℕ) (l r : CString) (p : Parser)
      → too_long size l ≡ false
      → cuts_off (take 32 (fields l)) l ≡ false
      → parse_all_lines lib config_size left ln (size + length l) (some r) p ≡ run lib ln ls p
      → parse_all_lines lib config_size left ln
          (size_after size l)
          (next_line p.sys.config_error (cuts_off (words_of size l) l) (some r))
          p
        ≡ run lib ln ls p
  unfolding parse_all_lines
  behind-run ls left ln size l r p short uncut others =
      let whole : cuts_off (words_of size l) l ≡ false =
        ap (λ (ws : List CString). cuts_off ws l) (words_of-fields size l short) ∙ uncut in
      elim (Bool-cases (is_break p.sys.config_error))
        as (λ _.
          parse_all_lines lib config_size left ln (size_after size l)
            (next_line p.sys.config_error (cuts_off (words_of size l) l) (some r)) p
          ≡ run lib ln ls p) [
            | inl stops ↦
                rw
                  (ap
                    (λ (b : Bool).
                      if b then none else cut_rest (cuts_off (words_of size l) l) (some r))
                    stops)
                  (sym (run-failed lib ln ls p (is_break-is_error p.sys.config_error stops)))
            | inr goes_on ↦
                let next : next_line p.sys.config_error (cuts_off (words_of size l) l) (some r)
                    ≡ some r =
                  rw (goes_on, whole) refl in
                let size2 : size_after size l ≡ size + length l = rw short refl in
                ap
                  (λ (n : ℕ).
                    parse_all_lines lib config_size left ln n
                      (next_line p.sys.config_error (cuts_off (words_of size l) l) (some r)) p)
                  size2
                ∙ ap
                    (λ (s : Option CString).
                      parse_all_lines lib config_size left ln (size + length l) s p)
                    next
                ∙ others
          ]

  advance-run :
      (ls : List CString) (left ln size : ℕ) (l r : CString) (p : Parser)
      → too_long size l ≡ false
      → ltb config_size size ≡ false
      → cuts_off (take 32 (fields l)) l ≡ false
      → ((p2 : Parser)
          → parse_all_lines lib config_size left (ln + 1) (size + length l) (some r) p2
            ≡ run lib (ln + 1) ls p2)
      → advance left ln size (l, some r) p ≡ run lib ln (l ∷ ls) p
  unfolding run
  advance-run ls left ln size l r p short fits uncut others =
      let one : parse_one_line lib ln size l p
          ≡ parse_words lib ln (line_text l) (take 32 (fields l)) p =
        parse_one_line-short ln size l p short in
      elim (Bool-cases (is_error p.sys.config_error))
        as (λ _. advance left ln size (l, some r) p ≡ run lib ln (l ∷ ls) p) [
          | inl stops ↦
              let stop : config_stops config_size size p.sys.config_error ≡ true =
                rw (fits, stops) refl in
              rw (run, advance, stop, stops) refl
          | inr goes_on ↦
              let on : config_stops config_size size p.sys.config_error ≡ false =
                rw (fits, goes_on) refl in
              elim (Option-cases (parse_words lib ln (line_text l) (take 32 (fields l)) p))
                as (λ _. advance left ln size (l, some r) p ≡ run lib ln (l ∷ ls) p) [
                  | inl crash ↦ rw (run, advance, on, goes_on, one ∙ crash, crash) refl
                  | inr (p2, e) ↦
                      rw (run, advance, on, goes_on, one ∙ e, e)
                        (behind-run ls left (ln + 1) size l r p2 short uncut (others p2))
                ]
        ]

  parse_all_lines-run :
      (ls : List CString) (left ln size : ℕ) (p : Parser)
      → All IsWhole ls
      → length ls ≤ left
      → size + total ls ≤ 100000
      → size + total ls ≤ config_size
      → parse_all_lines lib config_size (suc left) ln size (some (unlines ls)) p ≡ run lib ln ls p
  unfolding parse_all_lines run
  parse_all_lines-run [] left ln size p whole room short fits = refl
  parse_all_lines-run (l ∷ ls) zero ln size p whole room short fits = absurd (omega arith)
  parse_all_lines-run (l ∷ ls) (suc left) ln size p ((ends, uncut), others) room short fits =
      let text : CString = l ++ (b'\n' ∷ unlines ls) in
      let some_byte : length text ≢ 0 =
        λ e. absurd (let sum = length-append l (b'\n' ∷ unlines ls) in omega arith) in
      parse_all_lines-advance (suc left) ln size text p some_byte
      ∙ ap (λ (s : CString × Option CString). advance (suc left) ln size s p)
          (split_line-append l (unlines ls) ends)
      ∙ advance-run ls (suc left) ln size l (unlines ls) p (ground arith) (ground arith) uncut
          (λ p2.
            parse_all_lines-run ls left (ln + 1) (size + length l) p2 others (omega arith)
              (omega arith) (omega arith))

-- `mg_parse_config` on a text of up to 999 lines, each with its end, with up to 100000 bytes and no more than `config_size` beside
-- the ends, where no line is that of a location whose name is the last thing on it and has neither `>` nor `/` at its end: what the
-- lines do to the first state, one after the other and each on its words, up to the first error, and then the time-out
-- if there is none.
pub parse_config-run :
    (lib : Library) (config_size : ℕ) (ls : List CString) (sys : MgSys)
    → All IsWhole ls
    → length ls ≤ 999
    → total ls ≤ 100000
    → total ls ≤ config_size
    → parse_config lib config_size (unlines ls) sys ≡ finish_config (run lib 1 ls (new_parser sys))
unfolding parse_config
parse_config-run lib config_size ls sys whole few short fits = ap finish_config (
    parse_all_lines-run lib config_size ls 999 1 0 (new_parser sys) whole few (omega arith)
      (omega arith))
