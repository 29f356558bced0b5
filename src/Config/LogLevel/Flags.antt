-- ===== src/Config/LogLevel/Flags.antt =====
-- What a line of levels sets the log to.
use mg_web.Base.{
  ℕ, suc, ◌+◌, ◌≡◌, refl, ap, ◌∙◌, List, [], ◌∷◌, ◌++◌, Bool, true, false, ◌||◌, ◌==◌,
  if◌then◌else◌, Option, none, some, arith, ltb, Bool-cases, inl, inr,
}
use mg_web.Text.{CString, strstr, starts_with}
use mg_web.Response.{has}
use mg_web.Config.{LogFlags}
use mg_web.Config.LogLevel.{no_log, has_letter, note_letters, set_log_level, set_log_levels}

abbrev pub elem : ℕ → CString → Bool
elem c [] = false
elem c (d ∷ s) = d == c || elem c s

-- The two cases of the search for a letter.
abbrev found_at : Bool → CString → ℕ → Option (CString × CString) → Option (CString × CString)
found_at true s d rest = some ([], d ∷ s)
found_at false s d none = none
found_at false s d (some (before, found)) = some (d ∷ before, found)

abbrev is_found : Option (CString × CString) → Bool
is_found none = false
is_found (some found) = true

found_at-is_found :
    (b : Bool) (s : CString) (d : ℕ) (rest : Option (CString × CString))
    → is_found (found_at b s d rest) ≡ (b || is_found rest)
found_at-is_found true s d rest = refl
found_at-is_found false s d none = refl
found_at-is_found false s d (some found) = refl

strstr-found_at :
    (d : ℕ) (s : CString) (c : ℕ)
    → strstr (d ∷ s) (c ∷ []) ≡ found_at (d == c) s d (strstr s (c ∷ []))
unfolding strstr starts_with
strstr-found_at d s c = ground arith

has-is_found :
    (o : Option (CString × CString)) → (elim o [ none ↦ false | some found ↦ true ]) ≡ is_found o
has-is_found none = refl
has-is_found (some found) = refl

strstr-elem : (s : CString) (c : ℕ) → is_found (strstr s (c ∷ [])) ≡ elem c s
unfolding strstr starts_with
strstr-elem [] c = refl
strstr-elem (d ∷ s) c =
    ap is_found (strstr-found_at d s c)
    ∙ found_at-is_found (d == c) s d (strstr s (c ∷ []))
    ∙ ap (λ (b : Bool). d == c || b) (strstr-elem s c)

has-elem : (s : CString) (c : ℕ) → has s (c ∷ []) ≡ elem c s
has-elem s c = has-is_found (strstr s (c ∷ [])) ∙ strstr-elem s c

abbrev pub join : List CString → CString
join [] = []
join (w ∷ ws) = w ++ join ws

-- A level of the log for a small and a capital letter: that of the last word with one of them, where the capital letter
-- counts for more.
abbrev pub level_of_word : ℕ → ℕ → CString → Option ℕ
level_of_word small capital w =
    if elem capital w then some 2 else if elem small w then some 1 else none

abbrev or_before : Option ℕ → Option ℕ → Option ℕ
or_before none before = before
or_before (some n) before = some n

abbrev pub last_level : ℕ → ℕ → List CString → Option ℕ
last_level small capital [] = none
last_level small capital (w ∷ ws) =
    or_before (last_level small capital ws) (level_of_word small capital w)

abbrev pub level_or : Option ℕ → ℕ → ℕ
level_or none n = n
level_or (some m) n = m

-- Whether one of two letters is in the text.
abbrev pub one_of : ℕ → ℕ → CString → Bool
one_of c d s = elem c s || elem d s

elem-append : (c : ℕ) (s t : CString) → elem c (s ++ t) ≡ (elem c s || elem c t)
elem-append c [] t = refl
elem-append c (d ∷ s) t =
    elim (Bool-cases (d == c)) as (λ _. elem c ((d ∷ s) ++ t) ≡ (elem c (d ∷ s) || elem c t)) [
      | inl e ↦ rw e refl
      | inr e ↦ rw e (elem-append c s t)
    ]

or_shuffle : (a b c d e : Bool) → ((a || b) || ((c || d) || e)) ≡ (((c || a) || (d || b)) || e)
or_shuffle true true c d e = ground arith
or_shuffle true false c d e = ground arith
or_shuffle false true c d e = ground arith
or_shuffle false false c d e = ground arith

one_of-word :
    (c d : ℕ) (w t : CString) (b : Bool)
    → (one_of c d t || (has_letter w c d || b)) ≡ (one_of c d (w ++ t) || b)
one_of-word c d w t b =
    rw (has-elem w c, has-elem w d, elem-append c w t, elem-append d w t)
      (or_shuffle (elem c t) (elem d t) (elem c w) (elem d w) b)

level_or-before :
    (o : Option ℕ) (b c : Bool) (n : ℕ)
    → level_or o (if b then 2 else if c then 1 else n)
      ≡ level_or (or_before o (if b then some 2 else if c then some 1 else none)) n
level_or-before (some m) b c n = refl
level_or-before none true c n = refl
level_or-before none false true n = refl
level_or-before none false false n = refl

level-word :
    (small capital : ℕ) (w : CString) (ws : List CString) (n : ℕ)
    → level_or
        (last_level small capital ws)
        (if has w (capital ∷ []) then 2 else if has w (small ∷ []) then 1 else n)
      ≡ level_or (last_level small capital (w ∷ ws)) n
level-word small capital w ws n =
    rw (has-elem w small, has-elem w capital)
      (level_or-before (last_level small capital ws) (elem capital w) (elem small w) n)

-- The flags that some words set, beside those that are set.
abbrev pub flags_from : LogFlags → List CString → LogFlags
flags_from plog ws = record {
  log_errors = one_of b'e' b'E' (join ws) || plog.log_errors;
  log_connections = level_or (last_level b'c' b'C' ws) plog.log_connections;
  log_verbose = one_of b'v' b'V' (join ws) || plog.log_verbose;
  log_frames = one_of b'f' b'F' (join ws) || plog.log_frames;
  log_transmissions = one_of b't' b'T' (join ws) || plog.log_transmissions;
  log_transmissions_to_webserver =
      one_of b'w' b'W' (join ws) || plog.log_transmissions_to_webserver;
  log_tls = level_or (last_level b's' b'S' ws) plog.log_tls;
}

flags_from-note_letters :
    (w : CString) (ws : List CString) (plog : LogFlags)
    → flags_from (note_letters plog w) ws ≡ flags_from plog (w ∷ ws)
unfolding note_letters
flags_from-note_letters w ws plog = λ i. record {
  log_errors = one_of-word b'e' b'E' w (join ws) plog.log_errors i;
  log_connections = level-word b'c' b'C' w ws plog.log_connections i;
  log_verbose = one_of-word b'v' b'V' w (join ws) plog.log_verbose i;
  log_frames = one_of-word b'f' b'F' w (join ws) plog.log_frames i;
  log_transmissions = one_of-word b't' b'T' w (join ws) plog.log_transmissions i;
  log_transmissions_to_webserver =
      one_of-word b'w' b'W' w (join ws) plog.log_transmissions_to_webserver i;
  log_tls = level-word b's' b'S' w ws plog.log_tls i;
}

set_log_levels-from :
    (n : ℕ) (ws : List CString) (plog : LogFlags)
    → set_log_levels (suc (suc n)) ws plog ≡ flags_from plog ws
unfolding set_log_levels set_log_level
set_log_levels-from n [] plog = refl
set_log_levels-from n (w ∷ ws) plog =
    let later : ltb (suc (suc n)) 2 ≡ false = ground arith in
    let next : (suc (suc n)) + 1 ≡ suc (suc (suc n)) = omega arith in
    ap (λ (m : ℕ). set_log_levels m ws (set_log_level plog w (suc (suc n)))) next
    ∙ ap
        (λ (b : Bool).
          set_log_levels (suc (suc (suc n))) ws (note_letters (if b then no_log else plog) w))
        later
    ∙ set_log_levels-from (suc n) ws (note_letters plog w)
    ∙ flags_from-note_letters w ws plog

or_false : (b : Bool) → (b || false) ≡ b
or_false true = refl
or_false false = refl

flags_from-no_log :
    (ws : List CString)
    → flags_from no_log ws ≡ record {
      log_errors = one_of b'e' b'E' (join ws);
      log_connections = level_or (last_level b'c' b'C' ws) 0;
      log_verbose = one_of b'v' b'V' (join ws);
      log_frames = one_of b'f' b'F' (join ws);
      log_transmissions = one_of b't' b'T' (join ws);
      log_transmissions_to_webserver = one_of b'w' b'W' (join ws);
      log_tls = level_or (last_level b's' b'S' ws) 0;
    }
flags_from-no_log ws = λ i. record {
  log_errors = or_false (one_of b'e' b'E' (join ws)) i;
  log_connections = level_or (last_level b'c' b'C' ws) 0;
  log_verbose = or_false (one_of b'v' b'V' (join ws)) i;
  log_frames = or_false (one_of b'f' b'F' (join ws)) i;
  log_transmissions = or_false (one_of b't' b'T' (join ws)) i;
  log_transmissions_to_webserver = or_false (one_of b'w' b'W' (join ws)) i;
  log_tls = level_or (last_level b's' b'S' ws) 0;
}

-- The words of the parameter `log_level`, as `mg_set_log_level` takes them one after the other: whatever was set before, a flag
-- of the log is set just if its letter, small or capital, is in one of the words; and the levels for connections and for TLS are
-- 2 or 1, for the capital or the small letter, as the last word with one of the two says, where the capital letter comes first,
-- and 0 without such a word.
pub set_log_levels-flags :
    (w : CString) (ws : List CString) (plog : LogFlags)
    → set_log_levels 1 (w ∷ ws) plog ≡ record {
      log_errors = one_of b'e' b'E' (join (w ∷ ws));
      log_connections = level_or (last_level b'c' b'C' (w ∷ ws)) 0;
      log_verbose = one_of b'v' b'V' (join (w ∷ ws));
      log_frames = one_of b'f' b'F' (join (w ∷ ws));
      log_transmissions = one_of b't' b'T' (join (w ∷ ws));
      log_transmissions_to_webserver = one_of b'w' b'W' (join (w ∷ ws));
      log_tls = level_or (last_level b's' b'S' (w ∷ ws)) 0;
    }
unfolding set_log_levels set_log_level
set_log_levels-flags w ws plog =
    set_log_levels-from 0 ws (note_letters no_log w)
    ∙ flags_from-note_letters w ws no_log
    ∙ flags_from-no_log (w ∷ ws)
