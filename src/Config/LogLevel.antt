-- ===== src/Config/LogLevel.antt =====
-- src/mg_web.c: `mg_set_log_level`.
pub mod Flags
use mg_web.Base.{ℕ, ◌+◌, List, [], ◌∷◌, Bool, false, ◌||◌, ltb, if◌then◌else◌}
use mg_web.Text.{CString}
use mg_web.Response.{has}
use mg_web.Config.{LogFlags}

abbrev pub no_log : LogFlags
no_log = record {
  log_errors = false;
  log_connections = 0;
  log_verbose = false;
  log_frames = false;
  log_transmissions = false;
  log_transmissions_to_webserver = false;
  log_tls = 0;
}

abbrev pub has_letter : CString → ℕ → ℕ → Bool
has_letter word c d = has word (c ∷ []) || has word (d ∷ [])

-- The tests on the letters of a word.
unfoldable pub note_letters : LogFlags → CString → LogFlags
note_letters plog word = record plog {
  log_errors = has_letter word b'e' b'E' || plog.log_errors;
  log_verbose = has_letter word b'v' b'V' || plog.log_verbose;
  log_frames = has_letter word b'f' b'F' || plog.log_frames;
  log_transmissions = has_letter word b't' b'T' || plog.log_transmissions;
  log_transmissions_to_webserver = has_letter word b'w' b'W' || plog.log_transmissions_to_webserver;
  log_tls = if has word (b'S' ∷ []) then 2 else if has word (b's' ∷ []) then 1 else plog.log_tls;
  log_connections =
      if has word (b'C' ∷ []) then 2 else if has word (b'c' ∷ []) then 1 else plog.log_connections;
}

unfoldable pub set_log_level : LogFlags → CString → ℕ → LogFlags
unfolding note_letters
set_log_level plog word wn = note_letters (if ltb wn 2 then no_log else plog) word

-- The loop over the words of a line, from `word[n]` on.
unfoldable pub set_log_levels : ℕ → List CString → LogFlags → LogFlags
unfolding set_log_level
set_log_levels n [] plog = plog
set_log_levels n (word ∷ words) plog = set_log_levels (n + 1) words (set_log_level plog word n)
