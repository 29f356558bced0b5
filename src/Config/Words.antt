-- ===== src/Config/Words.antt =====
-- src/mg_web.c, `mg_parse_config`: lines, and the words of a line.
pub mod Split
use mg_web.Base.{
  ℕ, zero, suc, ◌+◌, ◌-◌, List, [], ◌∷◌, ◌++◌, Bool, false, ◌&&◌, ◌||◌, not, leb, ◌==◌,
  if◌then◌else◌, Option, none, some, length, take,
}
use mg_web.Text.{CString, lcase}

-- The line that `pa` points at, and the place behind its end, where there is one.
unfoldable pub split_line : CString → CString × Option CString
split_line [] = ([], none)
split_line (c ∷ s) =
    let rest = split_line s in if c == b'\n' then ([], some s) else (c ∷ rest.0, rest.1)

abbrev pub is_blank : ℕ → Bool
is_blank c = c == b' ' || c == b'\t'

unfoldable pub skip_space : CString → CString
skip_space [] = []
skip_space (c ∷ s) = let rest = skip_space s in if is_blank c then rest else (c ∷ s)

-- The array `line`.
unfoldable pub line_text : CString → CString
unfolding skip_space
line_text s = take 1000 (skip_space s)

-- What the loop leaves from a place on: the rest of a word that goes on there, and the words behind it.
abbrev pub close : CString × List CString → List CString
close ([], ws) = ws
close (c ∷ w, ws) = (c ∷ w) ∷ ws

-- The loop over a line, which gives up after so many bytes: blanks become terminators, but only those it has come to.
unfoldable pub scan_words : ℕ → CString → CString × List CString
scan_words zero s = (s, [])
scan_words (suc n) [] = ([], [])
scan_words (suc zero) (c ∷ s) = if is_blank c then ([], []) else (c ∷ s, [])
scan_words (suc (suc n)) (c ∷ s) =
    let rest = scan_words (suc n) s in if is_blank c then ([], close rest) else (c ∷ rest.0, rest.1)

abbrev pub max_size : ℕ
max_size = 100000

abbrev pub max_words : ℕ
max_words = 32

-- The words of a line with so many bytes in front of it that have been counted.
unfoldable pub words_of : ℕ → CString → List CString
unfolding scan_words
words_of size s = take max_words (close (scan_words (suc max_size - size) s))

-- Whether the loop gives up, and `size` afterwards.
abbrev pub too_long : ℕ → CString → Bool
too_long size s = leb (suc max_size) (size + length s)

abbrev pub size_after : ℕ → CString → ℕ
size_after size s = if too_long size s then suc max_size else (size + length s)

-- `word[len - 1] == c`
unfoldable pub ends_in : ℕ → CString → Bool
ends_in c [] = false
ends_in c (d ∷ []) = d == c
ends_in c (d ∷ e ∷ s) = ends_in c (e ∷ s)

unfoldable pub without_last : CString → CString
without_last [] = []
without_last (c ∷ []) = []
without_last (c ∷ d ∷ s) = c ∷ without_last (d ∷ s)

-- The name of a section, without the `>` at its end.
unfoldable pub section_name : CString → CString
unfolding ends_in without_last
section_name w = if ends_in b'>' w then without_last w else w

-- The name of a location ends in `/`.
unfoldable pub location_name : CString → CString
unfolding section_name ends_in lcase
location_name w =
    lcase
      (if ends_in b'/' (section_name w) then section_name w else (section_name w ++ (b'/' ∷ [])))

-- Whether the name of a location is the last on its line, with no room behind it for the `/`, so that the two stores
-- hit the end of the line and the byte behind it.
unfoldable pub overruns : CString → CString → Bool
unfolding ends_in
overruns w line =
    not (ends_in b'>' w) && not (ends_in b'/' w) && not (ends_in b' ' line || ends_in b'\t' line)

unfoldable pub lower_name : CString → CString
unfolding lcase
lower_name name = lcase (take 60 name)
