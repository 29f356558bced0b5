-- ===== src/Config/Words/Split.antt =====
-- The words of a line are what stands between blanks.
use mg_web.Base.{
  ℕ, zero, suc, ◌-◌, ◌≤◌, ◌≡◌, ◌≢◌, refl, sym, ap, ◌∙◌, List, [], ◌∷◌, ◌++◌, true, false,
  if◌then◌else◌, length, take, arith, All, append-nil,
}
use mg_web.Text.{CString}
use mg_web.Config.Words.{is_blank, close, scan_words, words_of, too_long}

-- What is left of the loop over a line that never gives up.
unfoldable scan_fields : CString → CString × List CString
scan_fields [] = ([], [])
scan_fields (c ∷ s) =
    let rest = scan_fields s in if is_blank c then ([], close rest) else (c ∷ rest.0, rest.1)

unfoldable pub fields : CString → List CString
unfolding scan_fields
fields s = close (scan_fields s)

scan_words-fields : (n : ℕ) (s : CString) → length s ≤ n → scan_words (suc n) s ≡ scan_fields s
unfolding scan_words scan_fields
scan_words-fields n [] h = refl
scan_words-fields zero (c ∷ s) h = absurd (omega arith)
scan_words-fields (suc n) (c ∷ s) h =
    ap
      (λ (rest : CString × List CString).
        if is_blank c then ([], close rest) else (c ∷ rest.0, rest.1))
      (scan_words-fields n s (omega arith))

pub words_of-fields :
    (size : ℕ) (s : CString) → too_long size s ≡ false → words_of size s ≡ take 32 (fields s)
unfolding words_of fields
words_of-fields size s h =
    let room : suc (100000 - size) ≡ 100001 - size = ground arith in
    let fits : length s ≤ 100000 - size = ground arith in
    ap (λ (n : ℕ). take 32 (close (scan_words n s))) (sym room)
    ∙ ap (λ (r : CString × List CString). take 32 (close r))
        (scan_words-fields (100000 - size) s fits)

abbrev pub IsBlank : ℕ → Type 0
IsBlank c = is_blank c ≡ true

abbrev pub IsInk : ℕ → Type 0
IsInk c = is_blank c ≡ false

-- Words with blanks behind each: none is empty, and two have a blank between them.
abbrev pub AreSpaced : List (CString × CString) → Type 0
AreSpaced [] = Unit
AreSpaced ((word, gap) ∷ []) = All IsInk word × (length word ≢ 0) × All IsBlank gap
AreSpaced ((word, gap) ∷ next ∷ more) =
    All IsInk word
    × (length word ≢ 0)
    × All IsBlank gap
    × (length gap ≢ 0)
    × AreSpaced (next ∷ more)

unfoldable pub spaced : List (CString × CString) → CString
spaced [] = []
spaced ((word, gap) ∷ more) = word ++ (gap ++ spaced more)

abbrev pub words_only : List (CString × CString) → List CString
words_only [] = []
words_only ((word, gap) ∷ more) = word ∷ words_only more

fields-blanks :
    (gap s : CString) → All IsBlank gap → length gap ≢ 0 → scan_fields (gap ++ s) ≡ ([], fields s)
unfolding fields scan_fields
fields-blanks [] s blank some_blank = absurd (some_blank refl)
fields-blanks (c ∷ []) s (blank, others) some_blank = rw (scan_fields, blank) refl
fields-blanks (c ∷ d ∷ gap) s (blank, others) some_blank =
    rw (scan_fields, blank)
      (ap (λ (r : CString × List CString). ([], close r))
        (fields-blanks (d ∷ gap) s others (λ e. absurd (omega arith))))

scan_fields-word :
    (word s : CString)
    → All IsInk word
    → scan_fields (word ++ s) ≡ (word ++ (scan_fields s).0, (scan_fields s).1)
unfolding scan_fields
scan_fields-word [] s ink = refl
scan_fields-word (c ∷ word) s (ink, others) =
    rw (scan_fields, ink)
      (ap (λ (r : CString × List CString). (c ∷ r.0, r.1)) (scan_fields-word word s others))

scan_fields-blanks : (gap : CString) → All IsBlank gap → scan_fields (gap ++ []) ≡ ([], [])
unfolding scan_fields fields
scan_fields-blanks [] blank = refl
scan_fields-blanks (c ∷ gap) blank = fields-blanks (c ∷ gap) [] blank (λ e. absurd (omega arith))

close-word :
    (word : CString) (ws : List CString) → length word ≢ 0 → close (word ++ [], ws) ≡ word ∷ ws
close-word [] ws some_byte = absurd (some_byte refl)
close-word (c ∷ word) ws some_byte = ap (λ (w : CString). (c ∷ w) ∷ ws) (append-nil word)

-- A word, and what the loop makes of what stands behind it.
fields-word :
    (word s : CString) (ws : List CString)
    → All IsInk word
    → length word ≢ 0
    → scan_fields s ≡ ([], ws)
    → fields (word ++ s) ≡ word ∷ ws
unfolding fields
fields-word word s ws ink some_byte behind =
    ap close (scan_fields-word word s ink)
    ∙ ap (λ (r : CString × List CString). close (word ++ r.0, r.1)) behind
    ∙ close-word word ws some_byte

pub fields-spaced :
    (ws : List (CString × CString)) → AreSpaced ws → fields (spaced ws) ≡ words_only ws
unfolding spaced fields
fields-spaced [] h = refl
fields-spaced ((word, gap) ∷ []) (ink, some_byte, blank) =
    fields-word word (gap ++ []) [] ink some_byte (scan_fields-blanks gap blank)
fields-spaced ((word, gap) ∷ next ∷ more) (ink, some_byte, blank, some_blank, others) =
    fields-word word (gap ++ spaced (next ∷ more)) (words_only (next ∷ more)) ink some_byte (
      fields-blanks gap (spaced (next ∷ more)) blank some_blank
      ∙ ap (λ (ws : List CString). ([], ws)) (fields-spaced (next ∷ more) others))

fields-lead : (lead s : CString) → All IsBlank lead → fields (lead ++ s) ≡ fields s
unfolding fields
fields-lead [] s blank = refl
fields-lead (c ∷ lead) s blank =
    ap close (fields-blanks (c ∷ lead) s blank (λ e. absurd (omega arith)))

-- The words that `mg_parse_config` takes from a line of blanks, words and the blanks behind each word, where the bytes that have
-- been counted and the line come to at most 100000: the words, up to 32 of them, with all their bytes.
pub words_of-spaced :
    (size : ℕ) (lead : CString) (ws : List (CString × CString))
    → All IsBlank lead
    → AreSpaced ws
    → too_long size (lead ++ spaced ws) ≡ false
    → words_of size (lead ++ spaced ws) ≡ take 32 (words_only ws)
words_of-spaced size lead ws blank words short =
    words_of-fields size (lead ++ spaced ws) short
    ∙ ap (take 32) (fields-lead lead (spaced ws) blank ∙ fields-spaced ws words)
