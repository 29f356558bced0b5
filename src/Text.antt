-- ===== src/Text.antt =====
-- src/mg_web.c: `mg_ucase`, `mg_lcase` and `mg_ccase`, and the functions of the C library on strings
-- that the other components use. A C string is the list of its bytes in front of the terminator; the
-- three case functions walk over memory up to a zero byte and are given that memory.
pub mod Case
pub mod Compare
mod Tests
use mg_web.Base.{
  ℕ, zero, suc, ◌+◌, ◌-◌, List, [], ◌∷◌, Bool, true, false, ◌&&◌, ◌||◌, leb, ◌==◌, if◌then◌else◌,
  Option, none, some,
}

abbrev pub CString : Type 0
CString = List ℕ

abbrev pub is_lower : ℕ → Bool
is_lower chr = leb 97 chr && leb chr 122

abbrev pub is_upper : ℕ → Bool
is_upper chr = leb 65 chr && leb chr 90

abbrev pub is_digit : ℕ → Bool
is_digit chr = leb 48 chr && leb chr 57

unfoldable pub ucase : List ℕ → List ℕ
ucase [] = []
ucase (chr ∷ s) = if chr == 0 then chr ∷ s else ((if is_lower chr then chr - 32 else chr) ∷ ucase s)

unfoldable pub lcase : List ℕ → List ℕ
lcase [] = []
lcase (chr ∷ s) = if chr == 0 then chr ∷ s else ((if is_upper chr then chr + 32 else chr) ∷ lcase s)

-- One byte of `mg_ccase`; the flag is `!n || string[n - 1] == '-'`.
abbrev pub ccase_byte : Bool → ℕ → ℕ
ccase_byte initial chr =
    if initial
    then (if is_lower chr then chr - 32 else chr)
    else if is_upper chr
    then chr + 32
    else chr

-- The loop of `mg_ccase`. The byte at `n - 1` is the one that the last round has stored.
unfoldable pub ccase_from : Bool → List ℕ → List ℕ
ccase_from initial [] = []
ccase_from initial (chr ∷ s) =
    if chr == 0
    then chr ∷ s
    else (ccase_byte initial chr ∷ ccase_from (ccase_byte initial chr == b'-') s)

abbrev pub ccase : List ℕ → List ℕ
ccase = ccase_from true

-- `!strcmp(s, t)`
unfoldable pub strcmp_eq : CString → CString → Bool
strcmp_eq [] [] = true
strcmp_eq (a ∷ s) (b ∷ t) = a == b && strcmp_eq s t
strcmp_eq _ _ = false

-- `!strncmp(s, t, n)`
unfoldable pub strncmp_eq : CString → CString → ℕ → Bool
strncmp_eq s t zero = true
strncmp_eq [] [] (suc n) = true
strncmp_eq [] (b ∷ t) (suc n) = false
strncmp_eq (a ∷ s) [] (suc n) = false
strncmp_eq (a ∷ s) (b ∷ t) (suc n) = a == b && strncmp_eq s t n

-- `strncpy(p, s, n)`: the `n` bytes that it stores.
unfoldable pub strncpy : CString → ℕ → List ℕ
strncpy s zero = []
strncpy [] (suc n) = 0 ∷ strncpy [] n
strncpy (c ∷ s) (suc n) = c ∷ strncpy s n

-- Whether `s` begins with `t`.
unfoldable pub starts_with : CString → CString → Bool
starts_with s [] = true
starts_with [] (b ∷ t) = false
starts_with (a ∷ s) (b ∷ t) = a == b && starts_with s t

-- `strstr(s, t)`: what stands in front of the first occurrence, and the string from there on.
unfoldable pub strstr : CString → CString → Option (CString × CString)
strstr [] t = if starts_with [] t then some ([], []) else none
strstr (a ∷ s) t =
    let rest = strstr s t in
    if starts_with (a ∷ s) t
    then some ([], a ∷ s)
    else elim rest [ none ↦ none | some (before, found) ↦ some (a ∷ before, found) ]

-- The string at the head of this memory.
unfoldable pub c_string : List ℕ → CString
c_string [] = []
c_string (chr ∷ s) = let rest = c_string s in if chr == 0 then [] else (chr ∷ rest)

-- What stands in front of the first byte `stop`, or all of the string.
unfoldable pub until : ℕ → CString → CString
until stop [] = []
until stop (chr ∷ s) = let rest = until stop s in if chr == stop then [] else (chr ∷ rest)
