-- ===== src/WebSocket/Utf8/WellFormed.antt =====
-- The table against the definition of UTF-8 by the encoding of characters.
use mg_web.Base.{
  ℕ, zero, suc, ◌+◌, ◌-◌, ◌*◌, ◌/◌, ◌%◌, ◌≤◌, ◌<◌, ◌≡◌, ◌≢◌, refl, sym, ap, ◌∙◌, List, [], ◌∷◌,
  ◌++◌, ltb, if◌then◌else◌, arith, ◌⊎◌, inl, inr, ◌↔◌, length, subst,
}
use mg_web.WebSocket.Utf8.{Utf8State, s0, er, lead, validate_utf8, validate}

-- The bytes that encode a character.
unfoldable pub encode : ℕ → List ℕ
encode c =
    if ltb c 0x80
    then (c ∷ [])
    else if ltb c 0x800
    then ((0xc0 + c / 64) ∷ (0x80 + c % 64) ∷ [])
    else if ltb c 0x10000
    then ((0xe0 + c / 4096) ∷ (0x80 + c / 64 % 64) ∷ (0x80 + c % 64) ∷ [])
    else ((0xf0 + c / 262144)
        ∷ (0x80 + c / 4096 % 64)
        ∷ (0x80 + c / 64 % 64)
        ∷ (0x80 + c % 64)
        ∷ [])

-- A character is a number that is no surrogate.
abbrev pub IsScalar : ℕ → Type 0
IsScalar c = (c < 0xd800) ⊎ ((0xe000 ≤ c) × (c < 0x110000))

abbrev pub AreScalars : List ℕ → Type 0
AreScalars [] = Unit {0}
AreScalars (c ∷ cs) = IsScalar c × AreScalars cs

abbrev pub encode_all : List ℕ → List ℕ
encode_all [] = []
encode_all (c ∷ cs) = encode c ++ encode_all cs

validate-encode :
    (c : ℕ) (rest : List ℕ) → IsScalar c → validate s0 (encode c ++ rest) ≡ validate s0 rest
unfolding validate validate_utf8 encode
validate-encode c rest h = ground arith

validate-encode_all : (cs : List ℕ) → AreScalars cs → validate s0 (encode_all cs) ≡ s0
unfolding validate
validate-encode_all [] h = refl
validate-encode_all (c ∷ cs) h = validate-encode c (encode_all cs) h.0 ∙ validate-encode_all cs h.1

abbrev pub WellFormed : List ℕ → Type 0
WellFormed s = (cs : List ℕ) × AreScalars cs × (s ≡ encode_all cs)

-- One character in front.
Starts : List ℕ → List ℕ → Type 0
Starts s rest = (c : ℕ) × IsScalar c × (s ≡ encode c ++ rest)

one_byte : (a : ℕ) (s : List ℕ) → lead a ≡ s0 → Starts (a ∷ s) s
unfolding Starts lead encode
one_byte a s h = (a, ground arith, ground arith)

two_bytes :
    (a b : ℕ) (s : List ℕ) → lead a ≢ s0 → validate_utf8 (lead a) b ≡ s0 → Starts (a ∷ b ∷ s) s
unfolding Starts validate_utf8 encode
two_bytes a b s n h = ((a - 0xc0) * 64 + (b - 0x80), ground arith, ground arith)

three_bytes :
    (a b c : ℕ) (s : List ℕ)
    → lead a ≢ s0
    → validate_utf8 (lead a) b ≢ s0
    → validate_utf8 (validate_utf8 (lead a) b) c ≡ s0
    → Starts (a ∷ b ∷ c ∷ s) s
unfolding Starts validate_utf8 encode
three_bytes a b c s n m h =
    ((a - 0xe0) * 4096 + (b - 0x80) * 64 + (c - 0x80), ground arith, ground arith)

four_bytes :
    (a b c d : ℕ) (s : List ℕ)
    → lead a ≢ s0
    → validate_utf8 (lead a) b ≢ s0
    → validate_utf8 (validate_utf8 (lead a) b) c ≢ s0
    → validate_utf8 (validate_utf8 (validate_utf8 (lead a) b) c) d ≡ s0
    → Starts (a ∷ b ∷ c ∷ d ∷ s) s
unfolding Starts validate_utf8 encode
four_bytes a b c d s n m k h = (
  (a - 0xf0) * 262144 + (b - 0x80) * 4096 + (c - 0x80) * 64 + (d - 0x80),
  ground arith,
  ground arith,
)

Utf8State-s0 : (u : Utf8State) → (u ≡ s0) ⊎ (u ≢ s0)
Utf8State-s0 s0 = inl refl
Utf8State-s0 u = inr (λ e. cc)

-- A character that is begun goes on with a byte.
Continues : Utf8State → List ℕ → Type 0
Continues u s = (b : ℕ) × (r : List ℕ) × (s ≡ b ∷ r) × (validate (validate_utf8 u b) r ≡ s0)

validate-Continues : (u : Utf8State) (s : List ℕ) → u ≢ s0 → validate u s ≡ s0 → Continues u s
unfolding validate Continues
validate-Continues u [] n h = absurd (n h)
validate-Continues u (b ∷ r) n h = (b, r, refl, ground arith)

fourth_byte :
    (a b c d : ℕ)
    → lead a ≢ s0
    → validate_utf8 (lead a) b ≢ s0
    → validate_utf8 (validate_utf8 (lead a) b) c ≢ s0
    → (validate_utf8 (validate_utf8 (validate_utf8 (lead a) b) c) d ≡ s0)
      ⊎ (validate_utf8 (validate_utf8 (validate_utf8 (lead a) b) c) d ≡ er)
unfolding validate_utf8
fourth_byte a b c d n m k = ground arith

validate-er : (s : List ℕ) → validate er s ≡ er
unfolding validate validate_utf8
validate-er [] = refl
validate-er (c ∷ s) = refl

er-ne-s0 : er ≢ s0
er-ne-s0 e = cc

-- A text that is accepted goes on from the state that its first byte leads to.
validate-lead : (a : ℕ) (s : List ℕ) → validate s0 (a ∷ s) ≡ s0 → validate (lead a) s ≡ s0
unfolding validate validate_utf8
validate-lead a s h = ground arith

Starts-WellFormed : (s rest : List ℕ) → Starts s rest → WellFormed rest → WellFormed s
unfolding Starts
Starts-WellFormed s rest (c, ok, e) (cs, oks, es) = (c ∷ cs, (ok, oks), e ∙ ap (◌++◌ (encode c)) es)

moved : {u v : Utf8State} (s : List ℕ) → u ≡ v → validate u s ≡ s0 → validate v s ≡ s0
moved s e h = subst (λ u. validate u s ≡ s0) e h

-- What stands behind the first character is shorter, and valid.
Splits : List ℕ → Type 0
Splits s = (rest : List ℕ) × (length rest < length s) × Starts s rest × (validate s0 rest ≡ s0)

validate-Splits : (a : ℕ) (s : List ℕ) → validate (lead a) s ≡ s0 → Splits (a ∷ s)
unfolding Splits Continues
validate-Splits a s h = elim (Utf8State-s0 (lead a)) [
  | inl e ↦ (s, omega arith, one_byte a s e, moved s e h)
  | inr n ↦
      let (b, s', at, h') = validate-Continues (lead a) s n h in
      rw at (elim (Utf8State-s0 (validate_utf8 (lead a) b)) [
        | inl e ↦ (s', omega arith, two_bytes a b s' n e, moved s' e h')
        | inr m ↦
            let (c, s'', at', h'') = validate-Continues (validate_utf8 (lead a) b) s' m h' in
            rw at' (elim (Utf8State-s0 (validate_utf8 (validate_utf8 (lead a) b) c)) [
              | inl e ↦ (s'', omega arith, three_bytes a b c s'' n m e, moved s'' e h'')
              | inr k ↦
                  let (d, t, at'', last) = validate-Continues _ s'' k h'' in
                  rw at'' (elim (fourth_byte a b c d n m k) [
                    | inl e ↦ (t, omega arith, four_bytes a b c d t n m k e, moved t e last)
                    | inr e ↦ absurd (er-ne-s0 (sym (validate-er t) ∙ moved t e last))
                  ])
            ])
      ])
]

validate-WellFormed_bounded :
    (n : ℕ) (s : List ℕ) → length s ≤ n → validate s0 s ≡ s0 → WellFormed s
unfolding Splits
validate-WellFormed_bounded n [] le h = ([], tt, refl)
validate-WellFormed_bounded zero (a ∷ s) le h = absurd (omega arith)
validate-WellFormed_bounded (suc n) (a ∷ s) le h =
    let (rest, shorter, begins, valid) = validate-Splits a s (validate-lead a s h) in
    Starts-WellFormed (a ∷ s) rest begins (validate-WellFormed_bounded n rest (omega arith) valid)

-- The table accepts a text, from its start state back to it, just if the text consists of encoded
-- characters: one to four bytes each, none longer than it has to be, and no surrogate.
pub validate-WellFormed : (s : List ℕ) → (validate s0 s ≡ s0) ↔ WellFormed s
validate-WellFormed s = (
  λ h. validate-WellFormed_bounded (length s) s (omega arith) h,
  λ h. ap (validate s0) h.2 ∙ validate-encode_all h.0 h.1,
)
