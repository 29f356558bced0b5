-- ===== src/Cgi/Append.antt =====
-- `mg_add_cgi_variable` appends one block to what the buffer holds.
use mg_web.Base.{
  ℕ, zero, suc, ◌+◌, ◌-◌, ◌%◌, ◌^◌, ◌≤◌, ◌<◌, ◌≡◌, refl, sym, ap, ◌∙◌, List, [], ◌∷◌, ◌++◌, arith,
  length, set, take, blit, blit-nil, blit-blit_behind, blit-blit_before, take-blit, length-blit,
  length-append, leb, subst, Bool-cases, inl, inr, ◌⊎◌, append_assoc, false,
}
use mg_web.Cgi.{Buffer, is_full, store_variable, add_cgi_variable}
use mg_web.Status.{success, failure}
use mg_web.Text.{CString, strncpy}
use mg_web.Wire.{dsort_webcgi, dtype_str}
use mg_web.Wire.Blocks.{header_bytes, add_block_size-blit}

-- The block of a variable: header, name, '=' and value.
abbrev pub variable_block : CString → ℕ → CString → ℕ → List ℕ
variable_block name name_len value value_len =
    header_bytes (name_len + value_len + 1) dsort_webcgi dtype_str
    ++ (strncpy name name_len ++ (b'=' ∷ strncpy value value_len))

-- The bytes that the buffer holds.
abbrev pub contents : Buffer → List ℕ
contents b = take b.len_used b.buf_addr

pub record IsValid (b : Buffer) : Type 0 where
  pub within : b.len_used ≤ b.len_alloc
  pub allocated : b.len_alloc ≤ length b.buf_addr

length-strncpy : (s : CString) (n : ℕ) → length (strncpy s n) ≡ n
unfolding strncpy
length-strncpy s zero = refl
length-strncpy [] (suc n) = ap suc (length-strncpy [] n)
length-strncpy (c ∷ s) (suc n) = ap suc (length-strncpy s n)

set-blit : (xs : List ℕ) (i v : ℕ) → set xs i v ≡ blit xs i (v ∷ [])
set-blit [] i v = refl
set-blit (x ∷ xs) zero v = ap (◌∷◌ v) (sym (blit-nil xs))
set-blit (x ∷ xs) (suc i) v = ap (◌∷◌ x) (set-blit xs i v)

-- Three stores, one behind the other, are one store.
blit_three :
    (mem us vs ws : List ℕ) (p : ℕ)
    → blit (blit (blit mem p us) (p + length us) vs) (p + length us + length vs) ws
      ≡ blit mem p (us ++ (vs ++ ws))
blit_three mem us vs ws p =
    let e : p + length us + length vs ≡ p + length (us ++ vs) =
      omega (arith, length-append us vs) in
    rw
      (blit-blit_behind mem p us vs, e, blit-blit_behind mem p (us ++ vs) ws, append_assoc us vs ws)

-- The stores of the source are one store of the block.
store_variable-blit :
    (mem : List ℕ) (used : ℕ) (name : CString) (n : ℕ) (value : CString) (v : ℕ)
    → used + (n + v + 6) ≤ length mem
    → store_variable mem used name n value v ≡ blit mem used (variable_block name n value v)
unfolding store_variable
store_variable-blit mem used name n value v fits =
    let ns = strncpy name n in
    let vs = strncpy value v in
    let stored : blit (set (blit mem (used + 5) ns) (used + 5 + n) b'=') (used + 5 + n + 1) vs
        ≡ blit mem (used + 5) (ns ++ (b'=' ∷ vs)) =
      rw (set-blit _ (used + 5 + n) b'=') (
        subst
          (λ k.
            blit (blit (blit mem (used + 5) ns) (used + 5 + k) (b'=' ∷ [])) (used + 5 + k + 1) vs
            ≡ blit mem (used + 5) (ns ++ (b'=' ∷ vs)))
          (length-strncpy name n) (blit_three mem ns (b'=' ∷ []) vs (used + 5))) in
    rw stored (
      add_block_size-blit _ used (n + v + 1) dsort_webcgi dtype_str
        (rw (length-blit mem (used + 5) (ns ++ (b'=' ∷ vs))) (omega arith))
      ∙ blit-blit_before mem used (header_bytes (n + v + 1) dsort_webcgi dtype_str)
          (ns ++ (b'=' ∷ vs)))

length-variable_block :
    (name : CString) (n : ℕ) (value : CString) (v : ℕ)
    → length (variable_block name n value v) ≡ n + v + 6
length-variable_block name n value v = omega (
  arith,
  length-append (strncpy name n) (b'=' ∷ strncpy value v),
  length-strncpy name n,
  length-strncpy value v,
)

-- What the memory holds behind the stores.
stored_block :
    (mem : List ℕ) (used : ℕ) (name : CString) (n : ℕ) (value : CString) (v : ℕ)
    → used + (n + v + 6) ≤ length mem
    → let mem' = store_variable mem used name n value v in
      (take (used + (n + v + 1 + 5)) mem' ≡ take used mem ++ variable_block name n value v)
      × (length mem' ≡ length mem)
stored_block mem used name n value v fits =
    let block = variable_block name n value v in
    let len = length-variable_block name n value v in
    let e : used + (n + v + 1 + 5) ≡ used + length block = omega (arith, len) in
    rw (store_variable-blit mem used name n value v fits, e)
      (take-blit mem used block (omega (arith, len)), length-blit mem used block)

-- Where the numbers are far enough from 2 ^ 31, the comparison of the source is that of the numbers.
is_full-leb :
    (b : Buffer) (n v : ℕ)
    → b.len_used ≤ b.len_alloc
    → b.len_alloc < 2 ^ 31
    → n + v + 6 < 2 ^ 31
    → is_full b n v ≡ leb b.len_alloc (b.len_used + (n + v + 6))
is_full-leb b n v within small short =
    let low : b.len_used % 2 ^ 64 ≡ b.len_used = omega arith in
    let room : (b.len_alloc + (2 ^ 64 - b.len_used) + 2 ^ 31) % 2 ^ 32
        ≡ b.len_alloc - b.len_used + 2 ^ 31 =
      omega arith in
    let need : (n + v + 6 + 2 ^ 31) % 2 ^ 32 ≡ n + v + 6 + 2 ^ 31 = omega arith in
    rw (low, room, need) (ground arith)

-- A block that fits is appended.
pub add_cgi_variable-fits :
    (b : Buffer) (name : CString) (n : ℕ) (value : CString) (v : ℕ)
    → IsValid b
    → b.len_alloc < 2 ^ 31
    → b.len_used + (n + v + 6) < b.len_alloc
    → let r = (add_cgi_variable b name n value v).0 in
      IsValid r
      × (contents r ≡ contents b ++ variable_block name n value v)
      × (r.len_used ≡ b.len_used + (n + v + 6))
      × (r.len_alloc ≡ b.len_alloc)
unfolding add_cgi_variable
add_cgi_variable-fits b name n value v ok small fits =
    let guard = is_full-leb b n v ok.within small (omega arith) in
    let not_full : leb b.len_alloc (b.len_used + (n + v + 6)) ≡ false = ground arith in
    let (added, len) =
      stored_block b.buf_addr b.len_used name n value v (omega (arith, ok.allocated)) in
    rw (guard, not_full)
      (record { within = omega arith; allocated = rw len ok.allocated }, added, omega arith, refl)

-- `mg_add_cgi_variable` on a valid buffer of less than 2 ^ 31 bytes, for a name and a value whose block
-- has less than 2 ^ 31 bytes: where the block and one byte more fit into what is left, it succeeds,
-- appends the block to the contents of the buffer, and the buffer is valid with room left; where they do
-- not fit, it fails and leaves the buffer as it was.
pub add_cgi_variable_lem :
    (b : Buffer) (name : CString) (n : ℕ) (value : CString) (v : ℕ)
    → IsValid b
    → b.len_alloc < 2 ^ 31
    → n + v + 6 < 2 ^ 31
    → let r = add_cgi_variable b name n value v in
      ((b.len_used + (n + v + 6) < b.len_alloc)
        × (r.1 ≡ success)
        × (contents r.0 ≡ contents b ++ variable_block name n value v)
        × IsValid r.0
        × (r.0.len_used < r.0.len_alloc))
      ⊎ ((b.len_alloc ≤ b.len_used + (n + v + 6)) × (r ≡ (b, failure)))
unfolding add_cgi_variable
add_cgi_variable_lem b name n value v ok small short =
    let guard = is_full-leb b n v ok.within small short in
    elim (Bool-cases (leb b.len_alloc (b.len_used + (n + v + 6)))) [
      | inl full ↦ inr (ground arith, rw (guard, full) refl)
      | inr fits ↦
          let (added, len) = stored_block b.buf_addr b.len_used name n value v (ground arith) in
          rw (guard, fits)
            (inl (
              ground arith,
              refl,
              added,
              record { within = ground arith; allocated = rw len ok.allocated },
              ground arith,
            ))
    ]
