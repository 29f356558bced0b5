-- ===== src/Cgi/Collect.antt =====
-- The loop of `mg_get_all_cgi_variables` packs all variables that the web server gives.
use mg_web.Base.{
  ℕ, zero, suc, ◌+◌, ◌-◌, ◌^◌, ◌≤◌, ◌<◌, ◌⊎◌, ◌≡◌, refl, sym, ap, ◌∙◌, List, [], ◌∷◌, ◌++◌, arith,
  length, take, blit, blit-blit_behind, blit-blit_before, take-blit, length-blit, length-append,
  append_assoc, append-nil, subst, inl, inr,
}
use mg_web.Cgi.{
  Buffer, GetCgiVariable, Answer, given, refused, listed, add_list, add_cgi_variable, add_answer,
  add_answers,
}
use mg_web.Cgi.Append.{contents, IsValid, variable_block, add_cgi_variable-fits}
use mg_web.Text.{CString}
use mg_web.Wire.{add_block_size, dsort_webcgi, dtype_str}
use mg_web.Wire.Blocks.{header_bytes, add_block_size-blit}

-- The block of a variable: header, name, '=' and value.
abbrev pub answer_block : CString → List ℕ → List ℕ
answer_block name value =
    header_bytes (length name + 1 + length value) dsort_webcgi dtype_str
    ++ ((name ++ (b'=' ∷ [])) ++ value)

-- The web server gives no more than there is room for.
abbrev pub IsBounded : GetCgiVariable → Type 0
IsBounded get = (name : CString) (n : ℕ) (v : List ℕ) → get name n ≡ given v → length v ≤ n

take-blit_beyond : (xs : List ℕ) (i k : ℕ) (vs : List ℕ) → i ≤ k → take i (blit xs k vs) ≡ take i xs
take-blit_beyond [] i k vs h = refl
take-blit_beyond (x ∷ xs) zero k vs h = refl
take-blit_beyond (x ∷ xs) (suc i) zero vs h = absurd (omega arith)
take-blit_beyond (x ∷ xs) (suc i) (suc k) vs h =
    ap (◌∷◌ x) (take-blit_beyond xs i k vs (omega arith))

-- The stores of one round are one store of the block, behind which a zero has been stored.
answer-blit :
    (mem : List ℕ) (used : ℕ) (name : CString) (value : List ℕ)
    → used + 5 ≤ length mem
    → let len = length name + 1 in
      add_block_size
        (blit (blit mem (used + 5) (name ++ (b'=' ∷ 0 ∷ []))) (used + 5 + len) value)
        used
        (len + length value)
        dsort_webcgi
        dtype_str
      ≡ blit (blit mem (used + 5 + len) (0 ∷ [])) used (answer_block name value)
answer-blit mem used name value fits =
    let len = length name + 1 in
    let ns = name ++ (b'=' ∷ []) in
    let zeroed = blit mem (used + 5 + len) (0 ∷ []) in
    let long : length ns ≡ len = length-append name (b'=' ∷ []) in
    let named : blit mem (used + 5) (name ++ (b'=' ∷ 0 ∷ [])) ≡ blit zeroed (used + 5) ns =
      ap (blit mem (used + 5)) (sym (append_assoc name (b'=' ∷ []) (0 ∷ [])))
      ∙ sym (blit-blit_before mem (used + 5) ns (0 ∷ []))
      ∙ ap (λ k. blit (blit mem (used + 5 + k) (0 ∷ [])) (used + 5) ns) long in
    let valued : blit (blit zeroed (used + 5) ns) (used + 5 + len) value
        ≡ blit zeroed (used + 5) (ns ++ value) =
      subst
        (λ k.
          blit (blit zeroed (used + 5) ns) (used + 5 + k) value
          ≡ blit zeroed (used + 5) (ns ++ value))
        long (blit-blit_behind zeroed (used + 5) ns value) in
    rw (named, valued)
      (add_block_size-blit _ used (len + length value) dsort_webcgi dtype_str (
          omega (
            arith,
            length-blit zeroed (used + 5) (ns ++ value),
            length-blit mem (used + 5 + len) (0 ∷ []),
          ))
        ∙ blit-blit_before zeroed used (header_bytes (len + length value) dsort_webcgi dtype_str)
            (ns ++ value))

-- The room for a value, as the source works it out.
abbrev pub space : ℕ → ℕ → CString → ℕ
space alloc used name = alloc - (used + (length name + 1) + 5)

-- The blocks of a list, and their length.
abbrev pub list_blocks : List (CString × CString) → List ℕ
list_blocks [] = []
list_blocks (h ∷ hs) = variable_block h.0 (length h.0) h.1 (length h.1) ++ list_blocks hs

abbrev pub list_length : List (CString × CString) → ℕ
list_length [] = 0
list_length (h ∷ hs) = length h.0 + length h.1 + 6 + list_length hs

-- The blocks of the variables that are given or listed, and the length of the data behind each.
abbrev pub answer_blocks : GetCgiVariable → ℕ → ℕ → List CString → List ℕ
answer_blocks get alloc used [] = []
answer_blocks get alloc used (name ∷ names) = elim (get name (space alloc used name)) [
  | refused ↦ answer_blocks get alloc used names
  | listed hs ↦ list_blocks hs ++ answer_blocks get alloc (used + list_length hs) names
  | given v ↦
      answer_block name v ++ answer_blocks get alloc (used + (length name + 1 + length v + 5)) names
]

answer_blocks-refused :
    (get : GetCgiVariable) (alloc used : ℕ) (name : CString) (names : List CString)
    → get name (space alloc used name) ≡ refused
    → answer_blocks get alloc used (name ∷ names) ≡ answer_blocks get alloc used names
answer_blocks-refused get alloc used name names e = rw (answer_blocks, e) refl

answer_blocks-given :
    (get : GetCgiVariable) (alloc used : ℕ) (name : CString) (names : List CString) (v : List ℕ)
    → get name (space alloc used name) ≡ given v
    → answer_blocks get alloc used (name ∷ names)
      ≡ answer_block name v
        ++ answer_blocks get alloc (used + (length name + 1 + length v + 5)) names
answer_blocks-given get alloc used name names v e = rw (answer_blocks, e) refl

answer_blocks-listed :
    (get : GetCgiVariable) (alloc used : ℕ) (name : CString) (names : List CString)
    (hs : List (CString × CString))
    → get name (space alloc used name) ≡ listed hs
    → answer_blocks get alloc used (name ∷ names)
      ≡ list_blocks hs ++ answer_blocks get alloc (used + list_length hs) names
answer_blocks-listed get alloc used name names hs e = rw (answer_blocks, e) refl

-- There is room for each name, its `=` and a zero behind the data at its round.
abbrev pub HasRoom : GetCgiVariable → ℕ → ℕ → List CString → Type 0
HasRoom get alloc used [] = Unit {0}
HasRoom get alloc used (name ∷ names) =
    (used + 5 + length name + 2 ≤ alloc) × (elim (get name (space alloc used name)) [
      | refused ↦ HasRoom get alloc used names
      | listed hs ↦
          (used + list_length hs < alloc) × HasRoom get alloc (used + list_length hs) names
      | given v ↦ HasRoom get alloc (used + (length name + 1 + length v + 5)) names
    ])

add_answer-refused :
    (get : GetCgiVariable) (b : Buffer) (name : CString)
    → IsValid b
    → get name (space b.len_alloc b.len_used name) ≡ refused
    → let r = add_answer get b name in
      IsValid r
      × (contents r ≡ contents b)
      × (r.len_used ≡ b.len_used)
      × (r.len_alloc ≡ b.len_alloc)
unfolding add_answer
add_answer-refused get b name ok e =
    let stored = name ++ (b'=' ∷ 0 ∷ []) in
    rw (add_answer, e)
      (
        record {
          within = ok.within;
          allocated = omega (arith, length-blit b.buf_addr (b.len_used + 5) stored, ok.allocated);
        },
        take-blit_beyond b.buf_addr b.len_used (b.len_used + 5) stored (omega arith),
        refl,
        refl,
      )

-- A list whose blocks fit is appended.
add_list-blocks :
    (hs : List (CString × CString)) (b : Buffer)
    → IsValid b
    → b.len_alloc < 2 ^ 31
    → b.len_used + list_length hs < b.len_alloc
    → let r = add_list hs b in
      IsValid r
      × (contents r ≡ contents b ++ list_blocks hs)
      × (r.len_used ≡ b.len_used + list_length hs)
      × (r.len_alloc ≡ b.len_alloc)
unfolding add_list
add_list-blocks [] b ok small fits = (ok, sym (append-nil (contents b)), omega arith, refl)
add_list-blocks (h ∷ hs) b ok small fits =
    let (ok', holds, used, alloc) =
      add_cgi_variable-fits b h.0 (length h.0) h.1 (length h.1) ok small (omega arith) in
    let b' = (add_cgi_variable b h.0 (length h.0) h.1 (length h.1)).0 in
    let (ok'', rest, used', alloc') =
      add_list-blocks hs b' ok' (omega (arith, alloc)) (omega (arith, alloc, used)) in
    (
      ok'',
      rest
          ∙ ap (λ l. l ++ list_blocks hs) holds
          ∙ append_assoc (contents b) (variable_block h.0 (length h.0) h.1 (length h.1))
              (list_blocks hs),
      omega (arith, used, used'),
      alloc' ∙ alloc,
    )

add_answer-listed :
    (get : GetCgiVariable) (b : Buffer) (name : CString) (hs : List (CString × CString))
    → IsValid b
    → b.len_alloc < 2 ^ 31
    → b.len_used + list_length hs < b.len_alloc
    → get name (space b.len_alloc b.len_used name) ≡ listed hs
    → let r = add_answer get b name in
      IsValid r
      × (contents r ≡ contents b ++ list_blocks hs)
      × (r.len_used ≡ b.len_used + list_length hs)
      × (r.len_alloc ≡ b.len_alloc)
unfolding add_answer
add_answer-listed get b name hs ok small fits e =
    let stored = name ++ (b'=' ∷ 0 ∷ []) in
    let named : Buffer = record b { buf_addr = blit b.buf_addr (b.len_used + 5) stored } in
    let valid : IsValid named = record {
      within = ok.within;
      allocated = omega (arith, length-blit b.buf_addr (b.len_used + 5) stored, ok.allocated);
    } in
    let (ok', holds, used, alloc) = add_list-blocks hs named valid small fits in
    let same = take-blit_beyond b.buf_addr b.len_used (b.len_used + 5) stored (omega arith) in
    rw (add_answer, e) (ok', holds ∙ ap (λ l. l ++ list_blocks hs) same, used, alloc)

-- The buffer behind a round whose variable is given.
abbrev packed : Buffer → CString → List ℕ → Buffer
packed b name v = record b {
  buf_addr =
      blit (blit b.buf_addr (b.len_used + 5 + (length name + 1)) (0 ∷ [])) b.len_used
        (answer_block name v);
  len_used = b.len_used + (length name + 1 + length v + 5);
}

add_answer-packed :
    (get : GetCgiVariable) (b : Buffer) (name : CString) (v : List ℕ)
    → b.len_used + 5 ≤ length b.buf_addr
    → get name (space b.len_alloc b.len_used name) ≡ given v
    → add_answer get b name ≡ packed b name v
unfolding add_answer
add_answer-packed get b name v fits e =
    rw (add_answer, e, answer-blit b.buf_addr b.len_used name v fits) refl

add_answer-given :
    (get : GetCgiVariable) (b : Buffer) (name : CString) (v : List ℕ)
    → IsValid b
    → IsBounded get
    → b.len_used + 5 + length name + 2 ≤ b.len_alloc
    → get name (space b.len_alloc b.len_used name) ≡ given v
    → let r = add_answer get b name in
      IsValid r
      × (contents r ≡ contents b ++ answer_block name v)
      × (r.len_used ≡ b.len_used + (length name + 1 + length v + 5))
      × (r.len_alloc ≡ b.len_alloc)
add_answer-given get b name v ok bounded room e =
    let len = length name + 1 in
    let used = b.len_used in
    let fits = bounded name (space b.len_alloc used name) v e in
    let zeroed = blit b.buf_addr (used + 5 + len) (0 ∷ []) in
    let stored = add_answer-packed get b name v (omega (arith, ok.allocated, room)) e in
    let block = answer_block name v in
    let size : length block ≡ len + length v + 5 =
      omega (arith, length-append (name ++ (b'=' ∷ [])) v, length-append name (b'=' ∷ [])) in
    let kept = length-blit b.buf_addr (used + 5 + len) (0 ∷ []) in
    let whole : take (used + length block) (blit zeroed used block) ≡ take used zeroed ++ block =
      take-blit zeroed used block (omega (arith, kept, size, fits, room, ok.allocated)) in
    rw stored (
      record {
        within = omega (arith, fits, room);
        allocated = omega (arith, length-blit zeroed used block, kept, ok.allocated);
      },
      subst (λ k. take (used + k) (blit zeroed used block) ≡ take used zeroed ++ block) size whole
          ∙ ap (λ l. l ++ block)
              (take-blit_beyond b.buf_addr used (used + 5 + len) (0 ∷ []) (omega arith)),
      refl,
      refl,
    )

Answer-cases :
    (a : Answer)
    → (a ≡ refused)
      ⊎ (((v : List ℕ) × (a ≡ given v)) ⊎ ((hs : List (CString × CString)) × (a ≡ listed hs)))
Answer-cases refused = inl refl
Answer-cases (given v) = inr (inl (v, refl))
Answer-cases (listed hs) = inr (inr (hs, refl))

-- The loop of `mg_get_all_cgi_variables` on a valid buffer of less than 2 ^ 31 bytes, where the web server gives no
-- more than there is room for, and there is room for each name at its round and for the blocks of a list: it appends
-- the blocks of all the variables that are given, and those of the headers where it answers with a list, in
-- their order, and no others, and the buffer is valid.
pub add_answers-blocks :
    (get : GetCgiVariable) (b : Buffer) (names : List CString)
    → IsValid b
    → b.len_alloc < 2 ^ 31
    → IsBounded get
    → HasRoom get b.len_alloc b.len_used names
    → let r = add_answers get b names in
      IsValid r × (contents r ≡ contents b ++ answer_blocks get b.len_alloc b.len_used names)
unfolding add_answers
add_answers-blocks get b [] ok small bounded room = (ok, sym (append-nil (contents b)))
add_answers-blocks get b (name ∷ names) ok small bounded room =
    let b' = add_answer get b name in
    elim (Answer-cases (get name (space b.len_alloc b.len_used name))) [
      | inl e ↦
          let (ok', holds, used, alloc) = add_answer-refused get b name ok e in
          let room' : HasRoom get b'.len_alloc b'.len_used names =
            rw (used, alloc) (rw e at room.1) in
          let (ok'', rest) =
            add_answers-blocks get b' names ok' (omega (arith, alloc)) bounded room' in
          (
            ok'',
            rw
                (
                  rest,
                  holds,
                  used,
                  alloc,
                  answer_blocks-refused get b.len_alloc b.len_used name names e,
                )
                refl,
          )
      | inr (inr (hs, e)) ↦
          let both : (b.len_used + list_length hs < b.len_alloc)
              × HasRoom get b.len_alloc (b.len_used + list_length hs) names =
            rw e at room.1 in
          let (ok', holds, used, alloc) = add_answer-listed get b name hs ok small both.0 e in
          let room' : HasRoom get b'.len_alloc b'.len_used names = rw (used, alloc) both.1 in
          let (ok'', rest) =
            add_answers-blocks get b' names ok' (omega (arith, alloc)) bounded room' in
          (
            ok'',
            rw
                (
                  rest,
                  holds,
                  used,
                  alloc,
                  answer_blocks-listed get b.len_alloc b.len_used name names hs e,
                )
                (append_assoc (contents b) (list_blocks hs) _),
          )
      | inr (inl (v, e)) ↦
          let (ok', holds, used, alloc) = add_answer-given get b name v ok bounded room.0 e in
          let room' : HasRoom get b'.len_alloc b'.len_used names =
            rw (used, alloc) (rw e at room.1) in
          let (ok'', rest) =
            add_answers-blocks get b' names ok' (omega (arith, alloc)) bounded room' in
          (
            ok'',
            rw
                (
                  rest,
                  holds,
                  used,
                  alloc,
                  answer_blocks-given get b.len_alloc b.len_used name names v e,
                )
                (append_assoc (contents b) (answer_block name v) _),
          )
    ]
