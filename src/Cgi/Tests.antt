-- ===== src/Cgi/Tests.antt =====
-- Variables that are added to small buffers.
use mg_web.Base.{
  if◌then◌else◌, ◌==◌, zero, suc, List, ◌+◌, ◌≤◌, ◌<◌, ◌≡◌, refl, [], ◌∷◌, ◌++◌, ◌⊎◌, arith,
}
use mg_web.Cgi.{
  given, refused, listed, GetCgiVariable, add_answers, Buffer, store_variable, add_cgi_variable,
}
use mg_web.Cgi.Append.{contents, variable_block, IsValid, add_cgi_variable_lem}
use mg_web.Cgi.Collect.{IsBounded, answer_blocks, add_answers-blocks}
use mg_web.Status.{success, failure}
use mg_web.Text.{CString, strncpy}
use mg_web.Wire.{add_block_size, set_size}

abbrev buffer : Buffer
buffer = record {
  len_alloc = 12;
  len_used = 1;
  buf_addr = 7 ∷ 0 ∷ 0 ∷ 0 ∷ 0 ∷ 0 ∷ 0 ∷ 0 ∷ 0 ∷ 0 ∷ 0 ∷ 0 ∷ [];
}

add_cgi_variable_test :
    (add_cgi_variable buffer (b'a' ∷ []) 1 (b'x' ∷ b'y' ∷ []) 2).0.buf_addr
    ≡ 7 ∷ 4 ∷ 0 ∷ 0 ∷ 0 ∷ 101 ∷ b'a' ∷ b'=' ∷ b'x' ∷ b'y' ∷ 0 ∷ 0 ∷ []
unfolding add_cgi_variable store_variable strncpy add_block_size set_size
add_cgi_variable_test = refl

add_cgi_variable_lem_example :
    let r = add_cgi_variable buffer (b'a' ∷ []) 1 (b'x' ∷ b'y' ∷ []) 2 in
    ((buffer.len_used + (1 + 2 + 6) < buffer.len_alloc)
      × (r.1 ≡ success)
      × (contents r.0 ≡ contents buffer ++ variable_block (b'a' ∷ []) 1 (b'x' ∷ b'y' ∷ []) 2)
      × IsValid r.0
      × (r.0.len_used < r.0.len_alloc))
    ⊎ ((buffer.len_alloc ≤ buffer.len_used + (1 + 2 + 6)) × (r ≡ (buffer, failure)))
add_cgi_variable_lem_example =
    add_cgi_variable_lem buffer (b'a' ∷ []) 1 (b'x' ∷ b'y' ∷ []) 2
      (record { within = omega arith; allocated = omega arith }) (omega arith) (omega arith)

-- A server that gives the value "x" to the variables of one letter, where there is room for it, and has one header for `*`.
abbrev gives : GetCgiVariable
gives (c ∷ []) (suc n) =
    if c == b'*' then listed ((b'h' ∷ [], b'y' ∷ []) ∷ []) else given (b'x' ∷ [])
gives _ _ = refused

gives-IsBounded : IsBounded gives
gives-IsBounded [] n v e = ground arith
gives-IsBounded (c ∷ []) zero v e = ground arith
gives-IsBounded (c ∷ []) (suc n) v e = ground arith
gives-IsBounded (c ∷ d ∷ s) n v e = ground arith

abbrev large : Buffer
large = record {
  len_alloc = 30;
  len_used = 0;
  buf_addr =
      0 ∷ 0 ∷ 0 ∷ 0 ∷ 0 ∷ 0 ∷ 0 ∷ 0 ∷ 0 ∷ 0 ∷ 0 ∷ 0 ∷ 0 ∷ 0 ∷ 0 ∷ 0 ∷ 0 ∷ 0 ∷ 0 ∷ 0 ∷ 0 ∷ 0 ∷ 0 ∷ 0
      ∷ 0 ∷ 0 ∷ 0 ∷ 0 ∷ 0 ∷ 0 ∷ [];
}

abbrev names : List CString
names = (b'a' ∷ []) ∷ (b'*' ∷ []) ∷ (b'a' ∷ b'b' ∷ []) ∷ []

add_answers-blocks_example :
    let r = add_answers gives large names in
    IsValid r × (contents r ≡ contents large ++ answer_blocks gives 30 0 names)
add_answers-blocks_example =
    add_answers-blocks gives large names (record { within = omega arith; allocated = omega arith })
      (omega arith) gives-IsBounded (omega arith, (omega arith, (omega arith, (omega arith, tt))))
