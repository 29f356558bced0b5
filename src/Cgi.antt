-- ===== src/Cgi.antt =====
-- src/mg_web.c: `mg_add_cgi_variable`, which adds a CGI variable to the request buffer, and the loop of
-- `mg_get_all_cgi_variables`, which adds those that the web server gives; src/mg_web.h: `DBXSTR`.
pub mod Append
pub mod Collect
mod Tests
use mg_web.Base.{
  ℕ, ◌+◌, ◌-◌, ◌%◌, ◌^◌, Bool, List, [], ◌∷◌, ◌++◌, none, length, leb, if◌then◌else◌, blit, set,
}
use mg_web.Status.{Rc, success, failure}
use mg_web.Text.{CString, strncpy}
use mg_web.Wire.{add_block_size, dsort_webcgi, dtype_str}

-- `len_alloc` is what the program takes for the size of the buffer, and the list is the memory.
pub record Buffer : Type 0 where
  pub len_alloc : ℕ
  pub len_used : ℕ
  pub buf_addr : List ℕ

-- The stores of `mg_add_cgi_variable`, in their order.
unfoldable pub store_variable : List ℕ → ℕ → CString → ℕ → CString → ℕ → List ℕ
store_variable mem used name name_len value value_len =
    let p = used + 5 in
    let named = blit mem p (strncpy name name_len) in
    let equals = set named (p + name_len) b'=' in
    let valued = blit equals (p + name_len + 1) (strncpy value value_len) in
    add_block_size valued used (name_len + value_len + 1) dsort_webcgi dtype_str

-- The `int` with the 32 low bits of a number, as the number that is 2 ^ 31 above it.
abbrev pub int_offset : ℕ → ℕ
int_offset n = (n + 2 ^ 31) % 2 ^ 32

-- `name_len + value_len + 6 >= alloc` for `alloc = len_alloc - len_used`, all of type `int`: what is added to the difference
-- is a multiple of 2 ^ 32.
abbrev pub is_full : Buffer → ℕ → ℕ → Bool
is_full b name_len value_len =
    leb (int_offset (b.len_alloc + (2 ^ 64 - b.len_used % 2 ^ 64)))
      (int_offset (name_len + value_len + 6))

-- The three lengths are of type `int`, and no size is below 0.
unfoldable pub add_cgi_variable : Buffer → CString → ℕ → CString → ℕ → Buffer × Rc
add_cgi_variable b name name_len value value_len =
    if is_full b name_len value_len then (b, failure) else (
      record b {
        buf_addr = store_variable b.buf_addr b.len_used name name_len value value_len;
        len_used = b.len_used + (name_len + value_len + 1 + 5);
      },
      success,
    )

-- What the web server answers for a CGI variable, given the room there is: its value, or that it has none or not the room; or, for
-- `HTTP*`, the names and values for which it has called `mg_add_cgi_variable` itself, as `MG_CGI_LIST` says.
pub data Answer : Type 0 where
  given : List ℕ → Answer
  refused : Answer
  listed : List (CString × CString) → Answer

abbrev pub GetCgiVariable : Type 0
GetCgiVariable = CString → ℕ → Answer

-- The calls for a list, one for each header of the request, whose results nobody looks at.
unfoldable pub add_list : List (CString × CString) → Buffer → Buffer
add_list [] b = b
add_list (h ∷ hs) b = add_list hs (add_cgi_variable b h.0 (length h.0) h.1 (length h.1)).0

-- One round of the loop of `mg_get_all_cgi_variables`: `strcpy` and `strcat` store the name, an `=` and
-- a zero, and the web server stores the value over the zero. The room that the source works out is
-- below 0 where the name itself does not fit, and stops at 0 here.
unfoldable pub add_answer : GetCgiVariable → Buffer → CString → Buffer
unfolding add_list
add_answer get_cgi_variable b name =
    let p = b.len_used + 5 in
    let len = length name + 1 in
    let named = blit b.buf_addr p (name ++ (b'=' ∷ 0 ∷ [])) in
    elim (get_cgi_variable name (b.len_alloc - (b.len_used + len + 5))) [
      | refused ↦ record b { buf_addr = named }
      | listed headers ↦ add_list headers (record b { buf_addr = named })
      | given value ↦ record b {
        buf_addr =
            add_block_size (blit named (p + len) value) b.len_used (len + length value) dsort_webcgi
              dtype_str;
        len_used = b.len_used + (len + length value + 5);
      }
    ]

unfoldable pub add_answers : GetCgiVariable → Buffer → List CString → Buffer
add_answers get_cgi_variable b [] = b
add_answers get_cgi_variable b (name ∷ names) =
    add_answers get_cgi_variable (add_answer get_cgi_variable b name) names
