-- ===== src/Pool/Dial.antt =====
-- src/mg_web.c: `mg_connect`, which opens a new connection. The network's answers and the clock are
-- parameters: `dial n` tells whether `netx_tcp_connect` and the handshake succeed at attempt `n`,
-- `clock n` is the number of seconds since the call when `n` attempts have failed, and `open_db` is
-- the answer of `isc_open` or `ydb_open`. The pauses between the attempts are in the clock.
pub mod Retry
use mg_web.Base.{ℕ, zero, suc, ◌+◌, Bool, true, false, ◌&&◌, ltb, if◌then◌else◌}
use mg_web.Pool.{State, Connection, update_connection}
use mg_web.Status.{Rc, success, nocon}
use mg_web.Types.{Server}

-- How the attempts end, with their number; `dialing` means that the tries given were not enough.
pub data Dialed : Type 0 where
  connected refused : ℕ → Dialed
  dialing : Dialed

-- Whether the loop gives up behind `con_retry_no` attempts that have failed.
abbrev pub gives_up : (ℕ → ℕ) → Server → ℕ → Bool
gives_up clock srv con_retry_no =
    if ltb 0 srv.con_retry_no && ltb srv.con_retry_no con_retry_no
    then true
    else if ltb 0 srv.con_retry_time
    then ltb srv.con_retry_time (clock con_retry_no)
    else true

-- The `while (1)` loop, for at most `tries` attempts.
unfoldable pub dial_loop : ℕ → (ℕ → Bool) → (ℕ → ℕ) → Server → ℕ → Dialed
dial_loop zero dial clock srv con_retry_no = dialing
dial_loop (suc tries) dial clock srv con_retry_no =
    let again = dial_loop tries dial clock srv (con_retry_no + 1) in
    if dial con_retry_no
    then connected (con_retry_no + 1)
    else if gives_up clock srv (con_retry_no + 1)
    then refused (con_retry_no + 1)
    else again

-- The state and the code behind the attempts; nothing where they go on for ever.
pub data Returned {ℓ} (A : Type ℓ) : Type ℓ where
  returned : A → Returned A
  running : Returned A

abbrev opened : Connection → Connection
opened con = record con { alloc = true; connected = true }

abbrev unopened : Connection → Connection
unopened con = record con { alloc = false; connected = false }

abbrev set_alloc : Bool → Connection → Connection
set_alloc b con = record con { alloc = b }

unfoldable pub settle : ℕ → State → Dialed → Returned (State × Rc)
settle c st (connected n) = returned (update_connection st c opened, success)
settle c st (refused n) =
    returned (update_connection (record st { mg_connect_failed = true }) c unopened, nocon)
settle c st dialing = running

unfoldable pub connect :
    ℕ → (ℕ → Bool) → (ℕ → ℕ) → Bool → Server → ℕ → State → Returned (State × Rc)
unfolding settle
connect tries dial clock open_db srv c st =
    let start = record st { mg_connect_failed = false } in
    if srv.net_connection
    then settle c start (dial_loop tries dial clock srv 0)
    else if open_db
    then returned (update_connection start c (set_alloc true), success)
    else returned
        (update_connection (record start { mg_connect_failed = true }) c (set_alloc false), nocon)
