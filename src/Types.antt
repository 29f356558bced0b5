-- ===== src/Types.antt =====
-- src/mg_web.h: the configuration and the state that the components share. A pointer to a DB server is
-- its place in the list of all servers, so that paths and connections that name one server share it;
-- times are whole seconds, and the flags of the configuration are Booleans.
use mg_web.Base.{ℕ, List, Bool}
use mg_web.Text.{CString}

-- `MGSRV`; `offline` is 0 (online), 1 (offline) or 2 (offline, and being tried again). After
-- `mg_verify_config`, `net_connection` is set just where `shdir` is null, and then `ip_address` and
-- `port` are given; so it stands for those three.
pub record Server : Type 0 where
  pub dbtype : ℕ
  pub offline : ℕ
  pub no_requests : ℕ
  pub time_offline : ℕ
  pub idle_timeout : ℕ
  pub health_check : ℕ
  pub con_retry_time : ℕ
  pub con_retry_no : ℕ
  pub max_connections : ℕ
  pub timeout : ℕ
  pub net_connection : Bool

-- `MGPSRV`: a slot of a path's server list in use.
pub record PathServer : Type 0 where
  pub lcname : CString
  pub psrv : ℕ
  pub exclusive : Bool

-- `MGPATH`; the list holds the slots of `servers` in use, and a slot behind them is null. `srv_max` is its
-- length.
pub record MgPath : Type 0 where
  pub name : CString
  pub name_len : ℕ
  pub load_balancing : Bool
  pub server_no : ℕ
  pub servers : List PathServer
