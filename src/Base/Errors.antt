-- ===== src/Base/Errors.antt =====
-- The `net::` results that the sources name. Their numbers belong to Chromium and are not used.
use Prim.Native.Nat.{ℕ}
use mathlib.Core.Bool.{Bool, true, false}

pub data NetError : Type 0 where
  net_ok : NetError
  err_io_pending : NetError
  err_failed : NetError
  err_aborted : NetError
  err_blocked_by_client : NetError
  err_insufficient_resources : NetError
  err_proxy_auth_unsupported : NetError
  err_proxy_connection_failed : NetError
  err_tunnel_connection_failed : NetError
  other_error : ℕ → NetError

-- `error_code == net::OK`
abbrev pub is_ok : NetError → Bool
is_ok net_ok = true
is_ok _ = false

abbrev pub is_pending : NetError → Bool
is_pending err_io_pending = true
is_pending _ = false

abbrev pub is_blocked : NetError → Bool
is_blocked err_blocked_by_client = true
is_blocked _ = false
