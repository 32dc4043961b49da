-- ===== src/Session/State.antt =====
-- app/max/session.py: the session's state, its supervisor's and what may happen to them.
-- Seconds are natural numbers. The client of PyMax is a flag, a stored session its number; the
-- background jobs, the ingest and the log are left out. A read or a write of the database is one
-- step with what follows it.
use tg_my_person.Prelude.{ℕ, Bool, Option, List, ℤ}
use tg_my_person.Session.Errors.{ApiError}
use tg_my_person.Session.Login.{Method, Login}

pub data State : Type 0 where
  stopped connecting awaiting_qr awaiting_code awaiting_password authorized reconnecting : State
  unauthorized banned failed : State

pub data Transport : Type 0 where
  web tcp : Transport

-- How an attempt to connect, or a connection, ends.
pub data Failure : Type 0 where
  qr_expired auth_failed password_exhausted identity_mismatch : Failure
  api : ApiError → Failure
  network other : Failure

pub data Problem : Type 0 where
  proxy_required : Problem
  session_revoked : ApiError → Problem
  caused_by : Failure → Problem

pub record Stored : Type 0 where
  pub transport : Transport
  pub info : ℕ

-- The variables of `_supervise`; `seed` is an imported session that is not persisted yet.
pub record Loop : Type 0 where
  pub transport : Transport
  pub seed : Option ℕ
  pub one_shot : Bool
  pub interactive : Bool
  pub was_authorized : Bool
  pub backoff : ℕ
  pub began : ℕ

-- Where the supervisor waits: not run yet, before the client is built, in `connect`, in
-- `_on_authorized`, in `wait_closed`, in `client.close()` with the failure that is not final, in its
-- pause.
pub data Phase : Type 0 where
  spawned opening dialing verifying live : Phase
  closing : Option Failure → Phase
  sleeping : Phase

pub record Task : Type 0 where
  pub loop : Loop
  pub phase : Phase

-- What a call goes on with once its `stop` has ended.
pub data After : Type 0 where
  then_nothing then_forget then_start : After
  then_login : Method → After
  then_import : Transport → ℕ → After

-- `stopping` is a call that waits in `stop` for the cancelled supervisor.
pub record Session : Type 0 where
  pub state : State
  pub last_error : Option Problem
  pub transport : Option Transport
  pub login : Option Login
  pub qr_is_expired : Bool
  pub caught_up : List ℤ
  pub identity_ok : Bool
  pub client : Bool
  pub profile : Option (Option ℤ)
  pub task : Option Task
  pub stopping : Option After
  pub stored : Option Stored  -- account_sessions
  pub account_user : Option ℤ  -- accounts.external_user_id

pub record Config : Type 0 where
  pub has_proxy : Bool
  pub require_proxy : Bool
  pub new_mode : Bool
