-- ===== src/Session/Supervisor.antt =====
-- app/max/session.py: `_supervise` and `_on_authorized`, by what they wait for.
use tg_my_person.Prelude.{
  ℕ, ◌+◌, ◌*◌, Bool, true, false, not, ◌&&◌, ◌||◌, Option, none, some, List, [], ℤ, ◌==ℤ◌, leb, ltb,
  if◌then◌else◌,
}
use tg_my_person.Session.Errors.{ApiError, is_unauthorized, is_banned}
use tg_my_person.Session.Login.{Prompt, for_qr, for_code, for_password, Login}
use tg_my_person.Session.State.{
  State, connecting, awaiting_qr, awaiting_code, awaiting_password, authorized, reconnecting,
  unauthorized, banned, failed, Failure, qr_expired, auth_failed, password_exhausted,
  identity_mismatch, api, network, other, Problem, proxy_required, session_revoked, caused_by,
  Stored, Loop, opening, dialing, verifying, live, closing, sleeping, Session, Config,
}

abbrev pub backoff_start : ℕ
backoff_start = 5

abbrev pub backoff_max : ℕ
backoff_max = 600

abbrev pub stable_reset : ℕ
stable_reset = 600

-- `_set_state` with an error.
abbrev pub set_failed : State → Problem → Session → Session
set_failed state problem s = record s { state = state; last_error = some problem }

-- The supervisor returns.
abbrev pub ended : State → Problem → Session → Session
ended state problem s = record (set_failed state problem s) { task = none }

abbrev pub proxy_ok : Config → Bool
proxy_ok cfg = cfg.has_proxy || not cfg.require_proxy

-- The head of the loop.
unfoldable pub enter : ℕ → Loop → Session → Session
enter now l s = record s {
  state = if l.was_authorized then reconnecting else connecting;
  task = some (record { loop = record l { began = now }; phase = opening });
}

unfoldable pub boot : Config → ℕ → Loop → Session → Session
unfolding enter
boot cfg now l s = if proxy_ok cfg then enter now l s else ended failed proxy_required s

-- The client is built: nothing is caught up, nobody is identified.
unfoldable pub built : Loop → Session → Session
built l s = record s {
  caught_up = [];
  identity_ok = false;
  task = some (record { loop = l; phase = dialing });
}

abbrev stored_after : Loop → Option ℕ → Option Stored → Option Stored
stored_after l saved stored = elim saved [
  | some info ↦ some (record { transport = l.transport; info = info })
  | none ↦ elim l.seed [
    | some info ↦ some (record { transport = l.transport; info = info })
    | none ↦ stored
  ]
]

-- `connect` has returned. The session that PyMax wrote, or the imported one, is persisted; the
-- profile is set.
unfoldable pub connected : Option ℤ → Option ℕ → Loop → Session → Session
connected user saved l s = record s {
  client = true;
  profile = some user;
  stored = stored_after l saved s.stored;
  task = some (record {
    loop = record l { seed = none; one_shot = false; interactive = false; was_authorized = true };
    phase = verifying;
  });
}

abbrev pub is_network : Failure → Bool
is_network network = true
is_network _ = false

-- A failure that is not final: a first attempt ends, any other waits for the next one.
unfoldable pub retry : Failure → ℕ → Loop → Session → Session
retry f now l s =
    let state = if is_network f && l.was_authorized then reconnecting else failed in
    let backoff = if leb (l.began + stable_reset) now then backoff_start else l.backoff in
    if l.one_shot then ended failed (caused_by f) s else record (set_failed state (caused_by f) s) {
      task = some (record { loop = record l { backoff = backoff }; phase = sleeping });
    }

-- `client.close()` has returned: the supervisor ends, or goes on with its failure.
unfoldable pub closed : Option Failure → ℕ → Loop → Session → Session
unfolding retry
closed none now l s = record s { task = none }
closed (some f) now l s = retry f now l s

-- The client is gone, and the loop waits for its end.
abbrev pub closing_down : Option Failure → Loop → Session → Session
closing_down left l s = record s {
  client = false;
  task = some (record { loop = l; phase = closing left });
}

abbrev keep_seeded : Option ℕ → Option Stored → Option Stored
keep_seeded none stored = none
keep_seeded (some info) stored = stored

abbrev pub noted_user : Bool → Option ℤ → Option ℤ → Option ℤ
noted_user true (some user) known = some user
noted_user _ user known = known

abbrev pub user_of : Option (Option ℤ) → Option ℤ
user_of none = none
user_of (some user) = user

abbrev pub announced : Loop → Session → Session
announced l s = record s {
  login = none;
  qr_is_expired = false;
  state = authorized;
  last_error = none;
  task = some (record { loop = l; phase = live });
}

module _ (lower : List ℕ → List ℕ) where
  -- A final error leaves the handlers' session; any other goes on as it is.
  unfoldable pub handle_api : ApiError → Loop → Session → Option Session
  handle_api e l s =
      if is_unauthorized e
      then some (
          set_failed unauthorized (session_revoked e)
            (record s { stored = keep_seeded l.seed s.stored }))
      else if is_banned lower e
      then some (set_failed banned (caused_by (api e)) s)
      else none

  -- The handlers of the loop, before its `finally`.
  unfoldable pub handle : Failure → Loop → Session → Option Session
  unfolding handle_api
  handle qr_expired l s =
      some (set_failed failed (caused_by qr_expired) (record s { qr_is_expired = true }))
  handle auth_failed l s = some (set_failed failed (caused_by auth_failed) s)
  handle password_exhausted l s = some (set_failed failed (caused_by password_exhausted) s)
  handle identity_mismatch l s = some (set_failed failed (caused_by identity_mismatch) s)
  handle (api e) l s = handle_api e l s
  handle network l s = none
  handle other l s = none

  -- A failure up to the wait of `client.close()`; before the client is built nothing is waited for.
  unfoldable pub fail : Failure → Loop → Session → Session
  unfolding handle
  fail f l s = elim (handle f l s) [
    | some s' ↦ closing_down none l s'
    | none ↦ closing_down (some f) l s
  ]

  -- `ensure_account_user`: an empty user of the account is filled, another one is a mismatch.
  unfoldable pub confirm_user : Loop → Option ℤ → Option ℤ → Session → Session
  confirm_user l none known s = fail identity_mismatch l s
  confirm_user l (some user) none s =
      announced l (record s { account_user = some user; identity_ok = true })
  confirm_user l (some user) (some known) s =
      if known ==ℤ user
      then announced l (record s { identity_ok = true })
      else fail identity_mismatch l s

  -- `_on_authorized` from the profile on; outside the new mode a write that fails is only logged.
  unfoldable pub verified : Config → Bool → Loop → Session → Session
  unfolding confirm_user
  verified cfg written l s =
      if cfg.new_mode
      then confirm_user l (user_of s.profile) s.account_user s
      else announced l
          (record s { account_user = noted_user written (user_of s.profile) s.account_user })

-- The pause is over.
unfoldable pub woken : ℕ → Loop → Session → Session
unfolding enter
woken now l s =
    let doubled = l.backoff * 2 in
    enter now (record l { backoff = if ltb backoff_max doubled then backoff_max else doubled }) s

abbrev pub prompt_state : Prompt → State
prompt_state for_qr = awaiting_qr
prompt_state for_code = awaiting_code
prompt_state for_password = awaiting_password

-- `_on_login_step`
unfoldable pub prompted : Login → Session → Session
prompted login s = elim login.step [
  | none ↦ record s { login = some login }
  | some step ↦ record s { login = some login; state = prompt_state step }
]
