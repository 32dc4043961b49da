-- ===== src/Session/Operations.antt =====
-- app/max/session.py: the operations of the session, and a run of them among the supervisor's steps.
use tg_my_person.Prelude.{
  ℕ, Bool, true, false, Option, none, some, List, [], ◌∷◌, ℤ, if◌then◌else◌, ◌&&◌,
}
use tg_my_person.Session.Login.{Method, qr, sms, Login, new_login}
use tg_my_person.Session.State.{
  State, stopped, authorized, unauthorized, banned, Transport, web, tcp, Failure, Stored, Loop,
  Phase, spawned, opening, dialing, verifying, live, closing, sleeping, Task, After, then_nothing,
  then_forget, then_start, then_login, then_import, Session, Config,
}
use tg_my_person.Session.Supervisor.{
  backoff_start, boot, built, connected, fail, closed, verified, woken, prompted,
}

abbrev pub running : Option Task → Bool
running none = false
running (some t) = true

abbrev pub fresh_loop : Transport → Option ℕ → Bool → Bool → Loop
fresh_loop transport seed one_shot interactive = record {
  transport = transport;
  seed = seed;
  one_shot = one_shot;
  interactive = interactive;
  was_authorized = false;
  backoff = backoff_start;
  began = 0;
}

-- `_spawn`
unfoldable pub spawn : Loop → Session → Session
spawn l s = record s {
  transport = some l.transport;
  task = some (record { loop = l; phase = spawned });
}

-- `start`: from the stored session, if there is one.
unfoldable pub start : Session → Session
unfolding spawn
start s = if running s.task then s else elim s.stored [
  | none ↦ record s { transport = none; state = stopped }
  | some kept ↦ spawn (fresh_loop kept.transport none false false) s
]

abbrev pub stopped_state : State → State
stopped_state unauthorized = unauthorized
stopped_state banned = banned
stopped_state _ = stopped

-- `stop` up to the wait for the cancelled supervisor. Without one it does not wait.
unfoldable pub stop : After → Session → Session
stop after s = record s { task = none; stopping = some after }

-- The rest of `stop`.
unfoldable pub stop_ends : Session → Session
stop_ends s = record s { client = false; state = stopped_state s.state; stopping = none }

unfoldable pub logout : Session → Session
unfolding stop
logout s = stop then_forget s

abbrev pub is_authorized : State → Bool
is_authorized authorized = true
is_authorized _ = false

-- Whether `client` hands out the client.
abbrev pub client_of : Session → Bool
client_of s = is_authorized s.state && s.client

pub data Conflict : Type 0 where
  already_authorized login_in_progress stored_session_exists : Conflict

abbrev same_method : Method → Method → Bool
same_method qr qr = true
same_method sms sms = true
same_method _ _ = false

-- The login that is going on, if its supervisor runs.
abbrev pub current_login : Option Login → Bool → Option Login
current_login login true = login
current_login login false = none

abbrev stored_conflict : Option Stored → Option Conflict
stored_conflict none = none
stored_conflict (some _) = some stored_session_exists

-- `_ensure_can_login`
unfoldable pub ensure_can_login : Method → Session → Option Conflict
ensure_can_login method s =
    if is_authorized s.state
    then some already_authorized
    else elim (current_login s.login (running s.task)) [
      | some l ↦ if same_method l.method method then none else some login_in_progress
      | none ↦ stored_conflict s.stored
    ]

abbrev pub login_transport : Method → Transport
login_transport qr = web
login_transport sms = tcp

abbrev unless_qr : Method → Bool → Bool
unless_qr qr b = false
unless_qr sms b = b

unfoldable pub begin_login : Method → Session → Session
unfolding spawn
begin_login method s =
    spawn (fresh_loop (login_transport method) none true true) (record s {
      login = some (new_login method);
      qr_is_expired = unless_qr method s.qr_is_expired;
    })

-- `start_qr_login` and `start_sms_login` up to their `stop`: a conflict, or the session.
unfoldable pub start_login : Method → Session → Option Conflict × Session
unfolding ensure_can_login stop
start_login method s = elim (ensure_can_login method s) [
  | some conflict ↦ (some conflict, s)
  | none ↦ elim (current_login s.login (running s.task)) [
    | some going ↦ (none, s)
    | none ↦ (none, stop (then_login method) s)
  ]
]

-- `import_session` of a session that could be parsed, up to its `stop`.
unfoldable pub begin_import : Transport → ℕ → Session → Session
unfolding stop
begin_import transport info s = stop (then_import transport info) s

-- The end of `import_session`, up to its second `stop`: whether it succeeded, and the session.
unfoldable pub finish_import : Session → Bool × Session
unfolding stop
finish_import s = if is_authorized s.state then (true, s) else (false, stop then_start s)

-- A call goes on after its `stop`.
unfoldable pub resumed : After → Session → Session
unfolding stop_ends spawn start begin_login
resumed then_nothing s = stop_ends s
resumed then_forget s = record (stop_ends s) {
  stored = none;
  profile = none;
  transport = none;
  state = stopped;
}
resumed then_start s = start (stop_ends s)
resumed (then_login method) s = begin_login method (stop_ends s)
resumed (then_import transport info) s =
    spawn (fresh_loop transport (some info) true false) (record (stop_ends s) { login = none })

-- What may happen next: a call, its going on after its `stop`, or a step of the supervisor and of MAX.
-- `clears` is the `finally` of the cancelled supervisor.
pub data Event : Type 0 where
  calls_start calls_stop calls_logout calls_finish_import : Event
  calls_login : Method → Event
  calls_import : Transport → ℕ → Event
  clears resumes : Event
  boots : ℕ → Event
  builds : Event
  prompts : Login → Event
  connects : Option ℤ → Option ℕ → Event
  verifies : Bool → Event
  catches_up : ℤ → Event
  fails : Failure → Event
  closes : ℕ → Event
  wakes : ℕ → Event

module _ (lower : List ℕ → List ℕ) (cfg : Config) where
  -- A step of the supervisor in its phase; one that does not fit the phase does not happen.
  unfoldable pub advance : Event → Loop → Phase → Session → Session
  advance (boots now) l spawned s = boot cfg now l s
  advance builds l opening s = built l s
  advance (prompts login) l dialing s = if l.interactive then prompted login s else s
  advance (connects user saved) l dialing s = connected user saved l s
  advance (verifies written) l verifying s = verified lower cfg written l s
  advance (catches_up chat) l live s = record s { caught_up = chat ∷ s.caught_up }
  advance (fails f) l opening s = fail lower f l s
  advance (fails f) l dialing s = fail lower f l s
  advance (fails f) l verifying s = fail lower f l s
  advance (fails f) l live s = fail lower f l s
  advance (closes now) l (closing left) s = closed left now l s
  advance (wakes now) l sleeping s = woken now l s
  advance _ l phase s = s

  abbrev pub supervised : Event → Option Task → Session → Session
  supervised e none s = s
  supervised e (some t) s = advance e t.loop t.phase s

  -- A call begins when no other waits in `stop`.
  unfoldable pub called : Event → Option After → Session → Session
  unfolding start stop logout start_login begin_import finish_import resumed advance
  called calls_start none s = start s
  called calls_stop none s = stop then_nothing s
  called calls_logout none s = logout s
  called calls_finish_import none s = (finish_import s).1
  called (calls_login method) none s = (start_login method s).1
  called (calls_import transport info) none s = begin_import transport info s
  called clears (some after) s = record s { client = false }
  called resumes (some after) s = resumed after s
  called e after s = supervised e s.task s

  unfoldable pub step : Event → Session → Session
  unfolding called
  step e s = called e s.stopping s

  unfoldable pub run : List Event → Session → Session
  run [] s = s
  run (e ∷ es) s = run es (step e s)
