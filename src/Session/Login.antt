-- ===== src/Session/Login.antt =====
-- app/max/auth.py: one interactive login. The clock counts seconds; a wait that ends by its timeout
-- is the error of the asking side.
use tg_my_person.Prelude.{
  ℕ, suc, ◌+◌, ◌≤◌, ◌≡◌, Bool, true, false, Option, none, some, List, [], ◌∷◌, leb, ltb,
  if◌then◌else◌, arith,
}

abbrev pub code_timeout : ℕ
code_timeout = 600

abbrev pub password_timeout : ℕ
password_timeout = 600

abbrev pub password_max_attempts : ℕ
password_max_attempts = 3

pub data Method : Type 0 where
  qr sms : Method

pub data Prompt : Type 0 where
  for_qr for_code for_password : Prompt

pub data LoginError : Type 0 where
  invalid_password attempts_exceeded : LoginError

pub record Login : Type 0 where
  pub method : Method
  pub step : Option Prompt
  pub password_attempts : ℕ
  pub last_error : Option LoginError
  pub password_deadline : Option ℕ
  pub code_until : Option ℕ
  pub password_until : Option ℕ

abbrev pub new_login : Method → Login
new_login method = record {
  method = method;
  step = none;
  password_attempts = 0;
  last_error = none;
  password_deadline = none;
  code_until = none;
  password_until = none;
}

pub data Asked : Type 0 where
  waiting : Login → Asked
  too_many too_late : Login → Asked

abbrev pub on_qr : Login → Login
on_qr l = record l { step = some for_qr }

-- `wait_code` up to its wait.
abbrev pub wait_code : ℕ → Login → Login
wait_code now l = record l { code_until = some (now + code_timeout); step = some for_code }

-- The first prompt sets the deadline; a later one means that the last password was wrong.
abbrev with_deadline : ℕ → Login → Login
with_deadline now l = elim l.password_deadline [
  | none ↦ record l { password_deadline = some (now + password_timeout) }
  | some d ↦
      if ltb 0 l.password_attempts then record l { last_error = some invalid_password } else l
]

abbrev deadline_of : ℕ → Option ℕ → ℕ
deadline_of now none = now + password_timeout
deadline_of now (some d) = d

-- `wait_password` up to its wait.
unfoldable pub wait_password : ℕ → Login → Asked
wait_password now l =
    let d = deadline_of now l.password_deadline in
    let l' = with_deadline now l in
    if leb password_max_attempts l.password_attempts
    then too_many (record l { last_error = some attempts_exceeded })
    else if leb d now
    then too_late l'
    else waiting (record l' { password_until = some d; step = some for_password })

abbrev before : ℕ → Option ℕ → Bool
before now none = false
before now (some d) = ltb now d

-- `submit_code`: whether the code was taken, and the login after its wait.
unfoldable pub submit_code : ℕ → Login → Bool × Login
submit_code now l =
    if before now l.code_until then (true, record l { code_until = none }) else (false, l)

-- `submit_password`, and the password handed over.
unfoldable pub submit_password : ℕ → Login → Bool × Login
submit_password now l =
    if before now l.password_until
    then (true, record l { password_until = none; password_attempts = suc l.password_attempts })
    else (false, l)

pub data LoginEvent : Type 0 where
  shows_qr : LoginEvent
  asks_code asks_password gives_code gives_password : ℕ → LoginEvent

abbrev asked_login : Asked → Login
asked_login (waiting l) = l
asked_login (too_many l) = l
asked_login (too_late l) = l

-- The login after an event, and how many passwords it has handed over.
unfoldable pub login_step : LoginEvent → Login → Login × ℕ
unfolding wait_password submit_code submit_password
login_step shows_qr l = (on_qr l, 0)
login_step (asks_code now) l = (wait_code now l, 0)
login_step (asks_password now) l = (asked_login (wait_password now l), 0)
login_step (gives_code now) l = ((submit_code now l).1, 0)
login_step (gives_password now) l =
    let (taken, l') = submit_password now l in (l', if taken then 1 else 0)

-- The passwords handed over in a run.
unfoldable pub handed_over : List LoginEvent → Login → ℕ
handed_over [] l = 0
handed_over (e ∷ es) l = let (l', n) = login_step e l in n + handed_over es l'

abbrev pending : Option ℕ → ℕ
pending none = 0
pending (some d) = 1

abbrev IsCounted : Login → Type 0
IsCounted l = l.password_attempts + pending l.password_until ≤ password_max_attempts

login_step-IsCounted :
    (e : LoginEvent) (l : Login)
    → IsCounted l
    → IsCounted (login_step e l).0
      × ((login_step e l).0.password_attempts ≡ l.password_attempts + (login_step e l).1)
unfolding login_step
login_step-IsCounted shows_qr l h = ground arith
login_step-IsCounted (asks_code now) l h = ground arith
login_step-IsCounted (asks_password now) l h = ground arith
login_step-IsCounted (gives_code now) l h = ground arith
login_step-IsCounted (gives_password now) l h = ground arith

handed_over_rest :
    (es : List LoginEvent) (l : Login)
    → IsCounted l
    → l.password_attempts + handed_over es l ≤ password_max_attempts
unfolding handed_over
handed_over_rest [] l h = omega arith
handed_over_rest (e ∷ es) l h =
    let (counted, sum) = login_step-IsCounted e l h in
    omega (arith, handed_over_rest es (login_step e l).0 counted)

-- In one login at most three passwords reach MAX, whatever is asked and submitted, and when.
pub handed_over_bound :
    (method : Method) (es : List LoginEvent)
    → handed_over es (new_login method) ≤ password_max_attempts
handed_over_bound method es = omega (arith, handed_over_rest es (new_login method) (omega arith))
