-- ===== src/Session/Tests.antt =====
-- Runs of the session of app/max/session.py and of a login of app/max/auth.py.
use tg_my_person.Prelude.{
  ℕ, ◌≡◌, ◌≤◌, refl, true, false, none, some, List, [], ◌∷◌, pos, All, arith, inl, inr,
}
use tg_my_person.Session.Login.{
  qr, sms, new_login, asks_code, asks_password, gives_code, gives_password, handed_over,
  handed_over_bound, password_max_attempts,
}
use tg_my_person.Session.State.{
  stopped, failed, web, tcp, identity_mismatch, network, caused_by, spawned, opening, sleeping,
  Session, Config,
}
use tg_my_person.Session.Supervisor.{backoff_start, fail}
use tg_my_person.Session.Operations.{
  fresh_loop, finish_import, Event, calls_login, calls_stop, calls_finish_import, clears, resumes,
  boots, builds, connects, verifies, fails, closes, wakes, supervised, run,
}
use tg_my_person.Session.Sound.{IsSound}
use tg_my_person.Session.Calls.{run-IsSound}
use tg_my_person.Session.Ends.{is_final, pause, fail_rests}
use tg_my_person.Session.Pauses.{
  in_connect, after_connect, Attempt, attempts, doubled, capped, IsQuick, IsTrying, attempts_go_on,
}
use tg_my_person.Session.Imports.{new_tables, import_run, import_replaces}

abbrev same_text : List ℕ → List ℕ
same_text t = t

abbrev fresh : Session
fresh = record {
  state = stopped;
  last_error = none;
  transport = none;
  login = none;
  qr_is_expired = false;
  caught_up = [];
  identity_ok = false;
  client = false;
  profile = none;
  task = none;
  stopping = none;
  stored = none;
  account_user = none;
}

abbrev cfg : Config
cfg = new_tables true

abbrev qr_run : List Event
qr_run =
    calls_login qr
    ∷ resumes
    ∷ boots 0
    ∷ builds
    ∷ connects (some (pos 7)) (some 1)
    ∷ verifies true
    ∷ fails network
    ∷ closes 700
    ∷ wakes 705
    ∷ calls_stop
    ∷ clears
    ∷ resumes
    ∷ []

handed_over_bound_example :
    handed_over
      (asks_code 0
        ∷ gives_code 5
        ∷ asks_password 6
        ∷ gives_password 7
        ∷ asks_password 8
        ∷ gives_password 9
        ∷ [])
      (new_login sms)
    ≤ password_max_attempts
handed_over_bound_example = handed_over_bound sms (
    asks_code 0
    ∷ gives_code 5
    ∷ asks_password 6
    ∷ gives_password 7
    ∷ asks_password 8
    ∷ gives_password 9
    ∷ [])

run-IsSound_example : IsSound cfg (run same_text cfg qr_run fresh)
run-IsSound_example = run-IsSound cfg same_text qr_run fresh (inr (inl refl), tt)

abbrev lost : Session
lost = fail same_text network (fresh_loop web none false false) fresh

fail_rests_example :
    (supervised same_text cfg (closes 9) lost.task lost).task
    ≡ some (record { loop = fresh_loop web none false false; phase = sleeping })
unfolding is_final pause
fail_rests_example = fail_rests same_text cfg network 9 (fresh_loop web none false false) fresh

abbrev trying : Session
trying = record fresh {
  task = some (record { loop = fresh_loop web none false false; phase = opening });
}

abbrev two_attempts : List Attempt
two_attempts =
    record { reach = in_connect; failure = network; lasts = 3; rests = 5 }
    ∷ record { reach = after_connect (some (pos 7)) none; failure = network; lasts = 4; rests = 10 }
    ∷ []

two_attempts-AreQuick : All (IsQuick same_text) two_attempts
unfolding is_final
two_attempts-AreQuick = ((refl, omega arith), ((refl, omega arith), tt))

attempts_go_on_example :
    (later : ℕ) × IsTrying same_text later
      (capped (doubled two_attempts backoff_start))
      (run same_text cfg (attempts two_attempts 0) trying)
attempts_go_on_example =
    attempts_go_on same_text cfg two_attempts 0 trying two_attempts-AreQuick
      (fresh_loop web none false false, refl, refl, refl, refl, refl)

abbrev owned : Session
owned = record fresh {
  stored = some (record { transport = web; info = 1 });
  account_user = some (pos 8);
}

abbrev tried : Session
tried = run same_text cfg (import_run tcp 5 (pos 7) 10 20) owned

abbrev done : Session
done = run same_text cfg (calls_finish_import ∷ resumes ∷ []) tried

import_replaces_example :
    ((tried.state ≡ failed)
      × (tried.last_error ≡ some (caused_by identity_mismatch))
      × (tried.client ≡ false)
      × (tried.task ≡ none)
      × ((finish_import tried).0 ≡ false))
    × ((done.stored ≡ some (record { transport = tcp; info = 5 }))
        × (done.task ≡ some (record { loop = fresh_loop tcp none false false; phase = spawned })))
import_replaces_example = import_replaces same_text true tcp 5 (pos 7) (pos 8) 10 20 owned refl refl
