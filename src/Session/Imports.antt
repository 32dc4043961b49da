-- ===== src/Session/Imports.antt =====
-- app/max/session.py: an import of another user's session.
use tg_my_person.Prelude.{ℕ, ◌≡◌, refl, Bool, true, false, none, some, List, [], ◌∷◌, ℤ, ◌==ℤ◌}
use tg_my_person.Session.State.{
  failed, Transport, identity_mismatch, caused_by, Session, Config, spawned,
}
use tg_my_person.Session.Supervisor.{
  enter, boot, built, connected, handle, fail, closed, confirm_user, verified,
}
use tg_my_person.Session.Operations.{
  fresh_loop, spawn, stop, stop_ends, start, begin_import, finish_import, resumed, Event,
  calls_import, calls_finish_import, resumes, boots, builds, connects, verifies, closes, advance,
  called, step, run,
}

abbrev pub new_tables : Bool → Config
new_tables require_proxy = record {
  has_proxy = true;
  require_proxy = require_proxy;
  new_mode = true;
}

-- The attempt of an import, to its end.
abbrev pub import_run : Transport → ℕ → ℤ → ℕ → ℕ → List Event
import_run transport info user now later =
    calls_import transport info
    ∷ resumes
    ∷ boots now
    ∷ builds
    ∷ connects (some user) none
    ∷ verifies true
    ∷ closes later
    ∷ []

-- With the new tables, an import of a session of another user than the account's fails: it leaves
-- the state failed with the mismatch as the error, no client and no supervisor, and its call
-- answers with a failure. Nevertheless it replaces the stored session, and the supervisor that the
-- call starts then runs the foreign one.
pub import_replaces :
    (lower : List ℕ → List ℕ) (require_proxy : Bool) (transport : Transport) (info : ℕ)
    (user known : ℤ) (now later : ℕ) (s : Session)
    → known ==ℤ user ≡ false
    → s.stopping ≡ none
    → let cfg = new_tables require_proxy in
      let tried =
        run lower cfg
          (import_run transport info user now later)
          (record s { account_user = some known }) in
      let done = run lower cfg (calls_finish_import ∷ resumes ∷ []) tried in
      ((tried.state ≡ failed)
        × (tried.last_error ≡ some (caused_by identity_mismatch))
        × (tried.client ≡ false)
        × (tried.task ≡ none)
        × ((finish_import tried).0 ≡ false))
      × ((done.stored ≡ some (record { transport = transport; info = info }))
          × (done.task
              ≡ some (record { loop = fresh_loop transport none false false; phase = spawned })))
unfolding run step called begin_import finish_import resumed stop stop_ends start spawn advance boot
    enter built connected verified confirm_user fail closed handle
import_replaces lower require_proxy transport info user known now later s apart free =
    rw (free, apart) ((refl, refl, refl, refl, refl), (refl, refl))
