-- ===== src/Session/Calls.antt =====
-- app/max/session.py: calls, and runs of calls and steps.
use mathlib.Core.Path.{subst}
use tg_my_person.Prelude.{
  ℕ, ◌≡◌, refl, Bool, false, Option, none, some, List, [], ◌∷◌, arith, sym, Option-cases,
  Bool-cases, inl, inr,
}
use tg_my_person.Session.Login.{Method}
use tg_my_person.Session.State.{
  stopped, Phase, spawned, opening, dialing, verifying, live, closing, sleeping, Transport, After,
  then_nothing, then_forget, then_start, then_login, then_import, Loop, Task, Session, Config,
}
use tg_my_person.Session.Operations.{
  current_login, running, is_authorized, stopped_state, fresh_loop, spawn, start, stop, stop_ends,
  logout, begin_login, start_login, begin_import, finish_import, resumed, ensure_can_login, Event,
  calls_start, calls_stop, calls_logout, calls_finish_import, calls_login, calls_import, clears,
  resumes, called, step, run,
}
use tg_my_person.Session.Sound.{
  HasPause, InPhase, HasTask, IsGuarded, IsSound, no_client, stopped_quiet, supervised-IsSound,
}

phase_kept :
    (s s' : Session) (p : Phase)
    → (is_authorized s.state ≡ false → is_authorized s'.state ≡ false)
    → InPhase s p
    → InPhase s' p
phase_kept s s' spawned quiet h = tt
phase_kept s s' opening quiet h = quiet h
phase_kept s s' dialing quiet h = quiet h
phase_kept s s' verifying quiet h = quiet h
phase_kept s s' live quiet h = tt
phase_kept s s' (closing left) quiet h = tt
phase_kept s s' sleeping quiet h = tt

task_kept :
    (s s' : Session) (o : Option Task)
    → (is_authorized s.state ≡ false → is_authorized s'.state ≡ false)
    → HasTask s o
    → HasTask s' o
task_kept s s' none quiet h = tt
task_kept s s' (some t) quiet h = (h.0, phase_kept s s' t.phase quiet h.1)

module _ (cfg : Config) where
  clear-IsSound : (s : Session) → IsSound cfg s → IsSound cfg (record s { client = false })
  clear-IsSound s k =
      let s' : Session = record s { client = false } in
      (inr (inl (no_client s' refl)), task_kept s s' s.task (λ quiet. quiet) k.1)

  stop-IsSound : (after : After) (s : Session) → IsSound cfg s → IsSound cfg (stop after s)
  unfolding stop
  stop-IsSound after s k = (k.0, tt)

  stop_ends-IsSound : (s : Session) → IsSound cfg s → IsSound cfg (stop_ends s)
  unfolding stop_ends
  stop_ends-IsSound s k =
      let s' : Session = record s {
        client = false;
        state = stopped_state s.state;
        stopping = none;
      } in
      (inr (inl (no_client s' refl)), task_kept s s' s.task (λ quiet. stopped_quiet s.state) k.1)

  spawn-IsSound : (l : Loop) (s : Session) → HasPause l → IsGuarded cfg s → IsSound cfg (spawn l s)
  unfolding spawn
  spawn-IsSound l s h g = (g, (h, tt))

  fresh-HasPause :
      (transport : Transport) (seed : Option ℕ) (one_shot interactive : Bool)
      → HasPause (fresh_loop transport seed one_shot interactive)
  fresh-HasPause transport seed one_shot interactive = (omega arith, omega arith)

  -- With a task, `start` changes nothing; without one it starts from what is stored.
  start-IsSound : (s : Session) → IsSound cfg s → IsSound cfg (start s)
  unfolding start
  start-IsSound s k = elim (Option-cases s.task) [
    | inr (t, e) ↦ let kept : start s ≡ s = ground arith in subst (IsSound cfg) (sym kept) k
    | inl e ↦ elim (Option-cases s.stored) [
      | inl missing ↦
          let same : start s ≡ record s { transport = none; state = stopped; task = none } =
            ground arith in
          subst (IsSound cfg) (sym same) (inr (inl refl), tt)
      | inr (kept, found) ↦
          let same : start s ≡ spawn (fresh_loop kept.transport none false false) s =
            ground arith in
          subst (IsSound cfg) (sym same) (
            spawn-IsSound (fresh_loop kept.transport none false false) s
              (fresh-HasPause kept.transport none false false) k.0)
    ]
  ]

  start_login-IsSound :
      (method : Method) (s : Session) → IsSound cfg s → IsSound cfg (start_login method s).1
  unfolding start_login
  start_login-IsSound method s k = elim (Option-cases (ensure_can_login method s)) [
    | inr (c, conflict) ↦ rw (conflict, start_login) k
    | inl free ↦ elim (Option-cases (current_login s.login (running s.task))) [
      | inr (l, going) ↦ rw (free, going, start_login) k
      | inl fresh ↦ rw (free, fresh, start_login) (stop-IsSound (then_login method) s k)
    ]
  ]

  finish_import-IsSound : (s : Session) → IsSound cfg s → IsSound cfg (finish_import s).1
  unfolding finish_import
  finish_import-IsSound s k = elim (Bool-cases (is_authorized s.state)) [
    | inl good ↦ rw (good, finish_import) k
    | inr bad ↦ rw (bad, finish_import) (stop-IsSound then_start s k)
  ]

  resumed-IsSound : (after : After) (s : Session) → IsSound cfg s → IsSound cfg (resumed after s)
  unfolding resumed begin_login spawn stop_ends
  resumed-IsSound then_nothing s k = stop_ends-IsSound s k
  resumed-IsSound then_forget s k =
      let s' : Session = record s { client = false; state = stopped } in
      (
        inr (inl refl),
        task_kept s (record s' { stopping = none; stored = none; profile = none; transport = none })
            s.task (λ quiet. refl) k.1,
      )
  resumed-IsSound then_start s k = start-IsSound (stop_ends s) (stop_ends-IsSound s k)
  resumed-IsSound (then_login method) s k =
      let s' : Session = record s { client = false; state = stopped_state s.state } in
      (inr (inl (no_client s' refl)), ((omega arith, omega arith), tt))
  resumed-IsSound (then_import transport info) s k =
      let s' : Session = record s { client = false; state = stopped_state s.state } in
      (inr (inl (no_client s' refl)), ((omega arith, omega arith), tt))

  module _ (lower : List ℕ → List ℕ) where
    called-IsSound :
        (e : Event) (w : Option After) (s : Session)
        → IsSound cfg s
        → IsSound cfg (called lower cfg e w s)
    unfolding called logout begin_import
    called-IsSound calls_start none s k = start-IsSound s k
    called-IsSound calls_stop none s k = stop-IsSound then_nothing s k
    called-IsSound calls_logout none s k = stop-IsSound then_forget s k
    called-IsSound calls_finish_import none s k = finish_import-IsSound s k
    called-IsSound (calls_login method) none s k = start_login-IsSound method s k
    called-IsSound (calls_import transport info) none s k =
        stop-IsSound (then_import transport info) s k
    called-IsSound clears (some after) s k = clear-IsSound s k
    called-IsSound resumes (some after) s k = resumed-IsSound after s k
    called-IsSound e w s k = supervised-IsSound cfg lower e s k

    -- Along any run of calls and of steps of the supervisor and MAX, a call's wait for the
    -- cancelled supervisor and the wait for the end of a client included, from a sound session:
    -- where the tables are the new ones, the client is handed out only while the user of its
    -- profile is the account's and has been confirmed; and every pause is of 5 to 600 seconds.
    pub run-IsSound :
        (es : List Event) (s : Session) → IsSound cfg s → IsSound cfg (run lower cfg es s)
    unfolding run step
    run-IsSound [] s k = k
    run-IsSound (e ∷ es) s k = run-IsSound es (step lower cfg e s) (called-IsSound e s.stopping s k)
