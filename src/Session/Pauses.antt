-- ===== src/Session/Pauses.antt =====
-- app/max/session.py: the pauses between the attempts of a running session.
use mathlib.Core.Path.{subst}
use tg_my_person.Prelude.{
  ℕ, ◌+◌, ◌*◌, ◌<◌, ◌≡◌, refl, true, false, Option, none, some, All, List, [], ◌∷◌, ℤ, ltb, leb,
  if◌then◌else◌, arith, sym, ◌∙◌, ap,
}
use tg_my_person.Session.State.{
  Failure, Loop, Phase, opening, dialing, verifying, closing, sleeping, Session, Config,
}
use tg_my_person.Session.Supervisor.{
  backoff_start, backoff_max, stable_reset, enter, built, connected, retry, closed, woken, fail,
}
use tg_my_person.Session.Ends.{is_final, fail-kept}
use tg_my_person.Session.Operations.{
  Event, builds, connects, fails, closes, wakes, advance, supervised, called, step, run,
}

-- How far an attempt gets: before the client is built, in `connect`, in `_on_authorized` with what
-- `connect` left.
pub data Reach : Type 0 where
  unbuilt in_connect : Reach
  after_connect : Option ℤ → Option ℕ → Reach

-- An attempt: how far it gets, how it fails, after how many seconds its client is closed, and how
-- long it then rests.
pub record Attempt : Type 0 where
  pub reach : Reach
  pub failure : Failure
  pub lasts : ℕ
  pub rests : ℕ

-- The steps up to the failure, before others.
abbrev pub reaching : Reach → List Event → List Event
reaching unbuilt es = es
reaching in_connect es = builds ∷ es
reaching (after_connect user saved) es = builds ∷ connects user saved ∷ es

abbrev pub attempts : List Attempt → ℕ → List Event
attempts [] now = []
attempts (a ∷ more) now = reaching a.reach (
    fails a.failure
    ∷ closes (now + a.lasts)
    ∷ wakes (now + a.lasts + a.rests)
    ∷ attempts more (now + a.lasts + a.rests))

abbrev pub doubled : List Attempt → ℕ → ℕ
doubled [] b = b
doubled (a ∷ more) b = doubled more (b * 2)

-- At most the longest pause.
abbrev pub capped : ℕ → ℕ
capped b = if ltb backoff_max b then backoff_max else b

module _ (lower : List ℕ → List ℕ) where
  -- Not final, and within the time after which the pauses start over.
  abbrev pub IsQuick : Attempt → Type 0
  IsQuick a = (is_final lower a.failure ≡ false) × (a.lasts < stable_reset)

  -- In an attempt that began at `now`, with the pause that is next; no other call waits.
  abbrev pub IsAt : Phase → ℕ → ℕ → Session → Type 0
  IsAt p now b s =
      (l : Loop) × (s.task ≡ some (record { loop = l; phase = p }))
      × (s.stopping ≡ none)
      × (l.one_shot ≡ false)
      × (l.began ≡ now)
      × (l.backoff ≡ b)

  abbrev pub IsTrying : ℕ → ℕ → Session → Type 0
  IsTrying now b s = IsAt opening now b s

  module _ (cfg : Config) where
    -- A step of the supervisor, when no call waits.
    supervises :
        (e : Event) (l : Loop) (p : Phase) (s : Session)
        → s.task ≡ some (record { loop = l; phase = p })
        → s.stopping ≡ none
        → called lower cfg e none s ≡ supervised lower cfg e s.task s
        → step lower cfg e s ≡ advance lower cfg e l p s
    unfolding step
    supervises e l p s at free same =
        ap (λ w. called lower cfg e w s) free ∙ same ∙ ap (λ o. supervised lower cfg e o s) at

    after_build :
        (now b : ℕ) (s : Session)
        → IsAt opening now b s
        → IsAt dialing now b (step lower cfg builds s)
    unfolding called advance built
    after_build now b s (l, at, free, first, began, rests) =
        subst (IsAt dialing now b) (sym (supervises builds l opening s at free refl))
          (l, refl, free, first, began, rests)

    connects-IsAt :
        (user : Option ℤ) (saved : Option ℕ) (now b : ℕ) (s : Session)
        → IsAt dialing now b s
        → IsAt verifying now b (step lower cfg (connects user saved) s)
    unfolding called advance connected
    connects-IsAt user saved now b s (l, at, free, first, began, rests) =
        subst (IsAt verifying now b)
          (sym (supervises (connects user saved) l dialing s at free refl))
          (
            record l { seed = none; one_shot = false; interactive = false; was_authorized = true },
            refl,
            free,
            refl,
            began,
            rests,
          )

    -- The failure of an attempt, whichever of the three it is in.
    abbrev Fails : Phase → Type 0
    Fails p =
        (f : Failure) (l : Loop) (s : Session)
        → s.task ≡ some (record { loop = l; phase = p })
        → s.stopping ≡ none
        → step lower cfg (fails f) s ≡ fail lower f l s

    Fails-unbuilt : Fails opening
    unfolding called advance
    Fails-unbuilt f l s at free = supervises (fails f) l opening s at free refl

    Fails-in_connect : Fails dialing
    unfolding called advance
    Fails-in_connect f l s at free = supervises (fails f) l dialing s at free refl

    Fails-after_connect : Fails verifying
    unfolding called advance
    Fails-after_connect f l s at free = supervises (fails f) l verifying s at free refl

    fails-IsAt :
        (p : Phase) (f : Failure) (now b : ℕ) (s : Session)
        → Fails p
        → is_final lower f ≡ false
        → IsAt p now b s
        → IsAt (closing (some f)) now b (step lower cfg (fails f) s)
    fails-IsAt p f now b s fails_here lasts (l, at, free, first, began, rests) =
        subst (IsAt (closing (some f)) now b)
          (sym (fails_here f l s at free ∙ fail-kept lower cfg f l s lasts))
          (l, refl, free, first, began, rests)

    closes-IsAt :
        (f : Failure) (ends now b : ℕ) (s : Session)
        → ends < now + stable_reset
        → IsAt (closing (some f)) now b s
        → IsAt sleeping now b (step lower cfg (closes ends) s)
    unfolding called advance closed retry
    closes-IsAt f ends now b s quick (l, at, free, first, began, rests) =
        let next = if leb (l.began + stable_reset) ends then backoff_start else l.backoff in
        let kept : next ≡ b = ground arith in
        subst (IsAt sleeping now b)
          (sym (supervises (closes ends) l (closing (some f)) s at free refl))
          (rw first (record l { one_shot = false; backoff = next }, refl, free, refl, began, kept))

    wakes-IsAt :
        (later now b : ℕ) (s : Session)
        → IsAt sleeping now b s
        → IsTrying later (capped (b * 2)) (step lower cfg (wakes later) s)
    unfolding called advance woken enter
    wakes-IsAt later now b s (l, at, free, first, began, rests) =
        subst (IsTrying later (capped (b * 2)))
          (sym (supervises (wakes later) l sleeping s at free refl))
          (
            record l { backoff = capped (l.backoff * 2); began = later },
            refl,
            free,
            first,
            refl,
            ap (λ c. capped (c * 2)) rests,
          )

    -- From the failure to the next attempt.
    fails_and_rests :
        (p : Phase) (a : Attempt) (now b : ℕ) (s : Session)
        → Fails p
        → IsQuick a
        → IsAt p now b s
        → IsTrying (now + a.lasts + a.rests) (capped (b * 2)) (
            step lower cfg
              (wakes (now + a.lasts + a.rests))
              (step lower cfg (closes (now + a.lasts)) (step lower cfg (fails a.failure) s)))
    fails_and_rests p a now b s fails_here (lasts, quick) h =
        let failed = step lower cfg (fails a.failure) s in
        let ends = now + a.lasts in
        let asleep : IsAt sleeping now b (step lower cfg (closes ends) failed) =
          closes-IsAt a.failure ends now b failed (omega arith)
            (fails-IsAt p a.failure now b s fails_here lasts h) in
        wakes-IsAt (ends + a.rests) now b (step lower cfg (closes ends) failed) asleep

    -- A whole attempt, before other steps.
    attempt-IsTrying :
        (reach : Reach) (a : Attempt) (now b : ℕ) (s : Session) (es : List Event)
        → IsQuick a
        → IsTrying now b s
        → (s' : Session) × IsTrying (now + a.lasts + a.rests) (capped (b * 2)) s'
          × (run lower cfg
                (reaching reach
                  (fails a.failure ∷ closes (now + a.lasts) ∷ wakes (now + a.lasts + a.rests) ∷ es))
                s
              ≡ run lower cfg es s')
    unfolding run
    attempt-IsTrying unbuilt a now b s es quick h =
        (_, fails_and_rests opening a now b s Fails-unbuilt quick h, refl)
    attempt-IsTrying in_connect a now b s es quick h =
        let built = step lower cfg builds s in
        (
          _,
          fails_and_rests dialing a now b built Fails-in_connect quick (after_build now b s h),
          refl,
        )
    attempt-IsTrying (after_connect user saved) a now b s es quick h =
        let built = step lower cfg builds s in
        (
          _,
          fails_and_rests verifying a now b (step lower cfg (connects user saved) built)
              Fails-after_connect quick
              (connects-IsAt user saved now b built (after_build now b s h)),
          refl,
        )

    attempts_tries :
        (more : List Attempt) (now b : ℕ) (s : Session)
        → All IsQuick more
        → IsTrying now (capped b) s
        → (later : ℕ) × IsTrying later
            (capped (doubled more b))
            (run lower cfg (attempts more now) s)
    unfolding run
    attempts_tries [] now b s quick h = (now, h)
    attempts_tries (a ∷ more) now b s (quick, rest) h =
        let later = now + a.lasts + a.rests in
        let (s', next, e) =
          attempt-IsTrying a.reach a now (capped b) s (attempts more later) quick h in
        let same : capped (capped b * 2) ≡ capped (b * 2) = ground arith in
        let (last, tries) =
          attempts_tries more later (b * 2) s' rest (subst (λ c. IsTrying later c s') same next) in
        (last, subst (IsTrying last (capped (doubled more (b * 2)))) (sym e) tries)

    -- A running session outlasts any number of attempts that fail before they are announced, at the
    -- building of the client, in connect or after it, each within 600 seconds and none for good:
    -- after each it tries again, and its pause is 5 seconds doubled that many times, at most 600.
    pub attempts_go_on :
        (more : List Attempt) (now : ℕ) (s : Session)
        → All IsQuick more
        → IsTrying now backoff_start s
        → (later : ℕ) × IsTrying later
            (capped (doubled more backoff_start))
            (run lower cfg (attempts more now) s)
    attempts_go_on more now s quick h = attempts_tries more now backoff_start s quick h
