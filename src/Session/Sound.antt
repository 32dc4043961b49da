-- ===== src/Session/Sound.antt =====
-- app/max/session.py: when the client of a session is handed out, and who it then belongs to.
use mathlib.Core.Path.{subst}
use tg_my_person.Prelude.{
  ℕ, ◌≤◌, ◌≡◌, refl, Bool, true, false, Option, none, some, ◌∙◌, ap, List, ◌∷◌, ℤ, ◌==ℤ◌, ==ℤ_iff,
  if◌then◌else◌, arith, ltb, ◌*◌, sym, Option-cases, Bool-cases, inl, inr, ◌⊎◌, ◌&&◌,
}
use tg_my_person.Session.Login.{Login, Prompt}
use tg_my_person.Session.State.{
  State, failed, connecting, reconnecting, proxy_required, Failure, identity_mismatch, Loop, Phase,
  spawned, opening, dialing, verifying, live, closing, sleeping, Task, Session, Config,
}
use tg_my_person.Session.Supervisor.{
  backoff_start, backoff_max, proxy_ok, enter, boot, built, connected, is_network, retry, handle,
  closing_down, closed, fail, confirm_user, verified, woken, prompted, user_of, prompt_state,
  announced, noted_user, ended,
}
use tg_my_person.Session.Operations.{
  is_authorized, client_of, stopped_state, Event, boots, builds, prompts, connects, verifies,
  catches_up, fails, closes, wakes, advance, supervised,
}

-- The account's user is the profile's.
abbrev pub IsOwn : Session → Type 0
IsOwn s = (user : ℤ) × (s.profile ≡ some (some user)) × (s.account_user ≡ some user)

-- With the new tables the client is handed out of a session with a confirmed user only.
abbrev pub IsGuarded : Config → Session → Type 0
IsGuarded cfg s =
    (cfg.new_mode ≡ false) ⊎ ((client_of s ≡ false) ⊎ ((s.identity_ok ≡ true) × IsOwn s))

-- An attempt that has not come through `_on_authorized` is not announced.
abbrev pub InPhase : Session → Phase → Type 0
InPhase s opening = is_authorized s.state ≡ false
InPhase s dialing = is_authorized s.state ≡ false
InPhase s verifying = is_authorized s.state ≡ false
InPhase s _ = Unit

abbrev pub HasPause : Loop → Type 0
HasPause l = (backoff_start ≤ l.backoff) × (l.backoff ≤ backoff_max)

abbrev pub HasTask : Session → Option Task → Type 0
HasTask s none = Unit
HasTask s (some t) = HasPause t.loop × InPhase s t.phase

abbrev pub IsSound : Config → Session → Type 0
IsSound cfg s = IsGuarded cfg s × HasTask s s.task

pub no_client : (s : Session) → s.client ≡ false → client_of s ≡ false
no_client s e = ground arith

pub not_announced : (s : Session) → is_authorized s.state ≡ false → client_of s ≡ false
not_announced s e = ground arith

pub stopped_quiet : (st : State) → is_authorized (stopped_state st) ≡ false
stopped_quiet st = ground arith

prompt_quiet : (p : Prompt) → is_authorized (prompt_state p) ≡ false
prompt_quiet p = ground arith

own_profile :
    (profile : Option (Option ℤ)) (user : ℤ)
    → user_of profile ≡ some user
    → profile ≡ some (some user)
own_profile none user e = absurd cc
own_profile (some u) user e = ap some e

pub confirmed : (cfg : Config) (s : Session) → s.identity_ok ≡ true → IsOwn s → IsGuarded cfg s
confirmed cfg s ok own = inr (inr (ok, own))

module _ (cfg : Config) where
  pub unannounced : (s : Session) → is_authorized s.state ≡ false → IsGuarded cfg s
  unannounced s e = inr (inl (not_announced s e))

  closing_down-IsSound :
      (left : Option Failure) (l : Loop) (s : Session)
      → HasPause l
      → IsSound cfg (closing_down left l s)
  closing_down-IsSound left l s h = (inr (inl (no_client (closing_down left l s) refl)), (h, tt))

  closed-IsSound :
      (left : Option Failure) (now : ℕ) (l : Loop) (s : Session)
      → HasPause l
      → IsGuarded cfg s
      → IsSound cfg (closed left now l s)
  unfolding closed retry
  closed-IsSound none now l s h g = (g, tt)
  closed-IsSound (some f) now l s h g = elim (Bool-cases l.one_shot) [
    | inl first ↦ rw first (inr (inl refl), tt)
    | inr later ↦
        let quiet : is_authorized
              (if is_network f && l.was_authorized then reconnecting else failed)
            ≡ false =
          ground arith in
        rw later (inr (inl (rw quiet refl)), ((ground arith, ground arith), tt))
  ]

  enter-IsSound : (now : ℕ) (l : Loop) (s : Session) → HasPause l → IsSound cfg (enter now l s)
  unfolding enter
  enter-IsSound now l s h =
      let quiet : is_authorized (if l.was_authorized then reconnecting else connecting) ≡ false =
        ground arith in
      (inr (inl (rw quiet refl)), (h, quiet))

  boot-IsSound : (now : ℕ) (l : Loop) (s : Session) → HasPause l → IsSound cfg (boot cfg now l s)
  unfolding boot
  boot-IsSound now l s h = elim (Bool-cases (proxy_ok cfg)) [
    | inl good ↦
        let same : boot cfg now l s ≡ enter now l s = ground arith in
        subst (IsSound cfg) (sym same) (enter-IsSound now l s h)
    | inr bad ↦
        let same : boot cfg now l s ≡ ended failed proxy_required s = ground arith in
        subst (IsSound cfg) (sym same) (inr (inl refl), tt)
  ]

  built-IsSound :
      (l : Loop) (s : Session) → HasPause l → InPhase s opening → IsSound cfg (built l s)
  unfolding built
  built-IsSound l s h p = (inr (inl (not_announced s p)), (h, p))

  connected-IsSound :
      (user : Option ℤ) (saved : Option ℕ) (l : Loop) (s : Session)
      → HasPause l
      → InPhase s dialing
      → IsSound cfg (connected user saved l s)
  unfolding connected
  connected-IsSound user saved l s h p = (inr (inl (rw p refl)), (h, p))

  woken-IsSound : (now : ℕ) (l : Loop) (s : Session) → HasPause l → IsSound cfg (woken now l s)
  unfolding woken
  woken-IsSound now l s h =
      let doubled = l.backoff * 2 in
      let l' : Loop = record l {
        backoff = if ltb backoff_max doubled then backoff_max else doubled;
      } in
      enter-IsSound now l' s (ground arith)

  at_task :
      (s : Session) (t : Task)
      → s.task ≡ some t
      → IsGuarded cfg s
      → HasTask s (some t)
      → IsSound cfg s
  at_task s t e g h = (g, subst (HasTask s) (sym e) h)

  prompted-IsSound :
      (login : Login) (l : Loop) (s : Session)
      → s.task ≡ some (record { loop = l; phase = dialing })
      → HasPause l
      → InPhase s dialing
      → IsSound cfg (prompted login s)
  unfolding prompted
  prompted-IsSound login l s at h p =
      let t : Task = record { loop = l; phase = dialing } in
      elim (Option-cases login.step) [
        | inl quiet ↦
            rw (quiet, prompted)
              (at_task (record s { login = some login }) t at (unannounced s p) (h, p))
        | inr (shown, asks) ↦
            let s' : Session = record s { login = some login; state = prompt_state shown } in
            rw (asks, prompted)
              (at_task s' t at (unannounced s' (prompt_quiet shown)) (h, prompt_quiet shown))
      ]

  module _ (lower : List ℕ → List ℕ) where
    pub fail-IsSound :
        (f : Failure) (l : Loop) (s : Session) → HasPause l → IsSound cfg (fail lower f l s)
    unfolding fail
    fail-IsSound f l s h = elim (Option-cases (handle lower f l s)) [
      | inl goes_on ↦ rw (goes_on, fail) (closing_down-IsSound (some f) l s h)
      | inr (s', final) ↦ rw (final, fail) (closing_down-IsSound none l s' h)
    ]

    confirm_user-IsSound :
        (l : Loop) (user known : Option ℤ) (s : Session)
        → HasPause l
        → user_of s.profile ≡ user
        → s.account_user ≡ known
        → IsSound cfg (confirm_user lower l user known s)
    unfolding confirm_user
    confirm_user-IsSound l none known s h mine account = fail-IsSound identity_mismatch l s h
    confirm_user-IsSound l (some user) none s h mine account =
        (inr (inr (refl, (user, own_profile s.profile user mine, refl))), (h, tt))
    confirm_user-IsSound l (some user) (some known) s h mine account =
        elim (Bool-cases (known ==ℤ user)) [
          | inl same ↦
              let e : known ≡ user = (==ℤ_iff known user).0 same in
              rw (same, confirm_user)
                (
                  inr (inr (refl, (user, own_profile s.profile user mine, account ∙ ap some e))),
                  (h, tt),
                )
          | inr apart ↦ rw (apart, confirm_user) (fail-IsSound identity_mismatch l s h)
        ]

    verified-IsSound :
        (written : Bool) (l : Loop) (s : Session)
        → HasPause l
        → IsSound cfg (verified lower cfg written l s)
    unfolding verified
    verified-IsSound written l s h = elim (Bool-cases cfg.new_mode) [
      | inl new ↦
          let mine = user_of s.profile in
          let same : verified lower cfg written l s ≡ confirm_user lower l mine s.account_user s =
            ground arith in
          subst (IsSound cfg) (sym same) (confirm_user-IsSound l mine s.account_user s h refl refl)
      | inr old ↦
          let noted = noted_user written (user_of s.profile) s.account_user in
          let same : verified lower cfg written l s
              ≡ announced l (record s { account_user = noted }) =
            ground arith in
          subst (IsSound cfg) (sym same) (inl old, (h, tt))
    ]

    advance-IsSound :
        (e : Event) (l : Loop) (p : Phase) (s : Session)
        → s.task ≡ some (record { loop = l; phase = p })
        → HasPause l
        → InPhase s p
        → IsSound cfg s
        → IsSound cfg (advance lower cfg e l p s)
    unfolding advance
    advance-IsSound (boots now) l spawned s at h p k = boot-IsSound now l s h
    advance-IsSound builds l opening s at h p k = built-IsSound l s h p
    advance-IsSound (prompts login) l dialing s at h p k = elim (Bool-cases l.interactive) [
      | inl asks ↦ rw asks (prompted-IsSound login l s at h p)
      | inr quiet ↦ rw quiet k
    ]
    advance-IsSound (connects user saved) l dialing s at h p k =
        connected-IsSound user saved l s h p
    advance-IsSound (verifies written) l verifying s at h p k = verified-IsSound written l s h
    advance-IsSound (catches_up chat) l live s at h p k =
        at_task (record s { caught_up = chat ∷ s.caught_up }) (record { loop = l; phase = live }) at
          k.0 (h, tt)
    advance-IsSound (fails f) l opening s at h p k = fail-IsSound f l s h
    advance-IsSound (fails f) l dialing s at h p k = fail-IsSound f l s h
    advance-IsSound (fails f) l verifying s at h p k = fail-IsSound f l s h
    advance-IsSound (fails f) l live s at h p k = fail-IsSound f l s h
    advance-IsSound (closes now) l (closing left) s at h p k = closed-IsSound left now l s h k.0
    advance-IsSound (wakes now) l sleeping s at h p k = woken-IsSound now l s h
    advance-IsSound _ l p s at h q k = k

    pub supervised-IsSound :
        (e : Event) (s : Session) → IsSound cfg s → IsSound cfg (supervised lower cfg e s.task s)
    supervised-IsSound e s k = elim (Option-cases s.task) [
      | inl none_runs ↦ subst (λ o. IsSound cfg (supervised lower cfg e o s)) (sym none_runs) k
      | inr (t, at) ↦
          let running_task : HasTask s (some t) = subst (HasTask s) at k.1 in
          subst (λ o. IsSound cfg (supervised lower cfg e o s)) (sym at)
            (advance-IsSound e t.loop t.phase s at running_task.0 running_task.1 k)
    ]
