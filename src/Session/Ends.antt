-- ===== src/Session/Ends.antt =====
-- app/max/session.py: how an attempt that failed goes on.
use tg_my_person.Prelude.{
  ℕ, ◌+◌, ◌≡◌, refl, Bool, true, false, ◌||◌, Option, none, some, List, leb, if◌then◌else◌, arith,
  Bool-cases, inl, inr, ap, ◌∙◌,
}
use tg_my_person.Session.Errors.{is_unauthorized, is_banned}
use tg_my_person.Session.State.{
  Failure, qr_expired, auth_failed, password_exhausted, identity_mismatch, api, network, other,
  Loop, closing, sleeping, Task, Session, Config,
}
use tg_my_person.Session.Supervisor.{
  backoff_start, stable_reset, retry, handle_api, handle, closing_down, closed, fail,
}
use tg_my_person.Session.Operations.{closes, advance, supervised}

-- The failures after which no attempt may help.
unfoldable pub is_final : (List ℕ → List ℕ) → Failure → Bool
is_final lower network = false
is_final lower other = false
is_final lower (api e) = is_unauthorized e || is_banned lower e
is_final lower _ = true

-- The pause after an attempt that has begun at `l.began` and failed at `now`.
unfoldable pub pause : ℕ → Loop → ℕ
pause now l = if leb (l.began + stable_reset) now then backoff_start else l.backoff

abbrev pub resting : Bool → ℕ → Loop → Option Task
resting true now l = none
resting false now l = some (record { loop = record l { backoff = pause now l }; phase = sleeping })

module _ (lower : List ℕ → List ℕ) (cfg : Config) where
  retry-resting :
      (f : Failure) (now : ℕ) (l : Loop) (s : Session)
      → (retry f now l s).task ≡ resting l.one_shot now l
  unfolding retry pause
  retry-resting f now l s = ground arith

  -- The failure that is left when the handlers have run.
  abbrev kept_failure : Failure → Option Failure
  kept_failure f = if is_final lower f then none else some f

  fail-closing :
      (f : Failure) (l : Loop) (s : Session)
      → (fail lower f l s).task ≡ some (record { loop = l; phase = closing (kept_failure f) })
  unfolding fail handle handle_api is_final
  fail-closing network l s = refl
  fail-closing other l s = refl
  fail-closing qr_expired l s = refl
  fail-closing auth_failed l s = refl
  fail-closing password_exhausted l s = refl
  fail-closing identity_mismatch l s = refl
  fail-closing (api e) l s = elim (Bool-cases (is_unauthorized e)) [
    | inl revoked ↦ rw (revoked, fail) refl
    | inr good ↦ elim (Bool-cases (is_banned lower e)) [
      | inl banned ↦ rw (good, banned, fail) refl
      | inr fine ↦ rw (good, fine, fail) refl
    ]
  ]

  -- After a failure that is not final only the client is gone.
  pub fail-kept :
      (f : Failure) (l : Loop) (s : Session)
      → is_final lower f ≡ false
      → fail lower f l s ≡ closing_down (some f) l s
  unfolding fail handle handle_api is_final
  fail-kept network l s lasts = refl
  fail-kept other l s lasts = refl
  fail-kept qr_expired l s lasts = absurd cc
  fail-kept auth_failed l s lasts = absurd cc
  fail-kept password_exhausted l s lasts = absurd cc
  fail-kept identity_mismatch l s lasts = absurd cc
  fail-kept (api e) l s lasts =
      let good : is_unauthorized e ≡ false = ground arith in
      let fine : is_banned lower e ≡ false = ground arith in rw (good, fine, fail) refl

  closed-resting :
      (f : Failure) (now : ℕ) (l : Loop) (s : Session)
      → (closed (kept_failure f) now l s).task ≡ resting (is_final lower f || l.one_shot) now l
  unfolding closed
  closed-resting f now l s = elim (Bool-cases (is_final lower f)) [
    | inl final ↦ rw (final, closed) refl
    | inr lasts ↦ rw (lasts, closed) (retry-resting f now l s)
  ]

  -- After a failure, once the client is closed, the supervisor ends if no further attempt may help
  -- or the attempt was the first of a login or an import; otherwise it pauses, for 5 seconds if the
  -- attempt lasted 600 seconds.
  pub fail_rests :
      (f : Failure) (now : ℕ) (l : Loop) (s : Session)
      → (supervised lower cfg (closes now) (fail lower f l s).task (fail lower f l s)).task
        ≡ resting (is_final lower f || l.one_shot) now l
  unfolding advance
  fail_rests f now l s =
      let s' = fail lower f l s in
      ap (λ o. (supervised lower cfg (closes now) o s').task) (fail-closing f l s)
      ∙ closed-resting f now l s'
