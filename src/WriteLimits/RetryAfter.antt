-- ===== src/WriteLimits/RetryAfter.antt =====
-- app/authz/write_limits.py: the Retry-After of a refusal by the windows.
use tg_my_person.Prelude.{
  ℕ, ◌+◌, ◌*◌, ◌≤◌, ◌<◌, ◌≡◌, refl, sym, ◌∙◌, ◌≢◌, inl, inr, Bool, none, some, List, [], ◌∷◌,
  String, arith, All, All-map, Option-cases,
}
use tg_my_person.WriteLimits.Settings.{Limits, Effective}
use tg_my_person.WriteLimits.Counters.{second, Window, windows, WriteEvent}
use tg_my_person.WriteLimits.Windows.{
  Needs, Full, full_window, full_windows, check_windows, raise_longest, refusal, longest,
  WriteLimited,
}
use tg_my_person.WriteLimits.Fits.{full_windows-none, raise_none}
use tg_my_person.WriteLimits.Waits.{
  WaitsAtMost, longest_cases, longest-mem, full_window_stays, full_window_frees, full_window_blocks,
}

module _ (events : List WriteEvent) (id : ℕ) (limits : Limits) (needs : Needs)
    (new_dialog : Bool) where
  full_windows_free :
      (now later s : ℕ) (ws : List Window)
      → now + s * second ≤ later
      → All (WaitsAtMost s) (full_windows events id limits needs now new_dialog ws)
      → full_windows events id limits needs later new_dialog ws ≡ []
  unfolding full_windows
  full_windows_free now later s [] h a = refl
  full_windows_free now later s (w ∷ ws) h a =
      elim (Option-cases (full_window events id limits needs now new_dialog w)) [
        | inl e ↦
            let rest = full_windows_free now later s ws h (rw (e, full_windows) at a) in
            rw
              (
                full_window_stays events id limits needs new_dialog now later w (omega arith) e,
                full_windows,
              )
              rest
        | inr (f, e) ↦
            let all : WaitsAtMost s f
                × All (WaitsAtMost s) (full_windows events id limits needs now new_dialog ws) =
              rw (e, full_windows) at a in
            rw
              (
                full_window_frees events id limits needs new_dialog now later s w f h e all.0,
                full_windows,
              )
              (full_windows_free now later s ws h all.1)
      ]

  abbrev nil_parts :
      (now : ℕ) (w : Window) (ws : List Window)
      → full_windows events id limits needs now new_dialog (w ∷ ws) ≡ []
      → (full_window events id limits needs now new_dialog w ≡ none)
        × (full_windows events id limits needs now new_dialog ws ≡ [])
  nil_parts now w ws e =
      let parts = (full_windows-none events id limits needs now new_dialog (w ∷ ws)).0 e in
      (parts.0, (full_windows-none events id limits needs now new_dialog ws).1 parts.1)

  -- For every item with the wait `s`, some window is still full a second before.
  full_windows_block :
      (now later s : ℕ) (ws : List Window)
      → later + second ≡ now + s * second
      → now < later
      → All
          (λ f. f.wait_for ≡ some s → full_windows events id limits needs later new_dialog ws ≢ [])
          (full_windows events id limits needs now new_dialog ws)
  unfolding full_windows
  full_windows_block now later s [] h lt = tt
  full_windows_block now later s (w ∷ ws) h lt =
      let tail =
        All-map
          (λ f. f.wait_for ≡ some s → full_windows events id limits needs later new_dialog ws ≢ [])
          (λ f.
            f.wait_for ≡ some s
            → full_windows events id limits needs later new_dialog (w ∷ ws) ≢ [])
          (full_windows events id limits needs now new_dialog ws)
          (λ f b v r. b v (nil_parts later w ws r).1) (full_windows_block now later s ws h lt) in
      elim (Option-cases (full_window events id limits needs now new_dialog w)) [
        | inl e ↦ rw (e, full_windows) tail
        | inr (f, e) ↦
            rw (e, full_windows)
              (
                (λ v r.
                    full_window_blocks events id limits needs new_dialog now later s w f h lt e v
                      (nil_parts later w ws r).0),
                tail,
              )
      ]

module _ (eff : Effective) (tool : String) where
  -- The wait of a refusal bounds those of all the full windows.
  raised_waits :
      (fs : List Full) (exc : WriteLimited) (s : ℕ)
      → raise_longest eff tool fs ≡ some exc
      → exc.retry_after ≡ some s
      → All (WaitsAtMost s) fs
  unfolding raise_longest refusal
  raised_waits [] exc s e r = tt
  raised_waits (f ∷ fs) exc s e r = longest_cases f fs s (ground arith)

  raised_some :
      (P : Full → Type 0) (fs : List Full) (exc : WriteLimited)
      → raise_longest eff tool fs ≡ some exc
      → All P fs
      → (f : Full) × P f × (exc.retry_after ≡ f.wait_for)
  unfolding raise_longest refusal
  raised_some P [] exc e h = absurd (cc)
  raised_some P (f ∷ fs) exc e (h, hs) = (longest f fs, longest-mem P f fs h hs, ground arith)

module _ (events : List WriteEvent) (eff : Effective) (limits : Limits) (tool : String)
    (needs : Needs) (now : ℕ) (new_dialog : Bool) (exc : WriteLimited) where
  -- After the Retry-After of a refusal, and with no further write, the same call passes all windows.
  pub retry_after_passes :
      (s later : ℕ)
      → check_windows events eff limits tool needs now new_dialog ≡ some exc
      → exc.retry_after ≡ some s
      → now + s * second ≤ later
      → check_windows events eff limits tool needs later new_dialog ≡ none
  unfolding check_windows raise_longest
  retry_after_passes s later e r h =
      let all =
        raised_waits eff tool
          (full_windows events eff.account_id limits needs now new_dialog windows) exc s e r in
      rw
        (
          full_windows_free events eff.account_id limits needs new_dialog now later s windows h all,
          raise_longest,
        )
        refl

  -- A second before the Retry-After of a refusal has gone by, if that is still after the call, the
  -- same call is still refused.
  pub retry_after_least :
      (s later : ℕ)
      → check_windows events eff limits tool needs now new_dialog ≡ some exc
      → exc.retry_after ≡ some s
      → later + second ≡ now + s * second
      → now < later
      → check_windows events eff limits tool needs later new_dialog ≢ none
  unfolding check_windows
  retry_after_least s later e r h lt none_later =
      let (f, blocks, same) =
        raised_some eff tool
          (λ f.
            f.wait_for ≡ some s
            → full_windows events eff.account_id limits needs later new_dialog windows ≢ [])
          (full_windows events eff.account_id limits needs now new_dialog windows) exc e
          (full_windows_block events eff.account_id limits needs new_dialog now later s windows h
            lt) in
      blocks (sym same ∙ r) ((raise_none eff tool _).0 none_later)
