-- ===== src/WriteLimits/Fits.antt =====
-- app/authz/write_limits.py: `_check_windows`, window by window.
use tg_my_person.Prelude.{
  ℕ, ◌+◌, ◌≤◌, ◌≡◌, refl, ◌≢◌, ◌↔◌, ◌⊎◌, inl, inr, Bool, true, false, none, some, List, [], ◌∷◌,
  String, arith, All, All-map, Option-cases,
}
use tg_my_person.WriteLimits.Settings.{Limits, Effective}
use tg_my_person.WriteLimits.Counters.{Window, windows, limit_of, WriteEvent, count_window}
use tg_my_person.WriteLimits.Windows.{
  Needs, need, Full, test_limit, full_window, full_windows, check_windows, raise_longest,
}

-- The window counts for a call with these needs.
abbrev pub IsActive : Needs → Bool → Window → Type 0
IsActive needs new_dialog w =
    (need needs w.kind ≢ 0) × ((w.new_dialogs_only ≡ false) ⊎ (new_dialog ≡ true))

-- The needed events fit the window next to those that it holds.
abbrev pub Fits : List WriteEvent → ℕ → Limits → Needs → ℕ → Bool → Window → Type 0
Fits events id limits needs now new_dialog w =
    (limit : ℕ)
    → limit_of limits w.name ≡ some limit
    → IsActive needs new_dialog w
    → count_window events id w now + need needs w.kind ≤ limit

module _ (events : List WriteEvent) (id : ℕ) (limits : Limits) (needs : Needs) (now : ℕ)
    (new_dialog : Bool) where
  test_limit-Fits :
      (w : Window) (limit : ℕ)
      → test_limit events id limits needs now new_dialog w limit ≡ none
      → IsActive needs new_dialog w
      → count_window events id w now + need needs w.kind ≤ limit
  unfolding test_limit
  test_limit-Fits w limit e a = ground arith

  Fits-test_limit :
      (w : Window) (limit : ℕ)
      → (IsActive needs new_dialog w → count_window events id w now + need needs w.kind ≤ limit)
      → test_limit events id limits needs now new_dialog w limit ≡ none
  unfolding test_limit
  Fits-test_limit w limit h = ground arith

  pub full_window-Fits :
      (w : Window)
      → full_window events id limits needs now new_dialog w ≡ none
      → Fits events id limits needs now new_dialog w
  unfolding full_window
  full_window-Fits w e limit set a = test_limit-Fits w limit (rw (set, full_window) at e) a

  pub Fits-full_window :
      (w : Window)
      → Fits events id limits needs now new_dialog w
      → full_window events id limits needs now new_dialog w ≡ none
  unfolding full_window
  Fits-full_window w h = elim (Option-cases (limit_of limits w.name)) [
    | inl e ↦ rw (e, full_window) refl
    | inr (limit, e) ↦ rw (e, full_window) (Fits-test_limit w limit (h limit e))
  ]

  pub full_windows-none :
      (ws : List Window)
      → (full_windows events id limits needs now new_dialog ws ≡ [])
        ↔ All (λ w. full_window events id limits needs now new_dialog w ≡ none) ws
  unfolding full_windows
  full_windows-none [] = (λ e. tt, λ h. refl)
  full_windows-none (w ∷ ws) = ground (arith, full_windows-none ws)

  pub All-Fits :
      (ws : List Window)
      → (full_windows events id limits needs now new_dialog ws ≡ [])
        ↔ All (Fits events id limits needs now new_dialog) ws
  All-Fits ws = (
    λ e. All-map _ _ ws full_window-Fits ((full_windows-none ws).0 e),
    λ h. (full_windows-none ws).1 (All-map _ _ ws Fits-full_window h),
  )

pub raise_none :
    (eff : Effective) (tool : String) (fs : List Full)
    → (raise_longest eff tool fs ≡ none) ↔ (fs ≡ [])
unfolding raise_longest
raise_none eff tool [] = (λ e. refl, λ e. refl)
raise_none eff tool (f ∷ fs) = (λ e. absurd (cc), λ e. absurd (cc))

-- A call passes exactly when the events that it needs fit every window that counts for it.
pub check_windows-none_iff :
    (events : List WriteEvent) (eff : Effective) (limits : Limits) (tool : String) (needs : Needs)
    (now : ℕ) (new_dialog : Bool)
    → (check_windows events eff limits tool needs now new_dialog ≡ none)
      ↔ All (Fits events eff.account_id limits needs now new_dialog) windows
unfolding check_windows
check_windows-none_iff events eff limits tool needs now new_dialog =
    let fs = full_windows events eff.account_id limits needs now new_dialog windows in
    let fit = All-Fits events eff.account_id limits needs now new_dialog windows in
    (λ e. fit.0 ((raise_none eff tool fs).0 e), λ h. (raise_none eff tool fs).1 (fit.1 h))
