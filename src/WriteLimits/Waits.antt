-- ===== src/WriteLimits/Waits.antt =====
-- app/authz/write_limits.py: the wait for one full window, and the longest of several.
use tg_my_person.Prelude.{
  ℕ, ◌+◌, ◌*◌, ◌≤◌, ◌<◌, ◌≡◌, refl, ◌≢◌, inl, inr, Bool, true, false, Option, none, some, List, [],
  ◌∷◌, arith, All, Option-cases, Bool-cases,
}
use tg_my_person.WriteLimits.Settings.{Limits}
use tg_my_person.WriteLimits.Counters.{second, Window, limit_of, WriteEvent}
use tg_my_person.WriteLimits.Windows.{Needs, need, Full, test_limit, full_window, longest, shorter}
use tg_my_person.WriteLimits.Leaving.{count_window_mono, fits_after_wait, full_before_wait}

-- `a` is a wait of at most `s` seconds.
abbrev pub WaitsAtMost : ℕ → Full → Type 0
WaitsAtMost s f = (v : ℕ) × (f.wait_for ≡ some v) × (v ≤ s)

abbrev pub AtMost : ℕ → Option ℕ → Type 0
AtMost s o = (v : ℕ) × (o ≡ some v) × (v ≤ s)

shorter-AtMost : (s : ℕ) (x y : Option ℕ) → shorter x y ≡ true → AtMost s y → AtMost s x
unfolding shorter
shorter-AtMost s none y h a = cc
shorter-AtMost s (some x) y h (v, e, l) = (x, refl, ground arith)

longer-AtMost : (s : ℕ) (x y : Option ℕ) → shorter x y ≡ false → AtMost s x → AtMost s y
unfolding shorter
longer-AtMost s x none h (v, e, l) = absurd (ground arith)
longer-AtMost s x (some y) h (v, e, l) = (y, refl, ground arith)

pub longest_cases :
    (best : Full) (fs : List Full) (s : ℕ)
    → (longest best fs).wait_for ≡ some s
    → WaitsAtMost s best × All (WaitsAtMost s) fs
unfolding longest
longest_cases best [] s e = ((s, e, omega arith), tt)
longest_cases best (f ∷ fs) s e = elim (Bool-cases (shorter best.wait_for f.wait_for)) [
  | inl t ↦
      let (here, later) = longest_cases f fs s (rw (t, longest) at e) in
      (shorter-AtMost s best.wait_for f.wait_for t here, (here, later))
  | inr t ↦
      let (here, later) = longest_cases best fs s (rw (t, longest) at e) in
      (here, (longer-AtMost s best.wait_for f.wait_for t here, later))
]

-- The longest item is one of the list.
pub longest-mem :
    (P : Full → Type 0) (best : Full) (fs : List Full) → P best → All P fs → P (longest best fs)
unfolding longest
longest-mem P best [] h hs = h
longest-mem P best (f ∷ fs) h (k, hs) = elim (Bool-cases (shorter best.wait_for f.wait_for)) [
  | inl t ↦ rw (t, longest) (longest-mem P f fs k hs)
  | inr t ↦ rw (t, longest) (longest-mem P best fs h hs)
]

module _ (events : List WriteEvent) (id : ℕ) (limits : Limits) (needs : Needs)
    (new_dialog : Bool) where
  -- A window that is not full does not become so by waiting.
  test_limit_stays :
      (now later : ℕ) (w : Window) (limit : ℕ)
      → now ≤ later
      → test_limit events id limits needs now new_dialog w limit ≡ none
      → test_limit events id limits needs later new_dialog w limit ≡ none
  unfolding test_limit
  test_limit_stays now later w limit h e = ground (arith, count_window_mono events id w now later h)

  -- A full window is free again after its wait.
  test_limit_frees :
      (now later s : ℕ) (w : Window) (limit : ℕ) (f : Full)
      → now + s * second ≤ later
      → test_limit events id limits needs now new_dialog w limit ≡ some f
      → AtMost s f.wait_for
      → test_limit events id limits needs later new_dialog w limit ≡ none
  unfolding test_limit
  test_limit_frees now later s w limit f h e (v, ev, lv) =
      ground (arith, fits_after_wait events id w now later limit (need needs w.kind))

  -- A full window is still full a second before its wait ends.
  test_limit_blocks :
      (now later s : ℕ) (w : Window) (limit : ℕ) (f : Full)
      → later + second ≡ now + s * second
      → now < later
      → test_limit events id limits needs now new_dialog w limit ≡ some f
      → f.wait_for ≡ some s
      → test_limit events id limits needs later new_dialog w limit ≢ none
  unfolding test_limit
  test_limit_blocks now later s w limit f h lt e ev =
      ground (arith, full_before_wait events id w now later limit (need needs w.kind))

  pub full_window_stays :
      (now later : ℕ) (w : Window)
      → now ≤ later
      → full_window events id limits needs now new_dialog w ≡ none
      → full_window events id limits needs later new_dialog w ≡ none
  unfolding full_window
  full_window_stays now later w h q = elim (Option-cases (limit_of limits w.name)) [
    | inl e ↦ rw (e, full_window) refl
    | inr (limit, e) ↦
        rw (e, full_window) (test_limit_stays now later w limit h (rw (e, full_window) at q))
  ]

  pub full_window_frees :
      (now later s : ℕ) (w : Window) (f : Full)
      → now + s * second ≤ later
      → full_window events id limits needs now new_dialog w ≡ some f
      → AtMost s f.wait_for
      → full_window events id limits needs later new_dialog w ≡ none
  unfolding full_window
  full_window_frees now later s w f h q a = elim (Option-cases (limit_of limits w.name)) [
    | inl e ↦ rw (e, full_window) refl
    | inr (limit, e) ↦
        rw (e, full_window) (test_limit_frees now later s w limit f h (rw (e, full_window) at q) a)
  ]

  pub full_window_blocks :
      (now later s : ℕ) (w : Window) (f : Full)
      → later + second ≡ now + s * second
      → now < later
      → full_window events id limits needs now new_dialog w ≡ some f
      → f.wait_for ≡ some s
      → full_window events id limits needs later new_dialog w ≢ none
  unfolding full_window
  full_window_blocks now later s w f h lt q v r = elim (Option-cases (limit_of limits w.name)) [
    | inl e ↦ cc (rw (e, full_window) at q)
    | inr (limit, e) ↦
        test_limit_blocks now later s w limit f h lt (rw (e, full_window) at q) v
          (rw (e, full_window) at r)
  ]
