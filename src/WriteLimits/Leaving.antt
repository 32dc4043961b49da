-- ===== src/WriteLimits/Leaving.antt =====
-- app/authz/write_limits.py: how events leave a window, and the query for the wait.
use tg_my_person.Prelude.{
  ℕ, suc, ◌+◌, ◌-◌, ◌*◌, ◌≤◌, ◌<◌, ◌≡◌, ◌∙◌, Bool, ◌&&◌, some, List, map, arith, ltb, leb, count,
  filter, count_mono, count-map, count-filter, length-map, length-filter, length, get_elem?,
}
use tg_my_person.Prelude.Sort.{
  sort, sort-IsSorted, count-sort, length-sort, count_above_le, count_from_ge, get_elem?_total,
}
use tg_my_person.WriteLimits.Counters.{
  second, span, Window, WriteEvent, in_window, count_window, retry_after, wait_seconds,
}

module _ (events : List WriteEvent) (id : ℕ) (w : Window) where
  -- As time passes, events only leave a window.
  pub count_window_mono :
      (now later : ℕ) → now ≤ later → count_window events id w later ≤ count_window events id w now
  unfolding count_window
  count_window_mono now later h =
      count_mono (in_window id w later) (in_window id w now) (λ e p. ground arith) events

  times : ℕ → List ℕ
  times now = map (λ e. e.at) (filter (in_window id w now) events)

  length-times : (now : ℕ) → length (times now) ≡ count_window events id w now
  unfolding times count_window
  length-times now =
      length-map (λ (e : WriteEvent). e.at) (filter (in_window id w now) events)
      ∙ length-filter (in_window id w now) events

  -- The events in the window at a later time, among the times in the window now.
  count-times :
      (now : ℕ) (p : ℕ → Bool)
      → count p (sort (times now)) ≡ count (λ e. in_window id w now e && p e.at) events
  unfolding times
  count-times now p =
      count-sort p (times now)
      ∙ count-map (λ (e : WriteEvent). e.at) p (filter (in_window id w now) events)
      ∙ count-filter (λ e. p e.at) (in_window id w now) events

  -- Once the event at index `i` has left the window, at most those behind it are there.
  count_after_leaving :
      (now later i at : ℕ)
      → get_elem? (sort (times now)) i ≡ some at
      → now ≤ later
      → at + span w ≤ later
      → count_window events id w later + suc i ≤ count_window events id w now
  unfolding count_window
  count_after_leaving now later i at e h k =
      let above = count_above_le i at (sort (times now)) (sort-IsSorted (times now)) e in
      let same = count-times now (ltb at) in
      let fewer =
        count_mono (in_window id w later) (λ v. in_window id w now v && ltb at v.at)
          (λ v p. ground arith) events in
      omega (arith, above, same, fewer, length-sort (times now), length-times now)

  -- Until then, it and those behind it stay.
  count_before_leaving :
      (now later i at : ℕ)
      → get_elem? (sort (times now)) i ≡ some at
      → later < at + span w
      → count_window events id w now ≤ count_window events id w later + i
  unfolding count_window
  count_before_leaving now later i at e k =
      let from = count_from_ge i at (sort (times now)) (sort-IsSorted (times now)) e in
      let same = count-times now (leb at) in
      let more =
        count_mono (λ v. in_window id w now v && leb at v.at) (in_window id w later)
          (λ v p. ground arith) events in
      omega (arith, from, same, more, length-sort (times now), length-times now)

  -- The query for the wait finds its row.
  retry_row :
      (now limit n : ℕ)
      → n ≤ limit
      → limit < count_window events id w now + n
      → 0 < n
      → (at : ℕ) × (get_elem? (sort (times now)) (count_window events id w now + n - limit - 1)
          ≡ some at)
        × (retry_after events id w now (count_window events id w now) limit n
            ≡ wait_seconds (at + span w - now))
  unfolding retry_after times
  retry_row now limit n small full pos =
      let (at, e) =
        get_elem?_total (count_window events id w now + n - limit - 1) (sort (times now))
          (omega (arith, length-sort (times now), length-times now)) in
      (at, e, rw e)

  -- After the wait, the needed events fit.
  pub fits_after_wait :
      (now later limit n : ℕ)
      → n ≤ limit
      → limit < count_window events id w now + n
      → 0 < n
      → now + retry_after events id w now (count_window events id w now) limit n * second ≤ later
      → count_window events id w later + n ≤ limit
  fits_after_wait now later limit n small full pos h =
      let (at, e, r) = retry_row now limit n small full pos in
      let k = rw r at h in
      omega (
        arith,
        count_after_leaving now later (count_window events id w now + n - limit - 1) at e
            (omega arith) (omega arith),
      )

  -- A second earlier, they do not.
  pub full_before_wait :
      (now later limit n : ℕ)
      → n ≤ limit
      → limit < count_window events id w now + n
      → 0 < n
      → later + second
        ≡ now + retry_after events id w now (count_window events id w now) limit n * second
      → now < later
      → limit < count_window events id w later + n
  full_before_wait now later limit n small full pos h lt =
      let (at, e, r) = retry_row now limit n small full pos in
      let k = rw r at h in
      omega (
        arith,
        count_before_leaving now later (count_window events id w now + n - limit - 1) at e
            (omega arith),
      )
