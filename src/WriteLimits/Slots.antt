-- ===== src/WriteLimits/Slots.antt =====
-- app/authz/write_limits.py: giving slots back.
use mathlib.Core.Path.{ap₂}
use mathlib.Core.List.{Memᴰ}
use tg_my_person.Prelude.{
  ℕ, suc, ◌+◌, ◌≤◌, ◌<◌, ◌≡◌, refl, ap, ◌∙◌, Bool, true, false, not, ◌&&◌, Option, some, List, [],
  ◌∷◌, ◌++◌, String, arith, All, All-append, All-filter, All-map, ltb, leb, ◌==◌, filter,
  filter-append, any, ℤ, if◌then◌else◌, length, count-filter, count_congr,
}
use tg_my_person.WriteLimits.Settings.{Kind, Limits, Effective}
use tg_my_person.WriteLimits.Counters.{
  WriteEvent, Window, windows, span, retention, in_window, count_window,
}
use tg_my_person.WriteLimits.Windows.{Needs, WriteLimited}
use tg_my_person.WriteLimits.Reserve.{
  ok, raised, Events, Plan, Taken, prune, insert_all, take_slot, event, bundle_kinds,
  reserve_locked, bundle_locked, release, failed, exit_slot, or_raise,
}
use tg_my_person.WriteLimits.Admission.{mem-All, windows_short}
use tg_my_person.WriteLimits.Bundle.{new_rows, insert_all-rows}

-- The ids of the rows were given out before.
abbrev pub HasFreshId : Events → Type 0
HasFreshId events = All (λ e. e.id < events.next_id) events.rows

module _ (make : ℕ → Kind → WriteEvent) (numbered : (id : ℕ) (k : Kind) → (make id k).id ≡ id) where
  -- The ids returned by an INSERT are the next ones.
  ids_lem :
      (ks : List Kind) (ev : Events) (x : ℕ)
      → any (λ i. i == x) (insert_all make ks ev).1
        ≡ (leb ev.next_id x && ltb x (ev.next_id + length ks))
  unfolding insert_all
  ids_lem [] ev x = ground arith
  ids_lem (k ∷ ks) ev x = ground (
    arith,
    ids_lem ks (record { rows = make ev.next_id k ∷ ev.rows; next_id = suc ev.next_id }) x,
  )

  next_id_lem :
      (ks : List Kind) (ev : Events) → (insert_all make ks ev).0.next_id ≡ ev.next_id + length ks
  unfolding insert_all
  next_id_lem [] ev = omega arith
  next_id_lem (k ∷ ks) ev =
      let rest =
        next_id_lem ks (record { rows = make ev.next_id k ∷ ev.rows; next_id = suc ev.next_id }) in
      omega (arith, rest)

  new_rows-ids :
      (ks : List Kind) (first : ℕ)
      → All (λ e. (first ≤ e.id) × (e.id < first + length ks)) (new_rows make ks first)
  unfolding new_rows
  new_rows-ids [] first = tt
  new_rows-ids (k ∷ ks) first =
      All-append _ (new_rows make ks (suc first)) (make first k ∷ [])
        (All-map _ _ (new_rows make ks (suc first)) (λ e h. omega arith)
          (new_rows-ids ks (suc first)))
        (omega (arith, numbered first k))

  filter-All :
      (p : WriteEvent → Bool) (xs : List WriteEvent) → All (λ e. p e ≡ true) xs → filter p xs ≡ xs
  filter-All p [] h = refl
  filter-All p (x ∷ xs) (h, hs) = ground (arith, filter-All p xs hs)

  filter_nothing :
      (p : WriteEvent → Bool) (xs : List WriteEvent) → All (λ e. p e ≡ false) xs → filter p xs ≡ []
  filter_nothing p [] h = refl
  filter_nothing p (x ∷ xs) (h, hs) = ground (arith, filter_nothing p xs hs)

  -- Deleting the rows just inserted gives the table back.
  release-insert_all :
      (ks : List Kind) (ev : Events) (account : ℕ)
      → HasFreshId ev
      → release
          (record { event_ids = (insert_all make ks ev).1; account_id = account })
          (insert_all make ks ev).0.rows
        ≡ ev.rows
  unfolding release
  release-insert_all ks ev account fresh =
      let stays = λ (e : WriteEvent). not (any (λ i. i == e.id) (insert_all make ks ev).1) in
      ap (filter stays) (insert_all-rows make ks ev)
      ∙ filter-append stays (new_rows make ks ev.next_id) ev.rows
      ∙ ap₂ ◌++◌
          (filter_nothing stays (new_rows make ks ev.next_id) (
            All-map _ _ (new_rows make ks ev.next_id) (λ e h. ground (arith, ids_lem ks ev e.id))
              (new_rows-ids ks ev.next_id)))
          (filter-All stays ev.rows
            (All-map _ _ ev.rows (λ e h. ground (arith, ids_lem ks ev e.id)) fresh))

  insert_all-HasFreshId :
      (ks : List Kind) (ev : Events) → HasFreshId ev → HasFreshId (insert_all make ks ev).0
  insert_all-HasFreshId ks ev fresh =
      rw (insert_all-rows make ks ev, next_id_lem ks ev)
        (All-append _ (new_rows make ks ev.next_id) ev.rows
          (All-map _ _ (new_rows make ks ev.next_id) (λ e h. h.1) (new_rows-ids ks ev.next_id))
          (All-map _ _ ev.rows (λ e h. omega arith) fresh))

-- Pruning takes no event that a window still holds.
pub count_window-prune :
    (id account now later : ℕ) (w : Window) (rows : List WriteEvent)
    → span w ≤ retention
    → now ≤ later
    → count_window (prune id now rows) account w later ≡ count_window rows account w later
unfolding count_window prune
count_window-prune id account now later w rows short le =
    count-filter (in_window account w later)
      (λ e. not (e.account_id == id && ltb (e.at + retention) now)) rows
    ∙ count_congr _ (in_window account w later) (λ e. ground arith) rows

prune-HasFreshId :
    (id now : ℕ) (events : Events)
    → HasFreshId events
    → All (λ e. e.id < events.next_id) (prune id now events.rows)
unfolding prune
prune-HasFreshId id now events h = All-filter (λ e. e.id < events.next_id) _ events.rows h

module _ (id now : ℕ) (events : Events) (t : Taken) (fresh : HasFreshId events) where
  -- The table is as the call's pruning left it.
  IsUndone : Type 0
  IsUndone =
      (exit_slot (some t.slot) failed t.events.rows ≡ prune id now events.rows)
      × HasFreshId t.events

  take_slot-IsUndone :
      (tool : String) (chat_id : Option ℤ) (nd : Bool) (at wait : ℕ) (ks : List Kind)
      → take_slot id tool chat_id nd at wait ks (record events { rows = prune id now events.rows })
        ≡ t
      → IsUndone
  unfolding take_slot exit_slot IsUndone
  take_slot-IsUndone tool chat_id nd at wait ks e =
      let make = event id tool chat_id nd at in
      let start : Events = record { rows = prune id now events.rows; next_id = events.next_id } in
      let fresh_start = prune-HasFreshId id now events fresh in
      rw (← e) (
        release-insert_all make (λ i k. refl) ks start id fresh_start,
        insert_all-HasFreshId make (λ i k. refl) ks start fresh_start,
      )

or_raise_if-ok :
    (o : Option WriteLimited) (b : Bool) (exc : WriteLimited) (r t : Taken)
    → or_raise o (if b then raised exc else ok r) ≡ ok t
    → r ≡ t
or_raise_if-ok o b exc r t e = ground arith

or_raise_ok-ok : (o : Option WriteLimited) (r t : Taken) → or_raise o (ok r) ≡ ok t → r ≡ t
or_raise_ok-ok o r t e = ground arith

-- A `reserve` that commits, whose write then fails for sure, leaves every window of every account as
-- it would be without the call, at the call's time and later.
pub failed_write_undone :
    (plan : Plan) (kind : Kind) (tool : String) (chat_id : Option ℤ) (jitter : ℕ → ℕ) (now : ℕ)
    (events : Events) (t : Taken) (account : ℕ) (w : Window) (later : ℕ)
    → reserve_locked plan kind tool chat_id jitter now events ≡ ok t
    → HasFreshId events
    → Memᴰ w windows
    → now ≤ later
    → count_window (exit_slot (some t.slot) failed t.events.rows) account w later
      ≡ count_window events.rows account w later
unfolding reserve_locked IsUndone
failed_write_undone plan kind tool chat_id jitter now events t account w later e fresh m le =
    let id = plan.eff.account_id in
    let undone =
      take_slot-IsUndone id now events t fresh tool chat_id _ _ _ (kind ∷ [])
        (or_raise_if-ok _ _ _ _ t e) in
    ap (λ rows. count_window rows account w later) undone.0
    ∙ count_window-prune id account now later w events.rows
        (mem-All (λ v. span v ≤ retention) windows windows_short m) le

-- So does a bundle of several events.
pub failed_bundle_undone :
    (eff : Effective) (limits : Limits) (tool : String) (needs : Needs) (chat_id : Option ℤ)
    (now : ℕ) (events : Events) (t : Taken) (account : ℕ) (w : Window) (later : ℕ)
    → bundle_locked eff limits tool needs chat_id now events ≡ ok t
    → HasFreshId events
    → Memᴰ w windows
    → now ≤ later
    → count_window (exit_slot (some t.slot) failed t.events.rows) account w later
      ≡ count_window events.rows account w later
unfolding bundle_locked IsUndone
failed_bundle_undone eff limits tool needs chat_id now events t account w later e fresh m le =
    let id = eff.account_id in
    let undone =
      take_slot-IsUndone id now events t fresh tool chat_id false now 0 (bundle_kinds needs)
        (or_raise_ok-ok _ _ t e) in
    ap (λ rows. count_window rows account w later) undone.0
    ∙ count_window-prune id account now later w events.rows
        (mem-All (λ v. span v ≤ retention) windows windows_short m) le
