-- ===== src/Sync/Backward.antt =====
-- app/max/sync.py: `_backward`, the history of a chat from its oldest message on, page by page.
-- `history` is MAX: its answer to the request of a round, none if the request fails. `keeps` says
-- which messages can be stored. The pauses are left out.
use tg_my_person.Prelude.{
  ℕ, zero, suc, ◌+◌, ◌-◌, Bool, true, false, Option, none, some, List, [], ◌∷◌, filter, length,
  take, ltb, leb, ◌==◌, if◌then◌else◌,
}
use tg_my_person.Prelude.SortBy.{sort_by}
use tg_my_person.Sync.Cursors.{Msg, SyncState, ChatStore, move_oldest, finish_backfill, store_all}

abbrev pub page_limit : ℕ
page_limit = 100

-- `_page`
abbrev pub page_size : ℕ → Bool → ℕ
page_size remaining has_cursor =
    let n = remaining + (if has_cursor then 1 else 0) in if leb n page_limit then n else page_limit

abbrev pub is_set : Option ℕ → Bool
is_set none = false
is_set (some t) = true

-- How a backfill ends: its count and whether it reached the end, or MAX's failure.
pub data BackwardOutcome : Type 0 where
  finished : ℕ → Bool → ChatStore → BackwardOutcome
  raised : ChatStore → BackwardOutcome

pub data Turn : Type 0 where
  stops : BackwardOutcome → Turn
  goes_on : Option ℕ → ℕ → ChatStore → Turn

abbrev pub History : Type 0
History = ℕ → Option ℕ → ℕ → Option (List Msg)

abbrev pub is_below : Option ℕ → Msg → Bool
is_below none m = true
is_below (some cursor) m = ltb m.time cursor

abbrev pub in_days : Option ℕ → Msg → Bool
in_days none m = true
in_days (some stop) m = leb stop m.time

abbrev pub later_first : Msg → Msg → Bool
later_first m k = leb k.time m.time

abbrev pub last_of : Msg → List Msg → Msg
last_of m [] = m
last_of m (k ∷ ks) = last_of k ks

module _ (keeps : Msg → Bool) (history : History) (limit : ℕ) (stop : Option ℕ) where
  -- Of the older messages of a page, those in range.
  unfoldable pub keep_range : List Msg → List Msg → ℕ → ChatStore → Turn
  keep_range older [] stored db = stops (finished stored false db)
  keep_range older (m ∷ ms) stored db =
      let (n, db') = store_all keeps (m ∷ ms) db in
      let oldest = last_of m ms in
      let db'' = move_oldest oldest n db' in
      if ltb (length (m ∷ ms)) (length older)
      then stops (finished (stored + n) false db'')
      else goes_on (some oldest.time) (stored + n) db''

  unfoldable pub read_page : List Msg → ℕ → ChatStore → Turn
  unfolding keep_range
  read_page [] stored db = stops (finished stored true db)
  read_page (m ∷ ms) stored db =
      keep_range (m ∷ ms)
        (take (limit - stored) (sort_by later_first (filter (in_days stop) (m ∷ ms)))) stored db

  -- One round of the loop.
  unfoldable pub turn : ℕ → Option ℕ → ℕ → ChatStore → Turn
  unfolding read_page
  turn round cursor stored db =
      if ltb stored limit
      then elim (history round cursor (page_size (limit - stored) (is_set cursor))) [
        | none ↦ stops (raised db)
        | some page ↦ read_page (filter (is_below cursor) page) stored db
      ]
      else stops (finished stored false db)

  unfoldable pub backward_loop : ℕ → ℕ → Option ℕ → ℕ → ChatStore → Option BackwardOutcome
  unfolding turn
  backward_loop zero round cursor stored db = none
  backward_loop (suc f) round cursor stored db = elim (turn round cursor stored db) [
    | stops o ↦ some o
    | goes_on cursor' stored' db' ↦ backward_loop f (suc round) cursor' stored' db'
  ]

-- The cursor of the state; zero counts as none.
abbrev pub nonzero : Option ℕ → Option ℕ
nonzero none = none
nonzero (some t) = if t == 0 then none else some t

abbrev pub oldest_cursor : Option SyncState → Option ℕ
oldest_cursor none = none
oldest_cursor (some s) = nonzero s.oldest_ts

abbrev pub close_backfill : BackwardOutcome → BackwardOutcome
close_backfill (finished stored fully db) = finished stored fully (finish_backfill (some fully) db)
close_backfill (raised db) = raised db

abbrev pub close_run : Option BackwardOutcome → Option BackwardOutcome
close_run none = none
close_run (some o) = some (close_backfill o)

unfoldable pub backward :
    (Msg → Bool) → History → ℕ → Option ℕ → ℕ → ChatStore → Option BackwardOutcome
backward keeps history limit stop fuel db =
    close_run (backward_loop keeps history limit stop fuel 0 (oldest_cursor db.state) 0 db)
