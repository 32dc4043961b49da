-- ===== src/Sync/Forward.antt =====
-- app/max/sync.py: `_forward`, what a chat got after its newest stored message, page by page.
use tg_my_person.Prelude.{
  ℕ, zero, suc, ◌+◌, ◌-◌, Bool, true, not, ◌&&◌, ◌||◌, Option, none, some, List, [], ◌∷◌, filter,
  map, any, take, ltb, leb, ◌==◌, if◌then◌else◌,
}
use tg_my_person.Prelude.SortBy.{sort_by}
use tg_my_person.Sync.Cursors.{Msg, ChatStore, SyncState, store_all, finish_backfill}
use tg_my_person.Sync.Backward.{page_size}

pub data ForwardOutcome : Type 0 where
  finished raised : ℕ → ChatStore → ForwardOutcome
  no_cursor : ForwardOutcome

pub data ForwardTurn : Type 0 where
  stops : ForwardOutcome → ForwardTurn
  goes_on : ℕ → List ℕ → ℕ → ChatStore → ForwardTurn

abbrev pub ForwardHistory : Type 0
ForwardHistory = ℕ → ℕ → ℕ → Option (List Msg)

abbrev pub is_seen : ℕ → List ℕ → Bool
is_seen i seen = any (λ j. j == i) seen

abbrev pub is_new : ℕ → List ℕ → Msg → Bool
is_new cursor seen m = ltb cursor m.time || (m.time == cursor && not (is_seen m.id seen))

abbrev pub earlier_first : Msg → Msg → Bool
earlier_first m k = leb m.time k.time

abbrev later_of : ℕ → ℕ → ℕ
later_of a b = if ltb a b then b else a

abbrev pub newest_time : ℕ → List Msg → ℕ
newest_time t [] = t
newest_time t (m ∷ ms) = newest_time (later_of t m.time) ms

abbrev pub ids_at : ℕ → List Msg → List ℕ
ids_at t ms = map (λ (m : Msg). m.id) (filter (λ m. m.time == t) ms)

module _ (keeps : Msg → Bool) (history : ForwardHistory) (limit : ℕ) where
  unfoldable pub read_newer : List Msg → ℕ → ChatStore → ForwardTurn
  read_newer [] stored db = stops (finished stored db)
  read_newer (m ∷ ms) stored db =
      let (n, db') = store_all keeps (take (limit - stored) (sort_by earlier_first (m ∷ ms))) db in
      let newest = newest_time m.time ms in goes_on newest (ids_at newest (m ∷ ms)) (stored + n) db'

  -- One round of the loop.
  unfoldable pub forward_turn : ℕ → ℕ → List ℕ → ℕ → ChatStore → ForwardTurn
  unfolding read_newer
  forward_turn round cursor seen stored db =
      if ltb stored limit
      then elim (history round cursor (page_size (limit - stored) true)) [
        | none ↦ stops (raised stored db)
        | some page ↦ read_newer (filter (is_new cursor seen) page) stored db
      ]
      else stops (finished stored db)

  unfoldable pub forward_loop : ℕ → ℕ → ℕ → List ℕ → ℕ → ChatStore → Option ForwardOutcome
  unfolding forward_turn
  forward_loop zero round cursor seen stored db = none
  forward_loop (suc f) round cursor seen stored db =
      elim (forward_turn round cursor seen stored db) [
        | stops o ↦ some o
        | goes_on cursor' seen' stored' db' ↦ forward_loop f (suc round) cursor' seen' stored' db'
      ]

abbrev pub close_forward : Option ForwardOutcome → Option ForwardOutcome
close_forward none = none
close_forward (some (finished stored db)) = some (finished stored (finish_backfill none db))
close_forward (some o) = some o

abbrev pub ids_of : Option ℕ → List ℕ
ids_of none = []
ids_of (some i) = i ∷ []

abbrev pub cursor_from : Option ℕ → Option ℕ → Option (ℕ × List ℕ)
cursor_from none id = none
cursor_from (some t) id = some (t, ids_of id)

-- `start_backfill` refuses a chat without `newest_time_ms`.
abbrev pub newest_of : Option SyncState → Option (ℕ × List ℕ)
newest_of none = none
newest_of (some s) = cursor_from s.newest_ts s.newest_external_id

abbrev pub forward_from :
    (Msg → Bool) → ForwardHistory → ℕ → ℕ → ChatStore → Option (ℕ × List ℕ) → Option ForwardOutcome
forward_from keeps history limit fuel db none = some no_cursor
forward_from keeps history limit fuel db (some (cursor, seen)) =
    close_forward (forward_loop keeps history limit fuel 0 cursor seen 0 db)

unfoldable pub forward : (Msg → Bool) → ForwardHistory → ℕ → ℕ → ChatStore → Option ForwardOutcome
forward keeps history limit fuel db = forward_from keeps history limit fuel db (newest_of db.state)
