-- ===== src/Sync/Ends.antt =====
-- app/max/sync.py: how a backfill ends.
use mathlib.Core.Path.{subst}
use tg_my_person.Prelude.{
  ℕ, zero, suc, ◌-◌, ◌<◌, ◌≡◌, refl, Bool, true, Option, none, some, List, [], ◌∷◌, filter, take,
  length, All, All-filter, All-filter_self, All-take, arith, Bool-cases, Option-cases, ltb, inl,
  inr, ap, sym, ◌⊎◌,
}
use tg_my_person.Prelude.SortBy.{sort_by, All-sort_by}
use tg_my_person.Sync.Cursors.{Msg, ChatStore}
use tg_my_person.Sync.Backward.{
  History, BackwardOutcome, Turn, stops, goes_on, is_below, in_days, later_first, last_of,
  keep_range, read_page, turn, backward_loop, backward, oldest_cursor, close_backfill, close_run,
  page_size, is_set,
}

pub All-last_of {κ} :
    (P : Msg → Type κ) (m : Msg) (ms : List Msg) → P m → All P ms → P (last_of m ms)
All-last_of P m [] h hs = h
All-last_of P m (k ∷ ks) h (hk, hs) = All-last_of P k ks hk hs

module _ (keeps : Msg → Bool) (history : History) (limit : ℕ) (stop : Option ℕ) where
  -- A round that goes on does so from a message of the page.
  abbrev GoesOnFrom {κ} : (Msg → Type κ) → Turn → Type κ
  GoesOnFrom P (stops o) = Unit
  GoesOnFrom P (goes_on cursor stored db) = (m : Msg) × (cursor ≡ some m.time) × P m

  keep_range-GoesOnFrom {κ} :
      (P : Msg → Type κ) (older ms : List Msg) (stored : ℕ) (db : ChatStore)
      → All P ms
      → GoesOnFrom P (keep_range keeps history limit stop older ms stored db)
  unfolding keep_range
  keep_range-GoesOnFrom P older [] stored db h = tt
  keep_range-GoesOnFrom P older (m ∷ ms) stored db (h, hs) =
      elim (Bool-cases (ltb (length (m ∷ ms)) (length older))) [
        | inl past ↦ rw past tt
        | inr inside ↦ rw inside (last_of m ms, refl, All-last_of P m ms h hs)
      ]

  read_page-GoesOnFrom {κ} :
      (P : Msg → Type κ) (older : List Msg) (stored : ℕ) (db : ChatStore)
      → All P older
      → GoesOnFrom P (read_page keeps history limit stop older stored db)
  unfolding read_page
  read_page-GoesOnFrom P [] stored db h = tt
  read_page-GoesOnFrom P (m ∷ ms) stored db h =
      let ranged = filter (in_days stop) (m ∷ ms) in
      keep_range-GoesOnFrom P (m ∷ ms) (take (limit - stored) (sort_by later_first ranged)) stored
        db
        (All-take P (limit - stored) (sort_by later_first ranged)
          (All-sort_by later_first P ranged (All-filter P (in_days stop) (m ∷ ms) h)))

  turn-GoesOnFrom :
      (round : ℕ) (cursor : Option ℕ) (stored : ℕ) (db : ChatStore)
      → GoesOnFrom
          (λ m. is_below cursor m ≡ true)
          (turn keeps history limit stop round cursor stored db)
  unfolding turn
  turn-GoesOnFrom round cursor stored db = elim (Bool-cases (ltb stored limit)) [
    | inr full ↦ rw full tt
    | inl room ↦
        elim (Option-cases (history round cursor (page_size (limit - stored) (is_set cursor)))) [
          | inl failed ↦ rw (room, failed, turn) tt
          | inr (page, answered) ↦
              rw (room, answered, turn)
                (read_page-GoesOnFrom (λ m. is_below cursor m ≡ true)
                  (filter (is_below cursor) page) stored db
                  (All-filter_self (is_below cursor) page))
        ]
  ]

  Turn-cases :
      (t : Turn)
      → ((o : BackwardOutcome) × (t ≡ stops o))
        ⊎ ((cursor : Option ℕ) × (stored : ℕ) × (db : ChatStore) × (t ≡ goes_on cursor stored db))
  Turn-cases (stops o) = inl (o, refl)
  Turn-cases (goes_on cursor stored db) = inr (cursor, stored, db, refl)

  abbrev Ends : ℕ → ℕ → Option ℕ → ℕ → ChatStore → Type 0
  Ends fuel round cursor stored db =
      (o : BackwardOutcome) × (backward_loop keeps history limit stop fuel round cursor stored db
        ≡ some o)

  stopped :
      (round : ℕ) (cursor : Option ℕ) (stored : ℕ) (db : ChatStore) (o : BackwardOutcome)
      → turn keeps history limit stop round cursor stored db ≡ stops o
      → Ends 1 round cursor stored db
  unfolding backward_loop
  stopped round cursor stored db o e = rw (e, backward_loop) (o, refl)

  went_on :
      (fuel round : ℕ) (cursor : Option ℕ) (stored : ℕ) (db : ChatStore) (cursor' : Option ℕ)
      (stored' : ℕ) (db' : ChatStore)
      → turn keeps history limit stop round cursor stored db ≡ goes_on cursor' stored' db'
      → Ends fuel (suc round) cursor' stored' db'
      → Ends (suc fuel) round cursor stored db
  unfolding backward_loop
  went_on fuel round cursor stored db cursor' stored' db' e h = rw (e, backward_loop) h

  Ends-next :
      (fuel round : ℕ) (cursor : Option ℕ) (stored : ℕ) (db : ChatStore)
      → ((m : Msg) (stored' : ℕ) (db' : ChatStore)
          → is_below cursor m ≡ true
          → Ends fuel (suc round) (some m.time) stored' db')
      → Ends (suc fuel) round cursor stored db
  unfolding backward_loop
  Ends-next fuel round cursor stored db rest =
      elim (Turn-cases (turn keeps history limit stop round cursor stored db)) [
        | inl (o, e) ↦ rw (e, backward_loop) (o, refl)
        | inr (cursor', stored', db', e) ↦
            let (m, same, below) : GoesOnFrom (λ m. is_below cursor m ≡ true)
                (goes_on cursor' stored' db') =
              subst (GoesOnFrom (λ m. is_below cursor m ≡ true)) e
                (turn-GoesOnFrom round cursor stored db) in
            rw (e, same, backward_loop) (rest m stored' db' below)
      ]

  Ends-below :
      (fuel t round stored : ℕ) (db : ChatStore) → t < fuel → Ends fuel round (some t) stored db
  Ends-below zero t round stored db h = absurd (omega arith)
  Ends-below (suc fuel) t round stored db h =
      Ends-next fuel round (some t) stored db
        λ m stored' db' below. Ends-below fuel m.time (suc round) stored' db' (ground arith)

  Ends-from : (cursor : Option ℕ) (db : ChatStore) → (fuel : ℕ) × Ends fuel 0 cursor 0 db
  Ends-from (some t) db = (suc t, Ends-below (suc t) t 0 0 db (omega arith))
  Ends-from none db = elim (Turn-cases (turn keeps history limit stop 0 none 0 db)) [
    | inl (o, e) ↦ (1, stopped 0 none 0 db o e)
    | inr (cursor', stored', db', e) ↦
        let (m, same, below) : GoesOnFrom (λ m. is_below none m ≡ true)
            (goes_on cursor' stored' db') =
          subst (GoesOnFrom (λ m. is_below none m ≡ true)) e (turn-GoesOnFrom 0 none 0 db) in
        (
          suc (suc m.time),
          went_on (suc m.time) 0 none 0 db cursor' stored' db' e (
              subst (λ c. Ends (suc m.time) 1 c stored' db') (sym same)
                (Ends-below (suc m.time) m.time 1 stored' db' (omega arith))),
        )
  ]

  -- A backfill backwards ends, whatever MAX answers and whichever messages can be stored.
  pub backward_total :
      (db : ChatStore)
      → (fuel : ℕ) × (o : BackwardOutcome) × (backward keeps history limit stop fuel db ≡ some o)
  unfolding backward
  backward_total db =
      let (fuel, (o, e)) : (fuel : ℕ) × Ends fuel 0 (oldest_cursor db.state) 0 db =
        Ends-from (oldest_cursor db.state) db in
      (fuel, close_backfill o, ap close_run e)
