-- ===== src/Sync/Complete.antt =====
-- app/max/sync.py: a backfill that reports the end of the history.
use mathlib.Core.Path.{subst}
use mathlib.Core.List.{Memᴰ}
use tg_my_person.Prelude.{
  ℕ, zero, suc, ◌-◌, ◌≤◌, ◌<◌, ◌≡◌, refl, Bool, true, false, Option, none, some, List, [], filter,
  All, All-filter, All-map, mem-filter, arith, Bool-cases, Option-cases, ltb, inl, inr, ◌⊎◌,
}
use tg_my_person.Sync.Cursors.{Msg, ChatStore, finish_backfill}
use tg_my_person.Sync.Backward.{
  History, BackwardOutcome, finished, raised, Turn, stops, goes_on, is_below, turn, backward_loop,
  backward, oldest_cursor, page_size, is_set, close_run,
}
use tg_my_person.Sync.Kept.{IsStored, finish_backfill_keeps}
use tg_my_person.Sync.Pages.{
  is_upto, Answers, IsHistory, HasDistinctTimes, IsFilled, IsComplete, Fills, short_page,
  read_page-Fills,
}

module _ (chat : List Msg) (apart : HasDistinctTimes chat) (keeps : Msg → Bool) (history : History)
    (limit : ℕ) (stop start : Option ℕ) where
  abbrev Filled : Option ℕ → ChatStore → Type 0
  Filled cursor db = IsFilled chat apart keeps history limit stop start cursor db

  abbrev Complete : ChatStore → Type 0
  Complete db = IsComplete chat apart keeps history limit stop start db

  abbrev Filling : Turn → Type 0
  Filling t = Fills chat apart keeps history limit stop start t

  upto_of_below : (cursor : Option ℕ) (m : Msg) → is_below cursor m ≡ true → is_upto cursor m ≡ true
  upto_of_below none m h = refl
  upto_of_below (some t) m h = ground arith

  older_covers :
      (cursor : Option ℕ) (n : ℕ) (page : List Msg)
      → Answers chat cursor n page
      → (m : Msg) → Memᴰ m chat
      → is_below cursor m ≡ true
      → Memᴰ m (filter (is_below cursor) page)
        ⊎ All (λ k. m.time ≤ k.time) (filter (is_below cursor) page)
  older_covers cursor n page (inside, pairs, covers) m i below =
      elim (covers m i (upto_of_below cursor m below)) [
        | inl on_page ↦ inl (mem-filter (is_below cursor) on_page below)
        | inr (full, earlier) ↦
            inr (All-filter (λ k. m.time ≤ k.time) (is_below cursor) page earlier)
      ]

  ended-Complete :
      (cursor : Option ℕ) (n : ℕ) (page : List Msg) (db : ChatStore)
      → Answers chat cursor n page
      → 0 < n
      → (is_set cursor ≡ true → 1 < n)
      → Filled cursor db
      → filter (is_below cursor) page ≡ []
      → Complete db
  ended-Complete cursor n page db answers some_ two filled e m i below_start can =
      elim (Bool-cases (is_below cursor m)) [
        | inr before ↦ filled m i below_start can before
        | inl below ↦ elim (answers.2 m i (upto_of_below cursor m below)) [
          | inl on_page ↦
              let in_none : Memᴰ m [] =
                subst (λ ms. Memᴰ m ms) e (mem-filter (is_below cursor) on_page below) in
              elim in_none [ ]
          | inr (full, earlier) ↦ absurd (
              short_page chat apart keeps history limit stop start cursor n page answers full some_
                two e)
        ]
      ]

  page_size_pos : (r : ℕ) (b : Bool) → 0 < r → 0 < page_size r b
  page_size_pos r b h = ground arith

  page_size_two : (r : ℕ) (b : Bool) → 0 < r → b ≡ true → 1 < page_size r b
  page_size_two r b h e = ground arith

  module _ (documented : IsHistory chat history) where
    turn-Fills :
        (round : ℕ) (cursor : Option ℕ) (stored : ℕ) (db : ChatStore)
        → Filled cursor db
        → Filling (turn keeps history limit stop round cursor stored db)
    unfolding turn
    turn-Fills round cursor stored db filled = elim (Bool-cases (ltb stored limit)) [
      | inr full ↦ rw full tt
      | inl room ↦
          let n = page_size (limit - stored) (is_set cursor) in
          let left : 0 < limit - stored = ground arith in
          elim (Option-cases (history round cursor n)) [
            | inl failed ↦ rw (room, failed, turn) tt
            | inr (page, answered) ↦
                let answers = documented round cursor n page answered in
                let older = filter (is_below cursor) page in
                rw (room, answered, turn)
                  (read_page-Fills chat apart keeps history limit stop start cursor older stored db
                    (All-filter (λ k. Memᴰ k chat) (is_below cursor) page
                      (All-map (λ k. Memᴰ k chat × (is_upto cursor k ≡ true)) (λ k. Memᴰ k chat)
                        page (λ k h. h.0) answers.0))
                    (older_covers cursor n page answers) filled
                    (ended-Complete cursor n page db answers
                      (page_size_pos (limit - stored) (is_set cursor) left)
                      (page_size_two (limit - stored) (is_set cursor) left) filled))
          ]
    ]

    abbrev Completes : Option BackwardOutcome → Type 0
    Completes none = Unit
    Completes (some o) = Filling (stops o)

    continued :
        (fuel round : ℕ) (t : Turn)
        → ((cursor : Option ℕ) (stored : ℕ) (db : ChatStore)
            → Filled cursor db
            → Completes (backward_loop keeps history limit stop fuel (suc round) cursor stored db))
        → Filling t
        → Completes (elim t [
          | stops o ↦ some o
          | goes_on cursor stored db ↦
              backward_loop keeps history limit stop fuel (suc round) cursor stored db
        ])
    continued fuel round (stops o) rest h = h
    continued fuel round (goes_on cursor stored db) rest h = rest cursor stored db h

    loop-Completes :
        (fuel round : ℕ) (cursor : Option ℕ) (stored : ℕ) (db : ChatStore)
        → Filled cursor db
        → Completes (backward_loop keeps history limit stop fuel round cursor stored db)
    unfolding backward_loop
    loop-Completes zero round cursor stored db filled = tt
    loop-Completes (suc fuel) round cursor stored db filled =
        continued fuel round (turn keeps history limit stop round cursor stored db)
          (loop-Completes fuel (suc round)) (turn-Fills round cursor stored db filled)

    Complete-closed :
        (r : Option BackwardOutcome) (n : ℕ) (db' : ChatStore)
        → Completes r
        → close_run r ≡ some (finished n true db')
        → Complete db'
    Complete-closed none n db' h e = absurd (cc e)
    Complete-closed (some (raised db)) n db' h e = absurd (cc e)
    Complete-closed (some (finished s false db)) n db' h e = absurd (cc e)
    Complete-closed (some (finished s true db)) n db' h e =
        let same : finish_backfill (some true) db ≡ db' = cc e in
        λ m i below can.
          subst (IsStored m) same (finish_backfill_keeps (some true) m db (h m i below can))

-- When a backfill backwards reports that the chat is fully synced, every message of the chat before
-- the one that it began from that can be stored is stored, if no two messages have one time and MAX
-- answers with the latest messages up to the cursor, as many as asked for.
pub backward_complete :
    (chat : List Msg) (keeps : Msg → Bool) (history : History) (limit : ℕ) (stop : Option ℕ)
    (fuel n : ℕ) (db db' : ChatStore) (m : Msg)
    → HasDistinctTimes chat
    → IsHistory chat history
    → backward keeps history limit stop fuel db ≡ some (finished n true db')
    → Memᴰ m chat
    → is_below (oldest_cursor db.state) m ≡ true
    → keeps m ≡ true
    → IsStored m db'
unfolding backward
backward_complete chat keeps history limit stop fuel n db db' m apart documented e i below can =
    let start = oldest_cursor db.state in
    Complete-closed chat apart keeps history limit stop start documented
      (backward_loop keeps history limit stop fuel 0 start 0 db) n db'
      (loop-Completes chat apart keeps history limit stop start documented fuel 0 start 0 db
        (λ k k_in k_below k_can above. absurd (cc (k_below, above))))
      e m i below can
