-- ===== src/Sync/Gaps.antt =====
-- app/max/sync.py: messages of one millisecond.
use mathlib.Core.Path.{subst}
use tg_my_person.Prelude.{
  ℕ, zero, suc, ◌+◌, ◌-◌, ◌<◌, ◌≡◌, ◌≢◌, refl, sym, ap, ◌∙◌, Bool, true, false, not, Option, none,
  some, List, [], ◌∷◌, filter, take, arith, ltb,
}
use tg_my_person.Prelude.SortBy.{sort_by}
use tg_my_person.Sync.Cursors.{Msg, ChatStore, SyncState, store_message, store_all, finish_backfill}
use tg_my_person.Sync.Backward as Back
use tg_my_person.Sync.Backward.{
  History, is_below, page_size, read_page, turn, backward_loop, backward, oldest_cursor,
}
use tg_my_person.Sync.Forward.{
  finished, goes_on, ForwardHistory, is_new, read_newer, forward_turn, forward_loop, forward,
  newest_time, ids_at, cursor_from, forward_from, close_forward,
}

abbrev pub at_time : ℕ → ℕ → Msg
at_time t i = record { id = i; time = t }

pair_stops :
    (keeps : Msg → Bool) (history : History) (stop : Option ℕ) (t i j : ℕ) (db : ChatStore)
    → history 0 (some t) 2 ≡ some (at_time t i ∷ at_time t j ∷ [])
    → backward_loop keeps history 1 stop 1 0 (some t) 0 db ≡ some (Back.finished 0 true db)
unfolding backward_loop turn read_page
pair_stops keeps history stop t i j db answered =
    let here : ltb t t ≡ false = ground arith in rw (answered, backward_loop) (rw here refl)

-- Where one message is still wanted and two stand at the cursor's time, a backfill backwards reports
-- that the chat is fully synced with nothing stored, whatever stands before them.
pub backward_stops_short :
    (keeps : Msg → Bool) (history : History) (stop : Option ℕ) (t i j : ℕ) (s : SyncState)
    (kept : List Msg)
    → history 0 (some (suc t)) 2 ≡ some (at_time (suc t) i ∷ at_time (suc t) j ∷ [])
    → s.oldest_ts ≡ some (suc t)
    → backward keeps history 1 stop 1 (record { has_chat = true; kept = kept; state = some s })
      ≡ some (
          Back.finished 0 true (record {
            has_chat = true;
            kept = kept;
            state = some (record s { is_fully_synced = true });
          }))
unfolding backward finish_backfill
backward_stops_short keeps history stop t i j s kept answered oldest =
    let db : ChatStore = record { has_chat = true; kept = kept; state = some s } in
    let set : Back.nonzero (some (suc t)) ≡ some (suc t) = ground arith in
    let cursor : oldest_cursor (some s) ≡ some (suc t) = ap Back.nonzero oldest ∙ set in
    subst
      (λ c.
        Back.close_run (backward_loop keeps history 1 stop 1 0 c 0 db)
        ≡ some (Back.finished 0 true (finish_backfill (some true) db)))
      (sym cursor) (ap Back.close_run (pair_stops keeps history stop (suc t) i j db answered))

take-nil : (n : ℕ) → take {A = Msg} n [] ≡ []
take-nil zero = refl
take-nil (suc n) = refl

-- Two messages of one time, each with its own id.
module _ (t i j : ℕ) (apart : i ≢ j) where
  abbrev pub twin : Bool → Msg
  twin true = record { id = i; time = t }
  twin false = record { id = j; time = t }

  abbrev pub twins : ForwardHistory
  twins round cursor n = some (twin true ∷ twin false ∷ [])

  new_twin :
      (b : Bool)
      → filter (is_new t ((twin b).id ∷ [])) (twin true ∷ twin false ∷ []) ≡ twin (not b) ∷ []
  new_twin true = ground arith
  new_twin false = ground arith

  newest_twin : (b : Bool) → ids_at (newest_time (twin b).time []) (twin b ∷ []) ≡ (twin b).id ∷ []
  newest_twin true = ground arith
  newest_twin false = ground arith

  twin_time : (b : Bool) → (twin b).time ≡ t
  twin_time true = refl
  twin_time false = refl

  twin_turn :
      (limit round : ℕ) (b : Bool) (stored : ℕ) (db : ChatStore)
      → stored < limit
      → forward_turn (λ m. true) twins limit round t ((twin b).id ∷ []) stored db
        ≡ goes_on t ((twin (not b)).id ∷ []) (suc stored) (store_message (twin (not b)) db)
  unfolding forward_turn read_newer store_all sort_by
  twin_turn limit round b stored db room =
      let left : limit - stored ≡ suc (limit - suc stored) = omega arith in
      let more : ltb stored limit ≡ true = ground arith in
      let one : stored + 1 ≡ suc stored = omega arith in
      rw (more, new_twin b, left)
        (rw (take-nil (limit - suc stored), newest_twin (not b), twin_time (not b), one) refl)

  continues :
      (limit fuel round : ℕ) (b : Bool) (stored : ℕ) (db : ChatStore)
      → stored < limit
      → forward_loop (λ m. true) twins limit (suc fuel) round t ((twin b).id ∷ []) stored db
        ≡ forward_loop
            (λ m. true)
            twins
            limit
            fuel
            (suc round)
            t
            ((twin (not b)).id ∷ [])
            (suc stored)
            (store_message (twin (not b)) db)
  unfolding forward_loop
  continues limit fuel round b stored db room =
      rw (twin_turn limit round b stored db room, forward_loop) refl

  filled :
      (limit stored round : ℕ) (b : Bool) (db : ChatStore)
      → stored ≡ limit
      → forward_loop (λ m. true) twins limit 1 round t ((twin b).id ∷ []) stored db
        ≡ some (finished limit db)
  unfolding forward_loop forward_turn
  filled limit stored round b db full =
      let no_room : ltb stored limit ≡ false = ground arith in
      rw (no_room, forward_loop) (ap (λ n. some (finished n db)) full)

  -- The two stored in turn.
  abbrev pub alternate : ℕ → Bool → ChatStore → ChatStore
  alternate zero b db = db
  alternate (suc n) b db = alternate n (not b) (store_message (twin (not b)) db)

  runs_out :
      (limit left round : ℕ) (b : Bool) (stored : ℕ) (db : ChatStore)
      → stored + left ≡ limit
      → forward_loop (λ m. true) twins limit left round t ((twin b).id ∷ []) stored db ≡ none
  unfolding forward_loop
  runs_out limit zero round b stored db sum = refl
  runs_out limit (suc left) round b stored db sum =
      continues limit left round b stored db (omega arith)
      ∙ runs_out limit left (suc round) (not b) (suc stored) (store_message (twin (not b)) db)
          (omega arith)

  repeats :
      (limit left round : ℕ) (b : Bool) (stored : ℕ) (db : ChatStore)
      → stored + left ≡ limit
      → forward_loop (λ m. true) twins limit (suc left) round t ((twin b).id ∷ []) stored db
        ≡ some (finished limit (alternate left b db))
  repeats limit zero round b stored db sum = filled limit stored round b db (omega arith)
  repeats limit (suc left) round b stored db sum =
      continues limit (suc left) round b stored db (omega arith)
      ∙ repeats limit left (suc round) (not b) (suc stored) (store_message (twin (not b)) db)
          (omega arith)

  from_twin :
      (limit fuel : ℕ) (s : SyncState) (kept : List Msg)
      → s.newest_ts ≡ some t
      → s.newest_external_id ≡ some i
      → forward
          (λ m. true)
          twins
          limit
          fuel
          (record { has_chat = true; kept = kept; state = some s })
        ≡ close_forward (
            forward_loop
              (λ m. true)
              twins
              limit
              fuel
              0
              t
              (i ∷ [])
              0
              (record { has_chat = true; kept = kept; state = some s }))
  unfolding forward
  from_twin limit fuel s kept newest id =
      let db : ChatStore = record { has_chat = true; kept = kept; state = some s } in
      let from : cursor_from s.newest_ts s.newest_external_id ≡ some (t, i ∷ []) =
        rw (newest, id) refl in
      ap (forward_from (λ m. true) twins limit fuel db) from

  -- Where the newest stored message and another have one time and nothing is later, a backfill
  -- forwards stores the two in turn, one in each round, until it has counted as many messages as
  -- its limit: as many rounds as the limit are not enough, one more ends it, with nothing but the
  -- two stored.
  pub forward_repeats :
      (limit : ℕ) (s : SyncState) (kept : List Msg)
      → s.newest_ts ≡ some t
      → s.newest_external_id ≡ some i
      → (forward
            (λ m. true)
            twins
            limit
            limit
            (record { has_chat = true; kept = kept; state = some s })
          ≡ none)
        × (forward
              (λ m. true)
              twins
              limit
              (suc limit)
              (record { has_chat = true; kept = kept; state = some s })
            ≡ some (
                finished limit (
                  finish_backfill none (
                    alternate limit true
                      (record { has_chat = true; kept = kept; state = some s })))))
  forward_repeats limit s kept newest id =
      let db : ChatStore = record { has_chat = true; kept = kept; state = some s } in
      (
        from_twin limit limit s kept newest id
            ∙ ap close_forward (runs_out limit limit 0 true 0 db (omega arith)),
        from_twin limit (suc limit) s kept newest id
            ∙ ap close_forward (repeats limit limit 0 true 0 db (omega arith)),
      )
