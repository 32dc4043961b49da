-- ===== src/Sync/Tests.antt =====
-- Runs of the backfills and of a pass of the catch-up of app/max/sync.py.
use mathlib.Core.List.{Memᴰ}
use tg_my_person.Prelude.{
  ℕ, ◌≡◌, ◌≢◌, refl, Bool, true, false, ◌==◌, if◌then◌else◌, none, some, List, [], ◌∷◌, All, All_at,
  arith,
}
use tg_my_person.Prelude.SortBy.{sort_by}
use tg_my_person.Sync.Cursors.{Msg, SyncState, ChatStore, store_all, move_oldest, finish_backfill}
use tg_my_person.Sync.Backward.{BackwardOutcome, finished, turn, backward_loop, backward}
use tg_my_person.Sync.Forward as Fore
use tg_my_person.Sync.Ends.{backward_total}
use tg_my_person.Sync.Kept.{IsStored}
use tg_my_person.Sync.Pages.{HasDistinctTimes}
use tg_my_person.Sync.Latest.{latest, latest_page, latest-IsHistory}
use tg_my_person.Sync.Complete.{backward_complete}
use tg_my_person.Sync.Gaps.{alternate, twins, at_time, backward_stops_short, forward_repeats}
use tg_my_person.Sync.CatchUp.{Row, Fill, filled, failed, catch_up}
use tg_my_person.Sync.Honest.{IsJustified, NoBacklog, catch_up_honest}

abbrev first_msg : Msg
first_msg = record { id = 11; time = 5 }

abbrev second_msg : Msg
second_msg = record { id = 12; time = 9 }

abbrev chat : List Msg
chat = first_msg ∷ second_msg ∷ []

abbrev all_kept : Msg → Bool
all_kept m = true

abbrev empty_store : ChatStore
empty_store = record { has_chat = true; kept = []; state = none }

abbrev synced : ChatStore
synced = record {
  has_chat = true;
  kept = first_msg ∷ second_msg ∷ [];
  state = some (record {
    oldest_ts = some 5;
    oldest_external_id = some 11;
    newest_ts = some 9;
    newest_external_id = some 12;
    total_synced = 2;
    is_fully_synced = true;
  });
}

runs : backward all_kept (latest chat) 10 none 3 empty_store ≡ some (finished 2 true synced)
unfolding backward backward_loop turn latest_page sort_by store_all move_oldest finish_backfill
runs = refl

chat_apart : HasDistinctTimes chat
chat_apart m k i j e =
    All_at (λ k. m.time ≡ k.time → m ≡ k) j
      (All_at (λ m. All (λ k. m.time ≡ k.time → m ≡ k) chat) i
        (
          (λ e. refl, (λ e. absurd (omega arith), tt)),
          ((λ e. absurd (omega arith), (λ e. refl, tt)), tt),
        ))
      e

backward_total_example :
    (fuel : ℕ) × (o : BackwardOutcome) × (backward all_kept (latest chat) 10 none fuel empty_store
      ≡ some o)
backward_total_example = backward_total all_kept (latest chat) 10 none empty_store

backward_complete_example : IsStored first_msg synced
backward_complete_example =
    backward_complete chat all_kept (latest chat) 10 none 3 2 empty_store synced first_msg
      chat_apart (latest-IsHistory chat (((λ e. absurd (cc e)), tt), (tt, tt))) runs
      (Memᴰ.head refl) refl refl

abbrev twin_state : SyncState
twin_state = record {
  oldest_ts = some 5;
  oldest_external_id = some 11;
  newest_ts = some 5;
  newest_external_id = some 11;
  total_synced = 1;
  is_fully_synced = false;
}

abbrev old_and_twins : List Msg
old_and_twins = record { id = 3; time = 1 } ∷ at_time 5 11 ∷ at_time 5 12 ∷ []

backward_stops_short_example :
    backward all_kept
      (latest old_and_twins)
      1
      none
      1
      (record { has_chat = true; kept = first_msg ∷ []; state = some twin_state })
    ≡ some (
        finished 0 true (record {
          has_chat = true;
          kept = first_msg ∷ [];
          state = some (record twin_state { is_fully_synced = true });
        }))
unfolding latest_page sort_by
backward_stops_short_example =
    backward_stops_short all_kept (latest old_and_twins) none 4 11 12 twin_state (first_msg ∷ [])
      refl refl

twins_apart : ◌≢◌ {A = ℕ} 11 12
twins_apart e = absurd (omega (arith, e))

abbrev twin_store : ChatStore
twin_store = record { has_chat = true; kept = first_msg ∷ []; state = some twin_state }

forward_repeats_example :
    (Fore.forward all_kept (twins 5 11 12 twins_apart) 50 50 twin_store ≡ none)
    × (Fore.forward all_kept (twins 5 11 12 twins_apart) 50 51 twin_store
        ≡ some (
            Fore.finished 50
              (finish_backfill none (alternate 5 11 12 twins_apart 50 true twin_store))))
forward_repeats_example =
    forward_repeats 5 11 12 twins_apart 50 twin_state (first_msg ∷ []) refl refl

abbrev rows : List Row
rows =
    record { chat = 1; last_ms = some 9; cursor = some (some 5) }
    ∷ record { chat = 2; last_ms = some 4; cursor = some (some 4) }
    ∷ []

abbrev fill_one : ℕ → Fill
fill_one c = if c == 1 then filled else failed

one_pass : catch_up fill_one true true rows 5 [] ≡ (some 0, 1 ∷ 2 ∷ [])
unfolding catch_up
one_pass = refl

catch_up_honest_example :
    All (IsJustified fill_one true rows []) (catch_up fill_one true true rows 5 []).1
    × NoBacklog fill_one true rows 5 [] (catch_up fill_one true true rows 5 []).0
catch_up_honest_example = catch_up_honest fill_one true true rows 5 []
