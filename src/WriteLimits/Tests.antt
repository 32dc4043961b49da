-- ===== src/WriteLimits/Tests.antt =====
-- Runs of the write limits on concrete tables, and the theorems at concrete inputs.
use mathlib.Core.List.{Memᴰ}
use tg_my_person.Prelude.{
  ℕ, ◌+◌, ◌*◌, ◌≤◌, ◌≡◌, refl, ◌≢◌, ◌↔◌, ◌⊎◌, true, false, none, some, List, [], ◌∷◌, arith, All,
  count, pos,
}
use tg_my_person.Models.{Platform, Account}
use tg_my_person.WriteLimits.Settings.{
  Kind, send, lookup, group_create, group_invite, default_limits, no_limits, Tables, Source,
  Effective, effective, effective_row, Changes, replace, base_limits, set_limits, reset_limits,
}
use tg_my_person.WriteLimits.Counters.{
  second, windows, window, per_minute, WriteEvent, count_window, retry_after, last_send, sent_to,
  same_kind, belongs,
}
use tg_my_person.WriteLimits.Windows.{
  Needs, need, WriteLimited, check_windows, full_windows, full_window, raise_longest, refusal,
  longest, same_window,
}
use tg_my_person.WriteLimits.Reserve.{
  ok, Events, Archive, Plan, Taken, plan_of, prepare, has_history, reserve_locked, bundle_locked,
  release, prune, planned, is_new_dialog, take_slot, exit_slot, failed, max_wait_sec, bundle_kinds,
}
use tg_my_person.Prelude.Sort.{sort}
use tg_my_person.WriteLimits.RetryAfter.{retry_after_passes, retry_after_least}
use tg_my_person.WriteLimits.World.{World, during, Reach, here, next, passes, reserves}
use tg_my_person.WriteLimits.Sliding.{empty, sliding_bound}
use tg_my_person.WriteLimits.Spacing.{IsSpaced, spacing}
use tg_my_person.WriteLimits.Dialogs.{opens, new_dialog_once}
use tg_my_person.WriteLimits.Admission.{inserted}
use tg_my_person.WriteLimits.Slots.{failed_write_undone, failed_bundle_undone}
use tg_my_person.WriteLimits.Changes.{effective-set_limits, effective-reset_limits}
use tg_my_person.WriteLimits.Fits.{Fits, check_windows-none_iff}
use tg_my_person.WriteLimits.Left.{window_left_exact}
use tg_my_person.WriteLimits.Status.{window_left}

-- An account of MAX with the default limits, on an account id of 7.
abbrev work : Effective
work = record {
  account_id = 7;
  alias = "work";
  platform = Platform.max;
  limits = some default_limits;
  source = Source.default;
}

abbrev plan : Plan
plan = record { eff = work; limits = default_limits; history = false }

abbrev no_jitter : ℕ → ℕ
no_jitter upper = 0

abbrev at_start : Events
at_start = record { rows = []; next_id = 1 }

abbrev noon : ℕ
noon = 100000 * second

abbrev sent : ℕ → ℕ → WriteEvent
sent id at = record {
  id = id;
  account_id = 7;
  kind = send;
  tool = "send_message";
  chat_id = some (pos 5);
  new_dialog = false;
  at = at;
}

-- Five sends, a second apart: the window of a minute is full.
abbrev five : List WriteEvent
five =
    sent 5 (noon + 4 * second)
    ∷ sent 4 (noon + 3 * second)
    ∷ sent 3 (noon + 2 * second)
    ∷ sent 2 (noon + second)
    ∷ sent 1 noon
    ∷ []

run : Unit {0}
unfolding sort same_window bundle_kinds check_windows full_windows full_window raise_longest refusal
    longest need same_kind belongs count_window retry_after last_send sent_to reserve_locked
    bundle_locked take_slot prune planned is_new_dialog release exit_slot
run = tt

abbrev soon : ℕ
soon = noon + 10 * second

abbrev one_send : Needs
one_send = (send, 1) ∷ []

-- The refusal names the minute, and its wait ends when the first send is a minute old.
abbrev refused : WriteLimited
refused =
    refusal work "send_message"
      (record {
        window = window per_minute send 60;
        limit = 5;
        used = 5;
        wait_for = some 50;
        n = 1;
      })
      []

refused_at_ten :
    check_windows five work default_limits "send_message" one_send soon false ≡ some refused
unfolding run
refused_at_ten = refl

retry_after_passes_example :
    check_windows five work default_limits "send_message" one_send (noon + 60 * second) false ≡ none
unfolding run
retry_after_passes_example =
    retry_after_passes five work default_limits "send_message" one_send soon false refused 50
      (noon + 60 * second) refused_at_ten refl (omega arith)

retry_after_least_example :
    check_windows five work default_limits "send_message" one_send (noon + 59 * second) false ≢ none
unfolding run
retry_after_least_example =
    retry_after_least five work default_limits "send_message" one_send soon false refused 50
      (noon + 59 * second) refused_at_ten refl refl (omega arith)

check_windows-none_iff_example :
    (check_windows five work default_limits "send_message" one_send soon false ≡ none)
    ↔ All (Fits five 7 default_limits one_send soon false) windows
check_windows-none_iff_example =
    check_windows-none_iff five work default_limits "send_message" one_send soon false

-- The first send of the account, to a chat that it has no messages of.
abbrev first_row : WriteEvent
first_row = record {
  id = 1;
  account_id = 7;
  kind = send;
  tool = "send_message";
  chat_id = some (pos 5);
  new_dialog = true;
  at = noon;
}

abbrev taken : Taken
taken = record {
  events = record { rows = first_row ∷ []; next_id = 2 };
  slot = record { event_ids = 1 ∷ []; account_id = 7 };
  wait = 0;
}

first_send :
    reserve_locked plan send "send_message" (some (pos 5)) no_jitter noon at_start ≡ ok taken
unfolding run
first_send = refl

abbrev waiting : World
waiting = record empty { now = noon }

abbrev after_send : World
after_send = record waiting {
  table = taken.events;
  log = inserted plan send "send_message" (some (pos 5)) no_jitter noon at_start taken ∷ [];
}

after_first : Reach 7 (window per_minute send 60) 5 empty after_send
after_first = next (next here (passes empty noon (omega arith))) (
    reserves waiting plan send "send_message" (some (pos 5)) no_jitter taken
      (λ e. (5, refl, omega arith)) first_send)

sliding_bound_example :
    count (during 7 (window per_minute send 60) (noon + second)) after_send.log ≤ 5
sliding_bound_example =
    sliding_bound 7 (window per_minute send 60) 5 after_send (noon + second) (Memᴰ.head refl)
      after_first

spacing_example : IsSpaced 7 (3 * second) taken.events.rows × (taken.wait ≤ max_wait_sec * second)
spacing_example =
    spacing (3 * second) plan send "send_message" (some (pos 5)) no_jitter noon at_start taken
      (3, refl, omega arith, omega arith) first_send tt

-- A Telegram account, without limits of its own until its owner sets one.
abbrev private_account : Account
private_account = record {
  id = 2;
  alias = "private";
  mode = "rw";
  is_enabled = true;
  platform = Platform.telegram;
  write_chat_ids = none;
  write_rate_per_hour = none;
}

abbrev work_account : Account
work_account = record private_account { id = 7; alias = "work"; platform = Platform.max }

abbrev work_tables : Tables
work_tables = record { accounts = work_account ∷ []; write_limits = [] }

abbrev no_messages : Archive
no_messages = record { new_mode = true; messages = []; max_messages = []; tg_messages = [] }

prepared : prepare work_tables [] no_messages 7 send "send_message" (some (pos 5)) ≡ ok (some plan)
unfolding prepare plan_of effective has_history sent_to
prepared = refl

new_dialog_once_example :
    (count (opens 7 (pos 5)) taken.events.rows ≤ 1)
    × ((opens 7
            (pos 5)
            (inserted plan send "send_message" (some (pos 5)) no_jitter noon at_start taken)
          ≡ false)
        ⊎ ((sent_to (prune 7 noon at_start.rows) 7 (pos 5) ≡ false)
            × ((has_history no_messages work (pos 5) ≡ false) ⊎ (sent_to [] 7 (pos 5) ≡ true))))
new_dialog_once_example =
    new_dialog_once work_tables [] no_messages 7 plan send "send_message" (some (pos 5)) no_jitter
      noon at_start taken (pos 5) prepared first_send (omega arith)

failed_write_undone_example :
    count_window
      (exit_slot (some taken.slot) failed taken.events.rows)
      7
      (window per_minute send 60)
      noon
    ≡ count_window at_start.rows 7 (window per_minute send 60) noon
failed_write_undone_example =
    failed_write_undone plan send "send_message" (some (pos 5)) no_jitter noon at_start taken 7
      (window per_minute send 60) noon first_send tt (Memᴰ.head refl) (omega arith)

-- A group of two: one group and two invites at once.
abbrev group_needs : Needs
group_needs = (group_create, 1) ∷ (group_invite, 2) ∷ []

abbrev group_row : ℕ → Kind → WriteEvent
group_row id kind = record {
  id = id;
  account_id = 7;
  kind = kind;
  tool = "create_group";
  chat_id = none;
  new_dialog = false;
  at = noon;
}

abbrev group_taken : Taken
group_taken = record {
  events = record {
    rows = group_row 3 group_invite ∷ group_row 2 group_invite ∷ group_row 1 group_create ∷ [];
    next_id = 4;
  };
  slot = record { event_ids = 1 ∷ 2 ∷ 3 ∷ []; account_id = 7 };
  wait = 0;
}

group_bundle :
    bundle_locked work default_limits "create_group" group_needs none noon at_start ≡ ok group_taken
unfolding run
group_bundle = refl

failed_bundle_undone_example :
    count_window
      (exit_slot (some group_taken.slot) failed group_taken.events.rows)
      7
      (window per_minute send 60)
      noon
    ≡ count_window at_start.rows 7 (window per_minute send 60) noon
failed_bundle_undone_example =
    failed_bundle_undone work default_limits "create_group" group_needs none noon at_start
      group_taken 7 (window per_minute send 60) noon group_bundle tt (Memᴰ.head refl) (omega arith)

abbrev tables : Tables
tables = record { accounts = private_account ∷ []; write_limits = [] }

abbrev hourly : Changes
hourly = record {
  enabled = none;
  per_minute = none;
  per_hour = some (some 30);
  per_day = none;
  new_dialogs_per_day = none;
  min_interval_sec = none;
  jitter_sec = none;
  actions_per_hour = none;
  phone_lookups_per_day = none;
  groups_created_per_day = none;
  group_invites_per_day = none;
  chats_joined_per_day = none;
  contacts_imported_per_day = none;
}

abbrev changed : Tables
changed = record tables {
  write_limits = record { account_id = 2; own = record no_limits { per_hour = some 30 } } ∷ [];
}

set_hourly : set_limits tables 2 hourly ≡ some changed
unfolding set_limits replace effective
set_hourly = refl

effective-set_limits_example :
    (effective changed 2
      ≡ some (record {
        account_id = 2;
        alias = "private";
        platform = Platform.telegram;
        limits = some (replace (base_limits (effective tables 2)) hourly);
        source = Source.account;
      }))
    × ((j : ℕ) → j ≢ 2 → effective changed j ≡ effective tables j)
effective-set_limits_example =
    effective-set_limits tables changed 2 hourly private_account refl set_hourly

effective-reset_limits_example :
    (effective (reset_limits changed 2) 2 ≡ some (effective_row 2 private_account none))
    × ((j : ℕ) → j ≢ 2 → effective (reset_limits changed 2) j ≡ effective changed j)
effective-reset_limits_example = effective-reset_limits changed 2 private_account refl

abbrev private_limits : Effective
private_limits = effective_row 2 private_account none

window_left_exact_example :
    (check_windows [] private_limits no_limits "contact_by_phone" ((lookup, 3) ∷ []) noon false
      ≡ none)
    ↔ (3 ≤ 20)
unfolding window_left effective count_window
window_left_exact_example =
    window_left_exact tables [] 2 noon 20 3 private_limits lookup "contact_by_phone" false (cc) refl
      refl refl
