-- ===== src/WriteLimits/Counters.antt =====
-- app/authz/write_limits.py, the counters: the windows and the events that each counts.
-- A point in time is a number of microseconds, the resolution of the database's timestamps.
-- `at > now - seconds` is written `now < at + seconds`, since `-` on ℕ stops at 0.
use Prim.Native.Nat.{max}
use tg_my_person.Prelude.{
  ℕ, ◌+◌, ◌-◌, ◌*◌, ◌/◌, String, Bool, true, false, not, ◌&&◌, ◌||◌, Option, none, some, List, [],
  ◌∷◌, map, ltb, ◌==◌, if◌then◌else◌, get_elem?, filter, count, any, ℤ, ◌==ℤ◌,
}
use tg_my_person.Prelude.Sort.{sort}
use tg_my_person.WriteLimits.Settings.{
  Kind, send, action, lookup, group_create, group_invite, chat_join, contact_import, Limits,
}

-- One second.
abbrev pub second : ℕ
second = 1000000

abbrev pub retention : ℕ
retention = 90000 * second

pub data WindowName : Type 0 where
  per_minute per_hour per_day new_dialogs_per_day actions_per_hour phone_lookups_per_day :
      WindowName
  groups_created_per_day group_invites_per_day chats_joined_per_day : WindowName
  contacts_imported_per_day : WindowName

pub record Window : Type 0 where
  pub name : WindowName
  pub kind : Kind
  pub seconds : ℕ
  pub new_dialogs_only : Bool

abbrev pub window : WindowName → Kind → ℕ → Window
window name kind seconds = record {
  name = name;
  kind = kind;
  seconds = seconds;
  new_dialogs_only = false;
}

abbrev pub windows : List Window
windows =
    window per_minute send 60
    ∷ window per_hour send 3600
    ∷ window per_day send 86400
    ∷ record { name = new_dialogs_per_day; kind = send; seconds = 86400; new_dialogs_only = true }
    ∷ window actions_per_hour action 3600
    ∷ window phone_lookups_per_day lookup 86400
    ∷ window groups_created_per_day group_create 86400
    ∷ window group_invites_per_day group_invite 86400
    ∷ window chats_joined_per_day chat_join 86400
    ∷ window contacts_imported_per_day contact_import 86400
    ∷ []

-- `getattr(limits, w.name)`
abbrev pub limit_of : Limits → WindowName → Option ℕ
limit_of l per_minute = l.per_minute
limit_of l per_hour = l.per_hour
limit_of l per_day = l.per_day
limit_of l new_dialogs_per_day = l.new_dialogs_per_day
limit_of l actions_per_hour = l.actions_per_hour
limit_of l phone_lookups_per_day = l.phone_lookups_per_day
limit_of l groups_created_per_day = l.groups_created_per_day
limit_of l group_invites_per_day = l.group_invites_per_day
limit_of l chats_joined_per_day = l.chats_joined_per_day
limit_of l contacts_imported_per_day = l.contacts_imported_per_day

abbrev kind_number : Kind → ℕ
kind_number send = 0
kind_number action = 1
kind_number lookup = 2
kind_number group_create = 3
kind_number group_invite = 4
kind_number chat_join = 5
kind_number contact_import = 6

-- Equality of the kinds, which the source compares as texts.
unfoldable pub same_kind : Kind → Kind → Bool
same_kind a b = kind_number a == kind_number b

pub record WriteEvent : Type 0 where
  pub id : ℕ
  pub account_id : ℕ
  pub kind : Kind
  pub tool : String
  pub chat_id : Option ℤ
  pub new_dialog : Bool
  pub at : ℕ

-- The conditions of `_events` but the one on the time.
unfoldable pub belongs : ℕ → Window → WriteEvent → Bool
belongs account_id w e =
    e.account_id == account_id
    && same_kind e.kind w.kind
    && (not w.new_dialogs_only || e.new_dialog)

abbrev pub span : Window → ℕ
span w = w.seconds * second

-- `_events`, with `since = now - timedelta(seconds=w.seconds)` as its callers have it.
abbrev pub in_window : ℕ → Window → ℕ → WriteEvent → Bool
in_window account_id w now e = belongs account_id w e && ltb now (e.at + span w)

unfoldable pub count_window : List WriteEvent → ℕ → Window → ℕ → ℕ
count_window events account_id w now = count (in_window account_id w now) events

-- Whole seconds, rounded up, and at least one.
abbrev pub wait_seconds : ℕ → ℕ
wait_seconds us = max 1 ((us + 999999) / second)

abbrev pub or_whole_window : Window → ℕ → Option ℕ → ℕ
or_whole_window w now none = w.seconds
or_whole_window w now (some at) = wait_seconds (at + span w - now)

-- ORDER BY at OFFSET used - limit + n - 1 LIMIT 1 over the events in the window.
unfoldable pub retry_after : List WriteEvent → ℕ → Window → ℕ → ℕ → ℕ → ℕ → ℕ
retry_after events account_id w now used limit n = or_whole_window w now (
    get_elem? (sort (map (λ e. e.at) (filter (in_window account_id w now) events)))
      (used + n - limit - 1))

abbrev pub is_send_of : ℕ → WriteEvent → Bool
is_send_of account_id e = e.account_id == account_id && same_kind e.kind send

later : ℕ → Option ℕ → Option ℕ
later a none = some a
later a (some b) = some (max a b)

-- `max(at)` of the account's sends.
unfoldable pub last_send : List WriteEvent → ℕ → Option ℕ
unfolding later
last_send [] account_id = none
last_send (e ∷ es) account_id =
    let rest = last_send es account_id in if is_send_of account_id e then later e.at rest else rest

abbrev pub same_chat : Option ℤ → ℤ → Bool
same_chat none c = false
same_chat (some b) c = b ==ℤ c

unfoldable pub sent_to : List WriteEvent → ℕ → ℤ → Bool
sent_to events account_id chat_id =
    any (λ e. is_send_of account_id e && same_chat e.chat_id chat_id) events
