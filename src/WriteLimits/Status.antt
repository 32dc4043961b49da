-- ===== src/WriteLimits/Status.antt =====
-- app/authz/write_limits.py: what is left of a window, and the status for the admin API.
use tg_my_person.Prelude.{
  ℕ, ◌+◌, ◌-◌, ◌*◌, Option, none, some, List, String, ltb, ◌==◌, if◌then◌else◌, find,
}
use tg_my_person.Models.{Platform}
use tg_my_person.WriteLimits.Settings.{Limits, Source, Tables, Effective, effective, or_no_limits}
use tg_my_person.WriteLimits.Counters.{
  second, WindowName, phone_lookups_per_day, Window, windows, limit_of, WriteEvent, count_window,
  last_send,
}
use tg_my_person.WriteLimits.Windows.{name_number}

abbrev pub left_of : Option ℕ → ℕ → Option ℕ
left_of none used = none
left_of (some limit) used = some (limit - used)

-- `next(w for w in WINDOWS if w.name == name)`
abbrev window_named : WindowName → Option Window
window_named name = find (λ w. name_number w.name == name_number name) windows

-- `used`, 0 where the name is of no window, which does not happen.
abbrev pub count_named : List WriteEvent → ℕ → ℕ → WindowName → ℕ
count_named events id now name = elim (window_named name) [
  | none ↦ 0
  | some w ↦ count_window events id w now
]

unfoldable pub window_left : Tables → List WriteEvent → ℕ → WindowName → ℕ → Option ℕ
window_left db events id name now = elim (effective db id) [
  | none ↦ none
  | some eff ↦ left_of (limit_of (or_no_limits eff.limits) name) (count_named events id now name)
]

unfoldable pub lookups_left : Tables → List WriteEvent → ℕ → ℕ → Option ℕ
lookups_left db events id now = window_left db events id phone_lookups_per_day now

pub record Lookups : Type 0 where
  pub limit : Option ℕ
  pub used : ℕ
  pub remaining : Option ℕ

-- The answer of `status`; its counters are those of the windows, by their names.
pub record Status : Type 0 where
  pub account_id : ℕ
  pub alias : String
  pub platform : Platform
  pub source : Source
  pub limits : Option Limits
  pub counters : WindowName → ℕ
  pub last_send_at : Option ℕ
  pub next_send_at : Option ℕ
  pub remaining : Option (WindowName → Option ℕ)
  pub phone_lookups : Lookups

abbrev remaining_of : Option Limits → (WindowName → ℕ) → Option (WindowName → Option ℕ)
remaining_of none used = none
remaining_of (some limits) used = some (λ name. left_of (limit_of limits name) (used name))

abbrev if_future : ℕ → ℕ → Option ℕ
if_future now candidate = if ltb now candidate then some candidate else none

-- `min_interval_sec` and the last send, both there and the interval not 0.
abbrev next_send : Option ℕ → Option ℕ → ℕ → Option ℕ
next_send (some interval) (some last) now =
    if interval == 0 then none else if_future now (last + interval * second)
next_send _ _ now = none

abbrev next_send_of : Option Limits → Option ℕ → ℕ → Option ℕ
next_send_of none last now = none
next_send_of (some limits) last now = next_send limits.min_interval_sec last now

abbrev status_of : List WriteEvent → Effective → ℕ → Status
status_of events eff now =
    let used = count_named events eff.account_id now in
    let last = last_send events eff.account_id in
    let lookup_limit = (or_no_limits eff.limits).phone_lookups_per_day in
    record {
      account_id = eff.account_id;
      alias = eff.alias;
      platform = eff.platform;
      source = eff.source;
      limits = eff.limits;
      counters = used;
      last_send_at = last;
      next_send_at = next_send_of eff.limits last now;
      remaining = remaining_of eff.limits used;
      phone_lookups = record {
        limit = lookup_limit;
        used = used phone_lookups_per_day;
        remaining = left_of lookup_limit (used phone_lookups_per_day);
      };
    }

unfoldable pub status : Tables → List WriteEvent → ℕ → ℕ → Option Status
status db events id now = elim (effective db id) [
  | none ↦ none
  | some eff ↦ some (status_of events eff now)
]
