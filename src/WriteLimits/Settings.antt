-- ===== src/WriteLimits/Settings.antt =====
-- app/authz/write_limits.py, the settings: the platforms' defaults and the accounts' own rows.
-- The rows are those of app/models.py, with the columns that this part of the program reads.
use tg_my_person.Prelude.{
  ℕ, String, Bool, true, Option, none, some, List, [], ◌∷◌, ◌==◌, if◌then◌else◌, find, filter, not,
}
use tg_my_person.Models.{Platform, Account}

-- The kinds of write events, by the constants of the source.
pub data Kind : Type 0 where
  send action lookup group_create group_invite chat_join contact_import : Kind

pub record Limits : Type 0 where
  pub enabled : Bool
  pub per_minute : Option ℕ
  pub per_hour : Option ℕ
  pub per_day : Option ℕ
  pub new_dialogs_per_day : Option ℕ
  pub min_interval_sec : Option ℕ
  pub jitter_sec : Option ℕ
  pub actions_per_hour : Option ℕ
  pub phone_lookups_per_day : Option ℕ
  pub groups_created_per_day : Option ℕ
  pub group_invites_per_day : Option ℕ
  pub chats_joined_per_day : Option ℕ
  pub contacts_imported_per_day : Option ℕ

abbrev pub lookup_default : ℕ
lookup_default = 20

abbrev pub default_limits : Limits
default_limits = record {
  enabled = true;
  per_minute = some 5;
  per_hour = some 20;
  per_day = some 100;
  new_dialogs_per_day = some 10;
  min_interval_sec = some 3;
  jitter_sec = some 2;
  actions_per_hour = some 60;
  phone_lookups_per_day = some lookup_default;
  groups_created_per_day = some 3;
  group_invites_per_day = some 30;
  chats_joined_per_day = some 5;
  contacts_imported_per_day = some 50;
}

-- Every limit off but the lookups'.
abbrev pub no_limits : Limits
no_limits = record {
  enabled = true;
  per_minute = none;
  per_hour = none;
  per_day = none;
  new_dialogs_per_day = none;
  min_interval_sec = none;
  jitter_sec = none;
  actions_per_hour = none;
  phone_lookups_per_day = some lookup_default;
  groups_created_per_day = none;
  group_invites_per_day = none;
  chats_joined_per_day = none;
  contacts_imported_per_day = none;
}

abbrev pub platform_defaults : Platform → Option Limits
platform_defaults Platform.max = some default_limits
platform_defaults Platform.telegram = none

-- The row of one account; its columns behind `account_id` are the fields of `Limits`.
pub record AccountWriteLimits : Type 0 where
  pub account_id : ℕ
  pub own : Limits

pub record Tables : Type 0 where
  pub accounts : List Account
  pub write_limits : List AccountWriteLimits

-- Where the effective limits come from.
pub data Source : Type 0 where
  account default nothing : Source

pub record Effective : Type 0 where
  pub account_id : ℕ
  pub alias : String
  pub platform : Platform
  pub limits : Option Limits
  pub source : Source

abbrev pub find_account : ℕ → List Account → Option Account
find_account id = find (λ a. a.id == id)

abbrev pub own_row : ℕ → List AccountWriteLimits → Option AccountWriteLimits
own_row id = find (λ r. r.account_id == id)

abbrev pub default_source : Option Limits → Source
default_source none = Source.nothing
default_source (some _) = Source.default

-- The end of `effective`, behind the query.
abbrev pub effective_row : ℕ → Account → Option AccountWriteLimits → Effective
effective_row id a (some row) = record {
  account_id = id;
  alias = a.alias;
  platform = a.platform;
  limits = some row.own;
  source = Source.account;
}
effective_row id a none = record {
  account_id = id;
  alias = a.alias;
  platform = a.platform;
  limits = platform_defaults a.platform;
  source = default_source (platform_defaults a.platform);
}

unfoldable pub effective : Tables → ℕ → Option Effective
effective db id = elim (find_account id db.accounts) [
  | none ↦ none
  | some a ↦ some (effective_row id a (own_row id db.write_limits))
]

-- The keyword arguments of `replace`: a field that is not given is `none`.
pub record Changes : Type 0 where
  pub enabled : Option Bool
  pub per_minute : Option (Option ℕ)
  pub per_hour : Option (Option ℕ)
  pub per_day : Option (Option ℕ)
  pub new_dialogs_per_day : Option (Option ℕ)
  pub min_interval_sec : Option (Option ℕ)
  pub jitter_sec : Option (Option ℕ)
  pub actions_per_hour : Option (Option ℕ)
  pub phone_lookups_per_day : Option (Option ℕ)
  pub groups_created_per_day : Option (Option ℕ)
  pub group_invites_per_day : Option (Option ℕ)
  pub chats_joined_per_day : Option (Option ℕ)
  pub contacts_imported_per_day : Option (Option ℕ)

abbrev pub given {ℓ} : {A : Type ℓ} → Option A → A → A
given none old = old
given (some new) old = new

unfoldable pub replace : Limits → Changes → Limits
replace l c = record {
  enabled = given c.enabled l.enabled;
  per_minute = given c.per_minute l.per_minute;
  per_hour = given c.per_hour l.per_hour;
  per_day = given c.per_day l.per_day;
  new_dialogs_per_day = given c.new_dialogs_per_day l.new_dialogs_per_day;
  min_interval_sec = given c.min_interval_sec l.min_interval_sec;
  jitter_sec = given c.jitter_sec l.jitter_sec;
  actions_per_hour = given c.actions_per_hour l.actions_per_hour;
  phone_lookups_per_day = given c.phone_lookups_per_day l.phone_lookups_per_day;
  groups_created_per_day = given c.groups_created_per_day l.groups_created_per_day;
  group_invites_per_day = given c.group_invites_per_day l.group_invites_per_day;
  chats_joined_per_day = given c.chats_joined_per_day l.chats_joined_per_day;
  contacts_imported_per_day = given c.contacts_imported_per_day l.contacts_imported_per_day;
}

abbrev pub or_no_limits : Option Limits → Limits
or_no_limits none = no_limits
or_no_limits (some l) = l

-- `current.limits if current is not None and current.limits is not None else NO_LIMITS`
abbrev pub base_limits : Option Effective → Limits
base_limits none = no_limits
base_limits (some e) = or_no_limits e.limits

-- `setattr` on the account's row.
unfoldable pub update_row : ℕ → Limits → List AccountWriteLimits → List AccountWriteLimits
update_row id l [] = []
update_row id l (r ∷ rs) =
    let rest = update_row id l rs in
    if r.account_id == id then record r { own = l } ∷ rest else r ∷ rest

unfoldable pub write_row :
    ℕ → Limits → Option AccountWriteLimits → List AccountWriteLimits → List AccountWriteLimits
unfolding update_row
write_row id l none rows = record { account_id = id; own = l } ∷ rows
write_row id l (some _) rows = update_row id l rows

-- A row of an account that is not there is refused by the foreign key: `none`.
unfoldable pub set_limits : Tables → ℕ → Changes → Option Tables
unfolding write_row
set_limits db id changes =
    let values = replace (base_limits (effective db id)) changes in
    elim (find_account id db.accounts) [
      | none ↦ none
      | some _ ↦ some (record db {
        write_limits = write_row id values (own_row id db.write_limits) db.write_limits;
      })
    ]

unfoldable pub reset_limits : Tables → ℕ → Tables
reset_limits db id = record db {
  write_limits = filter (λ r. not (r.account_id == id)) db.write_limits;
}
