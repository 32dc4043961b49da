-- ===== src/Authz/Keys.antt =====
-- app/authz/keys.py: API keys, by their hashes, with a cache of 60 seconds.
-- The monotonic clock counts microseconds. The hash, a function of the Python library, is a
-- parameter; keys are code points. The task that writes `last_used_at` changes nothing that is read
-- here, and only its gate is modelled.
use tg_my_person.Prelude.{
  ℕ, ◌+◌, ◌-◌, ◌*◌, String, Bool, true, false, not, ◌&&◌, Option, none, some, List, [], ◌∷◌, map,
  str_eq, ◌==◌, ltb, find, any, if◌then◌else◌,
}
use tg_my_person.Models.{Platform, Account, Scope, ApiKey, account, owner}

abbrev second : ℕ
second = 1000000

abbrev pub cache_ttl : ℕ
cache_ttl = 60 * second

abbrev pub touch_interval : ℕ
touch_interval = 60 * second

pub record KeyInfo : Type 0 where
  pub id : ℕ
  pub scope : Scope
  pub account_id : Option ℕ
  pub alias : Option String
  pub platform : Option Platform

-- The tables, as the queries of this module see them.
pub record KeyTables : Type 0 where
  pub keys : List ApiKey
  pub accounts : List Account

abbrev key_account : List Account → Option ℕ → Option Account
key_account accounts none = none
key_account accounts (some id) = find (λ a. a.id == id) accounts

abbrev info_of : ApiKey → Option Account → KeyInfo
info_of key none = record {
  id = key.id;
  scope = key.scope;
  account_id = key.account_id;
  alias = none;
  platform = none;
}
info_of key (some a) = record {
  id = key.id;
  scope = key.scope;
  account_id = key.account_id;
  alias = some a.alias;
  platform = some a.platform;
}

abbrev account_is_enabled : Option Account → Bool
account_is_enabled none = false
account_is_enabled (some a) = a.is_enabled

abbrev usable : Scope → Option Account → Bool
usable account a = account_is_enabled a
usable owner a = true

abbrev pub is_revoked : ApiKey → Bool
is_revoked key = elim key.revoked_at [ none ↦ false | some _ ↦ true ]

unfoldable pub load_row : KeyTables → Option ApiKey → Option KeyInfo
load_row db none = none
load_row db (some key) =
    let a = key_account db.accounts key.account_id in
    if usable key.scope a then some (info_of key a) else none

-- `_load`
unfoldable pub load : KeyTables → String → Option KeyInfo
unfolding load_row
load db hash = load_row db (find (λ k. str_eq k.key_hash hash && not (is_revoked k)) db.keys)

pub record Cached : Type 0 where
  pub hash : String
  pub info : Option KeyInfo
  pub expiry : ℕ

-- The module's two dictionaries, the newest entry of a key first.
pub record KeyCache : Type 0 where
  pub entries : List Cached
  pub touched : List (ℕ × ℕ)

abbrev cached_entry : String → List Cached → Option Cached
cached_entry hash = find (λ c. str_eq c.hash hash)

-- `_touch_later` up to the task: whether one is started, and the time noted.
abbrev touched_at : ℕ → List (ℕ × ℕ) → Option (ℕ × ℕ)
touched_at id = find (λ t. t.0 == id)

unfoldable pub touch_later : ℕ → ℕ → List (ℕ × ℕ) → List (ℕ × ℕ)
touch_later id now touched = elim (touched_at id touched) [
  | none ↦ (id, now) ∷ touched
  | some (_, at) ↦ if ltb (now - at) touch_interval then touched else (id, now) ∷ touched
]

unfoldable pub touch_found : ℕ → Option KeyInfo → KeyCache → KeyCache
touch_found now none cache = cache
touch_found now (some info) cache = record cache { touched = touch_later info.id now cache.touched }

-- The cached answer while it is fresh, else the loaded one, which is cached.
unfoldable pub fresh_or_load :
    KeyTables → ℕ → String → Option Cached → KeyCache → Option KeyInfo × KeyCache
fresh_or_load db now hash none cache =
    let info = load db hash in
    (
      info,
      record cache {
        entries = record { hash = hash; info = info; expiry = now + cache_ttl } ∷ cache.entries;
      },
    )
fresh_or_load db now hash (some c) cache =
    let info = load db hash in
    if ltb now c.expiry then (c.info, cache) else (
      info,
      record cache {
        entries = record { hash = hash; info = info; expiry = now + cache_ttl } ∷ cache.entries;
      },
    )

unfoldable pub lookup_hash : KeyTables → ℕ → String → KeyCache → Option KeyInfo × KeyCache
unfolding fresh_or_load touch_found
lookup_hash db now hash cache =
    let (info, cache') = fresh_or_load db now hash (cached_entry hash cache.entries) cache in
    (info, touch_found now info cache')

module _ (hash_key : List ℕ → String) where
  -- An absent or empty key finds nothing.
  unfoldable pub lookup : KeyTables → ℕ → Option (List ℕ) → KeyCache → Option KeyInfo × KeyCache
  unfolding lookup_hash
  lookup db now none cache = (none, cache)
  lookup db now (some []) cache = (none, cache)
  lookup db now (some (c ∷ cs)) cache = lookup_hash db now (hash_key (c ∷ cs)) cache

  -- The new row; the plain key is in no table.
  unfoldable pub create_key :
      KeyTables → KeyCache → ℕ → Scope → Option ℕ → List ℕ → KeyTables × KeyCache
  create_key db cache id scope account_id key = (
    record db {
      keys =
          record {
            id = id;
            scope = scope;
            account_id = account_id;
            key_hash = hash_key key;
            revoked_at = none;
          }
          ∷ db.keys;
    },
    record cache { entries = [] },
  )

-- `invalidate`
unfoldable pub invalidate : KeyCache → KeyCache
invalidate cache = record cache { entries = [] }

abbrev pub revoke_row : ℕ → ℕ → ApiKey → ApiKey
revoke_row key_id now k =
    if k.id == key_id && not (is_revoked k) then record k { revoked_at = some now } else k

abbrev revokes : ℕ → ApiKey → Bool
revokes key_id k = k.id == key_id && not (is_revoked k)

-- The row revoked, the cache dropped, and whether there was such a row.
unfoldable pub revoke_key : KeyTables → KeyCache → ℕ → ℕ → Bool × KeyTables × KeyCache
unfolding invalidate
revoke_key db cache key_id now = (
  any (revokes key_id) db.keys,
  record db { keys = map (revoke_row key_id now) db.keys },
  invalidate cache,
)
