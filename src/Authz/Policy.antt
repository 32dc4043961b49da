-- ===== src/Authz/Policy.antt =====
-- app/authz/policy.py: one decision for HTTP and MCP, with the cached mode of
-- app/authz/middleware.py. The monotonic clock and the time of day are microseconds.
use tg_my_person.Prelude.{
  ℕ, ◌+◌, ◌*◌, String, Bool, true, false, ◌&&◌, Option, none, some, List, ◌∷◌, str_eq, ◌==◌, ltb,
  leb, find, any, count, if◌then◌else◌, ℤ, ◌==ℤ◌,
}
use tg_my_person.Models.{Platform, Account, AccountToolPolicy, AuditLog, Scope}
use tg_my_person.Authz.Catalog.{contains, write_messenger_tools}

pub record AuthContext : Type 0 where
  pub account_id : Option ℕ
  pub alias : Option String
  pub platform : Platform
  pub scope : Scope

pub data Reason : Type 0 where
  denied_by_account_policy read_only_account : Reason
  chat_not_in_write_chat_ids : ℤ → Reason
  write_rate_limit : ℕ → Reason

pub record Decision : Type 0 where
  pub allowed : Bool
  pub status : ℕ
  pub reason : Option Reason

abbrev pub allow : Decision
allow = record { allowed = true; status = 200; reason = none }

abbrev pub refuse : ℕ → Reason → Decision
refuse status reason = record { allowed = false; status = status; reason = some reason }

-- The body of a refusal; "mode" is a field of the first kind alone.
pub record Denial : Type 0 where
  pub tool : String
  pub alias : Option String
  pub mode : Option String
  pub reason : Option Reason

abbrev is_account_denial : Option Reason → Bool
is_account_denial (some denied_by_account_policy) = true
is_account_denial (some read_only_account) = true
is_account_denial _ = false

-- `Decision.response`: the status and the body.
unfoldable pub response : Decision → AuthContext → String → ℕ × Denial
response d ctx tool =
    if d.status == 403 && is_account_denial d.reason
    then (403, record { tool = tool; alias = ctx.alias; mode = some "ro"; reason = d.reason })
    else (d.status, record { tool = tool; alias = ctx.alias; mode = none; reason = d.reason })

-- The tables that the decision reads.
pub record PolicyTables : Type 0 where
  pub accounts : List Account
  pub policies : List AccountToolPolicy
  pub audit_logs : List AuditLog

abbrev second : ℕ
second = 1000000

abbrev pub mode_cache_ttl : ℕ
mode_cache_ttl = 10 * second

-- `_mode_cache`, the newest entry of an account first.
abbrev pub ModeCache : Type 0
ModeCache = List (ℕ × String × ℕ)

abbrev pub account_row : ℕ → List Account → Option Account
account_row id = find (λ a. a.id == id)

-- `scalar_one_or_none() or "rw"`
stored_mode : PolicyTables → ℕ → String
stored_mode db id = elim (account_row id db.accounts) [
  | none ↦ "rw"
  | some a ↦ if str_eq a.mode "" then "rw" else a.mode
]

cached_mode : PolicyTables → ℕ → ℕ → Option (ℕ × String × ℕ) → ModeCache → String × ModeCache
cached_mode db now id none cache =
    let mode = stored_mode db id in (mode, (id, mode, now + mode_cache_ttl) ∷ cache)
cached_mode db now id (some (_, mode, expiry)) cache =
    let read = stored_mode db id in
    if ltb now expiry then (mode, cache) else (read, (id, read, now + mode_cache_ttl) ∷ cache)

-- `_get_account_mode`
unfoldable pub get_account_mode : PolicyTables → ℕ → ℕ → ModeCache → String × ModeCache
unfolding cached_mode stored_mode
get_account_mode db now id cache = cached_mode db now id (find (λ c. c.0 == id) cache) cache

abbrev effect_of : Option AccountToolPolicy → Option String
effect_of none = none
effect_of (some p) = some p.effect

-- `_get_tool_policy`
unfoldable pub get_tool_policy : PolicyTables → ℕ → String → Option String
get_tool_policy db id tool =
    effect_of (find (λ p. p.account_id == id && str_eq p.tool_name tool) db.policies)

-- `_writes_last_hour`
unfoldable pub writes_last_hour : PolicyTables → ℕ → ℕ → ℕ
writes_last_hour db time id =
    count
      (λ l.
        is_account l.account_id
        && l.is_write
        && str_eq l.status "ok"
        && contains write_messenger_tools l.tool
        && leb time (l.ts + 3600 * second))
      db.audit_logs
  where
    is_account : Option ℕ → Bool
    is_account none = false
    is_account (some i) = i == id

-- The chat is known, the list is set, and the chat is not in it.
abbrev pub outside : Option ℤ → Option (List ℤ) → Option ℤ
outside (some chat) (some ids) = if any (λ i. i ==ℤ chat) ids then none else some chat
outside _ _ = none

-- The rate is set and reached.
abbrev pub reached : Option ℕ → ℕ → Option ℕ
reached none writes = none
reached (some rate) writes = if leb rate writes then some rate else none

abbrev pub row_guards : Option ℤ → Option ℕ → Decision
row_guards (some c) rate = refuse 403 (chat_not_in_write_chat_ids c)
row_guards none (some rate) = refuse 429 (write_rate_limit rate)
row_guards none none = allow

-- The guards of messenger writes, by the account's row.
unfoldable pub write_guards : PolicyTables → ℕ → ℕ → Option ℤ → Decision
write_guards db time id chat = elim (account_row id db.accounts) [
  | none ↦ allow
  | some a ↦
      row_guards (outside chat a.write_chat_ids)
        (reached a.write_rate_per_hour (writes_last_hour db time id))
]

abbrev pub is_effect : Option String → String → Bool
is_effect none name = false
is_effect (some e) name = str_eq e name

-- Behind the account's policy and its mode.
abbrev pub messenger_guards : PolicyTables → ℕ → ℕ → String → Option ℤ → Decision
messenger_guards db time id tool chat =
    if contains write_messenger_tools tool then write_guards db time id chat else allow

-- `authorize` of a write by an account.
unfoldable pub authorize_write :
    PolicyTables → ℕ → ℕ → ℕ → String → Option ℤ → ModeCache → Decision × ModeCache
authorize_write db now time id tool chat cache =
    let effect = get_tool_policy db id tool in
    let (mode, cache') = get_account_mode db now id cache in
    if is_effect effect "deny"
    then (refuse 403 denied_by_account_policy, cache)
    else if is_effect effect "allow"
    then (messenger_guards db time id tool chat, cache)
    else if str_eq mode "ro"
    then (refuse 403 read_only_account, cache')
    else (messenger_guards db time id tool chat, cache')

-- `now` is the monotonic clock of the cache, `time` the time of day.
unfoldable pub authorize :
    PolicyTables → ℕ → ℕ → AuthContext → String → Option ℤ → Bool → ModeCache → Decision × ModeCache
authorize db now time ctx tool chat false cache = (allow, cache)
authorize db now time ctx tool chat true cache = elim ctx.account_id [
  | none ↦ (allow, cache)
  | some id ↦ authorize_write db now time id tool chat cache
]
