-- ===== src/Authz/Aliases.antt =====
-- app/authz/middleware.py: the account that a request is for.
-- A failure of the database while an alias is looked up is the flag `db_fails`.
use Prim.Native.String.{◌++◌ as str_append}
use text.Mathlib.Text.{starts_with}
use tg_my_person.Prelude.{
  ℕ, ◌+◌, ◌*◌, String, Bool, true, false, not, ◌&&◌, ◌||◌, Option, none, some, [], ◌∷◌, str_eq, ltb,
  find, filter, if◌then◌else◌,
}
use tg_my_person.Models.{Platform, telegram, Account, owner}
use tg_my_person.Authz.Catalog.{contains}
use tg_my_person.Authz.Keys.{KeyInfo}
use tg_my_person.Authz.Request.{
  ReqState, Request, alias_mismatch, account_required, alias_not_registered, CachedAlias, App, Step,
  call_next,
}
use tg_my_person.Authz.Paths.{
  skip_paths, api_prefix, is_self_auth_path, set_state, deny, scope_is_owner,
}

-- The account of an enabled alias.
unfoldable pub resolve_alias_from_db : App → String → Option Account
resolve_alias_from_db app alias =
    if app.db_fails
    then none
    else find (λ a. str_eq a.alias alias && a.is_enabled) app.policy.accounts

abbrev is_fresh : ℕ → CachedAlias → Bool
is_fresh now c = ltb now c.expiry

abbrev pub alias_cache_ttl : ℕ
alias_cache_ttl = 10 * 1000000

abbrev resolved_state : ReqState → String → ℕ → Platform → ReqState
resolved_state s alias id platform = record s {
  session_alias = some (some alias);
  account_id = some id;
  platform = some platform;
}

-- `header or query`, where an empty header counts as none.
header_alias : Request → Option String
header_alias req = elim req.x_session_alias [
  | none ↦ req.query_session
  | some a ↦ if str_eq a "" then req.query_session else some a
]

unfoldable pub from_db : String → Request → App → Step
from_db alias req app = elim (resolve_alias_from_db app alias) [
  | none ↦ deny 404 (alias_not_registered alias) req app
  | some a ↦
      call_next (set_state req (resolved_state req.state alias a.id a.platform)) (record app {
        alias_cache =
            record {
              alias = alias;
              account_id = a.id;
              platform = a.platform;
              expiry = app.monotonic + alias_cache_ttl;
            }
            ∷ filter (λ c. not (str_eq c.alias alias)) app.alias_cache;
      })
]

-- The cached account while it is fresh, else the database's.
unfoldable pub resolve_alias_name : String → Request → App → Step
unfolding from_db
resolve_alias_name alias req app = elim (find (λ c. str_eq c.alias alias) app.alias_cache) [
  | none ↦ from_db alias req app
  | some c ↦
      if is_fresh app.monotonic c
      then call_next (set_state req (resolved_state req.state alias c.account_id c.platform)) app
      else from_db alias req app
]

abbrev or_work : Option String → String
or_work none = "work"
or_work (some a) = if str_eq a "" then "work" else a

abbrev lacks_alias : Option String → String → Bool
lacks_alias none path = starts_with path (str_append api_prefix "/")
lacks_alias (some _) path = false

-- No key of its own: the alias of the request, or 'work'.
unfoldable pub by_alias : Option String → Request → App → Step
by_alias alias req app =
    let missing = lacks_alias alias req.path in
    if missing && app.settings.require_account
    then deny 400 account_required req app
    else resolve_alias_name (or_work alias)
        (if missing then set_state req (record req.state { implicit_work = true }) else req) app

-- `header_alias and header_alias != key.alias`
abbrev mismatch : Option String → Option String → Option String
mismatch none mine = none
mismatch (some a) none = if str_eq a "" then none else some a
mismatch (some a) (some mine) = if str_eq a "" || str_eq a mine then none else some a

abbrev or_telegram : Option Platform → Platform
or_telegram none = telegram
or_telegram (some p) = p

unfoldable pub by_key : KeyInfo → Request → App → Step
unfolding header_alias
by_key key req app =
    if scope_is_owner key.scope
    then call_next
        (set_state req (record req.state {
          scope = some owner;
          session_alias = some (some "owner");
          account_id = none;
          platform = some telegram;
        }))
        app
    else elim (mismatch (header_alias req) key.alias) [
      | some other ↦ deny 403 (alias_mismatch other key.alias) req app
      | none ↦
          call_next
            (set_state req (record req.state {
              session_alias = some key.alias;
              account_id = key.account_id;
              platform = some (or_telegram key.platform);
            }))
            app
    ]

abbrev no_account : ReqState → Option String → ReqState
no_account s alias = record s {
  session_alias = some alias;
  account_id = none;
  platform = some telegram;
}

unfoldable pub resolve_alias : Request → App → Step
unfolding by_key by_alias
resolve_alias req app =
    if req.state.is_admin_path
    then call_next req app
    else if is_self_auth_path req.path
    then call_next (set_state req (no_account req.state none)) app
    else if contains skip_paths req.path
    then call_next (set_state req (no_account req.state (some "work"))) app
    else elim req.state.api_key [
      | some key ↦ by_key key req app
      | none ↦ by_alias (header_alias req) req app
    ]

-- The entry of an alias, or every entry.
unfoldable pub invalidate_alias_cache : Option String → App → App
invalidate_alias_cache none app = record app { alias_cache = [] }
invalidate_alias_cache (some alias) app = record app {
  alias_cache = filter (λ c. not (str_eq c.alias alias)) app.alias_cache;
}
