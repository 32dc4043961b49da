-- ===== src/Authz/Request.antt =====
-- What the middleware of app/authz/middleware.py reads and writes: requests, their state, the
-- responses that it makes itself, and the state of the application.
-- A key is its code points; paths, aliases and names are texts. An attribute of `request.state` that
-- may be missing is an `Option`; one that is read with the same default as its absence is a plain
-- field.
use tg_my_person.Prelude.{ℕ, String, Bool, false, Option, none, List}
use tg_my_person.Models.{Platform, Scope}
use tg_my_person.Authz.Routes.{RouteEntry}
use tg_my_person.Authz.Keys.{KeyInfo, KeyTables, KeyCache}
use tg_my_person.Authz.Policy.{PolicyTables, ModeCache, Denial}

pub record ReqState : Type 0 where
  pub is_admin_path : Bool
  pub session_alias : Option (Option String)
  pub account_id : Option ℕ
  pub platform : Option Platform
  pub scope : Option Scope
  pub api_key : Option KeyInfo
  pub legacy_key : Bool
  pub implicit_work : Bool
  pub tool_name : Option String
  pub tool_is_write : Bool
  pub forced_tool_name : Option String
  pub max_rewritten : Bool

pub record Request : Type 0 where
  pub method : String
  pub path : String
  pub authorization : List ℕ
  pub x_api_key : Option (List ℕ)
  pub query_api_key : Option (List ℕ)
  pub x_admin_key : Option (List ℕ)
  pub x_session_alias : Option String
  pub query_session : Option String
  pub state : ReqState

abbrev pub fresh_state : ReqState
fresh_state = record {
  is_admin_path = false;
  session_alias = none;
  account_id = none;
  platform = none;
  scope = none;
  api_key = none;
  legacy_key = false;
  implicit_work = false;
  tool_name = none;
  tool_is_write = false;
  forced_tool_name = none;
  max_rewritten = false;
}

-- The bodies of the responses that the middleware answers itself.
pub data Reply : Type 0 where
  admin_key_not_configured admin_key_required : Reply
  owner_key_only account_key_no_contacts contacts_need_owner_key invalid_api_key : Reply
  alias_mismatch : String → Option String → Reply
  account_required : Reply
  alias_not_registered : String → Reply
  not_found : Reply
  not_supported : String → Platform → Option (Option String) → Reply
  tool_denied : Denial → Reply

pub record Response : Type 0 where
  pub status : ℕ
  pub reply : Reply

pub record Settings : Type 0 where
  pub admin_api_key : List ℕ
  pub api_key : List ℕ
  pub legacy_api_key_enabled : Bool
  pub require_account : Bool

-- `_alias_cache`: the account of an alias and when the entry expires.
pub record CachedAlias : Type 0 where
  pub alias : String
  pub account_id : ℕ
  pub platform : Platform
  pub expiry : ℕ

-- The settings, the tables, the route table, the two clocks and the caches of the process.
pub record App : Type 0 where
  pub settings : Settings
  pub keys : KeyTables
  pub policy : PolicyTables
  pub db_fails : Bool
  pub route_table : Option (List RouteEntry)
  pub monotonic : ℕ
  pub time : ℕ
  pub key_cache : KeyCache
  pub alias_cache : List CachedAlias
  pub mode_cache : ModeCache

-- What a middleware does: it answers, or hands the request on by `call_next`.
pub data Step : Type 0 where
  answer : Response → Request → App → Step
  call_next : Request → App → Step

infixl 5 ◌>>=◌
abbrev pub ◌>>=◌ : Step → (Request → App → Step) → Step
answer r req app >>= k = answer r req app
call_next req app >>= k = k req app
