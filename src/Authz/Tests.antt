-- ===== src/Authz/Tests.antt =====
-- Runs of the authorization on concrete tables, and the theorems at concrete inputs.
use tg_my_person.Prelude.{
  ◌&&◌, ℕ, ◌+◌, ◌*◌, ◌≡◌, refl, ◌≢◌, ◌↔◌, ◌⊎◌, String, true, false, ◌||◌, none, some, List, [], ◌∷◌,
  str_eq, if◌then◌else◌, pos,
}
use tg_my_person.Models.{telegram, Account, account, ApiKey, AuditLog}
use tg_my_person.Authz.Catalog.{
  contains, read_only_tools, write_messenger_tools, write_db_tools, manage_session_tools, all_tools,
  tool_is_write,
}
use tg_my_person.Authz.Routes.{RouteEntry, matches, serves, resolve}
use tg_my_person.Authz.Keys.{
  KeyInfo, KeyTables, KeyCache, lookup, lookup_hash, fresh_or_load, load, load_row, touch_found,
  touch_later, revoke_key, invalidate,
}
use tg_my_person.Authz.Policy.{
  AuthContext, PolicyTables, mode_cache_ttl, authorize, authorize_write, get_account_mode,
  get_tool_policy, writes_last_hour, write_guards,
}
use tg_my_person.Authz.Request.{Request, fresh_state, App, call_next}
use tg_my_person.Authz.Paths.{
  internal_path, is_under, is_admin_path, is_self_auth_path, resolve_route_name, max_only_tool,
  max_internal_prefix,
}
use tg_my_person.Authz.Authentication.{
  authenticate, admin_auth, presented_key, is_open_path, find_key, admit, with_key, without_key,
  is_shared_key,
}
use tg_my_person.Authz.Aliases.{
  resolve_alias, resolve_alias_from_db, alias_cache_ttl, by_key, by_alias, resolve_alias_name,
  from_db,
}
use tg_my_person.Authz.Dispatch.{platform_dispatch, dispatch_telegram, dispatch_max, to_max, is_max}
use tg_my_person.Authz.ToolAuthz.{tool_authz, known_tool, decide_tool, request_context}
use tg_my_person.Authz.Middleware.{stack}
use tg_my_person.Authz.Decisions.{Permits, authorize-allowed_iff}
use tg_my_person.Authz.Revocation.{lookup-revoke_key}
use tg_my_person.Authz.Isolation.{ToMax, platform_dispatch_isolates}
use tg_my_person.Authz.Categories.{tool_is_write_iff}
use tg_my_person.Phone.{null}
use tg_my_person.Authz.Audit.{Params, audit_log_middleware}
use tg_my_person.Authz.Rates.{is_counted, writes_last_hour-audit_log_middleware}
use tg_my_person.Authz.Access.{stack_write_permitted}

abbrev second : ℕ
second = 1000000

abbrev work : Account
work = record {
  id = 7;
  alias = "work";
  mode = "rw";
  is_enabled = true;
  platform = telegram;
  write_chat_ids = some (pos 5 ∷ []);
  write_rate_per_hour = some 2;
}

abbrev one_write : AuditLog
one_write = record {
  ts = 50 * second;
  account_id = some 7;
  alias = some "work";
  tool = "send_message";
  is_write = true;
  status = "ok";
  chat_id = some (pos 5);
  target_user_id = none;
  params_digest = none;
  error = [];
}

abbrev policy_tables : PolicyTables
policy_tables = record {
  accounts = work ∷ [];
  policies = record { account_id = 7; tool_name = "send_document"; effect = "deny" } ∷ [];
  audit_logs = one_write ∷ [];
}

abbrev context : AuthContext
context = record { account_id = some 7; alias = some "work"; platform = telegram; scope = account }

authorize-allowed_iff_example :
    ((authorize policy_tables 0
        (60 * second)
        context
        "send_message"
        (some (pos 5))
        true
        []).0.allowed
      ≡ true)
    ↔ Permits policy_tables 0 (60 * second) 7 "send_message" (some (pos 5)) []
authorize-allowed_iff_example =
    authorize-allowed_iff policy_tables 0 (60 * second) 7 context "send_message" (some (pos 5)) []
      refl

tool_is_write_iff_example :
    ((tool_is_write "send_message" ≢ none) ↔ (contains all_tools "send_message" ≡ true))
    × ((tool_is_write "send_message" ≡ some true)
        ↔ (contains write_messenger_tools "send_message" ≡ true))
    × (contains write_messenger_tools "send_message" ≡ true
        → (contains read_only_tools "send_message"
            || contains write_db_tools "send_message"
            || contains manage_session_tools "send_message")
          ≡ false)
tool_is_write_iff_example = tool_is_write_iff "send_message"

-- Two keys of the account; the first one is revoked while the other is cached.
abbrev key_row : ℕ → String → ApiKey
key_row id hash = record {
  id = id;
  scope = account;
  account_id = some 7;
  key_hash = hash;
  revoked_at = none;
}

abbrev key_tables : KeyTables
key_tables = record { keys = key_row 1 "h1" ∷ key_row 2 "h2" ∷ []; accounts = work ∷ [] }

abbrev hash_key : List ℕ → String
hash_key key = elim key [ [] ↦ "" | c ∷ cs ↦ "h2" ]

abbrev info : KeyInfo
info = record {
  id = 2;
  scope = account;
  account_id = some 7;
  alias = some "work";
  platform = some telegram;
}

abbrev warm : KeyCache
warm = record {
  entries = record { hash = "h2"; info = some info; expiry = 100 * second } ∷ [];
  touched = [];
}

run : Unit {0}
unfolding lookup lookup_hash fresh_or_load load load_row touch_found touch_later revoke_key
    invalidate authorize authorize_write get_account_mode get_tool_policy writes_last_hour
    write_guards contains tool_is_write matches serves resolve is_under is_admin_path
    is_self_auth_path resolve_route_name max_only_tool authenticate admin_auth presented_key
    is_open_path find_key admit with_key without_key is_shared_key resolve_alias
    resolve_alias_from_db by_key by_alias resolve_alias_name from_db platform_dispatch
    dispatch_telegram dispatch_max to_max is_max tool_authz known_tool decide_tool request_context
    stack internal_path
run = tt

found_again :
    (lookup hash_key
      (revoke_key key_tables warm 1 second).1
      (2 * second)
      (some (65 ∷ []))
      (revoke_key key_tables warm 1 second).2).0
    ≡ some info
unfolding run
found_again = refl

lookup-revoke_key_example : info.id ≢ 1
lookup-revoke_key_example =
    lookup-revoke_key hash_key key_tables warm 1 second (2 * second) (some (65 ∷ [])) info
      found_again

-- A deployment without keys, one account and two routes.
abbrev route : String → String → String → RouteEntry
route method path name = record {
  path = path;
  methods = method ∷ [];
  name = name;
  regex = λ p. if str_eq p path then some [] else none;
  convertors = λ key. none;
}

abbrev app : App
app = record {
  settings = record {
    admin_api_key = [];
    api_key = [];
    legacy_api_key_enabled = true;
    require_account = false;
  };
  keys = key_tables;
  policy = policy_tables;
  db_fails = false;
  route_table = some (route "POST" "/api/v1/messages" "send_message" ∷ []);
  monotonic = 0;
  time = 60 * second;
  key_cache = record { entries = []; touched = [] };
  alias_cache = [];
  mode_cache = [];
}

abbrev request : Request
request = record {
  method = "POST";
  path = "/api/v1/messages";
  authorization = [];
  x_api_key = none;
  query_api_key = none;
  x_admin_key = none;
  x_session_alias = some "work";
  query_session = none;
  state = fresh_state;
}

abbrev resolved : Request
resolved = record request {
  state = record fresh_state {
    session_alias = some (some "work");
    account_id = some 7;
    platform = some telegram;
  };
}

platform_dispatch_isolates_example :
    (is_under max_internal_prefix "/api/v1/messages" ≡ false)
    × (true ≡ true
        → false ≡ false
        → ((false ≡ true) × ToMax resolved resolved)
          ⊎ ((false ≡ false) × (resolved ≡ resolved) × (max_only_tool app resolved ≡ none)))
unfolding run
platform_dispatch_isolates_example = platform_dispatch_isolates resolved resolved app app refl refl

abbrev at_route : Request
at_route = record resolved {
  state = record resolved.state { tool_name = some "send_message"; tool_is_write = true };
}

abbrev app_after : App
app_after = record app {
  alias_cache =
      record { alias = "work"; account_id = 7; platform = telegram; expiry = alias_cache_ttl } ∷ [];
  mode_cache = (7, "rw", mode_cache_ttl) ∷ [];
}

reaches_route : stack hash_key request app ≡ call_next at_route app_after
unfolding run
reaches_route = refl

stack_write_permitted_example :
    (tool : String) × (at_route.state.tool_name ≡ some tool)
    × (tool_is_write tool ≡ some true)
    × Permits policy_tables 0 (60 * second) 7 tool none []
unfolding run
stack_write_permitted_example =
    stack_write_permitted hash_key request at_route app app_after 7 refl refl reaches_route refl
      refl

abbrev no_params : Params
no_params = record {
  path_param = λ name. none;
  query_param = λ name. none;
  audit_target_user_id = none;
  body = none;
}

writes_last_hour-audit_log_middleware_example :
    writes_last_hour
      (audit_log_middleware
        (λ body. some null)
        (λ json. [])
        (λ body. [])
        (λ c. false)
        no_params
        200
        at_route
        true
        (60 * second)
        policy_tables)
      (60 * second)
      7
    ≡ (if is_counted 7 200 at_route && true then 1 else 0)
      + writes_last_hour policy_tables (60 * second) 7
writes_last_hour-audit_log_middleware_example =
    writes_last_hour-audit_log_middleware (λ body. some null) (λ json. []) (λ body. []) (λ c. false)
      no_params 200 at_route true (60 * second) 7 policy_tables
