-- ===== src/Authz/Paths.antt =====
-- app/authz/middleware.py: paths, prefixes and the tool behind a path.
use Prim.Native.String.{len, slice, ◌++◌ as str_append}
use text.Mathlib.Text.{starts_with}
use tg_my_person.Prelude.{
  ℕ, String, Bool, true, false, ◌||◌, Option, none, some, List, [], ◌∷◌, str_eq, any, if◌then◌else◌,
}
use tg_my_person.Models.{Platform, telegram, Scope, account, owner}
use tg_my_person.Authz.Catalog.{contains, max_only_tools}
use tg_my_person.Authz.Routes.{resolve}
use tg_my_person.Authz.Request.{ReqState, Request, Reply, App, Step, answer}

abbrev pub skip_paths : List String
skip_paths = "/api/v1/healthz" ∷ "/api/v1/readyz" ∷ "/docs" ∷ "/openapi.json" ∷ "/redoc" ∷ []

abbrev pub public_paths : List String
public_paths = "/api/v1/healthz" ∷ "/api/v1/readyz" ∷ "/docs" ∷ "/openapi.json" ∷ "/redoc" ∷ []

abbrev pub admin_prefixes : List String
admin_prefixes = "/api/v1/accounts" ∷ "/api/v1/admin" ∷ "/api/v1/owner-keys" ∷ "/api/v1/keys" ∷ []

abbrev pub self_auth_prefixes : List String
self_auth_prefixes = "/mcp" ∷ "/api/v1/files/" ∷ "/api/v1/uploads/" ∷ []

abbrev pub owner_prefix : String
owner_prefix = "/api/v1/people"

abbrev pub max_internal_prefix : String
max_internal_prefix = "/api/v1/_max"

abbrev pub api_prefix : String
api_prefix = "/api/v1"

-- `path == p or path.startswith(p + "/")`
unfoldable pub is_under : String → String → Bool
is_under p path = str_eq path p || starts_with path (str_append p "/")

unfoldable pub is_self_auth_path : String → Bool
is_self_auth_path path = str_eq path "/mcp" || any (λ p. starts_with path p) self_auth_prefixes

unfoldable pub is_admin_path : String → Bool
is_admin_path path = any (λ p. is_under p path) admin_prefixes

-- `path[len(_API_PREFIX):]` behind the internal prefix.
unfoldable pub internal_path : String → String
internal_path path = str_append max_internal_prefix (slice path (len api_prefix) (len path))

abbrev pub unsupported_path : String
unsupported_path = "/api/v1/_max/_unsupported"

abbrev pub platform_of : ReqState → Platform
platform_of s = elim s.platform [ none ↦ telegram | some p ↦ p ]

abbrev pub set_state : Request → ReqState → Request
set_state req s = record req { state = s }

abbrev pub deny : ℕ → Reply → Request → App → Step
deny status reply = answer (record { status = status; reply = reply })

-- `_resolve_route_name`
unfoldable pub resolve_route_name : App → String → String → Option String
resolve_route_name app method path = elim app.route_table [
  | none ↦ none
  | some table ↦ resolve table method path
]

abbrev pub only_max : Option String → Option String
only_max none = none
only_max (some name) = if contains max_only_tools name then some name else none

-- `_max_only_tool`
unfoldable pub max_only_tool : App → Request → Option String
max_only_tool app req = only_max (resolve_route_name app req.method (internal_path req.path))

abbrev pub scope_is_owner : Scope → Bool
scope_is_owner owner = true
scope_is_owner account = false
