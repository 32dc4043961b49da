-- ===== src/Authz/Dispatch.antt =====
-- app/authz/middleware.py: the platform that a request goes to.
use Prim.Native.String.{◌++◌ as str_append}
use text.Mathlib.Text.{starts_with}
use tg_my_person.Prelude.{
  String, Bool, true, false, not, ◌||◌, Option, none, some, str_eq, if◌then◌else◌,
}
use tg_my_person.Models.{Platform, telegram}
use tg_my_person.Authz.Catalog.{contains}
use tg_my_person.Authz.Request.{Request, not_found, not_supported, App, Step, call_next}
use tg_my_person.Authz.Paths.{
  skip_paths, max_internal_prefix, api_prefix, is_under, internal_path, unsupported_path,
  platform_of, set_state, deny, resolve_route_name, max_only_tool,
}

abbrev pub rewrite_path : Request → String → Request
rewrite_path req path = record req { path = path }

unfoldable pub is_max : Platform → Bool
is_max telegram = false
is_max Platform.max = true

-- A MAX request goes to the MAX router, or to its catch-all.
unfoldable pub to_max : String → Request → App → Step
to_max tool req app =
    let forced =
      set_state req (record req.state { forced_tool_name = some tool; max_rewritten = true }) in
    let internal = internal_path req.path in
    elim (resolve_route_name app req.method internal) [
      | none ↦ call_next (rewrite_path forced unsupported_path) app
      | some _ ↦ call_next (rewrite_path forced internal) app
    ]

-- `a or b`
abbrev pub or_else : Option String → Option String → Option String
or_else none b = b
or_else (some a) b = if str_eq a "" then b else some a

unfoldable pub dispatch_max : Request → App → Step
unfolding to_max
dispatch_max req app =
    elim (or_else (max_only_tool app req) (resolve_route_name app req.method req.path)) [
      | none ↦
          deny 404 not_found (set_state req (record req.state { tool_name = some "unknown" })) app
      | some tool ↦ to_max tool req app
    ]

unfoldable pub dispatch_telegram : Request → App → Step
dispatch_telegram req app = elim (max_only_tool app req) [
  | none ↦ call_next req app
  | some tool ↦
      deny 501 (not_supported tool (platform_of req.state) req.state.session_alias)
        (set_state req (record req.state { tool_name = some tool; tool_is_write = false })) app
]

unfoldable pub platform_dispatch : Request → App → Step
unfolding dispatch_max dispatch_telegram
platform_dispatch req app =
    if req.state.is_admin_path
    then call_next req app
    else if is_under max_internal_prefix req.path
    then deny 404 not_found req app
    else if not (starts_with req.path (str_append api_prefix "/")) || contains skip_paths req.path
    then call_next req app
    else if is_max (platform_of req.state)
    then dispatch_max req app
    else dispatch_telegram req app
