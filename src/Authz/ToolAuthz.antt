-- ===== src/Authz/ToolAuthz.antt =====
-- app/authz/middleware.py: the authorization of the tool.
use tg_my_person.Prelude.{String, Bool, false, ◌||◌, Option, none, some, str_eq, if◌then◌else◌}
use tg_my_person.Models.{account}
use tg_my_person.Authz.Catalog.{contains, read_only_tools, write_tools, tool_is_write}
use tg_my_person.Authz.Policy.{AuthContext, authorize, response}
use tg_my_person.Authz.Request.{ReqState, Request, tool_denied, App, Step, call_next}
use tg_my_person.Authz.Paths.{platform_of, set_state, deny, resolve_route_name}
use tg_my_person.Authz.Dispatch.{or_else}

abbrev or_unknown : Option String → String
or_unknown none = "unknown"
or_unknown (some name) = if str_eq name "" then "unknown" else name

-- `request_context`
unfoldable pub request_context : ReqState → AuthContext
request_context s = record {
  account_id = s.account_id;
  alias = elim s.session_alias [ none ↦ some "work" | some a ↦ a ];
  platform = platform_of s;
  scope = elim s.scope [ none ↦ account | some x ↦ x ];
}

-- The decision on a tool of the catalog.
unfoldable pub decide_tool : String → Bool → Request → App → Step
decide_tool tool is_write req app =
    let marked =
      set_state req (record req.state { tool_name = some tool; tool_is_write = is_write }) in
    let (decision, cache) =
      authorize app.policy app.monotonic app.time (request_context req.state) tool none is_write
        app.mode_cache in
    let app' = record app { mode_cache = cache } in
    if decision.allowed
    then call_next marked app'
    else let (status, body) = response decision (request_context req.state) tool in
      deny status (tool_denied body) marked app'

-- An unknown tool passes.
unfoldable pub known_tool : Option String → Request → App → Step
unfolding decide_tool
known_tool none req app =
    call_next
      (set_state req (record req.state { tool_name = some "unknown"; tool_is_write = false })) app
known_tool (some tool) req app =
    let passed =
      set_state req
        (record req.state { tool_name = some (or_unknown (some tool)); tool_is_write = false }) in
    if contains read_only_tools tool || contains write_tools tool
    then elim (tool_is_write tool) [
      | none ↦ call_next passed app
      | some is_write ↦ decide_tool tool is_write req app
    ]
    else call_next passed app

unfoldable pub tool_authz : Request → App → Step
unfolding known_tool
tool_authz req app =
    if req.state.is_admin_path
    then call_next
        (set_state req (record req.state {
          tool_name = some (or_unknown (resolve_route_name app req.method req.path));
        }))
        app
    else known_tool
        (or_else req.state.forced_tool_name (resolve_route_name app req.method req.path)) req app
