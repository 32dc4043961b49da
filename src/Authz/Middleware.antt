-- ===== src/Authz/Middleware.antt =====
-- app/main.py: the stack of middleware in its order, up to the route. The scheme that a proxy names,
-- which nothing here reads, is left out, and so is the audit log, which works on the response.
use tg_my_person.Prelude.{ℕ, String, List}
use tg_my_person.Authz.Request.{Request, App, Step, ◌>>=◌}
use tg_my_person.Authz.Authentication.{authenticate, admin_auth}
use tg_my_person.Authz.Aliases.{resolve_alias}
use tg_my_person.Authz.Dispatch.{platform_dispatch}
use tg_my_person.Authz.ToolAuthz.{tool_authz}

-- The request that reaches its route, or the answer of the middleware that stopped it.
unfoldable pub stack : (List ℕ → String) → Request → App → Step
stack hash_key req app =
    authenticate hash_key req app
    >>= admin_auth
    >>= resolve_alias
    >>= platform_dispatch
    >>= tool_authz
