-- ===== src/Authz/Isolation.antt =====
-- app/authz/middleware.py: which router a request can reach.
use text.Mathlib.Text.{starts_with}
use Prim.Native.String.{◌++◌ as str_append}
use tg_my_person.Prelude.{
  ◌≡◌, ◌⊎◌, inl, inr, String, true, false, none, some, arith, Option-cases, Bool-cases,
}
use tg_my_person.Authz.Catalog.{contains}
use tg_my_person.Authz.Request.{Request, App, call_next}
use tg_my_person.Authz.Paths.{
  skip_paths, max_internal_prefix, api_prefix, is_under, internal_path, unsupported_path,
  platform_of, resolve_route_name, max_only_tool,
}
use tg_my_person.Authz.Dispatch.{
  or_else, is_max, to_max, dispatch_max, dispatch_telegram, platform_dispatch,
}

-- The request that is handed on goes to the MAX router, under the name of a tool.
pub record ToMax (req req' : Request) : Type 0 where
  pub path : (req'.path ≡ internal_path req.path) ⊎ (req'.path ≡ unsupported_path)
  pub tool : (name : String) × (req'.state.forced_tool_name ≡ some name)
  pub account : req'.state.account_id ≡ req.state.account_id

to_max-ToMax :
    (name : String) (req req' : Request) (app app' : App)
    → to_max name req app ≡ call_next req' app'
    → ToMax req req'
unfolding to_max
to_max-ToMax name req req' app app' e = record {
  path = ground arith;
  tool = (name, ground arith);
  account = ground arith;
}

dispatch_max-ToMax :
    (req req' : Request) (app app' : App)
    → dispatch_max req app ≡ call_next req' app'
    → ToMax req req'
unfolding dispatch_max
dispatch_max-ToMax req req' app app' e =
    elim (Option-cases
      (or_else (max_only_tool app req) (resolve_route_name app req.method req.path))) [
        | inl missing ↦ absurd (ground arith)
        | inr (name, found) ↦ to_max-ToMax name req req' app app' (rw (found, dispatch_max) at e)
      ]

dispatch_telegram_same :
    (req req' : Request) (app app' : App)
    → dispatch_telegram req app ≡ call_next req' app'
    → (req' ≡ req) × (max_only_tool app req ≡ none)
unfolding dispatch_telegram
dispatch_telegram_same req req' app app' e = elim (Option-cases (max_only_tool app req)) [
  | inl missing ↦ (ground arith, missing)
  | inr (name, found) ↦ absurd (ground arith)
]

-- A request outside the admin area that is handed on was not sent to the internal router. Under the
-- API and off the probes, one of a MAX account goes to the MAX router or its catch-all, and one of a
-- Telegram account goes on unchanged and is for no tool of MAX alone.
pub platform_dispatch_isolates :
    (req req' : Request) (app app' : App)
    → req.state.is_admin_path ≡ false
    → platform_dispatch req app ≡ call_next req' app'
    → (is_under max_internal_prefix req.path ≡ false)
      × (starts_with req.path (str_append api_prefix "/") ≡ true
          → contains skip_paths req.path ≡ false
          → ((is_max (platform_of req.state) ≡ true) × ToMax req req')
            ⊎ ((is_max (platform_of req.state) ≡ false)
                × (req' ≡ req)
                × (max_only_tool app req ≡ none)))
unfolding platform_dispatch
platform_dispatch_isolates req req' app app' admin e = (
  ground arith,
  λ api skip. elim (Bool-cases (is_max (platform_of req.state))) [
    | inl m ↦ inl (m, dispatch_max-ToMax req req' app app' (ground arith))
    | inr t ↦ inr (
      t,
      (dispatch_telegram_same req req' app app' (ground arith)).0,
      (dispatch_telegram_same req req' app app' (ground arith)).1,
    )
  ],
)
