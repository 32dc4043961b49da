-- ===== src/Authz/Access.antt =====
-- app/main.py: what a request has been through when it reaches its route.
use tg_my_person.Prelude.{
  ℕ, ◌≡◌, refl, ap, ◌∙◌, inl, inr, String, Bool, true, false, Option, none, some, List, arith,
  Option-cases, Bool-cases,
}
use tg_my_person.Authz.Catalog.{tool_is_write}
use tg_my_person.Authz.Keys.{KeyInfo}
use tg_my_person.Authz.Request.{Request, App, Step, answer, call_next, ◌>>=◌}
use tg_my_person.Authz.Paths.{is_admin_path, resolve_route_name}
use tg_my_person.Authz.Authentication.{
  authenticate, admit, admin_auth, find_key, with_key, without_key, is_open_path, presented_key,
}
use tg_my_person.Authz.Aliases.{resolve_alias, by_key, by_alias, from_db, resolve_alias_name}
use tg_my_person.Authz.Dispatch.{
  or_else, platform_dispatch, dispatch_max, dispatch_telegram, to_max,
}
use tg_my_person.Authz.ToolAuthz.{tool_authz, known_tool, decide_tool, request_context}
use tg_my_person.Authz.Middleware.{stack}
use tg_my_person.Authz.Decisions.{Permits, authorize-allowed_iff}

-- A middleware changes only the caches of keys and aliases.
record SameTables (app app' : App) : Type 0 where
  policy : app'.policy ≡ app.policy
  monotonic : app'.monotonic ≡ app.monotonic
  time : app'.time ≡ app.time
  mode_cache : app'.mode_cache ≡ app.mode_cache

SameTables-trans : {a b c : App} → SameTables a b → SameTables b c → SameTables a c
SameTables-trans p q = record {
  policy = q.policy ∙ p.policy;
  monotonic = q.monotonic ∙ p.monotonic;
  time = q.time ∙ p.time;
  mode_cache = q.mode_cache ∙ p.mode_cache;
}

Permits-same :
    {app app' : App} (id : ℕ) (tool : String)
    → SameTables app app'
    → Permits app'.policy app'.monotonic app'.time id tool none app'.mode_cache
    → Permits app.policy app.monotonic app.time id tool none app.mode_cache
Permits-same {app} {app'} id tool same p =
    rw (← same.policy, ← same.monotonic, ← same.time, ← same.mode_cache) p

bind-call_next :
    (m : Step) (k : Request → App → Step) (req' : Request) (app' : App)
    → (m >>= k) ≡ call_next req' app'
    → (req : Request) × (app : App) × (m ≡ call_next req app) × (k req app ≡ call_next req' app')
bind-call_next (answer r req app) k req' app' e = absurd (cc)
bind-call_next (call_next req app) k req' app' e = (req, app, refl, e)

with_key-same :
    (info : KeyInfo) (req req' : Request) (app app' : App)
    → with_key info req app ≡ call_next req' app'
    → app' ≡ app
unfolding with_key
with_key-same info req req' app app' e = ground arith

without_key-same :
    (key : Option (List ℕ)) (req req' : Request) (app app' : App)
    → without_key key req app ≡ call_next req' app'
    → app' ≡ app
unfolding without_key
without_key-same key req req' app app' e = ground arith

admit-same :
    (found : Option KeyInfo) (key : Option (List ℕ)) (req req' : Request) (app app' : App)
    → admit found key req app ≡ call_next req' app'
    → app' ≡ app
unfolding admit
admit-same (some info) key req req' app app' e = with_key-same info req req' app app' e
admit-same none key req req' app app' e = without_key-same key req req' app app' e

module _ (hash_key : List ℕ → String) where
  find_key-same :
      (app : App) (key : Option (List ℕ)) (q : Bool)
      → SameTables app (find_key hash_key app key q).1
  unfolding find_key
  find_key-same app key true = record {
    policy = refl;
    monotonic = refl;
    time = refl;
    mode_cache = refl;
  }
  find_key-same app key false = record {
    policy = refl;
    monotonic = refl;
    time = refl;
    mode_cache = refl;
  }

  authenticate-same :
      (req req' : Request) (app app' : App)
      → authenticate hash_key req app ≡ call_next req' app'
      → SameTables app app'
  unfolding authenticate
  authenticate-same req req' app app' e =
      let (key, q) = presented_key req in
      let (found, app₁) = find_key hash_key app key q in
      let same = find_key-same app key q in
      elim (Bool-cases (is_open_path req.path)) [
        | inl o ↦
            let kept : app' ≡ app = ground arith in
            rw kept (record { policy = refl; monotonic = refl; time = refl; mode_cache = refl })
        | inr c ↦
            let kept : app' ≡ app₁ =
              admit-same found key req req' app₁ app' (rw (c, authenticate) at e) in
            rw kept same
      ]

admin_auth-same :
    (req req' : Request) (app app' : App) → admin_auth req app ≡ call_next req' app' → app' ≡ app
unfolding admin_auth
admin_auth-same req req' app app' e = ground arith

resolve_alias-same :
    (req req' : Request) (app app' : App)
    → resolve_alias req app ≡ call_next req' app'
    → SameTables app app'
unfolding resolve_alias by_key by_alias resolve_alias_name from_db
resolve_alias-same req req' app app' e = ground arith

platform_dispatch-same :
    (req req' : Request) (app app' : App)
    → platform_dispatch req app ≡ call_next req' app'
    → app' ≡ app
unfolding platform_dispatch dispatch_max dispatch_telegram to_max
platform_dispatch-same req req' app app' e = ground arith

decide_tool-Permits :
    (tool : String) (is_write : Bool) (req req' : Request) (app app' : App) (id : ℕ)
    → tool_is_write tool ≡ some is_write
    → decide_tool tool is_write req app ≡ call_next req' app'
    → req'.state.tool_is_write ≡ true
    → req'.state.account_id ≡ some id
    → (t : String) × (req'.state.tool_name ≡ some t)
      × (tool_is_write t ≡ some true)
      × Permits app.policy app.monotonic app.time id t none app.mode_cache
unfolding decide_tool request_context
decide_tool-Permits tool false req req' app app' id k e w a = absurd (ground arith)
decide_tool-Permits tool true req req' app app' id k e w a = (
  tool,
  ground arith,
  k,
  (authorize-allowed_iff app.policy app.monotonic app.time id (request_context req.state) tool none
        app.mode_cache (ground arith)).0
      (ground arith),
)

known_tool-Permits :
    (o : Option String) (req req' : Request) (app app' : App) (id : ℕ)
    → known_tool o req app ≡ call_next req' app'
    → req'.state.tool_is_write ≡ true
    → req'.state.account_id ≡ some id
    → (t : String) × (req'.state.tool_name ≡ some t)
      × (tool_is_write t ≡ some true)
      × Permits app.policy app.monotonic app.time id t none app.mode_cache
unfolding known_tool
known_tool-Permits none req req' app app' id e w a = absurd (ground arith)
known_tool-Permits (some tool) req req' app app' id e w a =
    elim (Option-cases (tool_is_write tool)) [
      | inl unknown ↦ absurd (ground arith)
      | inr (is_write, k) ↦
          decide_tool-Permits tool is_write req req' app app' id k (ground arith) w a
    ]

-- A tool that is marked as a write when it reaches its route, and is no admin's, was permitted.
tool_authz-Permits :
    (req req' : Request) (app app' : App) (id : ℕ)
    → req.state.is_admin_path ≡ false
    → tool_authz req app ≡ call_next req' app'
    → req'.state.tool_is_write ≡ true
    → req'.state.account_id ≡ some id
    → (tool : String) × (req'.state.tool_name ≡ some tool)
      × (tool_is_write tool ≡ some true)
      × Permits app.policy app.monotonic app.time id tool none app.mode_cache
unfolding tool_authz
tool_authz-Permits req req' app app' id admin e w a =
    known_tool-Permits
      (or_else req.state.forced_tool_name (resolve_route_name app req.method req.path)) req req' app
      app' id (ground arith) w a

module _ (hash_key : List ℕ → String) where
  find_key-path :
      (req req' : Request) (app app' : App)
      → authenticate hash_key req app ≡ call_next req' app'
      → (req'.path ≡ req.path) × (req'.state.is_admin_path ≡ req.state.is_admin_path)
  unfolding authenticate admit with_key without_key
  find_key-path req req' app app' e = ground arith

not_admin-same :
    (req req' : Request) (app app' : App)
    → is_admin_path req.path ≡ false
    → admin_auth req app ≡ call_next req' app'
    → req' ≡ req
unfolding admin_auth
not_admin-same req req' app app' n e = ground arith

resolve_alias-admin :
    (req req' : Request) (app app' : App)
    → resolve_alias req app ≡ call_next req' app'
    → req'.state.is_admin_path ≡ req.state.is_admin_path
unfolding resolve_alias by_key by_alias resolve_alias_name from_db
resolve_alias-admin req req' app app' e = ground arith

platform_dispatch-admin :
    (req req' : Request) (app app' : App)
    → platform_dispatch req app ≡ call_next req' app'
    → req'.state.is_admin_path ≡ req.state.is_admin_path
unfolding platform_dispatch dispatch_max dispatch_telegram to_max
platform_dispatch-admin req req' app app' e = ground arith

-- A request outside the admin area that reaches its route through the whole stack as a write of an
-- account is for a tool that writes to the messenger, and the account's policy, mode and rate, as
-- the tables and the cached modes had them on its arrival, permit the write to a chat that is not
-- known. The stack does not know the chat, so the account's list of chats is not checked there.
pub stack_write_permitted :
    (hash_key : List ℕ → String) (req req' : Request) (app app' : App) (id : ℕ)
    → req.state.is_admin_path ≡ false
    → is_admin_path req.path ≡ false
    → stack hash_key req app ≡ call_next req' app'
    → req'.state.tool_is_write ≡ true
    → req'.state.account_id ≡ some id
    → (tool : String) × (req'.state.tool_name ≡ some tool)
      × (tool_is_write tool ≡ some true)
      × Permits app.policy app.monotonic app.time id tool none app.mode_cache
unfolding stack
stack_write_permitted hash_key req req' app app' id fresh outside e w a =
    let (req₄, app₄, e₄, last) = bind-call_next _ tool_authz req' app' e in
    let (req₃, app₃, e₃, dispatched) = bind-call_next _ platform_dispatch req₄ app₄ e₄ in
    let (req₂, app₂, e₂, resolved) = bind-call_next _ resolve_alias req₃ app₃ e₃ in
    let (req₁, app₁, first, second) = bind-call_next _ admin_auth req₂ app₂ e₂ in
    let same₁ = authenticate-same hash_key req req₁ app app₁ first in
    let path₁ = find_key-path hash_key req req₁ app app₁ first in
    let same₂ = admin_auth-same req₁ req₂ app₁ app₂ second in
    let state₂ = not_admin-same req₁ req₂ app₁ app₂ (rw path₁.0 outside) second in
    let same₃ = resolve_alias-same req₂ req₃ app₂ app₃ resolved in
    let same₄ = platform_dispatch-same req₃ req₄ app₃ app₄ dispatched in
    let flag =
      platform_dispatch-admin req₃ req₄ app₃ app₄ dispatched
      ∙ resolve_alias-admin req₂ req₃ app₂ app₃ resolved
      ∙ ap (λ (r : Request). r.state.is_admin_path) state₂
      ∙ path₁.1
      ∙ fresh in
    let (tool, name, write, permits) = tool_authz-Permits req₄ req' app₄ app' id flag last w a in
    let same : SameTables app app₃ = SameTables-trans same₁ (rw same₂ at same₃) in
    let same' : SameTables app app₄ = rw same₄ same in
    (tool, name, write, Permits-same id tool same' permits)
