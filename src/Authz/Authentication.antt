-- ===== src/Authz/Authentication.antt =====
-- app/authz/middleware.py: the admin key, and the API keys.
-- Keys are compared in constant time in the source.
use tg_my_person.Prelude.{
  ℕ, ◌+◌, String, Bool, true, false, not, ◌&&◌, ◌||◌, Option, none, some, List, [], ◌∷◌, ◌==◌, leb,
  if◌then◌else◌, reverse,
}
use tg_my_person.Authz.Catalog.{contains}
use tg_my_person.Authz.Keys.{KeyInfo, lookup}
use tg_my_person.Authz.Request.{
  Request, admin_key_not_configured, admin_key_required, owner_key_only, account_key_no_contacts,
  contacts_need_owner_key, invalid_api_key, Settings, App, Step, call_next,
}
use tg_my_person.Authz.Paths.{
  public_paths, owner_prefix, is_under, is_self_auth_path, is_admin_path, set_state, deny,
  scope_is_owner,
}

-- Equality of keys, in constant time in the source.
same_key : List ℕ → List ℕ → Bool
same_key [] [] = true
same_key (a ∷ as_) (b ∷ bs) = a == b && same_key as_ bs
same_key _ _ = false

abbrev pub is_empty : List ℕ → Bool
is_empty [] = true
is_empty (_ ∷ _) = false

admin_key_ok : List ℕ → Option (List ℕ) → Bool
unfolding same_key
admin_key_ok key none = false
admin_key_ok key (some provided) = not (is_empty provided) && same_key provided key

unfoldable pub admin_auth : Request → App → Step
unfolding admin_key_ok
admin_auth req app =
    let s = record req.state {
      is_admin_path = true;
      session_alias = some none;
      account_id = none;
      tool_is_write = true;
    } in
    let marked = set_state req s in
    if not (is_admin_path req.path)
    then call_next req app
    else if is_empty app.settings.admin_api_key
    then deny 503 admin_key_not_configured marked app
    else if not (admin_key_ok app.settings.admin_api_key req.x_admin_key)
    then deny 401 admin_key_required marked app
    else call_next marked app

-- ASCII lower case, which is enough to compare with "bearer ".
abbrev lower : ℕ → ℕ
lower c = if leb b'A' c && leb c b'Z' then c + 32 else c

abbrev bearer : List ℕ
bearer = b'b' ∷ b'e' ∷ b'a' ∷ b'r' ∷ b'e' ∷ b'r' ∷ b' ' ∷ []

-- What follows the prefix, if the text begins with it in any case.
after_prefix : List ℕ → List ℕ → Option (List ℕ)
after_prefix [] text = some text
after_prefix (p ∷ ps) [] = none
after_prefix (p ∷ ps) (c ∷ cs) =
    let rest = after_prefix ps cs in if lower c == p then rest else none

-- The white space of `str.strip`.
abbrev is_space : ℕ → Bool
is_space c =
    (leb 9 c && leb c 13)
    || (leb 28 c && leb c 32)
    || c == 133
    || c == 160
    || c == 5760
    || (leb 8192 c && leb c 8202)
    || (leb 8232 c && leb c 8233)
    || c == 8239
    || c == 8287
    || c == 12288

drop_space : List ℕ → List ℕ
drop_space [] = []
drop_space (c ∷ cs) = let rest = drop_space cs in if is_space c then rest else c ∷ cs

unfoldable pub strip : List ℕ → List ℕ
unfolding drop_space
strip text = reverse (drop_space (reverse (drop_space text)))

abbrev none_if_empty : List ℕ → Option (List ℕ)
none_if_empty [] = none
none_if_empty (c ∷ cs) = some (c ∷ cs)

header_or_query : Option (List ℕ) → Option (List ℕ) → Option (List ℕ) × Bool
header_or_query (some (c ∷ cs)) query = (some (c ∷ cs), false)
header_or_query _ query = (query, true)

-- `_presented_key`: the key, and whether it came from the query string.
unfoldable pub presented_key : Request → Option (List ℕ) × Bool
unfolding after_prefix strip header_or_query
presented_key req = elim (after_prefix bearer req.authorization) [
  | some token ↦ (none_if_empty (strip token), false)
  | none ↦ header_or_query req.x_api_key req.query_api_key
]

-- The paths that `authenticate` leaves alone.
unfoldable pub is_open_path : String → Bool
is_open_path path = contains public_paths path || is_admin_path path || is_self_auth_path path

unfoldable pub with_key : KeyInfo → Request → App → Step
with_key info req app =
    let owner_path = is_under owner_prefix req.path in
    let keyed = set_state req (record req.state { api_key = some info }) in
    if scope_is_owner info.scope && not owner_path
    then deny 403 owner_key_only keyed app
    else if not (scope_is_owner info.scope) && owner_path
    then deny 403 account_key_no_contacts keyed app
    else call_next keyed app

unfoldable pub is_shared_key : Settings → Option (List ℕ) → Bool
unfolding same_key
is_shared_key cfg none = false
is_shared_key cfg (some presented) =
    cfg.legacy_api_key_enabled && not (is_empty presented) && same_key presented cfg.api_key

unfoldable pub without_key : Option (List ℕ) → Request → App → Step
unfolding is_shared_key
without_key presented req app =
    let plain = set_state req (record req.state { api_key = none }) in
    if is_empty app.settings.api_key
    then call_next plain app
    else if is_shared_key app.settings presented
    then if is_under owner_prefix req.path
      then deny 403 contacts_need_owner_key plain app
      else call_next (set_state req (record req.state { api_key = none; legacy_key = true })) app
    else deny 401 invalid_api_key plain app

-- By the key that was found, or without one.
unfoldable pub admit : Option KeyInfo → Option (List ℕ) → Request → App → Step
admit (some info) presented req app = with_key info req app
admit none presented req app = without_key presented req app

module _ (hash_key : List ℕ → String) where
  -- Keys of accounts and owners are looked up only if they came in a header.
  unfoldable pub find_key : App → Option (List ℕ) → Bool → Option KeyInfo × App
  find_key app presented true = (none, app)
  find_key app presented false =
      let (info, cache) = lookup hash_key app.keys app.monotonic presented app.key_cache in
      (info, record app { key_cache = cache })

  unfoldable pub authenticate : Request → App → Step
  authenticate req app =
      let (presented, from_query) = presented_key req in
      let (found, app') = find_key app presented from_query in
      if is_open_path req.path then call_next req app else admit found presented req app'
