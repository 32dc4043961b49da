-- ===== src/Authz/Audit.antt =====
-- app/authz/middleware.py: the row that audit_log_middleware writes for a request.
-- The JSON reader and writer and SHA-256, of the Python library, are parameters. The row is written
-- by a task of its own, after the response; whether that write succeeds is an argument. Paths and
-- query values are texts of code points.
use text.Mathlib.Text.{starts_with}
use tg_my_person.Prelude.{
  ℕ, zero, suc, ◌+◌, ◌*◌, ◌-◌, String, Bool, true, false, not, ◌&&◌, Option, none, some, List, [],
  ◌∷◌, ◌++◌, take, str_eq, ◌==◌, ltb, leb, if◌then◌else◌, ℤ, pos, negsuc,
}
use tg_my_person.Models.{AuditLog, Remark, http_status, implicit_work, legacy_key, owner, account}
use tg_my_person.Phone.{Json, mask_phone_params}
use tg_my_person.Authz.Catalog.{contains}
use tg_my_person.Authz.Policy.{AuthContext, PolicyTables}
use tg_my_person.Authz.Request.{Request, ReqState}
use tg_my_person.Authz.Authentication.{strip}

abbrev pub health_paths : List String
health_paths = "/api/v1/healthz" ∷ "/api/v1/readyz" ∷ []

-- What the row takes from the request beside its state.
pub record Params : Type 0 where
  pub path_param : String → Option (List ℕ)
  pub query_param : String → Option (List ℕ)
  pub audit_target_user_id : Option ℤ
  pub body : Option (List ℕ)

unfoldable pub is_audited : String → Bool
is_audited path = starts_with path "/api/" && not (contains health_paths path)

unfoldable pub audit_status : ℕ → String
audit_status code =
    if code == 403 then "denied" else if leb 200 code && ltb code 300 then "ok" else "error"

-- `int(val)`: the digits after the sign, with single underscores between them. Digits are ASCII.
digits_value : ℕ → Bool → List ℕ → Option ℕ
digits_value acc seen [] = if seen then some acc else none
digits_value acc seen (c ∷ cs) =
    let more = digits_value (acc * 10 + (c - b'0')) true cs in
    let past = digits_value acc false cs in
    if leb b'0' c && leb c b'9' then more else if c == b'_' && seen then past else none

negated : ℕ → ℤ
negated zero = pos 0
negated (suc n) = negsuc n

signed : List ℕ → Option ℤ
unfolding digits_value negated
signed [] = none
signed (c ∷ cs) =
    if c == b'-'
    then elim (digits_value 0 false cs) [ none ↦ none | some n ↦ some (negated n) ]
    else elim (digits_value 0 false (if c == b'+' then cs else c ∷ cs)) [
      | none ↦ none
      | some n ↦ some (pos n)
    ]

-- `a or b` of two texts.
or_text : Option (List ℕ) → Option (List ℕ) → Option (List ℕ)
or_text (some (c ∷ cs)) b = some (c ∷ cs)
or_text _ b = b

-- `_extract_int_param`
unfoldable pub extract_int_param : Params → String → Option ℤ
unfolding or_text signed strip
extract_int_param params name = elim (or_text (params.path_param name) (params.query_param name)) [
  | none ↦ none
  | some val ↦ signed (strip val)
]

abbrev target_of : Option ℤ → Option ℤ → Option ℤ
target_of none found = found
target_of (some id) found = some id

-- The status hint, then the markers.
unfoldable pub remarks : ℕ → ReqState → List Remark
remarks code s =
    let ok = str_eq (audit_status code) "ok" in
    (if ok then [] else (http_status code ∷ []))
    ++ (if ok && s.implicit_work then (implicit_work ∷ []) else [])
    ++ (if s.legacy_key then (legacy_key ∷ []) else [])

abbrev pub tool_of : Option String → String
tool_of none = "unknown"
tool_of (some name) = name

module _ (loads : List ℕ → Option Json) (dumps : Json → List ℕ) (sha256_hex : List ℕ → List ℕ)
    (is_decimal : ℕ → Bool) where
  -- `_digest`: of the body with its phones masked, or of a body that is no JSON.
  unfoldable pub digest : List ℕ → List ℕ
  digest body = elim (loads body) [
    | none ↦ take 16 (sha256_hex body)
    | some json ↦ take 16 (sha256_hex (dumps (mask_phone_params is_decimal json)))
  ]

  digest_of : Bool → Option (List ℕ) → Option (List ℕ)
  digest_of true (some (b ∷ bs)) = some (digest (b ∷ bs))
  digest_of _ _ = none

  -- The row of a request that was answered with the status code.
  unfoldable pub audit_row : Params → ℕ → ReqState → ℕ → AuditLog
  unfolding digest_of
  audit_row params code s time =
      let status = audit_status code in
      record {
        ts = time;
        account_id = s.account_id;
        alias = elim s.session_alias [ none ↦ none | some a ↦ a ];
        tool = tool_of s.tool_name;
        is_write = s.tool_is_write;
        status = status;
        chat_id = extract_int_param params "chat_id";
        target_user_id = target_of (extract_int_param params "user_id") params.audit_target_user_id;
        params_digest = digest_of (s.tool_is_write && not (str_eq status "denied")) params.body;
        error = remarks code s;
      }

  -- The table when the task that writes the row has ended, if it wrote at `time` or failed to write.
  unfoldable pub audit_log_middleware :
      Params → ℕ → Request → Bool → ℕ → PolicyTables → PolicyTables
  audit_log_middleware params code req written time db =
      if is_audited req.path && written
      then record db { audit_logs = audit_row params code req.state time ∷ db.audit_logs }
      else db

-- `policy.audit`: the row of a call that did not come by HTTP.
unfoldable pub audit :
    AuthContext
    → String
    → Bool
    → String
    → Option ℤ
    → Option ℤ
    → Option (List ℕ)
    → List Remark
    → ℕ
    → PolicyTables
    → PolicyTables
audit ctx tool is_write status chat_id target digest error time db = record db {
  audit_logs =
      record {
        ts = time;
        account_id = ctx.account_id;
        alias = elim ctx.scope [ account ↦ ctx.alias | owner ↦ some "owner" ];
        tool = tool;
        is_write = is_write;
        status = status;
        chat_id = chat_id;
        target_user_id = target;
        params_digest = digest;
        error = error;
      }
      ∷ db.audit_logs;
}
