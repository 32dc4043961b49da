-- ===== src/Authz/Rates.antt =====
-- app/authz/policy.py: the rows of the audit log that the hourly rate counts.
use tg_my_person.Prelude.{
  ℕ, ◌+◌, ◌≡◌, refl, Bool, false, ◌&&◌, Option, none, some, List, arith, str_eq, ◌==◌, leb, ltb,
  if◌then◌else◌, Bool-cases, inl, inr,
}
use tg_my_person.Phone.{Json}
use tg_my_person.Authz.Catalog.{contains, write_messenger_tools}
use tg_my_person.Authz.Policy.{PolicyTables, writes_last_hour}
use tg_my_person.Authz.Request.{Request}
use tg_my_person.Authz.Audit.{
  Params, is_audited, audit_status, tool_of, audit_row, audit_log_middleware,
}

abbrev is_id : ℕ → Option ℕ → Bool
is_id id none = false
is_id id (some i) = i == id

-- A successful write of the account to the messenger, under the audited paths.
abbrev pub is_counted : ℕ → ℕ → Request → Bool
is_counted id code req =
    is_audited req.path
    && is_id id req.state.account_id
    && req.state.tool_is_write
    && leb 200 code
    && ltb code 300
    && contains write_messenger_tools (tool_of req.state.tool_name)

status_ok : (code : ℕ) → str_eq (audit_status code) "ok" ≡ (leb 200 code && ltb code 300)
unfolding audit_status
status_ok code = elim (Bool-cases (code == 403)) [
  | inl denied ↦
      let outside : (leb 200 code && ltb code 300) ≡ false = ground arith in
      rw (denied, outside) refl
  | inr other ↦ elim (Bool-cases (leb 200 code && ltb code 300)) [
    | inl ok ↦ rw (other, ok) refl
    | inr bad ↦ rw (other, bad) refl
  ]
]

-- Once the task that writes the audit row of a request has ended, the hourly count of an account
-- has grown by one if the row was written and the request was a successful write of the account to
-- the messenger under the audited paths, and else it is as before.
pub writes_last_hour-audit_log_middleware :
    (loads : List ℕ → Option Json) (dumps : Json → List ℕ) (sha256_hex : List ℕ → List ℕ)
    (is_decimal : ℕ → Bool) (params : Params) (code : ℕ) (req : Request) (written : Bool)
    (time id : ℕ) (db : PolicyTables)
    → writes_last_hour
        (audit_log_middleware loads dumps sha256_hex is_decimal params code req written time db)
        time
        id
      ≡ (if is_counted id code req && written then 1 else 0) + writes_last_hour db time id
unfolding writes_last_hour audit_log_middleware audit_row
writes_last_hour-audit_log_middleware loads dumps sha256_hex is_decimal params code req written time
      id db =
    let ok = status_ok code in
    elim (Bool-cases (is_audited req.path)) [
      | inl audited ↦ elim (Bool-cases written) [
        | inl done ↦ ground (arith, ok)
        | inr lost ↦ ground (arith, ok)
      ]
      | inr quiet ↦ ground (arith, ok)
    ]
