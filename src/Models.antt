-- ===== src/Models.antt =====
-- app/models.py: the rows of the tables that authorization reads, with the columns that it reads.
use tg_my_person.Prelude.{ℕ, String, Bool, Option, List, ℤ}

-- `accounts.platform`, by the check constraint ck_accounts_platform.
pub data Platform : Type 0 where
  telegram max : Platform

pub record Account : Type 0 where
  pub id : ℕ
  pub alias : String
  pub mode : String
  pub is_enabled : Bool
  pub platform : Platform
  pub write_chat_ids : Option (List ℤ)
  pub write_rate_per_hour : Option ℕ

pub record AccountToolPolicy : Type 0 where
  pub account_id : ℕ
  pub tool_name : String
  pub effect : String

-- `api_keys.scope`.
pub data Scope : Type 0 where
  account owner : Scope

pub record ApiKey : Type 0 where
  pub id : ℕ
  pub scope : Scope
  pub account_id : Option ℕ
  pub key_hash : String
  pub revoked_at : Option ℕ

-- The parts of the text of `audit_logs.error`, which commas join; an empty list is a null.
pub data Remark : Type 0 where
  http_status : ℕ → Remark
  implicit_work legacy_key : Remark

-- Times are microseconds.
pub record AuditLog : Type 0 where
  pub ts : ℕ
  pub account_id : Option ℕ
  pub alias : Option String
  pub tool : String
  pub is_write : Bool
  pub status : String
  pub chat_id : Option ℤ
  pub target_user_id : Option ℤ
  pub params_digest : Option (List ℕ)
  pub error : List Remark
