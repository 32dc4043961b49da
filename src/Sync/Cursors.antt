-- ===== src/Sync/Cursors.antt =====
-- app/max/store_new.py: one chat's messages and its cursor, as the history reads and moves them.
-- A message is its id and its time in milliseconds. The times of the last backfill and catch-up are
-- left out.
use tg_my_person.Prelude.{
  ℕ, suc, ◌+◌, Bool, true, false, Option, none, some, List, [], ◌∷◌, any, ltb, ◌==◌, if◌then◌else◌,
}

pub record Msg : Type 0 where
  pub id : ℕ
  pub time : ℕ

pub record SyncState : Type 0 where
  pub oldest_ts : Option ℕ
  pub oldest_external_id : Option ℕ
  pub newest_ts : Option ℕ
  pub newest_external_id : Option ℕ
  pub total_synced : ℕ
  pub is_fully_synced : Bool

-- `has_chat`: the account has a row of the chat.
pub record ChatStore : Type 0 where
  pub has_chat : Bool
  pub kept : List Msg
  pub state : Option SyncState

abbrev pub has_id : ℕ → List Msg → Bool
has_id i ms = any (λ m. m.id == i) ms

-- `put_message`: one row for an id.
abbrev put_message : Msg → List Msg → List Msg
put_message m kept = if has_id m.id kept then kept else m ∷ kept

abbrev is_newer : ℕ → Option ℕ → Bool
is_newer time none = true
is_newer time (some newest) = ltb newest time

-- `_advance`
unfoldable pub advance_state : Msg → Option SyncState → SyncState
advance_state m none = record {
  oldest_ts = some m.time;
  oldest_external_id = some m.id;
  newest_ts = some m.time;
  newest_external_id = some m.id;
  total_synced = 0;
  is_fully_synced = false;
}
advance_state m (some s) =
    if is_newer m.time s.newest_ts
    then record s { newest_ts = some m.time; newest_external_id = some m.id }
    else s

-- `store_message` of a message of the history.
unfoldable pub store_message : Msg → ChatStore → ChatStore
unfolding advance_state
store_message m db = record {
  has_chat = true;
  kept = put_message m db.kept;
  state = some (advance_state m db.state);
}

abbrev is_older : ℕ → Option ℕ → Bool
is_older time none = true
is_older time (some oldest) = ltb time oldest

abbrev no_state : SyncState
no_state = record {
  oldest_ts = none;
  oldest_external_id = none;
  newest_ts = none;
  newest_external_id = none;
  total_synced = 0;
  is_fully_synced = false;
}

abbrev state_or_new : Option SyncState → SyncState
state_or_new none = no_state
state_or_new (some s) = s

abbrev oldest_moved : Msg → ℕ → SyncState → SyncState
oldest_moved m stored_delta s =
    let total = s.total_synced + stored_delta in
    if is_older m.time s.oldest_ts
    then record s { oldest_ts = some m.time; oldest_external_id = some m.id; total_synced = total }
    else record s { total_synced = total }

unfoldable pub move_oldest : Msg → ℕ → ChatStore → ChatStore
move_oldest m stored_delta db =
    if db.has_chat
    then record db { state = some (oldest_moved m stored_delta (state_or_new db.state)) }
    else db

abbrev set_fully_synced : Option Bool → SyncState → SyncState
set_fully_synced none s = s
set_fully_synced (some fully) s = record s { is_fully_synced = fully }

abbrev finished_state : Option Bool → Option SyncState → Option SyncState
finished_state fully none = none
finished_state fully (some s) = some (set_fully_synced fully s)

unfoldable pub finish_backfill : Option Bool → ChatStore → ChatStore
finish_backfill fully db =
    if db.has_chat then record db { state = finished_state fully db.state } else db

-- `MaxSync._store` of each: how many could be stored.
unfoldable pub store_all : (Msg → Bool) → List Msg → ChatStore → ℕ × ChatStore
unfolding store_message
store_all keeps [] db = (0, db)
store_all keeps (m ∷ ms) db =
    let (n, db') = store_all keeps ms (if keeps m then store_message m db else db) in
    (if keeps m then suc n else n, db')
