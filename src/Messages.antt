-- ===== src/Messages.antt =====
-- app/repo/messages.py, app/repo/media.py and `touch_last_message` of app/repo/chats.py: the
-- messages of one account. Ids and times are natural numbers, ids of users and of chats elsewhere
-- integers; JSON is kept by a number.
mod Keys
mod Edits
mod Deletions
mod Tests
use tg_my_person.Prelude.{
  ℕ, suc, ◌+◌, Bool, true, false, not, ◌&&◌, ◌||◌, String, Option, none, some, List, [], ◌∷◌, ◌++◌,
  map, find, any, count, leb, ◌==◌, ℤ, ◌==ℤ◌, if◌then◌else◌,
}

pub record MediaRow : Type 0 where
  pub attach_index : ℕ
  pub file_external_id : Option String
  pub file_unique_id : Option String
  pub file_type : String
  pub file_name : Option String
  pub file_size : Option ℕ
  pub mime_type : Option String

pub record MessageRow : Type 0 where
  pub external_id : ℕ
  pub sent_at : ℕ
  pub sender_external_id : Option ℤ
  pub sender_chat_external_id : Option ℤ
  pub reply_to_external_id : Option ℕ
  pub forward_from_chat_external_id : Option ℤ
  pub forward_from_message_external_id : Option ℕ
  pub message_type : String
  pub text : Option String
  pub text_html : Option String
  pub is_edited : Bool
  pub edited_at : Option ℕ
  pub deleted_at : Option ℕ
  pub views : Option ℕ
  pub raw : Option ℕ
  pub is_outgoing_hint : Bool
  pub media : List MediaRow

pub record StoredMessage : Type 0 where
  pub id : ℕ
  pub chat_id : ℕ
  pub external_id : ℕ
  pub sender_user_id : Option ℕ
  pub sender_chat_external_id : Option ℤ
  pub reply_to_external_id : Option ℕ
  pub forward_from_chat_external_id : Option ℤ
  pub forward_from_message_external_id : Option ℕ
  pub message_type : String
  pub text : Option String
  pub text_html : Option String
  pub sent_at : ℕ
  pub is_outgoing : Bool
  pub is_edited : Bool
  pub edited_at : Option ℕ
  pub deleted_at : Option ℕ
  pub views : Option ℕ
  pub raw : Option ℕ

pub record Media : Type 0 where
  pub message_id : ℕ
  pub row : MediaRow
  pub storage_path : Option String

pub record Chat : Type 0 where
  pub id : ℕ
  pub is_private_or_group : Bool
  pub last_message_external_id : Option ℕ
  pub last_message_at : Option ℕ

pub record User : Type 0 where
  pub id : ℕ
  pub external_id : ℤ

pub record MessageTables : Type 0 where
  pub account_user : Option ℤ
  pub users : List User
  pub chats : List Chat
  pub messages : List StoredMessage
  pub media : List Media
  pub next_id : ℕ

abbrev sender_of : Option ℤ → List User → Option ℕ
sender_of none users = none
sender_of (some sender) users = elim (find (λ (u : User). u.external_id ==ℤ sender) users) [
  | none ↦ none
  | some u ↦ some u.id
]

-- The account's own message; by the hint only where that cannot be decided.
abbrev outgoing : Option ℤ → Option ℤ → Bool → Bool
outgoing none account_user hint = hint
outgoing (some sender) none hint = hint
outgoing (some sender) (some user) hint = user ==ℤ sender

abbrev pub inserted_message : ℕ → MessageRow → MessageTables → StoredMessage
inserted_message chat_id r db = record {
  id = db.next_id;
  chat_id = chat_id;
  external_id = r.external_id;
  sender_user_id = sender_of r.sender_external_id db.users;
  sender_chat_external_id = r.sender_chat_external_id;
  reply_to_external_id = r.reply_to_external_id;
  forward_from_chat_external_id = r.forward_from_chat_external_id;
  forward_from_message_external_id = r.forward_from_message_external_id;
  message_type = r.message_type;
  text = r.text;
  text_html = r.text_html;
  sent_at = r.sent_at;
  is_outgoing = outgoing r.sender_external_id db.account_user r.is_outgoing_hint;
  is_edited = r.is_edited;
  edited_at = r.edited_at;
  deleted_at = r.deleted_at;
  views = r.views;
  raw = r.raw;
}

-- COALESCE
abbrev coalesced {ℓ} : {A : Type ℓ} → Option A → Option A → Option A
coalesced none b = b
coalesced (some a) b = some a

-- The columns that an upsert sets.
abbrev pub overwritten : StoredMessage → StoredMessage → StoredMessage
overwritten t ex = record t {
  sender_user_id = coalesced ex.sender_user_id t.sender_user_id;
  message_type = ex.message_type;
  text = ex.text;
  text_html = ex.text_html;
  is_outgoing = ex.is_outgoing;
  is_edited = ex.is_edited;
  edited_at = ex.edited_at;
  deleted_at = coalesced t.deleted_at ex.deleted_at;
  views = coalesced ex.views t.views;
  raw = ex.raw;
}

abbrev pub not_older : Option ℕ → Option ℕ → Bool
not_older none new = true
not_older (some old) none = true
not_older (some old) (some new) = leb old new

-- The WHERE of the upsert.
abbrev pub may_overwrite : StoredMessage → StoredMessage → Bool
may_overwrite t ex = not t.is_edited || (ex.is_edited && not_older t.edited_at ex.edited_at)

abbrev pub is_at : ℕ → ℕ → StoredMessage → Bool
is_at chat_id external_id m = m.chat_id == chat_id && m.external_id == external_id

abbrev pub after_copy : StoredMessage → StoredMessage → StoredMessage
after_copy ex t = if may_overwrite t ex then overwritten t ex else t

abbrev pub merge_at : ℕ → StoredMessage → StoredMessage → StoredMessage
merge_at chat_id ex m = if is_at chat_id ex.external_id m then after_copy ex m else m

-- The id of the row, and the table.
abbrev pub insert_or_merge :
    ℕ → MessageRow → MessageTables → Option StoredMessage → ℕ × MessageTables
insert_or_merge chat_id r db none = (
  db.next_id,
  record db {
    messages = db.messages ++ (inserted_message chat_id r db ∷ []);
    next_id = suc db.next_id;
  },
)
insert_or_merge chat_id r db (some t) = (
  t.id,
  record db { messages = map (merge_at chat_id (inserted_message chat_id r db)) db.messages },
)

abbrev is_media_at : ℕ → ℕ → Media → Bool
is_media_at message_id index m = m.message_id == message_id && m.row.attach_index == index

-- `upsert_media` of one row; the path is kept.
unfoldable pub put_media : ℕ → MediaRow → List Media → List Media
put_media message_id r media =
    if any (is_media_at message_id r.attach_index) media
    then map (λ m. if is_media_at message_id r.attach_index m then record m { row = r } else m)
        media
    else media ++ record { message_id = message_id; row = r; storage_path = none } ∷ []

unfoldable pub upsert_media : ℕ → List MediaRow → List Media → List Media
unfolding put_media
upsert_media message_id [] media = media
upsert_media message_id (r ∷ rs) media = upsert_media message_id rs (put_media message_id r media)

abbrev is_reached : Option ℕ → ℕ → Bool
is_reached none external_id = true
is_reached (some last) external_id = leb last external_id

abbrev chat_touched : ℕ → ℕ → ℕ → Chat → Chat
chat_touched chat_id external_id at c =
    if c.id == chat_id && is_reached c.last_message_external_id external_id
    then record c { last_message_external_id = some external_id; last_message_at = some at }
    else c

unfoldable pub touch_last_message : ℕ → ℕ → ℕ → List Chat → List Chat
touch_last_message chat_id external_id at chats = map (chat_touched chat_id external_id at) chats

unfoldable pub upsert_message : ℕ → MessageRow → MessageTables → ℕ × MessageTables
unfolding upsert_media touch_last_message
upsert_message chat_id r db =
    let (id, db') = insert_or_merge chat_id r db (find (is_at chat_id r.external_id) db.messages) in
    (
      id,
      record db' {
        media = upsert_media id r.media db'.media;
        chats = touch_last_message chat_id r.external_id r.sent_at db'.chats;
      },
    )

abbrev is_named : List ℕ → ℕ → Bool
is_named ids i = any (λ j. j == i) ids

abbrev in_small_chat : List Chat → ℕ → Bool
in_small_chat chats chat_id = any (λ (c : Chat). c.id == chat_id && c.is_private_or_group) chats

abbrev in_chat : Option ℕ → List Chat → ℕ → Bool
in_chat (some chat) chats chat_id = chat_id == chat
in_chat none chats chat_id = in_small_chat chats chat_id

abbrev is_live : Option ℕ → Bool
is_live none = true
is_live (some at) = false

abbrev pub is_target : Option ℕ → List ℕ → List Chat → StoredMessage → Bool
is_target chat ids chats m =
    is_named ids m.external_id && is_live m.deleted_at && in_chat chat chats m.chat_id

-- How many rows are marked now, and the table.
unfoldable pub mark_deleted : Option ℕ → List ℕ → ℕ → MessageTables → ℕ × MessageTables
mark_deleted chat ids at db = (
  count (is_target chat ids db.chats) db.messages,
  record db {
    messages =
        map (λ m. if is_target chat ids db.chats m then record m { deleted_at = some at } else m)
          db.messages;
  },
)
