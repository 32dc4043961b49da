-- ===== src/Messages/Tests.antt =====
-- Runs of app/repo/messages.py.
use mathlib.Core.List.{Memᴰ}
use tg_my_person.Prelude.{refl, true, false, none, some, List, [], ◌∷◌, All, inl, inr}
use tg_my_person.Messages.{MessageRow, MessageTables, inserted_message, upsert_message}
use tg_my_person.Messages.Keys.{stored_at}
use tg_my_person.Messages.Edits.{upsert_all, IsLatest, ShowsCopy, last_edit_shown}
use tg_my_person.Messages.Deletions.{copies, deletes, change_all, IsDeleted, IsDeleted-change_all}

abbrev original : MessageRow
original = record {
  external_id = 7;
  sent_at = 100;
  sender_external_id = none;
  sender_chat_external_id = none;
  reply_to_external_id = none;
  forward_from_chat_external_id = none;
  forward_from_message_external_id = none;
  message_type = "text";
  text = some "first";
  text_html = none;
  is_edited = false;
  edited_at = none;
  deleted_at = none;
  views = none;
  raw = none;
  is_outgoing_hint = false;
  media = [];
}

abbrev edit_one : MessageRow
edit_one = record original { text = some "second"; is_edited = true; edited_at = some 110 }

abbrev edit_two : MessageRow
edit_two = record original { text = some "third"; is_edited = true; edited_at = some 120 }

abbrev no_messages : MessageTables
no_messages = record {
  account_user = none;
  users = [];
  chats =
      record {
        id = 1;
        is_private_or_group = true;
        last_message_external_id = none;
        last_message_at = none;
      }
      ∷ [];
  messages = [];
  media = [];
  next_id = 1;
}

abbrev arrivals : List MessageRow
arrivals = edit_two ∷ original ∷ edit_one ∷ []

arrivals-AreLatest : All (IsLatest edit_two 120) arrivals
arrivals-AreLatest = (inl refl, (inr (inr refl), (inr (inr refl), tt)))

last_edit_shown_example : ShowsCopy edit_two (stored_at 1 7 (upsert_all 1 arrivals no_messages))
unfolding stored_at
last_edit_shown_example =
    last_edit_shown 1 120 edit_two arrivals no_messages refl refl refl (Memᴰ.head refl)
      arrivals-AreLatest

abbrev with_one : MessageTables
with_one = (upsert_message 1 (record original { deleted_at = some 105 }) no_messages).1

with_one-IsDeleted : IsDeleted 1 7 1 105 with_one
unfolding stored_at upsert_message
with_one-IsDeleted =
    (inserted_message 1 (record original { deleted_at = some 105 }) no_messages, refl, refl, refl)

IsDeleted-change_all_example :
    IsDeleted 1 7 1 105 (change_all (copies 1 edit_two ∷ deletes none (7 ∷ []) 130 ∷ []) with_one)
IsDeleted-change_all_example =
    IsDeleted-change_all 1 7 1 105 (copies 1 edit_two ∷ deletes none (7 ∷ []) 130 ∷ []) with_one
      with_one-IsDeleted
