-- ===== src/Messages/Deletions.antt =====
-- app/repo/messages.py: a message that is marked as deleted.
use tg_my_person.Prelude.{
  ℕ, ◌≡◌, Bool, false, Option, some, List, [], ◌∷◌, ◌++◌, find, arith, Bool-cases, Option-cases,
  inl, inr, if◌then◌else◌, find-map_keeps,
}
use tg_my_person.Messages.{
  MessageRow, StoredMessage, Chat, MessageTables, inserted_message, is_at, merge_at, is_target,
  upsert_message, mark_deleted,
}
use tg_my_person.Messages.Keys.{stored_at, merge_at_keeps}

pub data Change : Type 0 where
  copies : ℕ → MessageRow → Change
  deletes : Option ℕ → List ℕ → ℕ → Change

unfoldable pub change : Change → MessageTables → MessageTables
change (copies chat_id r) db = (upsert_message chat_id r db).1
change (deletes chat ids at) db = (mark_deleted chat ids at db).1

unfoldable pub change_all : List Change → MessageTables → MessageTables
change_all [] db = db
change_all (c ∷ cs) db = change_all cs (change c db)

find_concat_found :
    (p : StoredMessage → Bool) (ms : List StoredMessage) (x m : StoredMessage)
    → find p ms ≡ some m
    → find p (ms ++ x ∷ []) ≡ some m
find_concat_found p [] x m e = absurd (cc e)
find_concat_found p (y ∷ ms) x m e = elim (Bool-cases (p y)) [
  | inl here ↦ rw here (ground (arith, here, e))
  | inr out ↦ rw out (find_concat_found p ms x m (ground (arith, out, e)))
]

spared :
    (chat : Option ℕ) (ids : List ℕ) (chats : List Chat) (m : StoredMessage) (t : ℕ)
    → m.deleted_at ≡ some t
    → is_target chat ids chats m ≡ false
spared chat ids chats m t deleted = ground arith

module _ (chat_id external_id id t : ℕ) where
  -- The row under the key, and when it was marked.
  abbrev pub IsDeleted : MessageTables → Type 0
  IsDeleted db =
      (m : StoredMessage) × (stored_at chat_id external_id db ≡ some m)
      × (m.id ≡ id)
      × (m.deleted_at ≡ some t)

  upsert_message-IsDeleted :
      (chat : ℕ) (r : MessageRow) (db : MessageTables)
      → IsDeleted db
      → IsDeleted (upsert_message chat r db).1
  unfolding stored_at upsert_message
  upsert_message-IsDeleted chat r db (m, at, same, deleted) =
      let p = is_at chat_id external_id in
      let ex = inserted_message chat r db in
      elim (Option-cases (find (is_at chat r.external_id) db.messages)) [
        | inl missing ↦ rw missing (m, find_concat_found p db.messages ex m at, same, deleted)
        | inr (old, found) ↦ rw found (
          merge_at chat ex m,
          find-map_keeps (merge_at chat ex) p (merge_at_keeps chat ex chat_id external_id)
              db.messages m at,
          ground (arith, same),
          ground (arith, deleted),
        )
      ]

  mark_deleted-IsDeleted :
      (chat : Option ℕ) (ids : List ℕ) (now : ℕ) (db : MessageTables)
      → IsDeleted db
      → IsDeleted (mark_deleted chat ids now db).1
  unfolding stored_at mark_deleted
  mark_deleted-IsDeleted chat ids now db (m, at, same, deleted) =
      let mark : StoredMessage → StoredMessage =
        λ x. if is_target chat ids db.chats x then record x { deleted_at = some now } else x in
      (
        mark m,
        find-map_keeps mark (is_at chat_id external_id) (λ x. ground arith) db.messages m at,
        ground (arith, same),
        rw (spared chat ids db.chats m t deleted) deleted,
      )

  -- A message that is marked as deleted keeps its row and the time of the mark, whatever copies of it
  -- and other messages come, edited or not, and whatever is deleted later.
  pub IsDeleted-change_all :
      (cs : List Change) (db : MessageTables) → IsDeleted db → IsDeleted (change_all cs db)
  unfolding change_all change
  IsDeleted-change_all [] db h = h
  IsDeleted-change_all (copies chat r ∷ cs) db h =
      IsDeleted-change_all cs (upsert_message chat r db).1 (upsert_message-IsDeleted chat r db h)
  IsDeleted-change_all (deletes chat ids at ∷ cs) db h =
      IsDeleted-change_all cs (mark_deleted chat ids at db).1
        (mark_deleted-IsDeleted chat ids at db h)
