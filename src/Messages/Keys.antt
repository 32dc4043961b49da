-- ===== src/Messages/Keys.antt =====
-- app/repo/messages.py: what an upsert leaves under each key.
use tg_my_person.Prelude.{
  ℕ, ◌≡◌, refl, Bool, true, false, Option, none, some, List, [], ◌∷◌, ◌++◌, map, find, ◌==◌, arith,
  Bool-cases, Option-cases, inl, inr, if◌then◌else◌, find-map_keeps, ap, ◌∙◌,
}
use tg_my_person.Messages.{
  MessageRow, StoredMessage, MessageTables, inserted_message, is_at, after_copy, merge_at,
  upsert_message,
}

unfoldable pub stored_at : ℕ → ℕ → MessageTables → Option StoredMessage
stored_at chat_id external_id db = find (is_at chat_id external_id) db.messages

-- The row under the key of an upsert.
abbrev pub after_upsert : ℕ → MessageRow → MessageTables → Option StoredMessage → StoredMessage
after_upsert chat_id r db none = inserted_message chat_id r db
after_upsert chat_id r db (some t) = after_copy (inserted_message chat_id r db) t

pub merge_at_keeps :
    (chat_id : ℕ) (ex : StoredMessage) (c e : ℕ) (m : StoredMessage)
    → is_at c e (merge_at chat_id ex m) ≡ is_at c e m
merge_at_keeps chat_id ex c e m = ground arith

find_concat :
    (p : StoredMessage → Bool) (ms : List StoredMessage) (x : StoredMessage)
    → find p ms ≡ none
    → find p (ms ++ x ∷ []) ≡ (if p x then some x else none)
find_concat p [] x e = refl
find_concat p (m ∷ ms) x e = elim (Bool-cases (p m)) [
  | inl here ↦ absurd (ground (arith, here, e))
  | inr out ↦ rw out (find_concat p ms x (ground (arith, out, e)))
]

find_at :
    (p : StoredMessage → Bool) (ms : List StoredMessage) (x : StoredMessage)
    → find p ms ≡ some x
    → p x ≡ true
find_at p [] x e = absurd (cc e)
find_at p (m ∷ ms) x e = elim (Bool-cases (p m)) [
  | inl here ↦ let same : m ≡ x = ground (arith, here, e) in rw (← same) here
  | inr out ↦ find_at p ms x (ground (arith, out, e))
]

is_at_self :
    (chat_id : ℕ) (r : MessageRow) (db : MessageTables)
    → is_at chat_id r.external_id (inserted_message chat_id r db) ≡ true
is_at_self chat_id r db = ground arith

pub stored_at-upsert_message :
    (chat_id : ℕ) (r : MessageRow) (db : MessageTables)
    → stored_at chat_id r.external_id (upsert_message chat_id r db).1
      ≡ some (after_upsert chat_id r db (stored_at chat_id r.external_id db))
unfolding stored_at upsert_message
stored_at-upsert_message chat_id r db =
    let p = is_at chat_id r.external_id in
    let ex = inserted_message chat_id r db in
    elim (Option-cases (find p db.messages)) [
      | inl missing ↦
          rw missing (find_concat p db.messages ex missing ∙ rw (is_at_self chat_id r db) refl)
      | inr (t, found) ↦
          let here : p t ≡ true = find_at p db.messages t found in
          rw found (
            find-map_keeps (merge_at chat_id ex) p (merge_at_keeps chat_id ex chat_id r.external_id)
              db.messages t found
            ∙ rw here refl)
    ]

find-map_same :
    (p : StoredMessage → Bool) (f : StoredMessage → StoredMessage)
    → ((m : StoredMessage) → p (f m) ≡ p m)
    → ((m : StoredMessage) → p m ≡ true → f m ≡ m)
    → (ms : List StoredMessage) → find p (map f ms) ≡ find p ms
find-map_same p f keeps fixed [] = refl
find-map_same p f keeps fixed (m ∷ ms) = elim (Bool-cases (p m)) [
  | inl here ↦ rw (keeps m, here) (ap some (fixed m here))
  | inr out ↦ rw (keeps m, out) (find-map_same p f keeps fixed ms)
]

find_concat_other :
    (p : StoredMessage → Bool) (ms : List StoredMessage) (x : StoredMessage)
    → p x ≡ false
    → find p (ms ++ x ∷ []) ≡ find p ms
find_concat_other p [] x out = rw out refl
find_concat_other p (m ∷ ms) x out = elim (Bool-cases (p m)) [
  | inl here ↦ rw here refl
  | inr later ↦ rw later (find_concat_other p ms x out)
]

pub stored_at-upsert_message_other :
    (chat_id external_id : ℕ) (r : MessageRow) (db : MessageTables)
    → r.external_id == external_id ≡ false
    → stored_at chat_id external_id (upsert_message chat_id r db).1
      ≡ stored_at chat_id external_id db
unfolding stored_at upsert_message
stored_at-upsert_message_other chat_id external_id r db apart =
    let p = is_at chat_id external_id in
    let ex = inserted_message chat_id r db in
    elim (Option-cases (find (is_at chat_id r.external_id) db.messages)) [
      | inl missing ↦ rw missing (find_concat_other p db.messages ex (ground (arith, apart)))
      | inr (t, found) ↦ rw found (
          find-map_same p (merge_at chat_id ex) (merge_at_keeps chat_id ex chat_id external_id)
            (λ m here. ground (arith, here, apart)) db.messages)
    ]
