-- ===== src/Messages/Edits.antt =====
-- app/repo/messages.py: which copy of a message a row shows.
use mathlib.Core.List.{Memᴰ}
use mathlib.Core.Path.{subst}
use tg_my_person.Prelude.{
  ℕ, ◌≡◌, refl, Bool, true, false, not, ◌||◌, Option, none, some, List, [], ◌∷◌, All, ltb, ◌==◌,
  arith, Bool-cases, inl, inr, ◌⊎◌, sym, ◌∙◌,
}
use tg_my_person.Messages.{
  MessageRow, StoredMessage, MessageTables, inserted_message, may_overwrite, upsert_message,
}
use tg_my_person.Messages.Keys.{
  stored_at, after_upsert, stored_at-upsert_message, stored_at-upsert_message_other,
}

-- Copies of messages of a chat, as they come.
unfoldable pub upsert_all : ℕ → List MessageRow → MessageTables → MessageTables
upsert_all chat_id [] db = db
upsert_all chat_id (r ∷ rs) db = upsert_all chat_id rs (upsert_message chat_id r db).1

abbrev was_before : Option ℕ → ℕ → Bool
was_before none t = false
was_before (some at) t = ltb at t

-- No edit, or an edit before `t`.
abbrev pub is_earlier : ℕ → Bool → Option ℕ → Bool
is_earlier t is_edited edited_at = not is_edited || was_before edited_at t

-- The row has the content of the copy.
abbrev pub Shows : MessageRow → StoredMessage → Type 0
Shows c m =
    (m.text ≡ c.text)
    × (m.text_html ≡ c.text_html)
    × (m.message_type ≡ c.message_type)
    × (m.raw ≡ c.raw)
    × (m.is_edited ≡ c.is_edited)
    × (m.edited_at ≡ c.edited_at)

-- Of the copies of the same message, all but `c` are earlier.
abbrev pub IsLatest : MessageRow → ℕ → MessageRow → Type 0
IsLatest c t r =
    (r ≡ c)
    ⊎ (((r.external_id == c.external_id) ≡ false) ⊎ (is_earlier t r.is_edited r.edited_at ≡ true))

module _ (chat_id : ℕ) (c : MessageRow) (t : ℕ) (edited : c.is_edited ≡ true)
    (at : c.edited_at ≡ some t) where
  abbrev IsBehind : Option StoredMessage → Type 0
  IsBehind none = Unit
  IsBehind (some m) = is_earlier t m.is_edited m.edited_at ≡ true

  abbrev IsShown : Option StoredMessage → Type 0
  IsShown none = ⊥
  IsShown (some m) = Shows c m

  earlier-IsBehind :
      (r : MessageRow) (db : MessageTables) (o : Option StoredMessage)
      → is_earlier t r.is_edited r.edited_at ≡ true
      → IsBehind o
      → IsBehind (some (after_upsert chat_id r db o))
  earlier-IsBehind r db none early h = early
  earlier-IsBehind r db (some m) early h =
      elim (Bool-cases (may_overwrite m (inserted_message chat_id r db))) [
        | inl over ↦ rw over early
        | inr kept ↦ rw kept h
      ]

  kept_out :
      (r : MessageRow) (db : MessageTables) (m : StoredMessage)
      → is_earlier t r.is_edited r.edited_at ≡ true
      → m.is_edited ≡ true
      → m.edited_at ≡ some t
      → may_overwrite m (inserted_message chat_id r db) ≡ false
  kept_out r db m early is_one when = ground (arith, early, is_one, when)

  earlier-IsShown :
      (r : MessageRow) (db : MessageTables) (o : Option StoredMessage)
      → is_earlier t r.is_edited r.edited_at ≡ true
      → IsShown o
      → IsShown (some (after_upsert chat_id r db o))
  earlier-IsShown r db none early h = absurd h
  earlier-IsShown r db (some m) early (text, html, type, raw, is_one, when) =
      rw (kept_out r db m early (is_one ∙ edited) (when ∙ at)) (text, html, type, raw, is_one, when)

  latest_over :
      (db : MessageTables) (m : StoredMessage)
      → IsBehind (some m) ⊎ IsShown (some m)
      → may_overwrite m (inserted_message chat_id c db) ≡ true
  latest_over db m (inl early) = ground (arith, early, edited, at)
  latest_over db m (inr shown) = ground (arith, shown.4, shown.5, edited, at)

  latest-IsShown :
      (db : MessageTables) (o : Option StoredMessage)
      → IsBehind o ⊎ IsShown o
      → IsShown (some (after_upsert chat_id c db o))
  latest-IsShown db none h = (refl, refl, refl, refl, refl, refl)
  latest-IsShown db (some m) h = rw (latest_over db m h) (refl, refl, refl, refl, refl, refl)

  abbrev now_stored : MessageTables → Option StoredMessage
  now_stored db = stored_at chat_id c.external_id db

  abbrev IsReady : MessageTables → Type 0
  IsReady db = IsBehind (now_stored db) ⊎ IsShown (now_stored db)

  latest_step :
      (db : MessageTables) → IsReady db → IsShown (now_stored (upsert_message chat_id c db).1)
  latest_step db h =
      subst IsShown (sym (stored_at-upsert_message chat_id c db))
        (latest-IsShown db (now_stored db) h)

  -- Under the key of the copy, if the row has it.
  same_key :
      (P : Option StoredMessage → Type 0) (r : MessageRow) (db : MessageTables)
      → r.external_id ≡ c.external_id
      → P (some (after_upsert chat_id r db (now_stored db)))
      → P (now_stored (upsert_message chat_id r db).1)
  same_key P r db same h =
      let at_r = stored_at-upsert_message chat_id r db in
      let at_c : now_stored (upsert_message chat_id r db).1
          ≡ some (after_upsert chat_id r db (now_stored db)) =
        subst
          (λ e.
            stored_at chat_id e (upsert_message chat_id r db).1
            ≡ some (after_upsert chat_id r db (stored_at chat_id e db)))
          same at_r in
      subst P (sym at_c) h

  earlier_step :
      (P : Option StoredMessage → Type 0) (r : MessageRow) (db : MessageTables)
      → ((o : Option StoredMessage) → P o → P (some (after_upsert chat_id r db o)))
      → P (now_stored db)
      → P (now_stored (upsert_message chat_id r db).1)
  earlier_step P r db keeps h = elim (Bool-cases (r.external_id == c.external_id)) [
    | inl same ↦ same_key P r db (ground (arith, same)) (keeps (now_stored db) h)
    | inr apart ↦ subst P (sym (stored_at-upsert_message_other chat_id c.external_id r db apart)) h
  ]

  other_step :
      (P : Option StoredMessage → Type 0) (r : MessageRow) (db : MessageTables)
      → (r.external_id == c.external_id) ≡ false
      → P (now_stored db)
      → P (now_stored (upsert_message chat_id r db).1)
  other_step P r db apart h =
      subst P (sym (stored_at-upsert_message_other chat_id c.external_id r db apart)) h

  IsShown-step :
      (r : MessageRow) (db : MessageTables)
      → IsLatest c t r
      → IsShown (now_stored db)
      → IsShown (now_stored (upsert_message chat_id r db).1)
  IsShown-step r db (inl same) h =
      subst (λ s. IsShown (now_stored (upsert_message chat_id s db).1)) (sym same)
        (latest_step db (inr h))
  IsShown-step r db (inr (inl apart)) h = other_step IsShown r db apart h
  IsShown-step r db (inr (inr early)) h =
      earlier_step IsShown r db (λ o. earlier-IsShown r db o early) h

  IsReady-step :
      (r : MessageRow) (db : MessageTables)
      → IsLatest c t r
      → IsReady db
      → IsReady (upsert_message chat_id r db).1
  IsReady-step r db latest (inr h) = inr (IsShown-step r db latest h)
  IsReady-step r db (inl same) (inl h) = inr (
      subst (λ s. IsShown (now_stored (upsert_message chat_id s db).1)) (sym same)
        (latest_step db (inl h)))
  IsReady-step r db (inr (inl apart)) (inl h) = inl (other_step IsBehind r db apart h)
  IsReady-step r db (inr (inr early)) (inl h) =
      inl (earlier_step IsBehind r db (λ o. earlier-IsBehind r db o early) h)

  IsShown-All :
      (rs : List MessageRow) (db : MessageTables)
      → All (IsLatest c t) rs
      → IsShown (now_stored db)
      → IsShown (now_stored (upsert_all chat_id rs db))
  unfolding upsert_all
  IsShown-All [] db h shown = shown
  IsShown-All (r ∷ rs) db (h, hs) shown =
      IsShown-All rs (upsert_message chat_id r db).1 hs (IsShown-step r db h shown)

  latest-All :
      {rs : List MessageRow} (db : MessageTables)
      → Memᴰ c rs
      → All (IsLatest c t) rs
      → IsReady db
      → IsShown (now_stored (upsert_all chat_id rs db))
  unfolding upsert_all
  latest-All {rs = []} db i h ready = elim i [ ]
  latest-All {rs = r ∷ rs} db (Memᴰ.head same) (h, hs) ready =
      IsShown-All rs (upsert_message chat_id r db).1 hs (
        subst (λ s. IsShown (now_stored (upsert_message chat_id s db).1)) same
          (latest_step db ready))
  latest-All {rs = r ∷ rs} db (Memᴰ.tail i) (h, hs) ready =
      latest-All (upsert_message chat_id r db).1 i hs (IsReady-step r db h ready)

abbrev pub ShowsCopy : MessageRow → Option StoredMessage → Type 0
ShowsCopy c none = ⊥
ShowsCopy c (some m) = Shows c m

-- Whatever the order in which copies of a message come: where its row was not there before, it shows
-- the copy that was edited last, if every other copy of it is no edit or was edited before.
pub last_edit_shown :
    (chat_id t : ℕ) (c : MessageRow) (rs : List MessageRow) (db : MessageTables)
    → c.is_edited ≡ true
    → c.edited_at ≡ some t
    → stored_at chat_id c.external_id db ≡ none
    → Memᴰ c rs
    → All (IsLatest c t) rs
    → ShowsCopy c (stored_at chat_id c.external_id (upsert_all chat_id rs db))
last_edit_shown chat_id t c rs db edited at missing i latest =
    shows (stored_at chat_id c.external_id (upsert_all chat_id rs db)) (
      latest-All chat_id c t edited at db i latest
        (inl (subst (IsBehind chat_id c t edited at) (sym missing) tt)))
  where
    shows : (o : Option StoredMessage) → IsShown chat_id c t edited at o → ShowsCopy c o
    shows none h = h
    shows (some m) h = h
