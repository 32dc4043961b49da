-- ===== src/Sync/Kept.antt =====
-- app/max/store_new.py: what stays stored; app/max/sync.py: prefixes that cut nothing.
use mathlib.Core.List.{Memᴰ}
use tg_my_person.Prelude.{
  ℕ, zero, suc, ◌≤◌, ◌≡◌, Bool, true, false, Option, List, [], ◌∷◌, filter, take, length, All,
  All_at, mem-filter, arith, Bool-cases, inl, inr, if◌then◌else◌,
}
use tg_my_person.Sync.Cursors.{
  Msg, ChatStore, has_id, store_message, store_all, move_oldest, finish_backfill,
}

abbrev pub IsStored : Msg → ChatStore → Type 0
IsStored m db = has_id m.id db.kept ≡ true

has_id_self : (m : Msg) (ms : List Msg) → has_id m.id (m ∷ ms) ≡ true
has_id_self m ms = ground arith

store_message-IsStored : (m : Msg) (db : ChatStore) → IsStored m (store_message m db)
unfolding store_message
store_message-IsStored m db = elim (Bool-cases (has_id m.id db.kept)) [
  | inl old ↦ rw old old
  | inr new ↦ rw new (has_id_self m db.kept)
]

pub store_message_keeps :
    (m k : Msg) (db : ChatStore) → IsStored k db → IsStored k (store_message m db)
unfolding store_message
store_message_keeps m k db h = elim (Bool-cases (has_id m.id db.kept)) [
  | inl old ↦ rw old h
  | inr new ↦ rw new (ground arith)
]

pub move_oldest_keeps :
    (o k : Msg) (n : ℕ) (db : ChatStore) → IsStored k db → IsStored k (move_oldest o n db)
unfolding move_oldest
move_oldest_keeps o k n db h = elim (Bool-cases db.has_chat) [
  | inl known ↦ rw known h
  | inr unknown ↦ rw unknown h
]

pub finish_backfill_keeps :
    (fully : Option Bool) (k : Msg) (db : ChatStore)
    → IsStored k db
    → IsStored k (finish_backfill fully db)
unfolding finish_backfill
finish_backfill_keeps fully k db h = elim (Bool-cases db.has_chat) [
  | inl known ↦ rw known h
  | inr unknown ↦ rw unknown h
]

module _ (keeps : Msg → Bool) where
  abbrev stored_if : Bool → Msg → ChatStore → ChatStore
  stored_if b m db = if b then store_message m db else db

  stored_if_keeps :
      (b : Bool) (m k : Msg) (db : ChatStore) → IsStored k db → IsStored k (stored_if b m db)
  stored_if_keeps true m k db h = store_message_keeps m k db h
  stored_if_keeps false m k db h = h

  pub store_all_keeps :
      (ms : List Msg) (k : Msg) (db : ChatStore)
      → IsStored k db
      → IsStored k (store_all keeps ms db).1
  unfolding store_all
  store_all_keeps [] k db h = h
  store_all_keeps (m ∷ ms) k db h =
      store_all_keeps ms k (stored_if (keeps m) m db) (stored_if_keeps (keeps m) m k db h)

  pub store_all-IsStored :
      {k : Msg} {ms : List Msg} (db : ChatStore)
      → Memᴰ k ms
      → keeps k ≡ true
      → IsStored k (store_all keeps ms db).1
  unfolding store_all
  store_all-IsStored {ms = []} db i h = elim i [ ]
  store_all-IsStored {k} {ms = m ∷ ms} db (Memᴰ.head same) h =
      let can : keeps m ≡ true = rw (← same) h in
      let now : IsStored k (stored_if (keeps m) m db) =
        rw (can, same) (store_message-IsStored m db) in
      store_all_keeps ms k (stored_if (keeps m) m db) now
  store_all-IsStored {ms = m ∷ ms} db (Memᴰ.tail i) h =
      store_all-IsStored (stored_if (keeps m) m db) i h

-- Where a prefix or a filter is no shorter, it holds everything.
module _ {ℓ} {A : Type ℓ} where
  pub length-take_le : (n : ℕ) (xs : List A) → length (take n xs) ≤ length xs
  length-take_le zero xs = omega arith
  length-take_le (suc n) [] = omega arith
  length-take_le (suc n) (x ∷ xs) = omega (arith, length-take_le n xs)

  pub length-filter_le : (p : A → Bool) (xs : List A) → length (filter p xs) ≤ length xs
  length-filter_le p [] = omega arith
  length-filter_le p (x ∷ xs) = ground (arith, length-filter_le p xs)

  pub mem-take_full :
      (n : ℕ) {x : A} {xs : List A}
      → Memᴰ x xs
      → length xs ≤ length (take n xs)
      → Memᴰ x (take n xs)
  mem-take_full n {xs = []} i h = elim i [ ]
  mem-take_full zero {xs = y ∷ ys} i h = absurd (omega arith)
  mem-take_full (suc n) {xs = y ∷ ys} (Memᴰ.head same) h = Memᴰ.head same
  mem-take_full (suc n) {xs = y ∷ ys} (Memᴰ.tail i) h = Memᴰ.tail (mem-take_full n i (omega arith))

  filter_full :
      (p : A → Bool) (xs : List A) → length xs ≤ length (filter p xs) → All (λ x. p x ≡ true) xs
  filter_full p [] h = tt
  filter_full p (x ∷ xs) h =
      let short : length (filter p xs) ≤ length xs = length-filter_le p xs in
      elim (Bool-cases (p x)) [
        | inl here ↦ (here, filter_full p xs (ground (arith, here, h)))
        | inr out ↦ absurd (ground (arith, short, out, h))
      ]

  pub mem-filter_full :
      (p : A → Bool) {x : A} {xs : List A}
      → Memᴰ x xs
      → length xs ≤ length (filter p xs)
      → Memᴰ x (filter p xs)
  mem-filter_full p {xs} i h = mem-filter p i (All_at (λ x. p x ≡ true) i (filter_full p xs h))
