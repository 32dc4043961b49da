-- ===== src/Sync/Pages.antt =====
-- app/max/sync.py: a page of the history, and what it leaves stored.
use mathlib.Core.Path.{subst}
use mathlib.Core.List.{Memᴰ}
use tg_my_person.Prelude.{
  ℕ, ◌-◌, ◌≤◌, ◌<◌, ◌≡◌, ◌≢◌, refl, sym, ◌∙◌, Bool, true, false, Option, none, some, List, [], ◌∷◌,
  filter, take, length, All, All-filter, All-take, arith, Bool-cases, ltb, leb, inl, inr, ◌⊎◌,
}
use tg_my_person.Prelude.SortBy.{Pairwise, sort_by, All-sort_by, mem-sort_by, length-sort_by}
use tg_my_person.Sync.Cursors.{Msg, ChatStore, store_all}
use tg_my_person.Sync.Backward.{
  History, finished, raised, Turn, stops, goes_on, is_below, in_days, later_first, last_of,
  keep_range, read_page, is_set,
}
use tg_my_person.Sync.Ends.{All-last_of}
use tg_my_person.Sync.Kept.{
  IsStored, store_all_keeps, store_all-IsStored, move_oldest_keeps, length-take_le,
  length-filter_le, mem-take_full, mem-filter_full,
}

abbrev pub is_upto : Option ℕ → Msg → Bool
is_upto none m = true
is_upto (some cursor) m = leb m.time cursor

-- What the code relies on in MAX: a page is `n` messages of the chat at or before the cursor, the
-- latest; it is shorter only if there are no more.
abbrev pub Answers : List Msg → Option ℕ → ℕ → List Msg → Type 0
Answers chat cursor n page =
    All (λ m. Memᴰ m chat × (is_upto cursor m ≡ true)) page
    × Pairwise (λ m k. m ≢ k) page
    × ((m : Msg)
        → Memᴰ m chat
        → is_upto cursor m ≡ true
        → Memᴰ m page ⊎ ((n ≤ length page) × All (λ k. m.time ≤ k.time) page))

abbrev pub IsHistory : List Msg → History → Type 0
IsHistory chat history =
    (round : ℕ) (cursor : Option ℕ) (n : ℕ) (page : List Msg)
    → history round cursor n ≡ some page
    → Answers chat cursor n page

-- No two messages of the chat have the same time.
abbrev pub HasDistinctTimes : List Msg → Type 0
HasDistinctTimes chat = (m k : Msg) → Memᴰ m chat → Memᴰ k chat → m.time ≡ k.time → m ≡ k

last_of-mem : (m : Msg) (ms : List Msg) → Memᴰ (last_of m ms) (m ∷ ms)
last_of-mem m [] = Memᴰ.head refl
last_of-mem m (k ∷ ks) = Memᴰ.tail (last_of-mem k ks)

module _ (chat : List Msg) (apart : HasDistinctTimes chat) (keeps : Msg → Bool) (history : History)
    (limit : ℕ) (stop start : Option ℕ) where
  -- Everything from the cursor up to where the backfill began is stored.
  abbrev pub IsFilled : Option ℕ → ChatStore → Type 0
  IsFilled cursor db =
      (m : Msg)
      → Memᴰ m chat
      → is_below start m ≡ true
      → keeps m ≡ true
      → is_below cursor m ≡ false
      → IsStored m db

  abbrev pub IsComplete : ChatStore → Type 0
  IsComplete db = (m : Msg) → Memᴰ m chat → is_below start m ≡ true → keeps m ≡ true → IsStored m db

  abbrev pub Fills : Turn → Type 0
  Fills (goes_on cursor stored db) = IsFilled cursor db
  Fills (stops (finished stored true db)) = IsComplete db
  Fills (stops (finished stored false db)) = Unit
  Fills (stops (raised db)) = Unit

  -- A page of at least two at or before a time, or of one where there is none, has one before it.
  pub short_page :
      (cursor : Option ℕ) (n : ℕ) (page : List Msg)
      → Answers chat cursor n page
      → n ≤ length page
      → 0 < n
      → (is_set cursor ≡ true → 1 < n)
      → filter (is_below cursor) page ≡ []
      → ⊥
  short_page cursor n [] answers le some_ two e = absurd (omega arith)
  short_page none n (m ∷ page) answers le some_ two e = absurd (cc e)
  short_page (some t) n (m ∷ []) answers le some_ two e =
      let more : 1 < n = two refl in absurd (omega arith)
  short_page (some t) n (m ∷ k ∷ page)
        (((min, mto), ((kin, kto), rest)), ((ne, nes), pairs), covers) le some_ two e =
      let at_m : m.time ≡ t = ground arith in
      let at_k : k.time ≡ t = ground arith in ne (apart m k min kin (at_m ∙ sym at_k))

  -- The last of a page's messages, if none of them is before `m`, and it is not after `m`.
  at_oldest :
      (m x : Msg) (xs : List Msg)
      → Memᴰ m chat
      → All (λ k. Memᴰ k chat) (x ∷ xs)
      → All (λ k. m.time ≤ k.time) (x ∷ xs)
      → is_below (some (last_of x xs).time) m ≡ false
      → Memᴰ m (x ∷ xs)
  at_oldest m x xs in_chat (h, hs) (k, ks) above =
      let oldest = last_of x xs in
      let oldest_in : Memᴰ oldest chat = All-last_of (λ j. Memᴰ j chat) x xs h hs in
      let later : m.time ≤ oldest.time = All-last_of (λ j. m.time ≤ j.time) x xs k ks in
      let same_time : oldest.time ≡ m.time = ground (arith, later) in
      subst (λ j. Memᴰ j (x ∷ xs)) (apart oldest m oldest_in in_chat same_time) (last_of-mem x xs)

  keep_range-Fills :
      (cursor : Option ℕ) (older taken : List Msg) (stored : ℕ) (db : ChatStore)
      → ((P : Msg → Type 0) → All P older → All P taken)
      → (ltb (length taken) (length older) ≡ false → (m : Msg) → Memᴰ m older → Memᴰ m taken)
      → All (λ k. Memᴰ k chat) older
      → ((m : Msg)
          → Memᴰ m chat
          → is_below cursor m ≡ true
          → Memᴰ m older ⊎ All (λ k. m.time ≤ k.time) older)
      → IsFilled cursor db
      → Fills (keep_range keeps history limit stop older taken stored db)
  unfolding keep_range
  keep_range-Fills cursor older [] stored db sub full from_chat covers filled = tt
  keep_range-Fills cursor older (x ∷ xs) stored db sub full from_chat covers filled =
      elim (Bool-cases (ltb (length (x ∷ xs)) (length older))) [
        | inl past ↦ rw past tt
        | inr inside ↦ rw inside λ m in_chat below_start can above.
            let oldest = last_of x xs in
            let n = (store_all keeps (x ∷ xs) db).0 in
            let db' = (store_all keeps (x ∷ xs) db).1 in
            let kept : IsStored m db' = elim (Bool-cases (is_below cursor m)) [
              | inr before ↦
                  store_all_keeps keeps (x ∷ xs) m db (filled m in_chat below_start can before)
              | inl below ↦ elim (covers m in_chat below) [
                | inl on_page ↦ store_all-IsStored keeps db (full inside m on_page) can
                | inr earlier ↦
                    store_all-IsStored keeps db
                      (at_oldest m x xs in_chat (sub (λ k. Memᴰ k chat) from_chat)
                        (sub (λ k. m.time ≤ k.time) earlier) above)
                      can
              ]
            ] in
            move_oldest_keeps oldest m n db' kept
      ]

  abbrev ranged : ℕ → List Msg → List Msg
  ranged stored older = take (limit - stored) (sort_by later_first (filter (in_days stop) older))

  All-ranged :
      (stored : ℕ) (older : List Msg) (P : Msg → Type 0) → All P older → All P (ranged stored older)
  All-ranged stored older P h =
      All-take P (limit - stored) (sort_by later_first (filter (in_days stop) older)) (
        All-sort_by later_first P (filter (in_days stop) older)
          (All-filter P (in_days stop) older h))

  -- A page that is not longer than what is in range is in range.
  mem-ranged :
      (stored : ℕ) (older : List Msg)
      → ltb (length (ranged stored older)) (length older) ≡ false
      → (m : Msg) → Memᴰ m older
      → Memᴰ m (ranged stored older)
  mem-ranged stored older inside m i =
      let in_stop = filter (in_days stop) older in
      let sorted = sort_by later_first in_stop in
      let cut : length (take (limit - stored) sorted) ≤ length sorted =
        length-take_le (limit - stored) sorted in
      let same : length sorted ≡ length in_stop = length-sort_by later_first in_stop in
      let less : length in_stop ≤ length older = length-filter_le (in_days stop) older in
      let most : length older ≤ length (take (limit - stored) sorted) = ground (arith, inside) in
      mem-take_full (limit - stored)
        (mem-sort_by later_first (mem-filter_full (in_days stop) i (omega arith))) (omega arith)

  pub read_page-Fills :
      (cursor : Option ℕ) (older : List Msg) (stored : ℕ) (db : ChatStore)
      → All (λ k. Memᴰ k chat) older
      → ((m : Msg)
          → Memᴰ m chat
          → is_below cursor m ≡ true
          → Memᴰ m older ⊎ All (λ k. m.time ≤ k.time) older)
      → IsFilled cursor db
      → (older ≡ [] → IsComplete db)
      → Fills (read_page keeps history limit stop older stored db)
  unfolding read_page
  read_page-Fills cursor [] stored db from_chat covers filled ended = ended refl
  read_page-Fills cursor (x ∷ xs) stored db from_chat covers filled ended =
      keep_range-Fills cursor (x ∷ xs) (ranged stored (x ∷ xs)) stored db
        (All-ranged stored (x ∷ xs)) (mem-ranged stored (x ∷ xs)) from_chat covers filled
