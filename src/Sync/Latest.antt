-- ===== src/Sync/Latest.antt =====
-- A history as app/max/sync.py relies on it: MAX's, of a chat that does not change.
use mathlib.Core.Path.{subst}
use mathlib.Core.List.{Memᴰ}
use tg_my_person.Prelude.{
  ℕ, zero, suc, ◌≤◌, ◌≡◌, ◌≢◌, sym, Bool, true, false, Option, some, List, [], ◌∷◌, filter, take,
  length, All, All_at, All-of_mem, All-take, All-filter, All-filter_self, mem-filter, ◌⊎◌, inl, inr,
  arith, Bool-cases,
}
use tg_my_person.Prelude.SortBy.{
  Pairwise, Before, sort_by, All-sort_by, mem-sort_by, Pairwise-sort_by, sort_by-Before,
}
use tg_my_person.Sync.Cursors.{Msg}
use tg_my_person.Sync.Backward.{History, later_first}
use tg_my_person.Sync.Pages.{is_upto, Answers, IsHistory}

-- The latest messages up to the cursor.
unfoldable pub latest_page : List Msg → Option ℕ → ℕ → List Msg
unfolding sort_by
latest_page chat cursor n = take n (sort_by later_first (filter (is_upto cursor) chat))

abbrev pub latest : List Msg → History
latest chat round cursor n = some (latest_page chat cursor n)

All-both : (P Q : Msg → Type 0) (ms : List Msg) → All P ms → All Q ms → All (λ m. P m × Q m) ms
All-both P Q [] h k = tt
All-both P Q (m ∷ ms) (h, hs) (k, ks) = ((h, k), All-both P Q ms hs ks)

module _ (R : Msg → Msg → Type 0) where
  Pairwise-filter : (p : Msg → Bool) (ms : List Msg) → Pairwise R ms → Pairwise R (filter p ms)
  Pairwise-filter p [] h = tt
  Pairwise-filter p (m ∷ ms) (h, hs) = elim (Bool-cases (p m)) [
    | inl here ↦ rw here (All-filter (R m) p ms h, Pairwise-filter p ms hs)
    | inr out ↦ rw out (Pairwise-filter p ms hs)
  ]

  Pairwise-take : (n : ℕ) (ms : List Msg) → Pairwise R ms → Pairwise R (take n ms)
  Pairwise-take zero ms h = tt
  Pairwise-take (suc n) [] h = tt
  Pairwise-take (suc n) (m ∷ ms) (h, hs) = (All-take (R m) n ms h, Pairwise-take n ms hs)

-- What a prefix of an ordered list leaves out comes after all of it.
take_covers :
    (n : ℕ) {m : Msg} {ms : List Msg}
    → Memᴰ m ms
    → Pairwise (Before later_first) ms
    → Memᴰ m (take n ms) ⊎ ((n ≤ length (take n ms)) × All (λ k. m.time ≤ k.time) (take n ms))
take_covers n {ms = []} i h = elim i [ ]
take_covers zero {ms = k ∷ ks} i h = inr (omega arith, tt)
take_covers (suc n) {ms = k ∷ ks} (Memᴰ.head same) h = inl (Memᴰ.head same)
take_covers (suc n) {m} {ms = k ∷ ks} (Memᴰ.tail i) (h, hs) = elim (take_covers n i hs) [
  | inl inside ↦ inl (Memᴰ.tail inside)
  | inr (le, after) ↦
      let first : later_first k m ≡ true = All_at (Before later_first k) i h in
      inr (omega arith, (ground (arith, first), after))
]

later_total : (m k : Msg) → later_first m k ≡ false → later_first k m ≡ true
later_total m k h = ground arith

later_trans :
    (m k j : Msg) → later_first m k ≡ true → later_first k j ≡ true → later_first m j ≡ true
later_trans m k j h i = ground arith

latest_page-Answers :
    (chat : List Msg) (cursor : Option ℕ) (n : ℕ)
    → Pairwise (λ m k. m ≢ k) chat
    → Answers chat cursor n (latest_page chat cursor n)
unfolding latest_page
latest_page-Answers chat cursor n apart =
    let upto = filter (is_upto cursor) chat in
    let sorted = sort_by later_first upto in
    let inside : All (λ m. Memᴰ m chat × (is_upto cursor m ≡ true)) upto =
      All-both (λ m. Memᴰ m chat) (λ m. is_upto cursor m ≡ true) upto
        (All-filter (λ m. Memᴰ m chat) (is_upto cursor) chat
          (All-of_mem (λ m. Memᴰ m chat) chat (λ m i. i)))
        (All-filter_self (is_upto cursor) chat) in
    (
      All-take (λ m. Memᴰ m chat × (is_upto cursor m ≡ true)) n sorted
          (All-sort_by later_first (λ m. Memᴰ m chat × (is_upto cursor m ≡ true)) upto inside),
      Pairwise-take (λ m k. m ≢ k) n sorted
          (Pairwise-sort_by later_first (λ m k. m ≢ k) (λ m k ne e. ne (sym e)) upto
            (Pairwise-filter (λ m k. m ≢ k) (is_upto cursor) chat apart)),
      λ m i h.
          take_covers n (mem-sort_by later_first (mem-filter (is_upto cursor) i h))
            (sort_by-Before later_first later_total later_trans upto),
    )

pub latest-IsHistory :
    (chat : List Msg) → Pairwise (λ m k. m ≢ k) chat → IsHistory chat (latest chat)
latest-IsHistory chat apart round cursor n page e =
    let same : latest_page chat cursor n ≡ page = cc e in
    subst (Answers chat cursor n) same (latest_page-Answers chat cursor n apart)
