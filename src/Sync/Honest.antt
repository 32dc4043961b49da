-- ===== src/Sync/Honest.antt =====
-- app/max/sync.py: which chats a pass of the catch-up may call caught up.
use mathlib.Core.Path.{subst}
use mathlib.Core.List.{Memᴰ}
use tg_my_person.Prelude.{
  ℕ, zero, suc, ◌≤◌, ◌≡◌, refl, Bool, true, false, not, ◌&&◌, ◌||◌, inl, inr, Option, none, some,
  List, [], ◌∷◌, ap, filter, any, length, take, ◌==◌, All, All-append, All-map, All-of_mem, All_at,
  mem-filter, sym, arith, Bool-cases,
}
use tg_my_person.Sync.CatchUp.{
  Row, has_tail, catchup_candidates, Fill, filled, denied, failed, unavailable, Pass, starting,
  fill_all, fill_if, backlog_of, catch_up, left_over,
}

abbrev pub is_filled : Fill → Bool
is_filled filled = true
is_filled _ = false

abbrev pub is_done : Fill → Bool
is_done filled = true
is_done denied = true
is_done _ = false

-- The chat of a row without a tail.
abbrev pub is_settled : ℕ → List Row → Bool
is_settled c rows = any (λ r. r.chat == c && not (has_tail r)) rows

data FillCase (f : Fill) : Type 0 where
  filled_at : f ≡ filled → FillCase f
  denied_at : f ≡ denied → FillCase f
  failed_at : f ≡ failed → FillCase f
  unavailable_at : f ≡ unavailable → FillCase f

Fill-cases : (f : Fill) → FillCase f
Fill-cases filled = filled_at refl
Fill-cases denied = denied_at refl
Fill-cases failed = failed_at refl
Fill-cases unavailable = unavailable_at refl

module _ (fill : ℕ → Fill) where
  fill_all-All :
      (P : ℕ → Type 0)
      → ((c : ℕ) → fill c ≡ filled → P c)
      → (rs : List Row) (p : Pass) → All P p.caught_up
      → All P (fill_all fill rs p).1.caught_up
  unfolding fill_all
  fill_all-All P fills [] p h = h
  fill_all-All P fills (r ∷ rs) p h = elim (Fill-cases (fill r.chat)) [
    | filled_at e ↦
        rw (e, fill_all)
          (fill_all-All P fills rs (record p { caught_up = r.chat ∷ p.caught_up })
            (fills r.chat e, h))
    | denied_at e ↦ rw (e, fill_all) (fill_all-All P fills rs p h)
    | failed_at e ↦
        rw (e, fill_all) (fill_all-All P fills rs (record p { failures = suc p.failures }) h)
    | unavailable_at e ↦ rw (e, fill_all) h
  ]

  -- A pass that is not over and counts no new failure has settled every chat of it.
  abbrev IsDone : List Row → Pass → Bool × Pass → Type 0
  IsDone rs p (over, q) =
      (p.failures ≤ q.failures)
      × (over ≡ false → q.failures ≡ p.failures → All (λ r. is_done (fill r.chat) ≡ true) rs)

  fill_all-IsDone : (rs : List Row) (p : Pass) → IsDone rs p (fill_all fill rs p)
  unfolding fill_all
  fill_all-IsDone [] p = (omega arith, λ on same. tt)
  fill_all-IsDone (r ∷ rs) p = elim (Fill-cases (fill r.chat)) [
    | filled_at e ↦
        let (le, rest) = fill_all-IsDone rs (record p { caught_up = r.chat ∷ p.caught_up }) in
        rw (e, fill_all) (le, λ on same. (refl, rest on same))
    | denied_at e ↦
        let (le, rest) = fill_all-IsDone rs p in
        rw (e, fill_all) (le, λ on same. (refl, rest on same))
    | failed_at e ↦
        let (le, rest) = fill_all-IsDone rs (record p { failures = suc p.failures }) in
        rw (e, fill_all) (omega arith, λ on same. absurd (omega arith))
    | unavailable_at e ↦ rw (e, fill_all) (omega arith, λ on same. absurd (cc on))
  ]

  fill_if-All :
      (P : ℕ → Type 0)
      → ((c : ℕ) → fill c ≡ filled → P c)
      → (has_client : Bool) (rs : List Row) (p : Pass) → All P p.caught_up
      → All P (fill_if fill has_client rs p).1.caught_up
  unfolding fill_if
  fill_if-All P fills false rs p h = h
  fill_if-All P fills true rs p h = fill_all-All P fills rs p h

  fill_if-IsDone :
      (has_client : Bool) (rs : List Row) (p : Pass) → IsDone rs p (fill_if fill has_client rs p)
  unfolding fill_if
  fill_if-IsDone false rs p = (omega arith, λ on same. absurd (cc on))
  fill_if-IsDone true rs p = fill_all-IsDone rs p

take_all : (n : ℕ) (rs : List Row) → length (left_over n rs) ≡ 0 → take n rs ≡ rs
take_all zero [] e = refl
take_all zero (r ∷ rs) e = absurd (omega (arith, e))
take_all (suc n) [] e = refl
take_all (suc n) (r ∷ rs) e = ap (λ xs. r ∷ xs) (take_all n rs e)

abbrev pub has_chat_id : ℕ → List ℕ → Bool
has_chat_id c chats = any (λ b. b == c) chats

chat_ids_within : (cs : List ℕ) → All (λ c. has_chat_id c cs ≡ true) cs
chat_ids_within [] = tt
chat_ids_within (c ∷ cs) = (
  ground arith,
  All-map (λ b. has_chat_id b cs ≡ true) (λ b. has_chat_id b (c ∷ cs) ≡ true) cs
      (λ b h. ground (arith, h)) (chat_ids_within cs),
)

any-mem : (p : Row → Bool) {x : Row} {xs : List Row} → Memᴰ x xs → p x ≡ true → any p xs ≡ true
any-mem p {xs = []} i h = elim i [ ]
any-mem p {xs = y ∷ ys} (Memᴰ.head same) h =
    let here : p y ≡ true = subst (λ z. p z ≡ true) same h in ground (arith, here)
any-mem p {xs = y ∷ ys} (Memᴰ.tail i) h = ground (arith, any-mem p i h)

no_tail-All :
    (P : ℕ → Type 0) (rs : List Row)
    → ((r : Row) → Memᴰ r rs → has_tail r ≡ false → P r.chat)
    → All P (catchup_candidates rs).1
no_tail-All P [] h = tt
no_tail-All P (r ∷ rs) h =
    let rest = no_tail-All P rs (λ s i. h s (Memᴰ.tail i)) in
    elim (Bool-cases (has_tail r)) [
      | inl tail ↦ rw tail rest
      | inr none_left ↦ rw none_left (h r (Memᴰ.head refl) none_left, rest)
    ]

settled : (r : Row) (rs : List Row) → Memᴰ r rs → has_tail r ≡ false → is_settled r.chat rs ≡ true
settled r rs i none_left =
    any-mem (λ s. s.chat == r.chat && not (has_tail s)) i (ground (arith, none_left))

abbrev pub IsDealtWith : (ℕ → Fill) → Row → Type 0
IsDealtWith fill r = (not (has_tail r) || is_done (fill r.chat)) ≡ true

rows_done :
    (fill : ℕ → Fill) (rs : List Row)
    → All (λ r. is_done (fill r.chat) ≡ true) (filter has_tail rs)
    → All (IsDealtWith fill) rs
rows_done fill rs h = All-of_mem (IsDealtWith fill) rs λ r i. elim (Bool-cases (has_tail r)) [
  | inr none_left ↦ rw none_left refl
  | inl tail ↦
      let done : is_done (fill r.chat) ≡ true =
        All_at (λ s. is_done (fill s.chat) ≡ true) (mem-filter has_tail i tail) h in
      rw (tail, done) refl
]

-- Caught up before, without a tail in a fresh list, or filled now.
abbrev pub IsJustified : (ℕ → Fill) → Bool → List Row → List ℕ → ℕ → Type 0
IsJustified fill chats_fresh rows before c =
    (has_chat_id c before || (chats_fresh && is_settled c rows) || is_filled (fill c)) ≡ true

module _ (fill : ℕ → Fill) (chats_fresh : Bool) (rows : List Row) (max_chats : ℕ)
    (before : List ℕ) where
  abbrev Justified : ℕ → Type 0
  Justified c = IsJustified fill chats_fresh rows before c

  abbrev began : Pass
  began = starting chats_fresh (catchup_candidates rows).1 before

  abbrev todo : List Row
  todo = take max_chats (filter has_tail rows)

  started-Justified : All Justified began.caught_up
  started-Justified =
      let old : All Justified before =
        All-map (λ c. has_chat_id c before ≡ true) Justified before (λ c h. ground (arith, h))
          (chat_ids_within before) in
      elim (Bool-cases chats_fresh) [
        | inr stale ↦
            subst (λ b. All Justified (starting b (catchup_candidates rows).1 before).caught_up)
              (sym stale) old
        | inl fresh ↦
            let new : All Justified (catchup_candidates rows).1 =
              no_tail-All Justified rows λ r i none_left.
                let s : is_settled r.chat rows ≡ true = settled r rows i none_left in
                ground (arith, s, fresh) in
            subst (λ b. All Justified (starting b (catchup_candidates rows).1 before).caught_up)
              (sym fresh) (All-append Justified (catchup_candidates rows).1 before new old)
      ]

  -- If no chat is left for the next pass.
  abbrev pub NoBacklog : Option ℕ → Type 0
  NoBacklog (some zero) = (chats_fresh ≡ true) × All (IsDealtWith fill) rows
  NoBacklog _ = Unit

  reported :
      (n : Option ℕ)
      → (n ≡ some 0 → (chats_fresh ≡ true) × All (IsDealtWith fill) rows)
      → NoBacklog n
  reported none h = tt
  reported (some zero) h = h refl
  reported (some (suc n)) h = tt

  nothing_left :
      (r : Bool × Pass)
      → IsDone fill todo began r
      → backlog_of chats_fresh (length (left_over max_chats (filter has_tail rows))) r ≡ some 0
      → (chats_fresh ≡ true) × All (IsDealtWith fill) rows
  nothing_left (true, p) h e = absurd (cc e)
  nothing_left (false, p) (le, rest) e =
      let n = length (left_over max_chats (filter has_tail rows)) in
      let none_failed : p.failures ≡ 0 = ground (arith, e) in
      let none_over : n ≡ 0 = ground (arith, e) in
      let fresh : chats_fresh ≡ true = ground (arith, e) in
      let all : todo ≡ filter has_tail rows = take_all max_chats (filter has_tail rows) none_over in
      (
        fresh,
        rows_done fill rows
            (subst (λ rs. All (λ r. is_done (fill r.chat) ≡ true) rs) all (rest refl none_failed)),
      )

-- After a pass of the catch-up a chat is called caught up only if it was so before, or had no tail in a
-- chat list that was just fetched, or was filled in the pass; and no backlog is reported only if the
-- chat list was fetched and each chat with a tail was filled or denied.
pub catch_up_honest :
    (fill : ℕ → Fill) (chats_fresh has_client : Bool) (rows : List Row) (max_chats : ℕ)
    (before : List ℕ)
    → All
        (IsJustified fill chats_fresh rows before)
        (catch_up fill chats_fresh has_client rows max_chats before).1
      × NoBacklog fill chats_fresh rows max_chats before
          (catch_up fill chats_fresh has_client rows max_chats before).0
unfolding catch_up
catch_up_honest fill chats_fresh has_client rows max_chats before =
    let p = began fill chats_fresh rows max_chats before in
    let todo_now = todo fill chats_fresh rows max_chats before in
    (
      fill_if-All fill (IsJustified fill chats_fresh rows before) (λ c e. rw e (ground arith))
          has_client todo_now p (started-Justified fill chats_fresh rows max_chats before),
      reported fill chats_fresh rows max_chats before
          (catch_up fill chats_fresh has_client rows max_chats before).0
          (nothing_left fill chats_fresh rows max_chats before (fill_if fill has_client todo_now p)
            (fill_if-IsDone fill has_client todo_now p)),
    )
