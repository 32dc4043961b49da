-- ===== src/Sync/CatchUp.antt =====
-- app/max/sync.py: a pass of the catch-up over the account's chats (`catch_up`).
-- What happens to a chat of the pass is an argument: its gap is filled, MAX denies the chat, it fails,
-- or the session is gone. Whether there is a client before the first chat is an argument too.
use tg_my_person.Prelude.{
  ℕ, zero, suc, ◌+◌, Bool, true, false, not, Option, none, some, List, [], ◌∷◌, ◌++◌, filter, map,
  length, take, ltb, if◌then◌else◌,
}

-- A row of `catchup_rows`: the chat, its last message and the newest time of its cursor, if any.
pub record Row : Type 0 where
  pub chat : ℕ
  pub last_ms : Option ℕ
  pub cursor : Option (Option ℕ)

abbrev is_past : ℕ → Option (Option ℕ) → Bool
is_past last none = true
is_past last (some none) = true
is_past last (some (some newest)) = ltb newest last

-- Messages past the cursor, or never synced.
abbrev pub has_tail : Row → Bool
has_tail r = elim r.last_ms [ none ↦ false | some last ↦ is_past last r.cursor ]

-- `_catchup_candidates`
abbrev pub catchup_candidates : List Row → List Row × List ℕ
catchup_candidates rows =
    (filter has_tail rows, map (λ (r : Row). r.chat) (filter (λ r. not (has_tail r)) rows))

pub data Fill : Type 0 where
  filled denied failed unavailable : Fill

-- A pass so far.
pub record Pass : Type 0 where
  pub caught_up : List ℕ
  pub failures : ℕ

abbrev pub left_over : ℕ → List Row → List Row
left_over zero rs = rs
left_over (suc n) [] = []
left_over (suc n) (r ∷ rs) = left_over n rs

-- How many chats are left for the next pass; none if the session is gone.
abbrev pub backlog_of : Bool → ℕ → Bool × Pass → Option ℕ
backlog_of chats_fresh rest (true, p) = none
backlog_of chats_fresh rest (false, p) =
    let backlog = rest + p.failures in
    some (if chats_fresh then backlog else if ltb backlog 1 then 1 else backlog)

abbrev pub starting : Bool → List ℕ → List ℕ → Pass
starting chats_fresh no_tail caught_up = record {
  caught_up = if chats_fresh then no_tail ++ caught_up else caught_up;
  failures = 0;
}

module _ (fill : ℕ → Fill) where
  -- Whether the session is gone, and the pass.
  unfoldable pub fill_all : List Row → Pass → Bool × Pass
  fill_all [] p = (false, p)
  fill_all (r ∷ rs) p = elim (fill r.chat) [
    | filled ↦ fill_all rs (record p { caught_up = r.chat ∷ p.caught_up })
    | denied ↦ fill_all rs p
    | failed ↦ fill_all rs (record p { failures = suc p.failures })
    | unavailable ↦ (true, p)
  ]

  -- Without a client `_client` raises before the first chat.
  unfoldable pub fill_if : Bool → List Row → Pass → Bool × Pass
  unfolding fill_all
  fill_if false rs p = (true, p)
  fill_if true rs p = fill_all rs p

  unfoldable pub catch_up : Bool → Bool → List Row → ℕ → List ℕ → Option ℕ × List ℕ
  unfolding fill_if
  catch_up chats_fresh has_client rows max_chats caught_up =
      let (candidates, no_tail) = catchup_candidates rows in
      let began = starting chats_fresh no_tail caught_up in
      let ended = fill_if has_client (take max_chats candidates) began in
      (backlog_of chats_fresh (length (left_over max_chats candidates)) ended, ended.1.caught_up)
