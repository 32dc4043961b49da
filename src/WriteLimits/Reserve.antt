-- ===== src/WriteLimits/Reserve.antt =====
-- app/authz/write_limits.py: taking slots, and giving them back.
-- Each call is two parts: what it reads before the advisory lock, and the locked transaction, which
-- may see another state. A transaction that raises is rolled back, so it has no state to return.
-- The asserts on the kinds are left out, and so is a DELETE of `release` that fails: the source logs
-- it, and the slot stays.
use Prim.Native.Nat.{max}
use tg_my_person.Prelude.{
  ℕ, suc, ◌+◌, ◌-◌, ◌*◌, ◌/◌, String, Bool, false, not, ◌&&◌, Option, none, some, List, [], ◌∷◌,
  ◌++◌, ltb, ◌==◌, if◌then◌else◌, filter, any, replicate, ℤ, ◌==ℤ◌,
}
use tg_my_person.Models.{Platform}
use tg_my_person.WriteLimits.Settings.{
  Kind, send, lookup, Limits, no_limits, Tables, Effective, effective,
}
use tg_my_person.WriteLimits.Counters.{second, retention, WriteEvent, last_send, sent_to}
use tg_my_person.WriteLimits.Windows.{
  Needs, min_interval, writes_disabled, WriteLimited, check_windows,
}

pub data Result {ℓ} (A : Type ℓ) : Type ℓ where
  ok : A → Result A
  raised : WriteLimited → Result A

-- The table write_events, with the next value of its identity.
pub record Events : Type 0 where
  pub rows : List WriteEvent
  pub next_id : ℕ

pub record Slot : Type 0 where
  pub event_ids : List ℕ
  pub account_id : ℕ

abbrev pub max_wait_sec : ℕ
max_wait_sec = 15

-- The messages that are stored: by account in the new tables, by platform in the old ones.
pub record Archive : Type 0 where
  pub new_mode : Bool
  pub messages : List (ℕ × ℤ)
  pub max_messages : List ℤ
  pub tg_messages : List ℤ

abbrev old_table : Archive → Platform → List ℤ
old_table a Platform.max = a.max_messages
old_table a Platform.telegram = a.tg_messages

unfoldable pub has_history : Archive → Effective → ℤ → Bool
has_history a eff chat_id =
    if a.new_mode
    then any (λ m. m.0 == eff.account_id && m.1 ==ℤ chat_id) a.messages
    else any (λ c. c ==ℤ chat_id) (old_table a eff.platform)

unfoldable pub disabled : Effective → String → WriteLimited
disabled eff tool = record {
  status = 403;
  body = writes_disabled (record { tool = tool; alias = eff.alias; platform = eff.platform });
  retry_after = none;
}

-- What `reserve` knows when it asks for the lock.
pub record Plan : Type 0 where
  pub eff : Effective
  pub limits : Limits
  pub history : Bool

-- Lookups are limited also where writes are not.
abbrev pub lookup_limits : Kind → Option Limits → Option Limits
lookup_limits lookup none = some no_limits
lookup_limits _ none = none
lookup_limits kind (some l) = some l

abbrev chat_known : Kind → Option ℤ → (ℤ → Bool) → Bool
chat_known send (some c) test = test c
chat_known _ _ test = false

unfoldable pub plan_of :
    List WriteEvent
    → Archive
    → Effective
    → Kind
    → String
    → Option ℤ
    → Option Limits
    → Result (Option Plan)
plan_of rows archive eff kind tool chat_id none = ok none
plan_of rows archive eff kind tool chat_id (some limits) =
    if not limits.enabled
    then raised (disabled eff tool)
    else ok (
        some (record {
          eff = eff;
          limits = limits;
          history =
              chat_known kind chat_id
                (λ c. not (sent_to rows eff.account_id c) && has_history archive eff c);
        }))

-- `reserve` up to the lock; `none` where the account has no limits.
unfoldable pub prepare :
    Tables → List WriteEvent → Archive → ℕ → Kind → String → Option ℤ → Result (Option Plan)
unfolding plan_of
prepare db rows archive account_id kind tool chat_id = elim (effective db account_id) [
  | none ↦ ok none
  | some eff ↦ plan_of rows archive eff kind tool chat_id (lookup_limits kind eff.limits)
]

-- DELETE of the account's events that are older than the retention.
unfoldable pub prune : ℕ → ℕ → List WriteEvent → List WriteEvent
prune account_id now = filter (λ e. not (e.account_id == account_id && ltb (e.at + retention) now))

-- The pause after the last send, in microseconds; `jitter` is the random draw up to its argument.
abbrev pause : Limits → (ℕ → ℕ) → ℕ → ℕ
pause limits jitter interval = interval * second + jittered limits.jitter_sec
  where
    jittered : Option ℕ → ℕ
    jittered none = 0
    jittered (some upper) = if upper == 0 then 0 else jitter upper

-- `int | None` tested as a truth value.
abbrev set_interval : Kind → Option ℕ → Option ℕ
set_interval send (some interval) = if interval == 0 then none else some interval
set_interval _ _ = none

abbrev after_last : ℕ → ℕ → Option ℕ → ℕ
after_last now pause none = now
after_last now pause (some last) = max now (last + pause)

-- The time at which the write is sent.
unfoldable pub planned : Limits → (ℕ → ℕ) → List WriteEvent → ℕ → Kind → ℕ → ℕ
planned limits jitter rows account_id kind now = elim (set_interval kind limits.min_interval_sec) [
  | none ↦ now
  | some interval ↦ after_last now (pause limits jitter interval) (last_send rows account_id)
]

abbrev pub seconds_up : ℕ → ℕ
seconds_up us = (us + 999999) / second

abbrev or_zero : Option ℕ → ℕ
or_zero none = 0
or_zero (some n) = n

unfoldable pub queue_refusal : Effective → Limits → String → ℕ → WriteLimited
queue_refusal eff limits tool wait =
    let retry = max 1 (seconds_up (wait - max_wait_sec * second)) in
    record {
      status = 429;
      body = min_interval (record {
        max = or_zero limits.min_interval_sec;
        queued_wait_sec = seconds_up wait;
        retry_after = retry;
        tool = tool;
        alias = eff.alias;
        platform = eff.platform;
      });
      retry_after = some retry;
    }

-- INSERT of one row for each kind, RETURNING the ids.
unfoldable pub insert_all : (ℕ → Kind → WriteEvent) → List Kind → Events → Events × List ℕ
insert_all make [] events = (events, [])
insert_all make (k ∷ ks) events =
    let (events', ids) =
      insert_all make ks
        (record { rows = make events.next_id k ∷ events.rows; next_id = suc events.next_id }) in
    (events', events.next_id ∷ ids)

-- What a transaction leaves, and how long the caller then sleeps.
pub record Taken : Type 0 where
  pub events : Events
  pub slot : Slot
  pub wait : ℕ

abbrev pub event : ℕ → String → Option ℤ → Bool → ℕ → ℕ → Kind → WriteEvent
event account_id tool chat_id new_dialog at id kind = record {
  id = id;
  account_id = account_id;
  kind = kind;
  tool = tool;
  chat_id = chat_id;
  new_dialog = new_dialog;
  at = at;
}

unfoldable pub take_slot : ℕ → String → Option ℤ → Bool → ℕ → ℕ → List Kind → Events → Taken
unfolding insert_all
take_slot account_id tool chat_id new_dialog at wait kinds events =
    let (events', ids) = insert_all (event account_id tool chat_id new_dialog at) kinds events in
    record {
      events = events';
      slot = record { event_ids = ids; account_id = account_id };
      wait = wait;
    }

unfoldable pub is_new_dialog : Plan → List WriteEvent → Kind → Option ℤ → Bool
is_new_dialog plan rows kind chat_id =
    chat_known kind chat_id (λ c. not plan.history && not (sent_to rows plan.eff.account_id c))

abbrev pub or_raise {ℓ} : {A : Type ℓ} → Option WriteLimited → Result A → Result A
or_raise none r = r
or_raise (some exc) r = raised exc

-- `reserve` under the lock, at the time `now`.
unfoldable pub reserve_locked :
    Plan → Kind → String → Option ℤ → (ℕ → ℕ) → ℕ → Events → Result Taken
unfolding take_slot
reserve_locked plan kind tool chat_id jitter now events =
    let id = plan.eff.account_id in
    let rows = prune id now events.rows in
    let new_dialog = is_new_dialog plan rows kind chat_id in
    let at = planned plan.limits jitter rows id kind now in
    or_raise (check_windows rows plan.eff plan.limits tool ((kind, 1) ∷ []) now new_dialog) (
      if ltb (max_wait_sec * second) (at - now)
      then raised (queue_refusal plan.eff plan.limits tool (at - now))
      else ok (
          take_slot id tool chat_id new_dialog at (at - now) (kind ∷ [])
            (record events { rows = rows })))

abbrev locked_if : Result (Option Plan) → (Plan → Result Taken) → Result (Option Taken)
locked_if (raised exc) k = raised exc
locked_if (ok none) k = ok none
locked_if (ok (some plan)) k = elim (k plan) [ raised exc ↦ raised exc | ok t ↦ ok (some t) ]

-- The whole of `reserve`: `before` is the table at its first reads, `events` under the lock.
unfoldable pub reserve :
    Tables
    → Archive
    → List WriteEvent
    → ℕ
    → Kind
    → String
    → Option ℤ
    → (ℕ → ℕ)
    → ℕ
    → Events
    → Result (Option Taken)
reserve db archive before account_id kind tool chat_id jitter now events =
    locked_if (prepare db before archive account_id kind tool chat_id)
      (λ plan. reserve_locked plan kind tool chat_id jitter now events)

-- `[... for kind, n in needs.items() for _ in range(n)]`
unfoldable pub bundle_kinds : Needs → List Kind
bundle_kinds [] = []
bundle_kinds ((k, n) ∷ needs) = replicate n k ++ bundle_kinds needs

-- `reserve_bundle` under the lock.
unfoldable pub bundle_locked :
    Effective → Limits → String → Needs → Option ℤ → ℕ → Events → Result Taken
unfolding take_slot
bundle_locked eff limits tool needs chat_id now events =
    let rows = prune eff.account_id now events.rows in
    or_raise (check_windows rows eff limits tool needs now false) (
      ok (
        take_slot eff.account_id tool chat_id false now 0 (bundle_kinds needs)
          (record events { rows = rows })))

bundle_limited :
    Effective → Option Limits → String → Needs → Option ℤ → ℕ → Events → Result (Option Taken)
bundle_limited eff none tool needs chat_id now events = ok none
bundle_limited eff (some limits) tool needs chat_id now events =
    if not limits.enabled
    then raised (disabled eff tool)
    else elim (bundle_locked eff limits tool needs chat_id now events) [
      | raised exc ↦ raised exc
      | ok t ↦ ok (some t)
    ]

unfoldable pub reserve_bundle :
    Tables → ℕ → String → Needs → Option ℤ → ℕ → Events → Result (Option Taken)
unfolding bundle_limited
reserve_bundle db account_id tool needs chat_id now events = elim (effective db account_id) [
  | none ↦ ok none
  | some eff ↦ bundle_limited eff eff.limits tool needs chat_id now events
]

-- DELETE of the slot's events.
unfoldable pub release : Slot → List WriteEvent → List WriteEvent
release slot = filter (λ e. not (any (λ i. i == e.id) slot.event_ids))

-- How the body of a slot ends: it returns, it fails for sure, or its outcome is unknown.
pub data Outcome : Type 0 where
  returned failed uncertain : Outcome

-- The end of `write_slot` and of `bundle_slot`.
unfoldable pub exit_slot : Option Slot → Outcome → List WriteEvent → List WriteEvent
exit_slot (some slot) failed rows = release slot rows
exit_slot _ _ rows = rows
