-- ===== src/WriteLimits/Dialogs.antt =====
-- app/authz/write_limits.py: new dialogs.
use mathlib.Core.Path.{subst}
use tg_my_person.Prelude.{
  count-filter_le, ℕ, ◌+◌, ◌≤◌, ◌≡◌, refl, Bool, true, false, not, ◌&&◌, Option, none, some, List,
  [], ◌∷◌, String, arith, ltb, ◌==◌, count, ℤ, ==ℤ_iff, Bool-cases, Option-cases, inl, inr, ◌⊎◌, ap,
}
use tg_my_person.WriteLimits.Settings.{Kind, send, Limits, Tables, Effective, effective}
use tg_my_person.WriteLimits.Counters.{
  WriteEvent, same_kind, is_send_of, same_chat, sent_to, retention,
}
use tg_my_person.WriteLimits.Reserve.{
  Result, ok, Events, Archive, Plan, Taken, lookup_limits, plan_of, prepare, has_history,
  is_new_dialog, reserve_locked, prune,
}
use tg_my_person.WriteLimits.Admission.{inserted, kept, reserve_locked-Reserved}

-- A row that opened a dialog of the account with the chat.
abbrev pub opens : ℕ → ℤ → WriteEvent → Bool
opens account chat e = is_send_of account e && same_chat e.chat_id chat && e.new_dialog

none_sent :
    (account : ℕ) (chat : ℤ) (rows : List WriteEvent)
    → sent_to rows account chat ≡ false
    → count (opens account chat) rows ≡ 0
unfolding sent_to
none_sent account chat [] h = refl
none_sent account chat (e ∷ es) h = ground (arith, none_sent account chat es)

opened_once :
    (plan : Plan) (kind : Kind) (tool : String) (chat_id : Option ℤ) (rows : List WriteEvent)
    (e : WriteEvent) (chat : ℤ)
    → e.kind ≡ kind
    → e.chat_id ≡ chat_id
    → e.new_dialog ≡ is_new_dialog plan rows kind chat_id
    → opens plan.eff.account_id chat e ≡ true
    → sent_to rows plan.eff.account_id chat ≡ false
unfolding is_new_dialog same_kind
opened_once plan send tool (some c) rows e chat k i d o = ground (arith, ==ℤ_iff c chat)
opened_once plan send tool none rows e chat k i d o = absurd (ground arith)
opened_once plan kind tool chat_id rows e chat k i d o = absurd (ground arith)

no_history :
    (plan : Plan) (kind : Kind) (tool : String) (chat_id : Option ℤ) (rows : List WriteEvent)
    (e : WriteEvent)
    → e.new_dialog ≡ is_new_dialog plan rows kind chat_id
    → e.new_dialog ≡ true
    → plan.history ≡ false
unfolding is_new_dialog
no_history plan send tool (some c) rows e d o = ground arith
no_history plan kind tool chat_id rows e d o = absurd (ground arith)

-- The plan that a prepared call goes on with.
abbrev plan_in : Plan → Result (Option Plan) → Plan
plan_in p (ok (some q)) = q
plan_in p _ = p

-- What `prepare` reads of the chat of a send.
abbrev WasRead : List WriteEvent → Archive → ℤ → Plan → Type 0
WasRead read archive c plan =
    plan.history ≡ (not (sent_to read plan.eff.account_id c) && has_history archive plan.eff c)

plan_read :
    (read : List WriteEvent) (archive : Archive) (eff : Effective) (tool : String) (c : ℤ)
    (limits : Option Limits) (plan : Plan)
    → plan_of read archive eff send tool (some c) limits ≡ ok (some plan)
    → WasRead read archive c plan
unfolding plan_of
plan_read read archive eff tool c none plan e = absurd (cc)
plan_read read archive eff tool c (some limits) plan e = elim (Bool-cases limits.enabled) [
  | inr off ↦ absurd (cc (rw off at e))
  | inl on ↦ subst (WasRead read archive c) (ap (plan_in plan) (rw on at e)) refl
]

prepare-WasRead :
    (db : Tables) (read : List WriteEvent) (archive : Archive) (account_id : ℕ) (tool : String)
    (c : ℤ) (plan : Plan)
    → prepare db read archive account_id send tool (some c) ≡ ok (some plan)
    → WasRead read archive c plan
unfolding prepare
prepare-WasRead db read archive account_id tool c plan e =
    elim (Option-cases (effective db account_id)) [
      | inl missing ↦ absurd (cc (rw (missing, prepare) at e))
      | inr (eff, found) ↦
          plan_read read archive eff tool c (lookup_limits send eff.limits) plan
            (rw (found, prepare) at e)
    ]

unread :
    (db : Tables) (read : List WriteEvent) (archive : Archive) (account_id : ℕ) (plan : Plan)
    (kind : Kind) (tool : String) (chat_id : Option ℤ) (rows : List WriteEvent) (e : WriteEvent)
    (chat : ℤ)
    → prepare db read archive account_id kind tool chat_id ≡ ok (some plan)
    → e.kind ≡ kind
    → e.chat_id ≡ chat_id
    → e.new_dialog ≡ is_new_dialog plan rows kind chat_id
    → opens plan.eff.account_id chat e ≡ true
    → (has_history archive plan.eff chat ≡ false) ⊎ (sent_to read plan.eff.account_id chat ≡ true)
unfolding is_new_dialog same_kind
unread db read archive account_id plan send tool (some c) rows e chat p k i d o =
    let same : c ≡ chat = ground (arith, ==ℤ_iff c chat) in
    let none_found = no_history plan send tool (some c) rows e d (ground arith) in
    let was_read =
      subst (λ n. WasRead read archive n plan) same
        (prepare-WasRead db read archive account_id tool c plan p) in
    elim (Bool-cases (sent_to read plan.eff.account_id chat)) [
      | inl sent ↦ inr sent
      | inr unsent ↦ inl (ground arith)
    ]
unread db read archive account_id plan send tool none rows e chat p k i d o = absurd (ground arith)
unread db read archive account_id plan kind tool chat_id rows e chat p k i d o =
    absurd (ground arith)

-- Of the account's events in the table, at most one opened the dialog with a chat: a call that
-- commits keeps this. Its own row opens the dialog with a chat only if, under the lock, no send to
-- the chat stands in the table after the old events are deleted, and if, at the call's first reads,
-- the archive held no message of the chat or a send to it stood in the table, old ones included, in
-- which case the archive is not read.
pub new_dialog_once :
    (db : Tables) (read : List WriteEvent) (archive : Archive) (account_id : ℕ) (plan : Plan)
    (kind : Kind) (tool : String) (chat_id : Option ℤ) (jitter : ℕ → ℕ) (now : ℕ) (events : Events)
    (t : Taken) (chat : ℤ)
    → prepare db read archive account_id kind tool chat_id ≡ ok (some plan)
    → reserve_locked plan kind tool chat_id jitter now events ≡ ok t
    → count (opens plan.eff.account_id chat) events.rows ≤ 1
    → (count (opens plan.eff.account_id chat) t.events.rows ≤ 1)
      × ((opens plan.eff.account_id chat (inserted plan kind tool chat_id jitter now events t)
            ≡ false)
          ⊎ ((sent_to (prune plan.eff.account_id now events.rows) plan.eff.account_id chat ≡ false)
              × ((has_history archive plan.eff chat ≡ false)
                  ⊎ (sent_to read plan.eff.account_id chat ≡ true))))
unfolding prune
new_dialog_once db read archive account_id plan kind tool chat_id jitter now events t chat p e h =
    let r = reserve_locked-Reserved plan kind tool chat_id jitter now events t e in
    let rows = kept plan kind tool chat_id jitter now events t in
    let row = inserted plan kind tool chat_id jitter now events t in
    let flagged = opened_once plan kind tool chat_id rows row chat refl refl refl in
    (
      rw r.rows (
          ground (
            arith,
            flagged,
            none_sent plan.eff.account_id chat rows,
            count-filter_le (opens plan.eff.account_id chat)
                (λ v. not (v.account_id == plan.eff.account_id && ltb (v.at + retention) now))
                events.rows,
          )),
      elim (Bool-cases (opens plan.eff.account_id chat row)) [
        | inr other ↦ inl other
        | inl o ↦ inr (
          flagged o,
          unread db read archive account_id plan kind tool chat_id rows row chat p refl refl refl o,
        )
      ],
    )
