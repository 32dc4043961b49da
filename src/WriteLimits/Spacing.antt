-- ===== src/WriteLimits/Spacing.antt =====
-- app/authz/write_limits.py: the pause between the sends of an account.
use tg_my_person.Prelude.{
  ℕ, ◌+◌, ◌*◌, ◌≤◌, ◌<◌, ◌≡◌, Bool, true, Option, none, some, List, [], ◌∷◌, String, arith, All,
  All-filter, All-map, filter, ℤ,
}
use tg_my_person.WriteLimits.Settings.{Kind, send, Limits}
use tg_my_person.WriteLimits.Counters.{second, WriteEvent, same_kind, is_send_of, last_send}
use tg_my_person.WriteLimits.Reserve.{
  ok, Events, Plan, Taken, planned, reserve_locked, prune, max_wait_sec,
}
use tg_my_person.WriteLimits.Admission.{inserted, kept, reserve_locked-Reserved}

-- Of two sends of the account, the later row is planned at least `gap` after the earlier one.
abbrev pub IsApart : ℕ → ℕ → WriteEvent → WriteEvent → Type 0
IsApart account gap e d =
    is_send_of account e ≡ true → is_send_of account d ≡ true → d.at + gap ≤ e.at

abbrev pub IsSpaced : ℕ → ℕ → List WriteEvent → Type 0
IsSpaced account gap [] = Unit
IsSpaced account gap (e ∷ es) = All (IsApart account gap e) es × IsSpaced account gap es

-- The settings ask for a pause of `gap` at least.
abbrev pub AsksFor : ℕ → Limits → Type 0
AsksFor gap limits = (n : ℕ) × (limits.min_interval_sec ≡ some n) × (0 < n) × (gap ≤ n * second)

filter-IsSpaced :
    (account gap : ℕ) (p : WriteEvent → Bool) (rows : List WriteEvent)
    → IsSpaced account gap rows
    → IsSpaced account gap (filter p rows)
filter-IsSpaced account gap p [] h = tt
filter-IsSpaced account gap p (e ∷ es) (h, hs) =
    ground (arith, All-filter (IsApart account gap e) p es h, filter-IsSpaced account gap p es hs)

abbrev IsAtMost : Option ℕ → ℕ → Type 0
IsAtMost none a = ⊥
IsAtMost (some l) a = a ≤ l

last_send_cons :
    (account a : ℕ) (e : WriteEvent) (es : List WriteEvent)
    → IsAtMost (last_send es account) a
    → IsAtMost (last_send (e ∷ es) account) a
unfolding last_send
last_send_cons account a e es h = ground arith

last_send_head :
    (account : ℕ) (e : WriteEvent) (es : List WriteEvent)
    → is_send_of account e ≡ true
    → IsAtMost (last_send (e ∷ es) account) e.at
unfolding last_send
last_send_head account e es h = ground arith

-- No send is planned after the last one.
le-last_send :
    (account : ℕ) (rows : List WriteEvent)
    → All (λ d. is_send_of account d ≡ true → IsAtMost (last_send rows account) d.at) rows
le-last_send account [] = tt
le-last_send account (e ∷ es) = (
  last_send_head account e es,
  All-map (λ d. is_send_of account d ≡ true → IsAtMost (last_send es account) d.at)
      (λ d. is_send_of account d ≡ true → IsAtMost (last_send (e ∷ es) account) d.at) es
      (λ d h s. last_send_cons account d.at e es (h s)) (le-last_send account es),
)

planned_after :
    (limits : Limits) (jitter : ℕ → ℕ) (rows : List WriteEvent) (id now gap a : ℕ)
    → AsksFor gap limits
    → IsAtMost (last_send rows id) a
    → a + gap ≤ planned limits jitter rows id send now
unfolding planned
planned_after limits jitter rows id now gap a (n, set, pos, small) h = ground arith

apart :
    (limits : Limits) (jitter : ℕ → ℕ) (rows : List WriteEvent) (id now gap a : ℕ) (kind : Kind)
    → AsksFor gap limits
    → IsAtMost (last_send rows id) a
    → same_kind kind send ≡ true
    → a + gap ≤ planned limits jitter rows id kind now
unfolding same_kind
apart limits jitter rows id now gap a send h b s = planned_after limits jitter rows id now gap a h b
apart limits jitter rows id now gap a _ h b s = absurd (cc)

-- Where the settings of the sends ask for a pause of `gap` at least, a call that commits keeps any
-- two sends of its account that far apart, and plans a send at most 15 seconds ahead.
pub spacing :
    (gap : ℕ) (plan : Plan) (kind : Kind) (tool : String) (chat_id : Option ℤ) (jitter : ℕ → ℕ)
    (now : ℕ) (events : Events) (t : Taken)
    → AsksFor gap plan.limits
    → reserve_locked plan kind tool chat_id jitter now events ≡ ok t
    → IsSpaced plan.eff.account_id gap events.rows
    → IsSpaced plan.eff.account_id gap t.events.rows × (t.wait ≤ max_wait_sec * second)
unfolding prune
spacing gap plan kind tool chat_id jitter now events t asks e h =
    let r = reserve_locked-Reserved plan kind tool chat_id jitter now events t e in
    let id = plan.eff.account_id in
    let rows = kept plan kind tool chat_id jitter now events t in
    (
      rw r.rows (
        All-map (λ d. is_send_of id d ≡ true → IsAtMost (last_send rows id) d.at)
            (IsApart id gap (inserted plan kind tool chat_id jitter now events t)) rows
            (λ d b s k.
              apart plan.limits jitter rows id now gap d.at kind asks (b k) (ground arith))
            (le-last_send id rows),
        filter-IsSpaced id gap _ events.rows h,
      ),
      rw r.wait r.soon,
    )
