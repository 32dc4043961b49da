-- ===== src/WriteLimits/World.antt =====
-- app/authz/write_limits.py: the calls of all accounts as steps of a world, and time.
use tg_my_person.Prelude.{ℕ, ◌≤◌, ◌≡◌, Bool, ◌&&◌, Option, some, List, ◌∷◌, ◌++◌, String, leb, ℤ}
use tg_my_person.WriteLimits.Settings.{Kind, Limits, Effective}
use tg_my_person.WriteLimits.Counters.{Window, limit_of, WriteEvent, in_window}
use tg_my_person.WriteLimits.Windows.{Needs}
use tg_my_person.WriteLimits.Reserve.{
  ok, Events, Slot, Plan, Taken, reserve_locked, bundle_locked, release,
}
use tg_my_person.WriteLimits.Admission.{inserted}
use tg_my_person.WriteLimits.Bundle.{HasDistinctKinds, added}

-- The time, the table, and every event that was ever reserved and not given back: the table has
-- lost those that a later call pruned.
pub record World : Type 0 where
  pub now : ℕ
  pub table : Events
  pub log : List WriteEvent

-- The events of the account that the window counts, in the window that ends at `t`.
abbrev pub during : ℕ → Window → ℕ → WriteEvent → Bool
during account w t e = in_window account w t e && leb e.at t

abbrev pub IsBounded : Window → ℕ → Limits → Type 0
IsBounded w bound limits = (l : ℕ) × (limit_of limits w.name ≡ some l) × (l ≤ bound)

-- One step: time passes, a transaction commits, or a slot is given back. The settings of the
-- account may change between the calls; each sets the window's limit to `bound` at most.
pub data Step (account : ℕ) (w : Window) (bound : ℕ) : World → World → Type 0 where
  passes :
      (s : World) (later : ℕ) → s.now ≤ later → Step account w bound s (record s { now = later })
  reserves :
      (s : World) (plan : Plan) (kind : Kind) (tool : String) (chat_id : Option ℤ) (jitter : ℕ → ℕ)
      (t : Taken)
      → (plan.eff.account_id ≡ account → IsBounded w bound plan.limits)
      → reserve_locked plan kind tool chat_id jitter s.now s.table ≡ ok t
      → Step account w bound s (record s {
        table = t.events;
        log = inserted plan kind tool chat_id jitter s.now s.table t ∷ s.log;
      })
  bundles :
      (s : World) (eff : Effective) (limits : Limits) (tool : String) (needs : Needs)
      (chat_id : Option ℤ) (t : Taken)
      → (eff.account_id ≡ account → IsBounded w bound limits)
      → HasDistinctKinds needs
      → bundle_locked eff limits tool needs chat_id s.now s.table ≡ ok t
      → Step account w bound s (record s {
        table = t.events;
        log = added eff limits tool needs chat_id s.now s.table t ++ s.log;
      })
  releases :
      (s : World) (slot : Slot)
      → Step account w bound s (record s {
        table = record s.table { rows = release slot s.table.rows };
        log = release slot s.log;
      })

pub data Reach (account : ℕ) (w : Window) (bound : ℕ) (s : World) : World → Type 0 where
  here : Reach account w bound s s
  next :
      {t u : World}
      → Reach account w bound s t
      → Step account w bound t u
      → Reach account w bound s u
