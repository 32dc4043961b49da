-- ===== src/WriteLimits/Admission.antt =====
-- app/authz/write_limits.py: a locked transaction that commits.
use mathlib.Core.List.{Memᴰ}
use tg_my_person.Prelude.{
  ℕ, suc, ◌+◌, ◌-◌, ◌*◌, ◌≤◌, ◌≡◌, refl, ◌⊎◌, Bool, true, Option, none, some, List, [], ◌∷◌, String,
  arith, All, count, ℤ,
}
use tg_my_person.WriteLimits.Settings.{Kind, Limits}
use tg_my_person.WriteLimits.Counters.{
  second, span, retention, Window, windows, limit_of, WriteEvent, belongs, count_window, same_kind,
}
use tg_my_person.WriteLimits.Windows.{need, check_windows, WriteLimited}
use tg_my_person.WriteLimits.Reserve.{
  Result, ok, Events, Plan, Taken, prune, is_new_dialog, planned, insert_all, reserve_locked,
  take_slot, event, or_raise, max_wait_sec,
}
use tg_my_person.WriteLimits.Fits.{IsActive, Fits, check_windows-none_iff}

-- The rows `new` of the account `id` enter the table `rows` at the time `now`: none is planned
-- earlier, and those that the window `w` counts fit its limit next to the ones in it.
pub record Admitted (id : ℕ) (limits : Limits) (now : ℕ) (rows new : List WriteEvent) (w : Window)
    : Type 0 where
  pub owner : All (λ e. e.account_id ≡ id) new
  pub not_before : All (λ e. now ≤ e.at) new
  pub room :
      (limit : ℕ)
      → limit_of limits w.name ≡ some limit
      → (count (belongs id w) new ≡ 0)
        ⊎ (count_window rows id w now + count (belongs id w) new ≤ limit)

same_kind_eq : (k j : Kind) → same_kind k j ≡ true → k ≡ j
unfolding same_kind
same_kind_eq k j h = ground arith

pub or_raise-ok {ℓ} :
    {A : Type ℓ} {t : A} (exc : Option WriteLimited) (r : Result A)
    → or_raise exc r ≡ ok t
    → (exc ≡ none) × (r ≡ ok t)
or_raise-ok none r h = (refl, h)
or_raise-ok (some exc) r h = absurd (cc)

module _ (plan : Plan) (kind : Kind) (tool : String) (chat_id : Option ℤ) (jitter : ℕ → ℕ) (now : ℕ)
    (events : Events) (t : Taken) where
  -- The table as the transaction's DELETE leaves it, and the row that it inserts.
  abbrev pub kept : List WriteEvent
  kept = prune plan.eff.account_id now events.rows

  abbrev pub sent_at : ℕ
  sent_at = planned plan.limits jitter kept plan.eff.account_id kind now

  abbrev pub inserted : WriteEvent
  inserted =
      event plan.eff.account_id tool chat_id (is_new_dialog plan kept kind chat_id) sent_at
        events.next_id kind

  -- Everything that a `reserve` which returns has found and done.
  pub record Reserved : Type 0 where
    pub passed :
        check_windows kept plan.eff plan.limits tool
          ((kind, 1) ∷ [])
          now
          (is_new_dialog plan kept kind chat_id)
        ≡ none
    pub soon : sent_at - now ≤ max_wait_sec * second
    pub rows : t.events.rows ≡ inserted ∷ kept
    pub next_id : t.events.next_id ≡ suc events.next_id
    pub ids : t.slot.event_ids ≡ events.next_id ∷ []
    pub wait : t.wait ≡ sent_at - now

  pub reserve_locked-Reserved :
      reserve_locked plan kind tool chat_id jitter now events ≡ ok t → Reserved
  unfolding reserve_locked take_slot insert_all
  reserve_locked-Reserved e =
      let (passed, rest) = or_raise-ok _ _ e in
      record {
        passed = passed;
        soon = ground arith;
        rows = ground arith;
        next_id = ground arith;
        ids = ground arith;
        wait = ground arith;
      }

pub now-le-planned :
    (limits : Limits) (jitter : ℕ → ℕ) (rows : List WriteEvent) (id : ℕ) (kind : Kind) (now : ℕ)
    → now ≤ planned limits jitter rows id kind now
unfolding planned
now-le-planned limits jitter rows id kind now = ground arith

pub mem-All {ℓ κ} : {A : Type ℓ} (P : A → Type κ) {x : A} (xs : List A) → All P xs → Memᴰ x xs → P x
mem-All P [] h m = elim m [ ]
mem-All P (y ∷ ys) (h, hs) (Memᴰ.head e) = rw e h
mem-All P (y ∷ ys) (h, hs) (Memᴰ.tail m) = mem-All P ys hs m

room_of_fits :
    (id : ℕ) (kind : Kind) (nd : Bool) (w : Window) (e : WriteEvent) (rows : List WriteEvent)
    (now limit : ℕ)
    → e.account_id ≡ id
    → e.kind ≡ kind
    → e.new_dialog ≡ nd
    → (IsActive ((kind, 1) ∷ []) nd w
        → count_window rows id w now + need ((kind, 1) ∷ []) w.kind ≤ limit)
    → (count (belongs id w) (e ∷ []) ≡ 0)
      ⊎ (count_window rows id w now + count (belongs id w) (e ∷ []) ≤ limit)
unfolding belongs need
room_of_fits id kind nd w e rows now limit a k d h = ground arith

pub reserve-Admitted :
    (plan : Plan) (kind : Kind) (tool : String) (chat_id : Option ℤ) (jitter : ℕ → ℕ) (now : ℕ)
    (events : Events) (t : Taken) {w : Window}
    → Memᴰ w windows
    → Reserved plan kind tool chat_id jitter now events t
    → Admitted plan.eff.account_id plan.limits now
        (kept plan kind tool chat_id jitter now events t)
        (inserted plan kind tool chat_id jitter now events t ∷ [])
        w
reserve-Admitted plan kind tool chat_id jitter now events t {w} m r =
    let rows = kept plan kind tool chat_id jitter now events t in
    let nd = is_new_dialog plan rows kind chat_id in
    let fits =
      mem-All (Fits rows plan.eff.account_id plan.limits ((kind, 1) ∷ []) now nd) windows
        ((check_windows-none_iff rows plan.eff plan.limits tool ((kind, 1) ∷ []) now nd).0 r.passed)
        m in
    record {
      owner = (refl, tt);
      not_before = (now-le-planned plan.limits jitter rows plan.eff.account_id kind now, tt);
      room = λ limit set.
          room_of_fits plan.eff.account_id kind nd w
            (inserted plan kind tool chat_id jitter now events t) rows now limit refl refl refl
            (fits limit set);
    }

-- All the windows are shorter than the retention.
pub windows_short : All (λ w. span w ≤ retention) windows
windows_short = omega arith
