-- ===== src/WriteLimits/Sliding.antt =====
-- app/authz/write_limits.py: the windows along the steps of a world.
use mathlib.Core.List.{Memᴰ}
use mathlib.Core.Path.{subst, ap₂}
use native.Mathlib.Decide.{ℕ_discrete}
use tg_my_person.Prelude.{
  ℕ, ◌+◌, ◌≤◌, ◌<◌, ◌≡◌, refl, sym, ap, ◌∙◌, ◌≢◌, inl, inr, Bool, true, not, ◌&&◌, List, [], ◌∷◌,
  ◌++◌, arith, All, ltb, leb, ◌==◌, Bool-cases, count, count-append, count_mono, count-filter,
  count-filter_le, filter, filter-append, filter-filter, filter_congr, filter_comm, any,
}
use tg_my_person.WriteLimits.Settings.{Limits}
use tg_my_person.WriteLimits.Counters.{
  span, retention, Window, windows, WriteEvent, belongs, count_window,
}
use tg_my_person.WriteLimits.Reserve.{Events, Slot, prune, release}
use tg_my_person.WriteLimits.Admission.{
  Admitted, mem-All, windows_short, inserted, reserve_locked-Reserved, reserve-Admitted,
}
use tg_my_person.WriteLimits.Bundle.{added, bundle_locked-Bundled, bundle-Admitted}
use tg_my_person.WriteLimits.World.{
  World, during, IsBounded, Step, passes, reserves, bundles, releases, Reach, here, next,
}

abbrev keeps : ℕ → WriteEvent → Bool
keeps p e = leb p (e.at + retention)

-- The table holds the log's events that are not older than the last pruning, and no window has
-- ever held more than its bound.
record IsSound (account : ℕ) (w : Window) (bound : ℕ) (s : World) : Type 0 where
  pruned : ℕ
  pruned_before : pruned ≤ s.now
  same :
      filter (belongs account w) s.table.rows
      ≡ filter (λ e. belongs account w e && keeps pruned e) s.log
  within : (t : ℕ) → count (during account w t) s.log ≤ bound

module _ (account : ℕ) (w : Window) where
  own_prune :
      (now pruned : ℕ) (rows log : List WriteEvent)
      → pruned ≤ now
      → filter (belongs account w) rows ≡ filter (λ e. belongs account w e && keeps pruned e) log
      → filter (belongs account w) (prune account now rows)
        ≡ filter (λ e. belongs account w e && keeps now e) log
  unfolding prune belongs
  own_prune now pruned rows log h same =
      filter-filter (belongs account w)
        (λ e. not (e.account_id == account && ltb (e.at + retention) now)) rows
      ∙ filter_congr _ (λ e. belongs account w e && keeps now e) (λ e. ground arith) rows
      ∙ sym (filter-filter (keeps now) (belongs account w) rows)
      ∙ ap (filter (keeps now)) same
      ∙ filter-filter (keeps now) (λ e. belongs account w e && keeps pruned e) log
      ∙ filter_congr _ (λ e. belongs account w e && keeps now e) (λ e. ground arith) log

  other_prune :
      (id now : ℕ) (rows : List WriteEvent)
      → id ≢ account
      → filter (belongs account w) (prune id now rows) ≡ filter (belongs account w) rows
  unfolding prune belongs
  other_prune id now rows h =
      filter-filter (belongs account w)
        (λ e. not (e.account_id == id && ltb (e.at + retention) now)) rows
      ∙ filter_congr _ (belongs account w) (λ e. ground arith) rows

  -- Rows of another account are none of the window's.
  filter_foreign :
      (id : ℕ) (p : WriteEvent → Bool) (new : List WriteEvent)
      → id ≢ account
      → ((e : WriteEvent) → p e ≡ true → belongs account w e ≡ true)
      → All (λ e. e.account_id ≡ id) new
      → filter p new ≡ []
  unfolding belongs
  filter_foreign id p [] h q o = refl
  filter_foreign id p (e ∷ es) h q (o, os) = ground (arith, q e, filter_foreign id p es h q os)

  count_foreign :
      (id : ℕ) (p : WriteEvent → Bool) (new : List WriteEvent)
      → id ≢ account
      → ((e : WriteEvent) → p e ≡ true → belongs account w e ≡ true)
      → All (λ e. e.account_id ≡ id) new
      → count p new ≡ 0
  unfolding belongs
  count_foreign id p [] h q o = refl
  count_foreign id p (e ∷ es) h q (o, os) = ground (arith, q e, count_foreign id p es h q os)

  -- Rows planned from `now` on are not older than a pruning at `now`, and fall in no window that
  -- ends before.
  filter_fresh :
      (now : ℕ) (new : List WriteEvent)
      → All (λ e. now ≤ e.at) new
      → filter (belongs account w) new ≡ filter (λ e. belongs account w e && keeps now e) new
  filter_fresh now [] h = refl
  filter_fresh now (e ∷ es) (h, hs) = ground (arith, filter_fresh now es hs)

  count_future :
      (now t : ℕ) (new : List WriteEvent)
      → All (λ e. now ≤ e.at) new
      → t < now
      → count (during account w t) new ≡ 0
  count_future now t [] h lt = refl
  count_future now t (e ∷ es) (h, hs) lt = ground (arith, count_future now t es hs lt)

module _ (account : ℕ) (w : Window) (short : span w ≤ retention) where
  -- The events of the log in a window that ends at `t` or later are in the table at `now`.
  log-le-table :
      (now t : ℕ) (rows log : List WriteEvent)
      → filter (belongs account w) rows ≡ filter (λ e. belongs account w e && keeps now e) log
      → now ≤ t
      → count (during account w t) log ≤ count_window rows account w now
  unfolding count_window
  log-le-table now t rows log same h =
      let recent = λ (e : WriteEvent). ltb now (e.at + span w) in
      let in_table =
        sym (count-filter recent (belongs account w) rows)
        ∙ ap (count recent) same
        ∙ count-filter recent (λ e. belongs account w e && keeps now e) log in
      let fewer =
        count_mono (during account w t) (λ e. (belongs account w e && keeps now e) && recent e)
          (λ e p. ground arith) log in
      omega (arith, in_table, fewer)

  own_within :
      (bound : ℕ) (limits : Limits) (now t : ℕ) (rows new log : List WriteEvent)
      → Admitted account limits now rows new w
      → IsBounded w bound limits
      → filter (belongs account w) rows ≡ filter (λ e. belongs account w e && keeps now e) log
      → count (during account w t) log ≤ bound
      → count (during account w t) (new ++ log) ≤ bound
  own_within bound limits now t rows new log a (l, set, small) same old =
      let split = count-append (during account w t) new log in
      let among = count_mono (during account w t) (belongs account w) (λ e p. ground arith) new in
      elim (Bool-cases (ltb t now)) [
        | inl before ↦
            omega (arith, split, count_future account w now t new a.not_before (ground arith), old)
        | inr after ↦
            let there = log-le-table now t rows log same (ground arith) in
            elim (a.room l set) [
              | inl zero_new ↦ omega (arith, split, among, zero_new, old)
              | inr fits ↦ omega (arith, split, among, fits, there, small)
            ]
      ]

  own-IsSound :
      (bound : ℕ) (limits : Limits) (s : World) (t : Events) (new : List WriteEvent)
      → Admitted account limits s.now (prune account s.now s.table.rows) new w
      → IsBounded w bound limits
      → t.rows ≡ new ++ prune account s.now s.table.rows
      → IsSound account w bound s
      → IsSound account w bound (record s { table = t; log = new ++ s.log })
  own-IsSound bound limits s t new a b e h =
      let same = own_prune account w s.now h.pruned s.table.rows s.log h.pruned_before h.same in
      record {
        pruned = s.now;
        pruned_before = omega arith;
        same =
            ap (filter (belongs account w)) e
            ∙ filter-append (belongs account w) new (prune account s.now s.table.rows)
            ∙ ap₂ ◌++◌ (filter_fresh account w s.now new a.not_before) same
            ∙ sym (filter-append (λ e. belongs account w e && keeps s.now e) new s.log);
        within = λ u.
            own_within bound limits s.now u (prune account s.now s.table.rows) new s.log a b same
              (h.within u);
      }

  other-IsSound :
      (bound id : ℕ) (s : World) (t : Events) (new : List WriteEvent)
      → id ≢ account
      → All (λ e. e.account_id ≡ id) new
      → t.rows ≡ new ++ prune id s.now s.table.rows
      → IsSound account w bound s
      → IsSound account w bound (record s { table = t; log = new ++ s.log })
  other-IsSound bound id s t new ne o e h =
      let kept_test = λ (e : WriteEvent). belongs account w e && keeps h.pruned e in
      record {
        pruned = h.pruned;
        pruned_before = h.pruned_before;
        same =
            ap (filter (belongs account w)) e
            ∙ filter-append (belongs account w) new (prune id s.now s.table.rows)
            ∙ ap₂ ◌++◌ (filter_foreign account w id (belongs account w) new ne (λ e p. p) o)
                (other_prune account w id s.now s.table.rows ne ∙ h.same)
            ∙ sym (
                filter-append kept_test new s.log
                ∙ ap (λ xs. xs ++ filter kept_test s.log)
                    (filter_foreign account w id kept_test new ne (λ e p. ground arith) o));
        within = λ u. omega (
          arith,
          count-append (during account w u) new s.log,
          count_foreign account w id (during account w u) new ne (λ e p. ground arith) o,
          h.within u,
        );
      }

  admit-IsSound :
      (bound : ℕ) (limits : Limits) (id : ℕ) (s : World) (t : Events) (new : List WriteEvent)
      → Admitted id limits s.now (prune id s.now s.table.rows) new w
      → (id ≡ account → IsBounded w bound limits)
      → t.rows ≡ new ++ prune id s.now s.table.rows
      → IsSound account w bound s
      → IsSound account w bound (record s { table = t; log = new ++ s.log })
  admit-IsSound bound limits id s t new a b e h = elim (ℕ_discrete id account) [
    | yes p ↦
        own-IsSound bound limits s t new
          (subst (λ i. Admitted i limits s.now (prune i s.now s.table.rows) new w) p a) (b p)
          (subst (λ i. t.rows ≡ new ++ prune i s.now s.table.rows) p e) h
    | no n ↦ other-IsSound bound id s t new n a.owner e h
  ]

  release-IsSound :
      (bound : ℕ) (s : World) (slot : Slot)
      → IsSound account w bound s
      → IsSound account w bound (record s {
        table = record s.table { rows = release slot s.table.rows };
        log = release slot s.log;
      })
  unfolding release
  release-IsSound bound s slot h =
      let stays = λ (e : WriteEvent). not (any (λ i. i == e.id) slot.event_ids) in
      let kept_test = λ (e : WriteEvent). belongs account w e && keeps h.pruned e in
      record {
        pruned = h.pruned;
        pruned_before = h.pruned_before;
        same =
            filter_comm stays (belongs account w) s.table.rows
            ∙ ap (filter stays) h.same
            ∙ filter_comm kept_test stays s.log;
        within = λ u. omega (arith, count-filter_le (during account w u) stays s.log, h.within u);
      }

Step-IsSound :
    {account : ℕ} {w : Window} {bound : ℕ} {s u : World}
    → Memᴰ w windows
    → Step account w bound s u
    → IsSound account w bound s
    → IsSound account w bound u
Step-IsSound m (passes s later le) h = record {
  pruned = h.pruned;
  pruned_before = omega (arith, h.pruned_before);
  same = h.same;
  within = h.within;
}
Step-IsSound {account} {w} {bound} m (reserves s plan kind tool chat_id jitter t b e) h =
    let r = reserve_locked-Reserved plan kind tool chat_id jitter s.now s.table t e in
    admit-IsSound account w (mem-All (λ v. span v ≤ retention) windows windows_short m) bound
      plan.limits plan.eff.account_id s t.events
      (inserted plan kind tool chat_id jitter s.now s.table t ∷ [])
      (reserve-Admitted plan kind tool chat_id jitter s.now s.table t m r) b r.rows h
Step-IsSound {account} {w} {bound} m (bundles s eff limits tool needs chat_id t b d e) h =
    let r = bundle_locked-Bundled eff limits tool needs chat_id s.now s.table t e in
    admit-IsSound account w (mem-All (λ v. span v ≤ retention) windows windows_short m) bound limits
      eff.account_id s t.events (added eff limits tool needs chat_id s.now s.table t)
      (bundle-Admitted eff limits tool needs chat_id s.now s.table t m d r) b r.rows h
Step-IsSound {account} {w} {bound} m (releases s slot) h =
    release-IsSound account w (mem-All (λ v. span v ≤ retention) windows windows_short m) bound s
      slot h

Reach-IsSound :
    {account : ℕ} {w : Window} {bound : ℕ} {s u : World}
    → Memᴰ w windows
    → IsSound account w bound s
    → Reach account w bound s u
    → IsSound account w bound u
Reach-IsSound m h here = h
Reach-IsSound m h (next r st) = Step-IsSound m st (Reach-IsSound m h r)

abbrev pub empty : World
empty = record { now = 0; table = record { rows = []; next_id = 1 }; log = [] }

-- From an empty table, whatever the accounts do and however the settings of `account` change below
-- the bound: no window of the length of `w`, wherever it ends, holds more events of the account that
-- `w` counts than the bound, the pruned events included and those given back left out.
pub sliding_bound :
    (account : ℕ) (w : Window) (bound : ℕ) (s : World) (t : ℕ)
    → Memᴰ w windows
    → Reach account w bound empty s
    → count (during account w t) s.log ≤ bound
sliding_bound account w bound s t m r =
    (Reach-IsSound m
        (record { pruned = 0; pruned_before = omega arith; same = refl; within = λ u. omega arith })
        r).within
      t
