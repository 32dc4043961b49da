-- ===== src/WriteLimits/Bundle.antt =====
-- app/authz/write_limits.py: a `reserve_bundle` that returns.
use mathlib.Core.List.{Memᴰ, append_assoc}
use tg_my_person.Prelude.{
  ℕ, zero, suc, ◌≤◌, ◌≡◌, refl, sym, ap, ◌∙◌, inl, inr, Bool, true, false, Option, none, List, [],
  ◌∷◌, ◌++◌, String, arith, All, All-append, Bool-cases, count, count-append, any, replicate,
  if◌then◌else◌, ℤ, length,
}
use tg_my_person.WriteLimits.Settings.{Kind, Limits, Effective}
use tg_my_person.WriteLimits.Counters.{Window, windows, WriteEvent, belongs, same_kind}
use tg_my_person.WriteLimits.Windows.{Needs, need, check_windows}
use tg_my_person.WriteLimits.Reserve.{
  ok, Events, Taken, prune, insert_all, take_slot, event, bundle_kinds, bundle_locked,
}
use tg_my_person.WriteLimits.Fits.{Fits, check_windows-none_iff}
use tg_my_person.WriteLimits.Admission.{Admitted, or_raise-ok, mem-All}

-- The rows that an INSERT of several adds, the last one first.
unfoldable pub new_rows : (ℕ → Kind → WriteEvent) → List Kind → ℕ → List WriteEvent
new_rows make [] id = []
new_rows make (k ∷ ks) id = new_rows make ks (suc id) ++ make id k ∷ []

module _ (make : ℕ → Kind → WriteEvent) where
  pub insert_all-rows :
      (ks : List Kind) (ev : Events)
      → (insert_all make ks ev).0.rows ≡ new_rows make ks ev.next_id ++ ev.rows
  unfolding insert_all new_rows
  insert_all-rows [] ev = refl
  insert_all-rows (k ∷ ks) ev =
      insert_all-rows ks (record { rows = make ev.next_id k ∷ ev.rows; next_id = suc ev.next_id })
      ∙ sym (append_assoc (new_rows make ks (suc ev.next_id)) (make ev.next_id k ∷ []) ev.rows)

  insert_all-ids : (ks : List Kind) (ev : Events) → length (insert_all make ks ev).1 ≡ length ks
  unfolding insert_all
  insert_all-ids [] ev = refl
  insert_all-ids (k ∷ ks) ev =
      ap suc (
        insert_all-ids ks (record { rows = make ev.next_id k ∷ ev.rows; next_id = suc ev.next_id }))

  All-new_rows :
      (P : WriteEvent → Type 0)
      → ((id : ℕ) (k : Kind) → P (make id k))
      → (ks : List Kind) (id : ℕ) → All P (new_rows make ks id)
  unfolding new_rows
  All-new_rows P h [] id = tt
  All-new_rows P h (k ∷ ks) id =
      All-append P (new_rows make ks (suc id)) (make id k ∷ []) (All-new_rows P h ks (suc id))
        (h id k, tt)

  count-new_rows :
      (p : WriteEvent → Bool) (q : Kind → Bool)
      → ((id : ℕ) (k : Kind) → p (make id k) ≡ q k)
      → (ks : List Kind) (id : ℕ) → count p (new_rows make ks id) ≡ count q ks
  unfolding new_rows
  count-new_rows p q h [] id = refl
  count-new_rows p q h (k ∷ ks) id = ground (
    arith,
    count-append p (new_rows make ks (suc id)) (make id k ∷ []),
    count-new_rows p q h ks (suc id),
    h id k,
  )

-- A dict has each key once.
abbrev pub HasDistinctKinds : Needs → Type 0
HasDistinctKinds [] = Unit
HasDistinctKinds ((k, n) ∷ needs) =
    All (λ item. same_kind item.0 k ≡ false) needs × HasDistinctKinds needs

count-replicate :
    (k j : Kind) (n : ℕ)
    → count (λ i. same_kind i j) (replicate n k) ≡ (if same_kind k j then n else 0)
count-replicate k j zero = ground arith
count-replicate k j (suc n) = ground (arith, count-replicate k j n)

same_kind_trans :
    (a b c : Kind) → same_kind a c ≡ true → same_kind b c ≡ true → same_kind a b ≡ true
unfolding same_kind
same_kind_trans a b c p q = ground arith

count_of_others :
    (k j : Kind) (needs : Needs)
    → same_kind k j ≡ true
    → All (λ item. same_kind item.0 k ≡ false) needs
    → count (λ i. same_kind i j) (bundle_kinds needs) ≡ 0
unfolding bundle_kinds
count_of_others k j [] e h = refl
count_of_others k j ((i, n) ∷ needs) e (h, hs) = ground (
  arith,
  count-append (λ x. same_kind x j) (replicate n i) (bundle_kinds needs),
  count-replicate i j n,
  count_of_others k j needs e hs,
  same_kind_trans i k j,
)

-- A bundle has as many events of a kind as it needs of it.
pub count-bundle_kinds :
    (j : Kind) (needs : Needs)
    → HasDistinctKinds needs
    → count (λ i. same_kind i j) (bundle_kinds needs) ≡ need needs j
unfolding bundle_kinds need
count-bundle_kinds j [] h = refl
count-bundle_kinds j ((k, n) ∷ needs) (h, hs) = ground (
  arith,
  count-append (λ x. same_kind x j) (replicate n k) (bundle_kinds needs),
  count-replicate k j n,
  count_of_others k j needs,
  count-bundle_kinds j needs hs,
)

module _ (eff : Effective) (limits : Limits) (tool : String) (needs : Needs) (chat_id : Option ℤ)
    (now : ℕ) (events : Events) (t : Taken) where
  abbrev pub kept_rows : List WriteEvent
  kept_rows = prune eff.account_id now events.rows

  abbrev pub added : List WriteEvent
  added = new_rows (event eff.account_id tool chat_id false now) (bundle_kinds needs) events.next_id

  pub record Bundled : Type 0 where
    pub passed : check_windows kept_rows eff limits tool needs now false ≡ none
    pub rows : t.events.rows ≡ added ++ kept_rows
    pub size : length t.slot.event_ids ≡ length (bundle_kinds needs)

  pub bundle_locked-Bundled :
      bundle_locked eff limits tool needs chat_id now events ≡ ok t → Bundled
  unfolding bundle_locked take_slot
  bundle_locked-Bundled e =
      let (passed, rest) = or_raise-ok _ _ e in
      let make = event eff.account_id tool chat_id false now in
      let start : Events = record { rows = kept_rows; next_id = events.next_id } in
      record {
        passed = passed;
        rows = ground (arith, insert_all-rows make (bundle_kinds needs) start);
        size = ground (arith, insert_all-ids make (bundle_kinds needs) start);
      }

count-false {ℓ} : {A : Type ℓ} (xs : List A) → count (λ x. false) xs ≡ 0
count-false [] = refl
count-false (x ∷ xs) = count-false xs

-- The rows of a bundle that a window counts: as many as it needs of the window's kind, and none
-- where the window counts new dialogs.
count-added :
    (eff : Effective) (tool : String) (needs : Needs) (chat_id : Option ℤ) (now first : ℕ)
    (w : Window)
    → HasDistinctKinds needs
    → count
        (belongs eff.account_id w)
        (new_rows (event eff.account_id tool chat_id false now) (bundle_kinds needs) first)
      ≡ (if w.new_dialogs_only then 0 else need needs w.kind)
unfolding belongs
count-added eff tool needs chat_id now first w d = elim (Bool-cases w.new_dialogs_only) [
  | inl only ↦
      count-new_rows (event eff.account_id tool chat_id false now) (belongs eff.account_id w)
        (λ k. false) (λ id k. ground arith) (bundle_kinds needs) first
      ∙ count-false (bundle_kinds needs)
      ∙ sym (rw only refl)
  | inr any ↦
      count-new_rows (event eff.account_id tool chat_id false now) (belongs eff.account_id w)
        (λ k. same_kind k w.kind) (λ id k. ground arith) (bundle_kinds needs) first
      ∙ count-bundle_kinds w.kind needs d
      ∙ sym (rw any refl)
]

pub bundle-Admitted :
    (eff : Effective) (limits : Limits) (tool : String) (needs : Needs) (chat_id : Option ℤ)
    (now : ℕ) (events : Events) (t : Taken) {w : Window}
    → Memᴰ w windows
    → HasDistinctKinds needs
    → Bundled eff limits tool needs chat_id now events t
    → Admitted eff.account_id limits now
        (kept_rows eff limits tool needs chat_id now events t)
        (added eff limits tool needs chat_id now events t)
        w
bundle-Admitted eff limits tool needs chat_id now events t {w} m d b =
    let rows = kept_rows eff limits tool needs chat_id now events t in
    let make = event eff.account_id tool chat_id false now in
    let fits =
      mem-All (Fits rows eff.account_id limits needs now false) windows
        ((check_windows-none_iff rows eff limits tool needs now false).0 b.passed) m in
    let size = count-added eff tool needs chat_id now events.next_id w d in
    record {
      owner =
          All-new_rows make (λ e. e.account_id ≡ eff.account_id) (λ id k. refl) (bundle_kinds needs)
            events.next_id;
      not_before =
          All-new_rows make (λ e. now ≤ e.at) (λ id k. omega arith) (bundle_kinds needs)
            events.next_id;
      room = λ limit set. ground (arith, fits limit set, size);
    }
