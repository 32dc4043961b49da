-- ===== src/Authz/Decisions.antt =====
-- app/authz/policy.py: when a write is authorized.
use mathlib.Core.Path.{subst}
use tg_my_person.Prelude.{
  ℕ, ◌<◌, ◌≡◌, refl, ◌↔◌, ◌⊎◌, inl, inr, String, true, false, Option, none, some, List, arith,
  str_eq, any, ℤ, ◌==ℤ◌, Option-cases, Bool-cases,
}
use tg_my_person.Models.{Account}
use tg_my_person.Authz.Catalog.{contains, write_messenger_tools}
use tg_my_person.Authz.Policy.{
  AuthContext, PolicyTables, ModeCache, account_row, get_account_mode, get_tool_policy,
  writes_last_hour, row_guards, write_guards, authorize_write, authorize, is_effect, outside,
  reached,
}

-- The row's guards let a write to the chat pass.
abbrev pub IsGuarded : PolicyTables → ℕ → ℕ → Option ℤ → Account → Type 0
IsGuarded db time id chat a =
    ((c : ℤ) (ids : List ℤ)
      → chat ≡ some c
      → a.write_chat_ids ≡ some ids
      → any (λ i. i ==ℤ c) ids ≡ true)
    × ((rate : ℕ) → a.write_rate_per_hour ≡ some rate → writes_last_hour db time id < rate)

-- A write of the tool by the account is permitted.
pub record Permits (db : PolicyTables) (now time id : ℕ) (tool : String) (chat : Option ℤ)
    (cache : ModeCache) : Type 0 where
  pub not_denied : is_effect (get_tool_policy db id tool) "deny" ≡ false
  pub writable :
      (is_effect (get_tool_policy db id tool) "allow" ≡ true)
      ⊎ (str_eq (get_account_mode db now id cache).0 "ro" ≡ false)
  pub guarded :
      contains write_messenger_tools tool ≡ true
      → (a : Account) → account_row id db.accounts ≡ some a
      → IsGuarded db time id chat a

member_of :
    (c d : ℤ) (ids is : List ℤ)
    → c ≡ d
    → ids ≡ is
    → any (λ i. i ==ℤ c) ids ≡ true
    → any (λ i. i ==ℤ d) is ≡ true
member_of c d ids is p q h = rw (← p, ← q) h

outside_iff :
    (chat : Option ℤ) (list : Option (List ℤ))
    → (outside chat list ≡ none)
      ↔ ((c : ℤ) (ids : List ℤ) → chat ≡ some c → list ≡ some ids → any (λ i. i ==ℤ c) ids ≡ true)
outside_iff none list = (λ e c ids p q. absurd (cc), λ h. refl)
outside_iff (some c) none = (λ e d ids p q. absurd (cc), λ h. refl)
outside_iff (some c) (some ids) = (
  λ e d is p q. member_of c d ids is (ground arith) (ground arith) (ground arith),
  λ h. ground (arith, h c ids refl refl),
)

reached_iff :
    (rate : Option ℕ) (writes : ℕ)
    → (reached rate writes ≡ none) ↔ ((r : ℕ) → rate ≡ some r → writes < r)
reached_iff none writes = (λ e r p. absurd (cc), λ h. refl)
reached_iff (some rate) writes = (λ e r p. ground arith, λ h. ground (arith, h rate refl))

row_guards_iff :
    (o : Option ℤ) (r : Option ℕ) → ((row_guards o r).allowed ≡ true) ↔ ((o ≡ none) × (r ≡ none))
row_guards_iff (some c) r = (λ e. absurd (cc), λ h. absurd (cc h.0))
row_guards_iff none (some rate) = (λ e. absurd (cc), λ h. absurd (cc h.1))
row_guards_iff none none = (λ e. (refl, refl), λ h. refl)

guards_iff :
    (db : PolicyTables) (time id : ℕ) (chat : Option ℤ)
    → ((write_guards db time id chat).allowed ≡ true)
      ↔ ((a : Account) → account_row id db.accounts ≡ some a → IsGuarded db time id chat a)
unfolding write_guards
guards_iff db time id chat = elim (Option-cases (account_row id db.accounts)) [
  | inl e ↦ (λ h a p. absurd (cc (e, p)), λ h. rw (e, write_guards) refl)
  | inr (a, e) ↦
      let chat_iff = outside_iff chat a.write_chat_ids in
      let rate_iff = reached_iff a.write_rate_per_hour (writes_last_hour db time id) in
      let row =
        row_guards_iff (outside chat a.write_chat_ids)
          (reached a.write_rate_per_hour (writes_last_hour db time id)) in
      (
        λ h b p.
            let (o, r) = row.0 (rw (e, write_guards) at h) in
            let same : a ≡ b = cc (e, p) in
            subst (IsGuarded db time id chat) same (chat_iff.0 o, rate_iff.0 r),
        λ h. rw (e, write_guards) (let (c, r) = h a e in row.1 (chat_iff.1 c, rate_iff.1 r)),
      )
]

permitted :
    (db : PolicyTables) (now time id : ℕ) (tool : String) (chat : Option ℤ) (cache : ModeCache)
    → Permits db now time id tool chat cache
    → (authorize_write db now time id tool chat cache).0.allowed ≡ true
unfolding authorize_write
permitted db now time id tool chat cache p =
    elim (Bool-cases (contains write_messenger_tools tool)) [
      | inl m ↦
          let pass = (guards_iff db time id chat).1 (p.guarded m) in
          ground (arith, p.not_denied, p.writable)
      | inr m ↦ ground (arith, p.not_denied, p.writable)
    ]

-- A write by an account is allowed exactly when the account's policy does not deny the tool, allows
-- it or meets a mode that is not 'ro', and, where the tool writes to the messenger, the account's
-- list of chats and its hourly rate let it pass.
pub authorize-allowed_iff :
    (db : PolicyTables) (now time id : ℕ) (ctx : AuthContext) (tool : String) (chat : Option ℤ)
    (cache : ModeCache)
    → ctx.account_id ≡ some id
    → ((authorize db now time ctx tool chat true cache).0.allowed ≡ true)
      ↔ Permits db now time id tool chat cache
unfolding authorize authorize_write
authorize-allowed_iff db now time id ctx tool chat cache account =
    let iff = guards_iff db time id chat in
    (
      λ h.
          let h' = rw (account, authorize) at h in
          record {
            not_denied = ground arith;
            writable = ground arith;
            guarded = λ messenger. iff.0 (ground arith);
          },
      λ p. rw (account, authorize) (permitted db now time id tool chat cache p),
    )
