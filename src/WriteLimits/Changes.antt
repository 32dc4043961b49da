-- ===== src/WriteLimits/Changes.antt =====
-- app/authz/write_limits.py: changing the settings of an account, and taking them back.
use tg_my_person.Prelude.{
  ℕ, ◌≡◌, refl, ap, inl, inr, ◌≢◌, not, Option, none, some, List, [], ◌∷◌, arith, ◌==◌, filter,
  Option-cases,
}
use tg_my_person.Models.{Account}
use tg_my_person.WriteLimits.Settings.{
  AccountWriteLimits, Tables, Source, find_account, own_row, effective_row, effective, Limits,
  Changes, replace, base_limits, update_row, write_row, set_limits, reset_limits,
}

row_updated :
    (id : ℕ) (l : Limits) (rows : List AccountWriteLimits) (r : AccountWriteLimits)
    → own_row id rows ≡ some r
    → own_row id (update_row id l rows) ≡ some (record r { own = l })
unfolding update_row
row_updated id l [] r e = absurd (cc)
row_updated id l (x ∷ xs) r e = ground (arith, row_updated id l xs r)

row_kept :
    (id j : ℕ) (l : Limits) (rows : List AccountWriteLimits)
    → j ≢ id
    → own_row j (update_row id l rows) ≡ own_row j rows
unfolding update_row
row_kept id j l [] h = refl
row_kept id j l (x ∷ xs) h = ground (arith, row_kept id j l xs h)

row_written :
    (id : ℕ) (l : Limits) (rows : List AccountWriteLimits) (o : Option AccountWriteLimits)
    → own_row id rows ≡ o
    → (r : AccountWriteLimits) × (own_row id (write_row id l o rows) ≡ some r) × (r.own ≡ l)
unfolding write_row
row_written id l rows none e = (record { account_id = id; own = l }, ground arith, refl)
row_written id l rows (some r) e = (record r { own = l }, row_updated id l rows r e, refl)

row_elsewhere :
    (id j : ℕ) (l : Limits) (rows : List AccountWriteLimits) (o : Option AccountWriteLimits)
    → j ≢ id
    → own_row j (write_row id l o rows) ≡ own_row j rows
unfolding write_row
row_elsewhere id j l rows none h = ground arith
row_elsewhere id j l rows (some r) h = row_kept id j l rows h

row_deleted :
    (id : ℕ) (rows : List AccountWriteLimits)
    → own_row id (filter (λ r. not (r.account_id == id)) rows) ≡ none
row_deleted id [] = refl
row_deleted id (x ∷ xs) = ground (arith, row_deleted id xs)

row_not_deleted :
    (id j : ℕ) (rows : List AccountWriteLimits)
    → j ≢ id
    → own_row j (filter (λ r. not (r.account_id == id)) rows) ≡ own_row j rows
row_not_deleted id j [] h = refl
row_not_deleted id j (x ∷ xs) h = ground (arith, row_not_deleted id j xs h)

effective_of :
    (db : Tables) (id : ℕ) (a : Account)
    → find_account id db.accounts ≡ some a
    → effective db id ≡ some (effective_row id a (own_row id db.write_limits))
unfolding effective
effective_of db id a e = rw (e, effective) refl

effective_elsewhere :
    (db : Tables) (rows : List AccountWriteLimits) (j : ℕ)
    → own_row j rows ≡ own_row j db.write_limits
    → effective (record db { write_limits = rows }) j ≡ effective db j
unfolding effective
effective_elsewhere db rows j e = elim (Option-cases (find_account j db.accounts)) [
  | inl missing ↦ rw (missing, effective) refl
  | inr (a, found) ↦ rw (found, effective) (ap (λ r. some (effective_row j a r)) e)
]

-- A change of an account's settings takes effect for it: the fields given, and for the others the
-- effective limits before, or those of `NO_LIMITS` where there were none. Other accounts keep theirs.
pub effective-set_limits :
    (db db' : Tables) (id : ℕ) (changes : Changes) (a : Account)
    → find_account id db.accounts ≡ some a
    → set_limits db id changes ≡ some db'
    → (effective db' id
        ≡ some (record {
          account_id = id;
          alias = a.alias;
          platform = a.platform;
          limits = some (replace (base_limits (effective db id)) changes);
          source = Source.account;
        }))
      × ((j : ℕ) → j ≢ id → effective db' j ≡ effective db j)
unfolding set_limits
effective-set_limits db db' id changes a found e =
    let values = replace (base_limits (effective db id)) changes in
    let rows = write_row id values (own_row id db.write_limits) db.write_limits in
    let (r, there, same) =
      row_written id values db.write_limits (own_row id db.write_limits) refl in
    let new : db' ≡ record db { write_limits = rows } = ground arith in
    (
      rw (new, effective_of (record db { write_limits = rows }) id a found, there, same) refl,
      λ j ne. rw new (
          effective_elsewhere db rows j
            (row_elsewhere id j values db.write_limits (own_row id db.write_limits) ne)),
    )

-- After a reset the account has the defaults of its platform, and other accounts keep their limits.
pub effective-reset_limits :
    (db : Tables) (id : ℕ) (a : Account)
    → find_account id db.accounts ≡ some a
    → (effective (reset_limits db id) id ≡ some (effective_row id a none))
      × ((j : ℕ) → j ≢ id → effective (reset_limits db id) j ≡ effective db j)
unfolding reset_limits
effective-reset_limits db id a found =
    let rows = filter (λ r. not (r.account_id == id)) db.write_limits in
    (
      rw
          (
            effective_of (record db { write_limits = rows }) id a found,
            row_deleted id db.write_limits,
          )
          refl,
      λ j ne. effective_elsewhere db rows j (row_not_deleted id j db.write_limits ne),
    )
