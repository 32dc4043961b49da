-- ===== src/Authz/Revocation.antt =====
-- app/authz/keys.py: a key that is revoked.
use tg_my_person.Prelude.{
  ℕ, ◌≡◌, refl, ◌≢◌, inl, inr, String, Bool, true, false, not, ◌&&◌, Option, none, some, List, [],
  ◌∷◌, arith, map, find, str_eq, Bool-cases, ◌∙◌,
}
use tg_my_person.Models.{ApiKey}
use tg_my_person.Authz.Keys.{
  KeyInfo, KeyTables, KeyCache, load, load_row, lookup, revoke_key, revoke_row, is_revoked,
}

live_of : (a b : String) (r : Bool) → (str_eq a b && not r) ≡ true → r ≡ false
live_of a b r h = ground arith

-- A row of the revoked id is not found any more.
revoked_row :
    (key_id now : ℕ) (r : ApiKey)
    → is_revoked (revoke_row key_id now r) ≡ false
    → (revoke_row key_id now r).id ≢ key_id
revoked_row key_id now r live same = ground arith

find_revoked :
    (hash : String) (key_id now : ℕ) (rows : List ApiKey) (k : ApiKey)
    → find (λ r. str_eq r.key_hash hash && not (is_revoked r)) (map (revoke_row key_id now) rows)
      ≡ some k
    → k.id ≢ key_id
find_revoked hash key_id now [] k e same = absurd (cc)
find_revoked hash key_id now (r ∷ rs) k e same =
    let row = revoke_row key_id now r in
    let found : ApiKey → Bool = λ x. str_eq x.key_hash hash && not (is_revoked x) in
    elim (Bool-cases (found row)) [
      | inl here ↦
          let e' : some row ≡ some k = rw here at e in
          let k_is : row ≡ k = cc e' in
          let at_row : row.id ≡ key_id = cc (k_is, same) in
          revoked_row key_id now r (live_of row.key_hash hash (is_revoked row) here) at_row
      | inr there ↦ find_revoked hash key_id now rs k (rw there at e) same
    ]

load_row-id :
    (db : KeyTables) (o : Option ApiKey) (info : KeyInfo)
    → load_row db o ≡ some info
    → (k : ApiKey) × (o ≡ some k) × (k.id ≡ info.id)
unfolding load_row
load_row-id db none info e = absurd (cc)
load_row-id db (some k) info e = (k, refl, ground arith)

-- After a key is revoked no lookup finds it, whatever was cached before and whenever it is asked.
pub lookup-revoke_key :
    (hash_key : List ℕ → String) (db : KeyTables) (cache : KeyCache) (key_id now later : ℕ)
    (key : Option (List ℕ)) (info : KeyInfo)
    → (lookup hash_key
        (revoke_key db cache key_id now).1
        later
        key
        (revoke_key db cache key_id now).2).0
      ≡ some info
    → info.id ≢ key_id
unfolding revoke_key lookup load
lookup-revoke_key hash_key db cache key_id now later none info e same = absurd (cc)
lookup-revoke_key hash_key db cache key_id now later (some []) info e same = absurd (cc)
lookup-revoke_key hash_key db cache key_id now later (some (c ∷ cs)) info e same =
    let rows = map (revoke_row key_id now) db.keys in
    let hash = hash_key (c ∷ cs) in
    let (k, found, id) =
      load_row-id (record db { keys = rows })
        (find (λ r. str_eq r.key_hash hash && not (is_revoked r)) rows) info e in
    find_revoked hash key_id now db.keys k found (id ∙ same)
