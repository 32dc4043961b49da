-- ===== src/People/Pins.antt =====
-- app/repo/people.py: identities that the owner has pinned.
use tg_my_person.Prelude.{
  ℕ, suc, ◌≡◌, ◌≢◌, refl, ◌∙◌, Bool, true, false, Option, none, some, List, [], ◌∷◌, map, ◌==◌, ℤ,
  filter, find, ltb, arith, Bool-cases, Option-cases, inl, inr, count-some, find-map_keeps,
}
use tg_my_person.Models.{Platform}
use tg_my_person.People.Rows.{
  Text, Identity, Tables, UserRow, has_id, is_user, display_name, move, delete_empty, absorb_person,
}
use tg_my_person.People.Upsert.{
  Values, is_candidate, first_by_person, merge_into, merge_with, merge_row, identity_row_after,
  finish, or_insert, update_identity, insert_identity, fill_phone, values_of, upsert_identity,
}
use tg_my_person.People.Linked.{IsLinked, update_identity-IsLinked, fill_phone-IsLinked}
use tg_my_person.People.Merged.{own_id}
use tg_my_person.People.Kept.{or_insert-IsLinked, candidate_apart}

-- The identity is in the table, pinned to the person.
abbrev pub IsPinnedTo : ℕ → ℕ → Tables → Type 0
IsPinnedTo id person db =
    (i : Identity) × (find (has_id id) db.identities ≡ some i)
    × (i.person_id ≡ person)
    × (i.person_pinned ≡ true)

pub absorb_person-identities :
    (distinct_sorted : List Text → List Text) (target source : ℕ) (db : Tables)
    → (absorb_person distinct_sorted target source db).identities ≡ db.identities
unfolding absorb_person delete_empty
absorb_person-identities distinct_sorted target source db = ground arith

pub identity_row_after-id :
    (p : Platform) (e : ℤ) (v : Values) (i : Identity) → (identity_row_after p e v i).id ≡ i.id
identity_row_after-id p e v i = ground arith

module _ (id person : ℕ) where
  map-IsPinnedTo :
      (f : Identity → Identity) (db : Tables)
      → ((i : Identity) → (f i).id ≡ i.id)
      → ((i : Identity)
          → has_id id i ≡ true
          → i.person_pinned ≡ true
          → ((f i).person_id ≡ i.person_id) × ((f i).person_pinned ≡ true))
      → IsPinnedTo id person db
      → IsPinnedTo id person (record db { identities = map f db.identities })
  map-IsPinnedTo f db ids keep (i, found, at, pinned) =
      let (here, _) = count-some (has_id id) db.identities i found in
      let (same, still) = keep i here pinned in
      (
        f i,
        find-map_keeps f (has_id id) (λ x. rw (ids x) refl) db.identities i found,
        same ∙ at,
        still,
      )

  update_identity-IsPinnedTo :
      (p : Platform) (e : ℤ) (v : Values) (db : Tables)
      → IsPinnedTo id person db
      → IsPinnedTo id person (update_identity p e v db).1
  unfolding update_identity
  update_identity-IsPinnedTo p e v db h =
      map-IsPinnedTo (identity_row_after p e v) db (identity_row_after-id p e v)
        (λ i here pinned. (ground arith, ground arith)) h

  insert_identity-IsPinnedTo :
      (p : Platform) (e : ℤ) (name : Option Text) (v : Values) (db : Tables)
      → IsLinked db
      → IsPinnedTo id person db
      → IsPinnedTo id person (insert_identity p e name v db).1
  unfolding insert_identity
  insert_identity-IsPinnedTo p e name v db l (i, found, at, pinned) =
      elim (Option-cases (find (is_user p e) db.identities)) [
        | inl free ↦
            let (_, there) = count-some (has_id id) db.identities i found in
            let other : (db.next_identity == id) ≡ false =
              elim (Bool-cases (db.next_identity == id)) [
                | inl same ↦ absurd (ground (arith, l.keys.fresh_id id, there))
                | inr apart ↦ apart
              ] in
            rw (free, insert_identity) (i, rw other found, at, pinned)
        | inr (x, taken) ↦
            rw (taken, insert_identity)
              (update_identity-IsPinnedTo p e v (record db { next_person = suc db.next_person })
                (i, found, at, pinned))
      ]

  fill_phone-IsPinnedTo :
      (user : ℕ) (phone : Text) (db : Tables)
      → IsPinnedTo id person db
      → IsPinnedTo id person (fill_phone user phone db)
  unfolding fill_phone
  fill_phone-IsPinnedTo user phone db h = h

  module _ (distinct_sorted : List Text → List Text) where
    merge_into-IsPinnedTo :
        (target source moved : ℕ) (phone : Text) (db : Tables)
        → moved ≢ id
        → IsPinnedTo id person db
        → IsPinnedTo id person (merge_into distinct_sorted target source moved phone db)
    unfolding merge_into
    merge_into-IsPinnedTo target source moved phone db apart h =
        let after =
          map-IsPinnedTo (move moved target) db (λ i. ground arith)
            (λ i here pinned. (ground (arith, apart), ground arith)) h in
        let same =
          absorb_person-identities distinct_sorted target source
            (record db { identities = map (move moved target) db.identities }) in
        let (i, found, at, pinned) = after in (i, rw same found, at, pinned)

    not_pinned :
        (other : Identity) (db : Tables)
        → find (has_id other.id) db.identities ≡ some other
        → other.person_pinned ≡ false
        → IsPinnedTo id person db
        → other.id ≢ id
    not_pinned other db found free (i, mine, at, pinned) same =
        let again : find (has_id other.id) db.identities ≡ some i = rw same mine in
        absurd (cc (found, again, free, pinned))

    merge_with-IsPinnedTo :
        (me : Identity) (phone : Text) (o : Option Identity) (db : Tables)
        → me.id ≢ id
        → ((other : Identity) → o ≡ some other → other.id ≢ id)
        → IsPinnedTo id person db
        → IsPinnedTo id person (merge_with distinct_sorted me phone o db)
    unfolding merge_with
    merge_with-IsPinnedTo me phone none db mine theirs h = h
    merge_with-IsPinnedTo me phone (some other) db mine theirs h =
        elim (Bool-cases (ltb other.person_id me.person_id)) [
          | inl older ↦
              rw (older, merge_with)
                (merge_into-IsPinnedTo other.person_id me.person_id me.id phone db mine h)
          | inr younger ↦
              rw (younger, merge_with)
                (merge_into-IsPinnedTo me.person_id other.person_id other.id phone db
                  (theirs other refl) h)
        ]

    merge_row-IsPinnedTo :
        (me : Identity) (phone : Option Text) (db : Tables)
        → IsLinked db
        → find (has_id me.id) db.identities ≡ some me
        → IsPinnedTo id person db
        → IsPinnedTo id person (merge_row distinct_sorted me phone db)
    unfolding merge_row
    merge_row-IsPinnedTo me none db l mine h = h
    merge_row-IsPinnedTo me (some []) db l mine h = h
    merge_row-IsPinnedTo me (some (c ∷ cs)) db l mine h = elim (Bool-cases me.person_pinned) [
      | inl pinned ↦ rw (pinned, merge_row) h
      | inr free ↦
          rw (free, merge_row)
            (merge_with-IsPinnedTo me (c ∷ cs)
              (first_by_person (filter (is_candidate me (c ∷ cs)) db.identities)) db
              (not_pinned me db mine free h)
              (λ other e.
                let (found, _, loose) = candidate_apart distinct_sorted me (c ∷ cs) db other l e in
                not_pinned other db found loose h)
              h)
    ]

    finish-IsPinnedTo :
        (phone : Option Text) (o : Option ℕ) (db : Tables) (id' : ℕ) (db' : Tables)
        → IsLinked db
        → IsPinnedTo id person db
        → finish distinct_sorted phone (o, db) ≡ some (id', db')
        → IsPinnedTo id person db'
    unfolding finish
    finish-IsPinnedTo none none db id' db' l h e = absurd (cc)
    finish-IsPinnedTo (some phone) none db id' db' l h e = absurd (cc)
    finish-IsPinnedTo none (some user) db id' db' l h e =
        let same : db ≡ db' = ground arith in rw (← same) h
    finish-IsPinnedTo (some phone) (some user) db id' db' l h e =
        let filled = fill_phone user phone db in
        let l' = fill_phone-IsLinked user phone db l in
        let h' : IsPinnedTo id person filled = fill_phone-IsPinnedTo user phone db h in
        elim (Option-cases (find (has_id user) filled.identities)) [
          | inl missing ↦ absurd (ground arith)
          | inr (me, found) ↦
              let same : merge_row distinct_sorted me me.phone filled ≡ db' = ground arith in
              rw (← same) (
                merge_row-IsPinnedTo me me.phone filled l' (own_id user me filled.identities found)
                  h')
        ]

    or_insert-IsPinnedTo :
        (others : Tables → Tables) (p : Platform) (e : ℤ) (name : Option Text) (v : Values)
        (o : Option ℕ) (db : Tables)
        → ((t : Tables) → IsLinked t → IsLinked (others t))
        → ((t : Tables) → IsPinnedTo id person t → IsPinnedTo id person (others t))
        → IsLinked db
        → IsPinnedTo id person db
        → IsPinnedTo id person (or_insert others p e name v (o, db)).1
    or_insert-IsPinnedTo others p e name v none db keep stay l h =
        insert_identity-IsPinnedTo p e name v (others db) (keep db l) (stay db h)
    or_insert-IsPinnedTo others p e name v (some user) db keep stay l h = h

    -- An identity that the owner has pinned to a person stays with it through an upsert of any
    -- user, if other transactions commit only between its update and its insert, and between its
    -- row and its merge, leave the identity there and keep the contacts linked.
    pub upsert_identity-IsPinnedTo :
        (is_decimal : ℕ → Bool) (others later : Tables → Tables) (platform : Platform)
        (row : UserRow) (db db' : Tables) (user : ℕ)
        → ((t : Tables) → IsLinked t → IsLinked (others t))
        → ((t : Tables) → IsPinnedTo id person t → IsPinnedTo id person (others t))
        → ((t : Tables) → IsLinked t → IsLinked (later t))
        → ((t : Tables) → IsPinnedTo id person t → IsPinnedTo id person (later t))
        → IsLinked db
        → IsPinnedTo id person db
        → upsert_identity distinct_sorted is_decimal others later platform row db ≡ some (user, db')
        → IsPinnedTo id person db'
    unfolding upsert_identity
    upsert_identity-IsPinnedTo is_decimal others later platform row db db' user keep stay keep'
          stay' l h e =
        let v = values_of is_decimal row in
        let name = display_name row.first_name row.last_name row.username in
        let first = update_identity platform row.external_id v db in
        let second = or_insert others platform row.external_id name v first in
        let linked = update_identity-IsLinked platform row.external_id v db l in
        finish-IsPinnedTo v.phone second.0 (later second.1) user db'
          (keep' second.1 (
            or_insert-IsLinked distinct_sorted others platform row.external_id name v first.0
              first.1 keep linked))
          (stay' second.1 (
            or_insert-IsPinnedTo others platform row.external_id name v first.0 first.1 keep stay
              linked (update_identity-IsPinnedTo platform row.external_id v db h)))
          e
