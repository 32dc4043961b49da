-- ===== src/People/Kept.antt =====
-- app/repo/people.py: upserts and the links of the contacts.
use tg_my_person.Prelude.{
  ℕ, ◌<◌, ◌≡◌, ◌≢◌, refl, sym, Bool, false, Option, none, some, List, [], ◌∷◌, map, ℤ, count,
  filter, find, ltb, arith, Bool-cases, Option-cases, inl, inr, count-found,
}
use tg_my_person.Models.{Platform}
use tg_my_person.People.Rows.{
  Text, Identity, Tables, UserRow, of_person, has_id, display_name, move,
}
use tg_my_person.People.Upsert.{
  Values, is_candidate, first_by_person, merge_into, merge_with, merge_row, finish, or_insert,
  update_identity, fill_phone, values_of, upsert_identity,
}
use tg_my_person.People.Linked.{
  IsLinked, KeepsKeys, update_identity-IsLinked, fill_phone-IsLinked, insert_identity-IsLinked,
}
use tg_my_person.People.Moves.{Moves, found_itself, first_by_person-mem}
use tg_my_person.People.Absorb.{absorb_person-IsLinked}
use tg_my_person.People.Merged.{moved-IsLinkedBut, own_id}

move-Moves : (id to_id : ℕ) → Moves id to_id (move id to_id)
move-Moves id to_id = record { moved = λ i e. rw e refl; stays = λ i e. rw e refl }

move-KeepsKeys : (id to_id : ℕ) → KeepsKeys (move id to_id)
move-KeepsKeys id to_id = record {
  id = λ i. ground arith;
  platform = λ i. ground arith;
  external = λ i. ground arith;
}

module _ (distinct_sorted : List Text → List Text) where
  merge_into-IsLinked :
      (target moved : ℕ) (phone : Text) (x : Identity) (db : Tables)
      → IsLinked db
      → find (has_id moved) db.identities ≡ some x
      → x.person_id ≢ target
      → 0 < count (of_person target) db.identities
      → IsLinked (merge_into distinct_sorted target x.person_id moved phone db)
  unfolding merge_into
  merge_into-IsLinked target moved phone x db h found apart there =
      let but =
        moved-IsLinkedBut db db.people db.next_person moved target (move moved target) x h found
          apart (move-Moves moved target) (move-KeepsKeys moved target) (λ pid other. refl)
          (ground (arith, h.linked target)) h.fresh_person in
      let after =
        absorb_person-IsLinked distinct_sorted target x.person_id
          (record db { identities = map (move moved target) db.identities }) but in
      record { keys = after.keys; linked = after.linked; fresh_person = after.fresh_person }

  merge_with-IsLinked :
      (me : Identity) (phone : Text) (o : Option Identity) (db : Tables)
      → IsLinked db
      → find (has_id me.id) db.identities ≡ some me
      → ((other : Identity)
          → o ≡ some other
          → (find (has_id other.id) db.identities ≡ some other) × (other.person_id ≢ me.person_id))
      → IsLinked (merge_with distinct_sorted me phone o db)
  unfolding merge_with
  merge_with-IsLinked me phone none db h mine theirs = h
  merge_with-IsLinked me phone (some other) db h mine theirs =
      let (found, apart) = theirs other refl in
      elim (Bool-cases (ltb other.person_id me.person_id)) [
        | inl older ↦
            rw (older, merge_with)
              (merge_into-IsLinked other.person_id me.id phone me db h mine (λ e. apart (sym e))
                (count-found (has_id other.id) (of_person other.person_id) db.identities other found
                  (ground arith)))
        | inr younger ↦
            rw (younger, merge_with)
              (merge_into-IsLinked me.person_id other.id phone other db h found apart (
                count-found (has_id me.id) (of_person me.person_id) db.identities me mine
                  (ground arith)))
      ]

  pub candidate_apart :
      (me : Identity) (phone : Text) (db : Tables) (other : Identity)
      → IsLinked db
      → first_by_person (filter (is_candidate me phone) db.identities) ≡ some other
      → (find (has_id other.id) db.identities ≡ some other)
        × (other.person_id ≢ me.person_id)
        × (other.person_pinned ≡ false)
  candidate_apart me phone db other h e =
      let (m, fits) = first_by_person-mem (is_candidate me phone) db.identities other e in
      (
        found_itself db.identities other h.keys.unique_id m,
        λ same. absurd (ground arith),
        ground arith,
      )

  merge_row-IsLinked :
      (me : Identity) (phone : Option Text) (db : Tables)
      → IsLinked db
      → find (has_id me.id) db.identities ≡ some me
      → IsLinked (merge_row distinct_sorted me phone db)
  unfolding merge_row
  merge_row-IsLinked me none db h mine = h
  merge_row-IsLinked me (some []) db h mine = h
  merge_row-IsLinked me (some (c ∷ cs)) db h mine = elim (Bool-cases me.person_pinned) [
    | inl pinned ↦ rw (pinned, merge_row) h
    | inr free ↦
        rw (free, merge_row)
          (merge_with-IsLinked me (c ∷ cs)
            (first_by_person (filter (is_candidate me (c ∷ cs)) db.identities)) db h mine
            (λ other e.
              let (found, apart, _) = candidate_apart me (c ∷ cs) db other h e in (found, apart)))
  ]

  finish-IsLinked :
      (phone : Option Text) (o : Option ℕ) (db : Tables) (id' : ℕ) (db' : Tables)
      → IsLinked db
      → finish distinct_sorted phone (o, db) ≡ some (id', db')
      → IsLinked db'
  unfolding finish
  finish-IsLinked none none db id' db' h e = absurd (cc)
  finish-IsLinked (some phone) none db id' db' h e = absurd (cc)
  finish-IsLinked none (some id) db id' db' h e =
      let same : db ≡ db' = ground arith in rw (← same) h
  finish-IsLinked (some phone) (some id) db id' db' h e =
      let filled = fill_phone id phone db in
      let h' = fill_phone-IsLinked id phone db h in
      elim (Option-cases (find (has_id id) filled.identities)) [
        | inl missing ↦ absurd (ground arith)
        | inr (me, found) ↦
            let same : merge_row distinct_sorted me me.phone filled ≡ db' = ground arith in
            rw (← same)
              (merge_row-IsLinked me me.phone filled h' (own_id id me filled.identities found))
      ]

  pub or_insert-IsLinked :
      (others : Tables → Tables) (platform : Platform) (external : ℤ) (name : Option Text)
      (v : Values) (o : Option ℕ) (db : Tables)
      → ((t : Tables) → IsLinked t → IsLinked (others t))
      → IsLinked db
      → IsLinked (or_insert others platform external name v (o, db)).1
  or_insert-IsLinked others platform external name v none db keep h =
      insert_identity-IsLinked platform external name v (others db) (keep db h)
  or_insert-IsLinked others platform external name v (some id) db keep h = h

  module _ (is_decimal : ℕ → Bool) where
    -- Where other transactions commit only between the update and the insert of an upsert, and
    -- between its row and its merge, and keep this, it leaves every person with an identity, every
    -- identity with its person, and the ids and the users of a platform unique.
    pub upsert_identity-IsLinked :
        (others later : Tables → Tables) (platform : Platform) (row : UserRow) (db db' : Tables)
        (id : ℕ)
        → ((t : Tables) → IsLinked t → IsLinked (others t))
        → ((t : Tables) → IsLinked t → IsLinked (later t))
        → IsLinked db
        → upsert_identity distinct_sorted is_decimal others later platform row db ≡ some (id, db')
        → IsLinked db'
    unfolding upsert_identity
    upsert_identity-IsLinked others later platform row db db' id keep still h e =
        let v = values_of is_decimal row in
        let name = display_name row.first_name row.last_name row.username in
        let first = update_identity platform row.external_id v db in
        let second = or_insert others platform row.external_id name v first in
        finish-IsLinked v.phone second.0 (later second.1) id db'
          (still second.1 (
            or_insert-IsLinked others platform row.external_id name v first.0 first.1 keep
              (update_identity-IsLinked platform row.external_id v db h)))
          e
