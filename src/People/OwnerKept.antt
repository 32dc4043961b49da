-- ===== src/People/OwnerKept.antt =====
-- app/repo/people.py: the owner's merges and splits and the links of the contacts.
use tg_my_person.Prelude.{
  ℕ, suc, ◌+◌, ◌<◌, ◌≡◌, ◌≢◌, refl, Bool, true, Option, none, some, List, [], ◌∷◌, map, ◌==◌,
  if◌then◌else◌, count, find, any, arith, Option-cases, inl, inr, count-found, count-any,
}
use tg_my_person.People.Rows.{
  Text, Person, Identity, Tables, is_person, of_person, has_id, display_name,
}
use tg_my_person.People.Owner.{
  done, pin, move_all, merge_all, merge_people, split_row, split_off, split_identity,
}
use tg_my_person.People.Linked.{IsLinked, map-HasKeys, count-map-of_person}
use tg_my_person.People.Absorb.{delete_empty-IsLinked, absorb_person-IsLinked}
use tg_my_person.People.Merged.{moved-IsLinkedBut, own_id}

pin-person : (to_id : ℕ) (i : Identity) → (pin to_id i).person_id ≡ i.person_id
pin-person to_id i = ground arith

count-move_all :
    (from_id to_id pid : ℕ) (is : List Identity)
    → from_id ≢ to_id
    → count (of_person pid) (map (move_all from_id to_id) is) ≡ (
        if pid == to_id
        then count (of_person to_id) is + count (of_person from_id) is
        else if pid == from_id
        then 0
        else count (of_person pid) is)
count-move_all from_id to_id pid [] apart = ground arith
count-move_all from_id to_id pid (i ∷ is) apart =
    ground (arith, count-move_all from_id to_id pid is apart)

module _ (distinct_sorted : List Text → List Text) where
  merge_all-IsLinked :
      (from_id to_id : ℕ) (reason : Option Text) (db : Tables)
      → from_id ≢ to_id
      → 0 < count (is_person from_id) db.people
      → 0 < count (is_person to_id) db.people
      → IsLinked db
      → IsLinked (merge_all distinct_sorted from_id to_id reason db)
  unfolding merge_all
  merge_all-IsLinked from_id to_id reason db apart from to h =
      let moved = map (pin to_id) (map (move_all from_id to_id) db.identities) in
      let counts : (pid : ℕ)
          → count (of_person pid) moved
            ≡ count (of_person pid) (map (move_all from_id to_id) db.identities) =
        λ pid.
          count-map-of_person (pin to_id) (map (move_all from_id to_id) db.identities) pid
            (pin-person to_id) in
      let after =
        absorb_person-IsLinked distinct_sorted to_id from_id (record db { identities = moved })
          (record {
            keys =
                map-HasKeys (pin to_id) (map (move_all from_id to_id) db.identities)
                  db.next_identity
                  (record {
                    id = λ i. ground arith;
                    platform = λ i. ground arith;
                    external = λ i. ground arith;
                  })
                  (map-HasKeys (move_all from_id to_id) db.identities db.next_identity
                    (record {
                      id = λ i. ground arith;
                      platform = λ i. ground arith;
                      external = λ i. ground arith;
                    })
                    h.keys);
            linked = λ pid other. ground (
              arith,
              counts pid,
              count-move_all from_id to_id pid db.identities apart,
              h.linked pid,
              h.linked to_id,
              to,
            );
            source_once = ground (arith, h.linked from_id, from);
            fresh_person = h.fresh_person;
          }) in
      record { keys = after.keys; linked = after.linked; fresh_person = after.fresh_person }

  -- A merge that is not refused leaves the contacts linked.
  pub merge_people-IsLinked :
      (owner : Bool) (from_id to_id id : ℕ) (reason : Option Text) (db db' : Tables)
      → IsLinked db
      → merge_people distinct_sorted owner from_id to_id reason db ≡ done id db'
      → IsLinked db'
  unfolding merge_people
  merge_people-IsLinked owner from_id to_id id reason db db' h e =
      let (same, apart, from, to) : (merge_all distinct_sorted from_id to_id reason db ≡ db')
          × (from_id ≢ to_id)
          × (any (is_person from_id) db.people ≡ true)
          × (any (is_person to_id) db.people ≡ true) =
        (ground arith, λ q. absurd (ground arith), ground arith, ground arith) in
      rw (← same) (
        merge_all-IsLinked from_id to_id reason db apart
          (count-any (is_person from_id) db.people from) (count-any (is_person to_id) db.people to)
          h)

split_off-IsLinked :
    (ident : Identity) (reason : Option Text) (db : Tables)
    → IsLinked db
    → find (has_id ident.id) db.identities ≡ some ident
    → IsLinked (split_off ident reason db)
unfolding split_off
split_off-IsLinked ident reason db h found =
    let fresh : count (is_person db.next_person) db.people ≡ 0 =
      h.fresh_person db.next_person (omega arith) in
    let there =
      count-found (has_id ident.id) (of_person ident.person_id) db.identities ident found
        (ground arith) in
    let row : Person = record {
      id = db.next_person;
      display_name = display_name ident.first_name ident.last_name ident.username;
      primary_phone = ident.phone;
      tags = [];
      notes = none;
    } in
    let but =
      moved-IsLinkedBut db (row ∷ db.people) (suc db.next_person) ident.id db.next_person
        (split_row ident.id db.next_person) ident h found
        (λ e. absurd (ground (arith, h.linked ident.person_id, there, fresh)))
        (record { moved = λ i e. rw e refl; stays = λ i e. rw e refl })
        (record {
          id = λ i. ground arith;
          platform = λ i. ground arith;
          external = λ i. ground arith;
        })
        (λ pid other. ground arith) (ground arith)
        (λ pid le. ground (arith, h.fresh_person pid (omega arith))) in
    let after = delete_empty-IsLinked ident.person_id _ but in
    record { keys = after.keys; linked = after.linked; fresh_person = after.fresh_person }

-- A split that is not refused leaves the contacts linked.
pub split_identity-IsLinked :
    (owner : Bool) (id person : ℕ) (reason : Option Text) (db db' : Tables)
    → IsLinked db
    → split_identity owner id reason db ≡ done person db'
    → IsLinked db'
unfolding split_identity
split_identity-IsLinked owner id person reason db db' h e =
    elim (Option-cases (find (has_id id) db.identities)) [
      | inl missing ↦ absurd (ground arith)
      | inr (ident, found) ↦
          let same : split_off ident reason db ≡ db' = ground arith in
          rw (← same) (split_off-IsLinked ident reason db h (own_id id ident db.identities found))
    ]
