-- ===== src/People/Absorb.antt =====
-- app/repo/people.py: absorbing a person, and deleting an empty one.
use tg_my_person.Prelude.{
  ℕ, ◌≤◌, ◌≡◌, ◌≢◌, refl, ◌∙◌, not, Option, none, some, List, [], ◌∷◌, map, ◌==◌, if◌then◌else◌,
  count, filter, find, arith, Bool-cases, inl, inr,
}
use tg_my_person.People.Rows.{
  Text, Person, Tables, is_person, of_person, delete_empty, absorb_row, absorb_person,
}
use tg_my_person.People.Linked.{HasKeys, IsLinked, occupied, count-map-is_person}

-- All is in order but that the person may have lost its last identity.
pub record IsLinkedBut (source : ℕ) (db : Tables) : Type 0 where
  pub keys : HasKeys db.identities db.next_identity
  pub linked :
      (pid : ℕ)
      → pid ≢ source
      → count (is_person pid) db.people ≡ occupied (count (of_person pid) db.identities)
  pub source_once : count (is_person source) db.people ≡ 1
  pub fresh_person : (pid : ℕ) → db.next_person ≤ pid → count (is_person pid) db.people ≡ 0

count-deleted :
    (source pid : ℕ) (ps : List Person)
    → count (is_person pid) (filter (λ p. not (is_person source p)) ps)
      ≡ (if pid == source then 0 else count (is_person pid) ps)
count-deleted source pid [] = ground arith
count-deleted source pid (p ∷ ps) = ground (arith, count-deleted source pid ps)

pub delete_empty-IsLinked :
    (source : ℕ) (db : Tables) → IsLinkedBut source db → IsLinked (delete_empty source db)
unfolding delete_empty
delete_empty-IsLinked source db h =
    elim (Bool-cases (count (of_person source) db.identities == 0)) [
      | inl empty ↦
          rw (empty, delete_empty)
            (record {
              keys = h.keys;
              linked =
                  λ pid. ground (arith, count-deleted source pid db.people, h.linked pid, empty);
              fresh_person =
                  λ pid le. ground (arith, count-deleted source pid db.people, h.fresh_person pid);
            })
      | inr left ↦
          rw (left, delete_empty)
            (record {
              keys = h.keys;
              linked = λ pid. elim (Bool-cases (pid == source)) [
                | inl same ↦
                    let e : pid ≡ source = ground arith in
                    rw e (ground (arith, h.source_once, left))
                | inr other ↦ h.linked pid (ground arith)
              ];
              fresh_person = h.fresh_person;
            })
    ]

absorb_row-id :
    (distinct_sorted : List Text → List Text) (target : ℕ) (o : Option Person) (p : Person)
    → (absorb_row distinct_sorted target o p).id ≡ p.id
absorb_row-id distinct_sorted target none p = refl
absorb_row-id distinct_sorted target (some s) p = ground arith

pub absorb_person-IsLinked :
    (distinct_sorted : List Text → List Text) (target source : ℕ) (db : Tables)
    → IsLinkedBut source db
    → IsLinked (absorb_person distinct_sorted target source db)
unfolding absorb_person
absorb_person-IsLinked distinct_sorted target source db h =
    let f = absorb_row distinct_sorted target (find (is_person source) db.people) in
    let same : (pid : ℕ)
        → count (is_person pid) (map f db.people) ≡ count (is_person pid) db.people =
      λ pid.
        count-map-is_person f db.people pid
          (absorb_row-id distinct_sorted target (find (is_person source) db.people)) in
    delete_empty-IsLinked source (record db { people = map f db.people })
      (record {
        keys = h.keys;
        linked = λ pid other. same pid ∙ h.linked pid other;
        source_once = same source ∙ h.source_once;
        fresh_person = λ pid le. same pid ∙ h.fresh_person pid le;
      })
