-- ===== src/People/Merged.antt =====
-- app/repo/people.py: an identity that has moved, and finding it.
use mathlib.Core.Path.{subst}
use tg_my_person.Prelude.{
  ℕ, ◌≤◌, ◌≡◌, ◌≢◌, ◌∙◌, sym, ap, true, some, List, map, ◌==◌, count, find, arith, Bool-cases, inl,
  inr, count-found, count-some, find_unique, All, All-map,
}
use tg_my_person.People.Rows.{Person, Identity, Tables, is_person, of_person, has_id}
use tg_my_person.People.Linked.{IsLinked, KeepsKeys, map-HasKeys}
use tg_my_person.People.Moves.{Moves, count-moved_others, count-moved_gains}
use tg_my_person.People.Absorb.{IsLinkedBut}

All-person :
    (id : ℕ) (x : Identity) (is : List Identity)
    → All (λ i. has_id id i ≡ true → i ≡ x) is
    → All (λ i. has_id id i ≡ true → i.person_id ≡ x.person_id) is
All-person id x is h =
    All-map (λ (i : Identity). has_id id i ≡ true → i ≡ x)
      (λ (i : Identity). has_id id i ≡ true → i.person_id ≡ x.person_id) is
      (λ i only e. ap (λ (j : Identity). j.person_id) (only e)) h

-- After an identity has moved to a person that is in the table once, only its old person may be left
-- without one.
pub moved-IsLinkedBut :
    (db : Tables) (people : List Person) (next id to_id : ℕ) (f : Identity → Identity)
    (x : Identity)
    → IsLinked db
    → find (has_id id) db.identities ≡ some x
    → x.person_id ≢ to_id
    → Moves id to_id f
    → KeepsKeys f
    → ((pid : ℕ) → pid ≢ to_id → count (is_person pid) people ≡ count (is_person pid) db.people)
    → count (is_person to_id) people ≡ 1
    → ((pid : ℕ) → next ≤ pid → count (is_person pid) people ≡ 0)
    → IsLinkedBut x.person_id
        (record db { people = people; identities = map f db.identities; next_person = next })
moved-IsLinkedBut db people next id to_id f x h found apart m k same once fresh =
    let (at, there) = count-some (has_id id) db.identities x found in
    let only = find_unique (has_id id) db.identities x found (h.keys.unique_id id) in
    let from = All-person id x db.identities only in
    record {
      keys = map-HasKeys f db.identities db.next_identity k h.keys;
      linked = λ pid other. elim (Bool-cases (pid == to_id)) [
        | inl to ↦
            let e : pid ≡ to_id = ground arith in
            let gains = count-moved_gains id to_id f m db.identities in
            rw e (ground (arith, once, gains, there))
        | inr away ↦
            let e : pid ≢ to_id = ground arith in
            let kept = count-moved_others id to_id f m pid x.person_id db.identities from e other in
            rw kept (same pid e ∙ h.linked pid)
      ];
      source_once =
          let some_there =
            count-found (has_id id) (of_person x.person_id) db.identities x found (ground arith) in
          same x.person_id apart ∙ ground (arith, h.linked x.person_id, some_there);
      fresh_person = fresh;
    }

pub own_id :
    (id : ℕ) (me : Identity) (is : List Identity)
    → find (has_id id) is ≡ some me
    → find (has_id me.id) is ≡ some me
own_id id me is found =
    let (at, there) = count-some (has_id id) is me found in
    let same : me.id ≡ id = ground arith in
    subst (λ k. find (has_id k) is ≡ some me) (sym same) found
