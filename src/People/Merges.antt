-- ===== src/People/Merges.antt =====
-- app/repo/people.py: the identities of a manual merge.
use tg_my_person.Prelude.{
  ℕ, ◌≡◌, ◌≢◌, Bool, true, Option, some, List, map, ◌⊎◌, inl, inr, find, arith, find-map_keeps,
}
use tg_my_person.People.Rows.{Text, Identity, Tables, has_id}
use tg_my_person.People.Owner.{done, pin, move_all, merge_all, merge_people}
use tg_my_person.People.Pins.{absorb_person-identities}

-- Both changes of a merge, to one row.
abbrev merged_row : ℕ → ℕ → Identity → Identity
merged_row from_id to_id i = pin to_id (move_all from_id to_id i)

merged_row-moved :
    (from_id to_id : ℕ) (i : Identity)
    → (i.person_id ≡ from_id) ⊎ (i.person_id ≡ to_id)
    → ((merged_row from_id to_id i).person_id ≡ to_id)
      × ((merged_row from_id to_id i).person_pinned ≡ true)
merged_row-moved from_id to_id i (inl e) = (ground arith, ground arith)
merged_row-moved from_id to_id i (inr e) = (ground arith, ground arith)

-- After a merge that is not refused every identity of the two people is the target's and pinned, and
-- every other identity is as it was.
pub merge_people_moves :
    (distinct_sorted : List Text → List Text) (owner : Bool) (from_id to_id person : ℕ)
    (reason : Option Text) (db db' : Tables) (k : ℕ) (i : Identity)
    → merge_people distinct_sorted owner from_id to_id reason db ≡ done person db'
    → find (has_id k) db.identities ≡ some i
    → (j : Identity) × (find (has_id k) db'.identities ≡ some j)
      × ((i.person_id ≡ from_id) ⊎ (i.person_id ≡ to_id)
          → (j.person_id ≡ to_id) × (j.person_pinned ≡ true))
      × (i.person_id ≢ from_id → i.person_id ≢ to_id → j ≡ i)
unfolding merge_people merge_all
merge_people_moves distinct_sorted owner from_id to_id person reason db db' k i e found =
    let moved = map (pin to_id) (map (move_all from_id to_id) db.identities) in
    let same : merge_all distinct_sorted from_id to_id reason db ≡ db' = ground arith in
    let absorbed =
      absorb_person-identities distinct_sorted to_id from_id (record db { identities = moved }) in
    let first =
      find-map_keeps (move_all from_id to_id) (has_id k) (λ x. ground arith) db.identities i
        found in
    let second =
      find-map_keeps (pin to_id) (has_id k) (λ x. ground arith)
        (map (move_all from_id to_id) db.identities) (move_all from_id to_id i) first in
    let there : find (has_id k) db'.identities ≡ some (merged_row from_id to_id i) =
      rw (← same, absorbed) second in
    (
      merged_row from_id to_id i,
      there,
      merged_row-moved from_id to_id i,
      λ a b. ground (arith, a, b),
    )
