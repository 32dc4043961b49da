-- ===== src/People/Owner.antt =====
-- merge_people and split_identity, for the owner. A row that the identity's `db.get` reads again is
-- the table's.
use tg_my_person.Prelude.{
  [], ℕ, suc, Bool, true, Option, none, some, List, ◌∷◌, map, ◌==◌, if◌then◌else◌, any, find,
}
use tg_my_person.People.Rows.{
  Text, Identity, merge, split, given, Tables, is_person, of_person, has_id, display_name,
  delete_empty, absorb_person,
}

pub data Refused : Type 0 where
  owner_session_required same_person : Refused
  person_not_found identity_not_found : ℕ → Refused

pub data Answer : Type 0 where
  done : ℕ → Tables → Answer
  refused : Refused → Answer

abbrev pub pin : ℕ → Identity → Identity
pin person i = if of_person person i then record i { person_pinned = true } else i

abbrev pub move_all : ℕ → ℕ → Identity → Identity
move_all from_id to_id i =
    if of_person from_id i then record i { person_id = to_id; person_pinned = true } else i

module _ (distinct_sorted : List Text → List Text) where
  unfoldable pub merge_all : ℕ → ℕ → Option Text → Tables → Tables
  merge_all from_id to_id reason db =
      let merged =
        absorb_person distinct_sorted to_id from_id (record db {
          identities = map (pin to_id) (map (move_all from_id to_id) db.identities);
        }) in
      record merged {
        log =
            record {
              action = merge;
              from_person_id = from_id;
              to_person_id = to_id;
              identity_id = none;
              reason = given reason;
            }
            ∷ merged.log;
      }

  unfoldable pub merge_people : Bool → ℕ → ℕ → Option Text → Tables → Answer
  merge_people owner from_id to_id reason db =
      if owner
      then if from_id == to_id
        then refused same_person
        else if any (is_person from_id) db.people
        then if any (is_person to_id) db.people
          then done to_id (merge_all from_id to_id reason db)
          else refused (person_not_found to_id)
        else refused (person_not_found from_id)
      else refused owner_session_required

abbrev pub split_row : ℕ → ℕ → Identity → Identity
split_row id person i =
    if has_id id i then record i { person_id = person; person_pinned = true } else i

unfoldable pub split_off : Identity → Option Text → Tables → Tables
split_off ident reason db =
    let moved = record db {
      people =
          record {
            id = db.next_person;
            display_name = display_name ident.first_name ident.last_name ident.username;
            primary_phone = ident.phone;
            tags = [];
            notes = none;
          }
          ∷ db.people;
      identities = map (split_row ident.id db.next_person) db.identities;
      next_person = suc db.next_person;
    } in
    let left = delete_empty ident.person_id moved in
    record left {
      log =
          record {
            action = split;
            from_person_id = ident.person_id;
            to_person_id = db.next_person;
            identity_id = some ident.id;
            reason = given reason;
          }
          ∷ left.log;
    }

unfoldable pub split_identity : Bool → ℕ → Option Text → Tables → Answer
split_identity owner id reason db =
    if owner
    then elim (find (has_id id) db.identities) [
      | none ↦ refused (identity_not_found id)
      | some ident ↦ done db.next_person (split_off ident reason db)
    ]
    else refused owner_session_required
