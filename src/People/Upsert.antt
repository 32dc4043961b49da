-- ===== src/People/Upsert.antt =====
-- app/repo/people.py: `upsert_identity` and `_auto_merge`.
-- Other transactions may commit at two points only: between an update that found no row and the
-- insert, the argument `others`, and before the phone is filled in, the argument `later`. That one
-- commits between the statements of the insert or of the merge, so that two merges overlap, is outside
-- the model. `none` is an exception.
use tg_my_person.Prelude.{
  ℕ, suc, Bool, false, not, ◌&&◌, Option, none, some, List, [], ◌∷◌, map, ◌==◌, ℤ, leb, ltb,
  if◌then◌else◌, filter, find,
}
use tg_my_person.Models.{Platform}
use tg_my_person.Phone.{normalize_phone}
use tg_my_person.People.Rows.{
  Text, Person, Identity, auto_merge, same_phone, Tables, UserRow, or_none, coalesce, same_platform,
  equal_text, is_person, has_id, is_user, display_name, move, absorb_person,
}

pub record Values : Type 0 where
  pub username : Option Text
  pub first_name : Option Text
  pub last_name : Option Text
  pub phone : Option Text
  pub is_bot : Bool

abbrev pub updated : Values → Identity → Identity
updated v i = record i {
  username = coalesce v.username i.username;
  first_name = coalesce v.first_name i.first_name;
  last_name = coalesce v.last_name i.last_name;
  phone = coalesce v.phone i.phone;
  is_bot = v.is_bot;
}

abbrev pub identity_row_after : Platform → ℤ → Values → Identity → Identity
identity_row_after platform external v i = if is_user platform external i then updated v i else i

abbrev pub id_of : Option Identity → Option ℕ
id_of none = none
id_of (some i) = some i.id

-- `_update_identity`: the id of the row, if there is one.
unfoldable pub update_identity : Platform → ℤ → Values → Tables → Option ℕ × Tables
update_identity platform external v db = (
  id_of (find (is_user platform external) db.identities),
  record db { identities = map (identity_row_after platform external v) db.identities },
)

abbrev pub is_candidate : Identity → Text → Identity → Bool
is_candidate me phone i =
    equal_text i.phone (some phone)
    && not (same_platform i.platform me.platform)
    && not (i.person_id == me.person_id)
    && not i.person_pinned

-- `ORDER BY person_id LIMIT 1`
abbrev pub earlier : Identity → Option Identity → Identity
earlier i none = i
earlier i (some j) = if leb i.person_id j.person_id then i else j

unfoldable pub first_by_person : List Identity → Option Identity
first_by_person [] = none
first_by_person (i ∷ is) = some (earlier i (first_by_person is))

abbrev pub fill_row : Option ℕ → Text → Person → Person
fill_row none phone p = p
fill_row (some person) phone p =
    if is_person person p
    then record p { primary_phone = coalesce p.primary_phone (some phone) }
    else p

abbrev pub person_of : Option Identity → Option ℕ
person_of none = none
person_of (some i) = some i.person_id

-- A phone fills the person's primary phone.
unfoldable pub fill_phone : ℕ → Text → Tables → Tables
fill_phone id phone db = record db {
  people = map (fill_row (person_of (find (has_id id) db.identities)) phone) db.people;
}

abbrev pub new_identity : ℕ → ℕ → Platform → ℤ → Values → Identity
new_identity id person platform external v = record {
  id = id;
  person_id = person;
  person_pinned = false;
  platform = platform;
  external_user_id = external;
  username = v.username;
  first_name = v.first_name;
  last_name = v.last_name;
  phone = v.phone;
  is_bot = v.is_bot;
}

abbrev pub new_person : ℕ → Option Text → Option Text → Person
new_person id name phone = record {
  id = id;
  display_name = name;
  primary_phone = phone;
  tags = [];
  notes = none;
}

-- A new person with the identity; on a conflict the person is dropped and the row updated.
unfoldable pub insert_identity : Platform → ℤ → Option Text → Values → Tables → Option ℕ × Tables
unfolding update_identity
insert_identity platform external name v db =
    let kept = record db { next_person = suc db.next_person } in
    let conflict = update_identity platform external v kept in
    elim (find (is_user platform external) db.identities) [
      | some _ ↦ conflict
      | none ↦ (
        some db.next_identity,
        record db {
          people = new_person db.next_person name v.phone ∷ db.people;
          identities =
              new_identity db.next_identity db.next_person platform external v ∷ db.identities;
          next_person = suc db.next_person;
          next_identity = suc db.next_identity;
        },
      )
    ]

abbrev pub or_insert :
    (Tables → Tables) → Platform → ℤ → Option Text → Values → Option ℕ × Tables → Option ℕ × Tables
or_insert others platform external name v (some id, db) = (some id, db)
or_insert others platform external name v (none, db) =
    insert_identity platform external name v (others db)

abbrev pub followed : (Tables → Tables) → Option ℕ × Tables → Option ℕ × Tables
followed later r = (r.0, later r.1)

unfoldable pub values_of : (ℕ → Bool) → UserRow → Values
values_of is_decimal row = record {
  username = or_none row.username;
  first_name = or_none row.first_name;
  last_name = or_none row.last_name;
  phone = normalize_phone is_decimal row.phone;
  is_bot = row.is_bot;
}

module _ (distinct_sorted : List Text → List Text) where
  -- The identity on the younger person moves to the older one.
  unfoldable pub merge_into : ℕ → ℕ → ℕ → Text → Tables → Tables
  merge_into target source moved phone db =
      let merged =
        absorb_person distinct_sorted target source
          (record db { identities = map (move moved target) db.identities }) in
      record merged {
        log =
            record {
              action = auto_merge;
              from_person_id = source;
              to_person_id = target;
              identity_id = some moved;
              reason = same_phone phone;
            }
            ∷ merged.log;
      }

  unfoldable pub merge_with : Identity → Text → Option Identity → Tables → Tables
  merge_with me phone none db = db
  merge_with me phone (some other) db =
      if ltb other.person_id me.person_id
      then merge_into other.person_id me.person_id me.id phone db
      else merge_into me.person_id other.person_id other.id phone db

  -- `_auto_merge` of a row, by its phone.
  unfoldable pub merge_row : Identity → Option Text → Tables → Tables
  unfolding merge_with
  merge_row me none db = db
  merge_row me (some []) db = db
  merge_row me (some (c ∷ cs)) db =
      if me.person_pinned
      then db
      else merge_with me (c ∷ cs)
          (first_by_person (filter (is_candidate me (c ∷ cs)) db.identities)) db

  unfoldable pub auto_merge_identity : ℕ → Tables → Option Tables
  auto_merge_identity id db = elim (find (has_id id) db.identities) [
    | none ↦ none
    | some me ↦ some (merge_row me me.phone db)
  ]

  abbrev pub with_tables : ℕ → Option Tables → Option (ℕ × Tables)
  with_tables id none = none
  with_tables id (some db) = some (id, db)

  -- From the id on: the phone and the merge.
  unfoldable pub finish : Option Text → Option ℕ × Tables → Option (ℕ × Tables)
  unfolding fill_phone auto_merge_identity
  finish none (none, db) = none
  finish (some phone) (none, db) = none
  finish none (some id, db) = some (id, db)
  finish (some phone) (some id, db) =
      with_tables id (auto_merge_identity id (fill_phone id phone db))

  module _ (is_decimal : ℕ → Bool) where
    unfoldable pub upsert_identity :
        (Tables → Tables) → (Tables → Tables) → Platform → UserRow → Tables → Option (ℕ × Tables)
    unfolding values_of finish
    upsert_identity others later platform row db =
        let v = values_of is_decimal row in
        finish v.phone (
          followed later (
            or_insert others platform row.external_id
              (display_name row.first_name row.last_name row.username) v
              (update_identity platform row.external_id v db)))
