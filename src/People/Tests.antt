-- ===== src/People/Tests.antt =====
-- Runs on a small table of contacts, and the theorems at it.
use tg_my_person.Prelude.{
  ℕ, ◌≤◌, ◌≡◌, refl, Bool, true, false, ◌&&◌, none, some, List, [], ◌∷◌, count, find, pos, leb,
  arith, ◌⊎◌, ◌≢◌, ℤ, negsuc, replicate,
}
use tg_my_person.Models.{Platform, telegram}
use tg_my_person.Phone.{normalize_phone, trunk}
use tg_my_person.People.Rows.{
  Text, Person, Identity, Tables, UserRow, auto_merge, same_phone, delete_empty, absorb_person,
  display_name, has_id, is_user, joined_notes,
}
use tg_my_person.People.Upsert.{
  update_identity, first_by_person, merge_into, merge_with, merge_row, auto_merge_identity,
  fill_phone, finish, insert_identity, values_of, upsert_identity,
}
use tg_my_person.People.Owner.{done, merge_all, merge_people, split_off, split_identity}
use tg_my_person.People.Linked.{IsLinked}
use tg_my_person.People.Kept.{upsert_identity-IsLinked}
use tg_my_person.People.OwnerKept.{merge_people-IsLinked, split_identity-IsLinked}
use tg_my_person.People.Pins.{IsPinnedTo, upsert_identity-IsPinnedTo}
use tg_my_person.People.Users.{IsOf, upsert_identity_total}
use tg_my_person.People.Merges.{merge_people_moves}

abbrev ascii_digit : ℕ → Bool
ascii_digit c = leb b'0' c && leb c b'9'

abbrev as_is : List Text → List Text
as_is tags = tags

-- Ten nines.
abbrev digits : Text
digits = replicate 10 b'9'

abbrev anna : Person
anna = record {
  id = 1;
  display_name = some (b'A' ∷ []);
  primary_phone = none;
  tags = [];
  notes = none;
}

abbrev anna_tg : Identity
anna_tg = record {
  id = 1;
  person_id = 1;
  person_pinned = false;
  platform = telegram;
  external_user_id = pos 10;
  username = none;
  first_name = some (b'A' ∷ []);
  last_name = none;
  phone = some (b'+' ∷ digits);
  is_bot = false;
}

abbrev boris : Person
boris = record anna { id = 2; display_name = some (b'B' ∷ []) }

abbrev boris_tg : Identity
boris_tg = record anna_tg {
  id = 2;
  person_id = 2;
  person_pinned = true;
  external_user_id = pos 20;
  phone = none;
}

abbrev contacts : Tables
contacts = record {
  people = boris ∷ anna ∷ [];
  identities = boris_tg ∷ anna_tg ∷ [];
  log = [];
  next_person = 3;
  next_identity = 3;
}

contacts-IsLinked : IsLinked contacts
contacts-IsLinked = record {
  keys = record {
    unique_id = λ id. ground arith;
    fresh_id = λ id le. ground arith;
    unique_user = λ p e. users p e;
  };
  linked = λ pid. ground arith;
  fresh_person = λ pid le. ground arith;
}
  where
    users : (p : Platform) (e : ℤ) → count (is_user p e) contacts.identities ≤ 1
    users telegram (pos n) = ground arith
    users telegram (negsuc n) = omega arith
    users Platform.max (pos n) = omega arith
    users Platform.max (negsuc n) = omega arith

-- The same person in MAX.
abbrev anna_max : UserRow
anna_max = record {
  external_id = pos 30;
  username = none;
  first_name = some (b'A' ∷ []);
  last_name = none;
  phone = some digits;
  is_bot = false;
}

run : Unit {0}
unfolding normalize_phone trunk delete_empty absorb_person display_name joined_notes update_identity
    first_by_person merge_into merge_with merge_row auto_merge_identity fill_phone finish
    insert_identity values_of upsert_identity merge_all merge_people split_off split_identity
run = tt

abbrev quiet : Tables → Tables
quiet db = db

abbrev after_upsert : Tables
after_upsert = record contacts {
  people = boris ∷ record anna { primary_phone = some (b'+' ∷ digits) } ∷ [];
  identities =
      record anna_tg {
        id = 3;
        platform = Platform.max;
        external_user_id = pos 30;
        phone = some (b'+' ∷ digits);
      }
      ∷ boris_tg
      ∷ anna_tg
      ∷ [];
  log =
      record {
        action = auto_merge;
        from_person_id = 3;
        to_person_id = 1;
        identity_id = some 3;
        reason = same_phone (b'+' ∷ digits);
      }
      ∷ [];
  next_person = 4;
  next_identity = 4;
}

merges_by_phone :
    upsert_identity as_is ascii_digit quiet quiet Platform.max anna_max contacts
    ≡ some (3, after_upsert)
unfolding run
merges_by_phone = refl

upsert_identity-IsLinked_example : IsLinked after_upsert
upsert_identity-IsLinked_example =
    upsert_identity-IsLinked as_is ascii_digit quiet quiet Platform.max anna_max contacts
      after_upsert 3 (λ t l. l) (λ t l. l) contacts-IsLinked merges_by_phone

upsert_identity-IsPinnedTo_example : IsPinnedTo 2 2 after_upsert
upsert_identity-IsPinnedTo_example =
    upsert_identity-IsPinnedTo 2 2 as_is ascii_digit quiet quiet Platform.max anna_max contacts
      after_upsert 3 (λ t l. l) (λ t h. h) (λ t l. l) (λ t h. h) contacts-IsLinked
      (boris_tg, refl, refl, refl) merges_by_phone

upsert_identity_total_example :
    (r : ℕ × Tables) × (upsert_identity as_is ascii_digit quiet quiet Platform.max anna_max contacts
      ≡ some r)
    × IsOf Platform.max (pos 30) r.0 r.1
upsert_identity_total_example =
    upsert_identity_total Platform.max (pos 30) as_is ascii_digit quiet quiet anna_max contacts
      (λ t l. l) (λ t id h. h) contacts-IsLinked refl

abbrev merged : Tables
merged = merge_all as_is 1 2 none contacts

merges : merge_people as_is true 1 2 none contacts ≡ done 2 merged
unfolding run
merges = refl

merge_people-IsLinked_example : IsLinked merged
merge_people-IsLinked_example =
    merge_people-IsLinked as_is true 1 2 2 none contacts merged contacts-IsLinked merges

merge_people_moves_example :
    (j : Identity) × (find (has_id 1) merged.identities ≡ some j)
    × ((anna_tg.person_id ≡ 1) ⊎ (anna_tg.person_id ≡ 2)
        → (j.person_id ≡ 2) × (j.person_pinned ≡ true))
    × (anna_tg.person_id ≢ 1 → anna_tg.person_id ≢ 2 → j ≡ anna_tg)
merge_people_moves_example =
    merge_people_moves as_is true 1 2 2 none contacts merged 1 anna_tg merges refl

abbrev split_tables : Tables
split_tables = split_off boris_tg none contacts

splits : split_identity true 2 none contacts ≡ done 3 split_tables
unfolding run
splits = refl

split_identity-IsLinked_example : IsLinked split_tables
split_identity-IsLinked_example =
    split_identity-IsLinked true 2 3 none contacts split_tables contacts-IsLinked splits
