-- ===== src/People/Linked.antt =====
-- app/repo/people.py: the links between people and identities, ids and platform users.
use tg_my_person.Prelude.{
  ℕ, zero, suc, ◌≤◌, ◌≡◌, refl, ◌∙◌, Bool, true, ◌&&◌, Option, none, some, List, ◌∷◌, map, ◌==ℤ◌, ℤ,
  count, find, arith, count-map_keeps, count-none, ==ℤ_iff, Option-cases, Bool-cases, inl, inr,
}
use tg_my_person.Models.{Platform, telegram}
use tg_my_person.People.Rows.{
  Text, Person, Identity, Tables, is_person, of_person, has_id, is_user, same_platform,
}
use tg_my_person.People.Upsert.{
  Values, identity_row_after, update_identity, fill_row, fill_phone, new_identity, insert_identity,
  person_of,
}

abbrev pub occupied : ℕ → ℕ
occupied zero = 0
occupied (suc n) = 1

-- The keys of the identities.
pub record HasKeys (is : List Identity) (next : ℕ) : Type 0 where
  pub unique_id : (id : ℕ) → count (has_id id) is ≤ 1
  pub fresh_id : (id : ℕ) → next ≤ id → count (has_id id) is ≡ 0
  pub unique_user : (p : Platform) (external : ℤ) → count (is_user p external) is ≤ 1

-- A person is in the table once if it has identities, and else not at all.
pub record IsLinked (db : Tables) : Type 0 where
  pub keys : HasKeys db.identities db.next_identity
  pub linked :
      (pid : ℕ) → count (is_person pid) db.people ≡ occupied (count (of_person pid) db.identities)
  pub fresh_person : (pid : ℕ) → db.next_person ≤ pid → count (is_person pid) db.people ≡ 0

-- A change of a row that keeps its keys.
pub record KeepsKeys (f : Identity → Identity) : Type 0 where
  pub id : (i : Identity) → (f i).id ≡ i.id
  pub platform : (i : Identity) → (f i).platform ≡ i.platform
  pub external : (i : Identity) → (f i).external_user_id ≡ i.external_user_id

pub map-HasKeys :
    (f : Identity → Identity) (is : List Identity) (next : ℕ)
    → KeepsKeys f
    → HasKeys is next
    → HasKeys (map f is) next
map-HasKeys f is next k h =
    let ids : (id : ℕ) → count (has_id id) (map f is) ≡ count (has_id id) is =
      λ id. count-map_keeps f (has_id id) (λ i. rw (k.id i) refl) is in
    let users : (p : Platform) (external : ℤ)
        → count (is_user p external) (map f is) ≡ count (is_user p external) is =
      λ p external.
        count-map_keeps f (is_user p external) (λ i. rw (k.platform i, k.external i) refl) is in
    record {
      unique_id = λ id. rw (ids id) (h.unique_id id);
      fresh_id = λ id le. rw (ids id) (h.fresh_id id le);
      unique_user = λ p external. rw (users p external) (h.unique_user p external);
    }

pub count-map-of_person :
    (f : Identity → Identity) (is : List Identity) (pid : ℕ)
    → ((i : Identity) → (f i).person_id ≡ i.person_id)
    → count (of_person pid) (map f is) ≡ count (of_person pid) is
count-map-of_person f is pid same = count-map_keeps f (of_person pid) (λ i. rw (same i) refl) is

pub count-map-is_person :
    (f : Person → Person) (ps : List Person) (pid : ℕ)
    → ((p : Person) → (f p).id ≡ p.id)
    → count (is_person pid) (map f ps) ≡ count (is_person pid) ps
count-map-is_person f ps pid same = count-map_keeps f (is_person pid) (λ p. rw (same p) refl) ps

module _ (platform : Platform) (external : ℤ) (v : Values) where
  identity_row_after-person :
      (i : Identity) → (identity_row_after platform external v i).person_id ≡ i.person_id
  identity_row_after-person i = ground arith

  identity_row_after-KeepsKeys : KeepsKeys (identity_row_after platform external v)
  identity_row_after-KeepsKeys = record {
    id = λ i. ground arith;
    platform = λ i. ground arith;
    external = λ i. ground arith;
  }

  pub update_identity-IsLinked :
      (db : Tables) → IsLinked db → IsLinked (update_identity platform external v db).1
  unfolding update_identity
  update_identity-IsLinked db h = record {
    keys =
        map-HasKeys (identity_row_after platform external v) db.identities db.next_identity
          identity_row_after-KeepsKeys h.keys;
    linked = λ pid.
        rw
          (count-map-of_person (identity_row_after platform external v) db.identities pid
            identity_row_after-person)
          (h.linked pid);
    fresh_person = h.fresh_person;
  }

fill_row-id : (o : Option ℕ) (phone : Text) (p : Person) → (fill_row o phone p).id ≡ p.id
fill_row-id none phone p = refl
fill_row-id (some person) phone p = ground arith

pub fill_phone-IsLinked :
    (id : ℕ) (phone : Text) (db : Tables) → IsLinked db → IsLinked (fill_phone id phone db)
unfolding fill_phone
fill_phone-IsLinked id phone db h =
    let o = person_of (find (has_id id) db.identities) in
    let same : (pid : ℕ)
        → count (is_person pid) (map (fill_row o phone) db.people)
          ≡ count (is_person pid) db.people =
      λ pid. count-map-is_person (fill_row o phone) db.people pid (fill_row-id o phone) in
    record {
      keys = h.keys;
      linked = λ pid. same pid ∙ h.linked pid;
      fresh_person = λ pid le. same pid ∙ h.fresh_person pid le;
    }

no_identities : (db : Tables) → IsLinked db → count (of_person db.next_person) db.identities ≡ 0
no_identities db h =
    let fresh = h.fresh_person db.next_person (omega arith) in
    let link = h.linked db.next_person in ground arith

same_platform_eq : (p q : Platform) → same_platform p q ≡ true → p ≡ q
same_platform_eq telegram telegram h = refl
same_platform_eq Platform.max Platform.max h = refl
same_platform_eq telegram Platform.max h = absurd (cc)
same_platform_eq Platform.max telegram h = absurd (cc)

and_true : (a b : Bool) → (a && b) ≡ true → (a ≡ true) × (b ≡ true)
and_true a b h = ground arith

no_such_user :
    (p q : Platform) (a b : ℤ) (is : List Identity)
    → (same_platform p q && a ==ℤ b) ≡ true
    → find (is_user p a) is ≡ none
    → count (is_user q b) is ≡ 0
no_such_user p q a b is same free =
    let (platform, external) = and_true (same_platform p q) (a ==ℤ b) same in
    rw (← same_platform_eq p q platform, ← (==ℤ_iff a b).0 external)
      (count-none (is_user p a) is free)

new_keys :
    (platform : Platform) (external : ℤ) (v : Values) (db : Tables)
    → find (is_user platform external) db.identities ≡ none
    → IsLinked db
    → HasKeys
        (new_identity db.next_identity db.next_person platform external v ∷ db.identities)
        (suc db.next_identity)
new_keys platform external v db free h = record {
  unique_id = λ id. ground (arith, h.keys.unique_id id, h.keys.fresh_id id);
  fresh_id = λ id le. ground (arith, h.keys.fresh_id id (omega arith));
  unique_user = λ p e. elim (Bool-cases (same_platform platform p && external ==ℤ e)) [
    | inl same ↦
        let none_yet = no_such_user platform p external e db.identities same free in
        rw same (omega (arith, none_yet))
    | inr other ↦ rw other (h.keys.unique_user p e)
  ];
}

pub insert_identity-IsLinked :
    (platform : Platform) (external : ℤ) (name : Option Text) (v : Values) (db : Tables)
    → IsLinked db
    → IsLinked (insert_identity platform external name v db).1
unfolding insert_identity
insert_identity-IsLinked platform external name v db h =
    elim (Option-cases (find (is_user platform external) db.identities)) [
      | inl free ↦
          rw (free, insert_identity)
            (record {
              keys = new_keys platform external v db free h;
              linked = λ pid. ground (arith, h.linked pid, no_identities db h, h.fresh_person pid);
              fresh_person = λ pid le. ground (arith, h.fresh_person pid (omega arith));
            })
      | inr (i, taken) ↦
          rw (taken, insert_identity)
            (update_identity-IsLinked platform external v
              (record db { next_person = suc db.next_person })
              (record {
                keys = h.keys;
                linked = h.linked;
                fresh_person = λ pid le. h.fresh_person pid (omega arith);
              }))
    ]
