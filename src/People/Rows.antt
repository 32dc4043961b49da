-- ===== src/People/Rows.antt =====
-- The tables of contacts, with the parts of statements that several operations share.
use tg_my_person.Prelude.{
  ℕ, Bool, true, false, not, ◌&&◌, Option, none, some, List, [], ◌∷◌, ◌++◌, map, ◌==◌, ◌==ℤ◌, ℤ,
  if◌then◌else◌, count, filter, find, same_codes,
}
use tg_my_person.Models.{Platform, telegram}

abbrev pub Text : Type 0
Text = List ℕ

pub record Person : Type 0 where
  pub id : ℕ
  pub display_name : Option Text
  pub primary_phone : Option Text
  pub tags : List Text
  pub notes : Option Text

pub record Identity : Type 0 where
  pub id : ℕ
  pub person_id : ℕ
  pub person_pinned : Bool
  pub platform : Platform
  pub external_user_id : ℤ
  pub username : Option Text
  pub first_name : Option Text
  pub last_name : Option Text
  pub phone : Option Text
  pub is_bot : Bool

pub data Action : Type 0 where
  auto_merge merge split : Action

-- The reason that the code writes itself, or the caller's.
pub data MergeReason : Type 0 where
  same_phone : Text → MergeReason
  given : Option Text → MergeReason

pub record PeopleMergeLog : Type 0 where
  pub action : Action
  pub from_person_id : ℕ
  pub to_person_id : ℕ
  pub identity_id : Option ℕ
  pub reason : MergeReason

-- The tables and their sequences.
pub record Tables : Type 0 where
  pub people : List Person
  pub identities : List Identity
  pub log : List PeopleMergeLog
  pub next_person : ℕ
  pub next_identity : ℕ

pub record UserRow : Type 0 where
  pub external_id : ℤ
  pub username : Option Text
  pub first_name : Option Text
  pub last_name : Option Text
  pub phone : Option Text
  pub is_bot : Bool

-- `value or None`
abbrev pub or_none : Option Text → Option Text
or_none none = none
or_none (some []) = none
or_none (some (c ∷ cs)) = some (c ∷ cs)

-- `coalesce(a, b)`
abbrev pub coalesce {ℓ} : {A : Type ℓ} → Option A → Option A → Option A
coalesce none b = b
coalesce (some a) b = some a

abbrev pub same_platform : Platform → Platform → Bool
same_platform telegram telegram = true
same_platform Platform.max Platform.max = true
same_platform _ _ = false

-- SQL's `=` of two texts that may be null.
abbrev pub equal_text : Option Text → Option Text → Bool
equal_text (some a) (some b) = same_codes a b
equal_text _ _ = false

abbrev pub is_person : ℕ → Person → Bool
is_person pid p = p.id == pid

abbrev pub of_person : ℕ → Identity → Bool
of_person pid i = i.person_id == pid

abbrev pub has_id : ℕ → Identity → Bool
has_id id i = i.id == id

abbrev pub is_user : Platform → ℤ → Identity → Bool
is_user platform external i = same_platform i.platform platform && i.external_user_id ==ℤ external

-- " ".join of the parts that are not empty.
abbrev pub joined : Option Text → Option Text → Option Text
joined none last = last
joined (some a) none = some a
joined (some a) (some b) = some (a ++ (b' ' ∷ b))

-- `_display_name`, and the same expression in `split_identity`.
unfoldable pub display_name : Option Text → Option Text → Option Text → Option Text
display_name first last username =
    coalesce (joined (or_none first) (or_none last)) (or_none username)

abbrev pub move : ℕ → ℕ → Identity → Identity
move id person i = if i.id == id then record i { person_id = person } else i

-- `t.notes || E'\n' || s.notes`, where an empty text counts as none.
unfoldable pub joined_notes : Option Text → Option Text → Option Text
joined_notes target none = target
joined_notes target (some []) = target
joined_notes none (some (c ∷ cs)) = some (c ∷ cs)
joined_notes (some []) (some (c ∷ cs)) = some (c ∷ cs)
joined_notes (some (a ∷ as_)) (some (c ∷ cs)) = some ((a ∷ as_) ++ (b'\n' ∷ c ∷ cs))

-- `DELETE FROM people` where no identity is left.
unfoldable pub delete_empty : ℕ → Tables → Tables
delete_empty pid db =
    if count (of_person pid) db.identities == 0
    then record db { people = filter (λ p. not (is_person pid p)) db.people }
    else db

module _ (distinct_sorted : List Text → List Text) where
  abbrev pub absorbed : Person → Person → Person
  absorbed t s = record t {
    tags = distinct_sorted (t.tags ++ s.tags);
    notes = joined_notes t.notes s.notes;
    display_name = coalesce t.display_name s.display_name;
    primary_phone = coalesce t.primary_phone s.primary_phone;
  }

  -- The update with a join: it changes nothing if the source is not there.
  abbrev pub absorb_row : ℕ → Option Person → Person → Person
  absorb_row target none t = t
  absorb_row target (some s) t = if is_person target t then absorbed t s else t

  -- `_absorb_person`
  unfoldable pub absorb_person : ℕ → ℕ → Tables → Tables
  unfolding delete_empty
  absorb_person target source db =
      delete_empty source (record db {
        people = map (absorb_row target (find (is_person source) db.people)) db.people;
      })
