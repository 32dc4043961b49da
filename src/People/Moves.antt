-- ===== src/People/Moves.antt =====
-- app/repo/people.py: moving an identity to a person.
use tg_my_person.Prelude.{
  ℕ, ◌≤◌, ◌≡◌, ◌≢◌, refl, ◌∙◌, Bool, true, false, List, [], ◌∷◌, map, count, filter, find, All,
  arith, sym, ap, leb, Option, none, some, Option-cases, count_mem, count-none, All_at, find_unique,
  Bool-cases, inl, inr,
}
use mathlib.Core.List.{Memᴰ}
use tg_my_person.People.Rows.{Identity, of_person, has_id}
use tg_my_person.People.Upsert.{earlier, first_by_person}

-- A change that moves the identity to the person, and leaves the persons of all others.
pub record Moves (id to_id : ℕ) (f : Identity → Identity) : Type 0 where
  pub moved : (i : Identity) → has_id id i ≡ true → (f i).person_id ≡ to_id
  pub stays : (i : Identity) → has_id id i ≡ false → (f i).person_id ≡ i.person_id

module _ (id to_id : ℕ) (f : Identity → Identity) (m : Moves id to_id f) where
  pub count-moved_others :
      (pid from_id : ℕ) (is : List Identity)
      → All (λ i. has_id id i ≡ true → i.person_id ≡ from_id) is
      → pid ≢ to_id
      → pid ≢ from_id
      → count (of_person pid) (map f is) ≡ count (of_person pid) is
  count-moved_others pid from_id [] h to from = refl
  count-moved_others pid from_id (i ∷ is) h to from =
      let rest = count-moved_others pid from_id is h.1 to from in
      elim (Bool-cases (has_id id i)) [
        | inl e ↦ ground (arith, m.moved i e, h.0 e, rest)
        | inr e ↦ ground (arith, m.stays i e, rest)
      ]

  pub count-moved_gains :
      (is : List Identity)
      → (count (has_id id) is ≤ count (of_person to_id) (map f is))
        × (count (of_person to_id) is ≤ count (of_person to_id) (map f is))
  count-moved_gains [] = (omega arith, omega arith)
  count-moved_gains (i ∷ is) =
      let rest = count-moved_gains is in
      elim (Bool-cases (has_id id i)) [
        | inl e ↦ ground (arith, m.moved i e, rest)
        | inr e ↦ ground (arith, m.stays i e, rest)
      ]

earlier-mem :
    (q : Identity → Bool) (i : Identity) (is : List Identity) (r : Option Identity) (o : Identity)
    → q i ≡ true
    → (r ≡ some o → Memᴰ o is × (q o ≡ true))
    → earlier i r ≡ o
    → Memᴰ o (i ∷ is) × (q o ≡ true)
earlier-mem q i is none o here rest e = (Memᴰ.head (sym e), rw (← e) here)
earlier-mem q i is (some j) o here rest e = elim (Bool-cases (leb i.person_id j.person_id)) [
  | inl first ↦ let same : i ≡ o = rw first at e in (Memᴰ.head (sym same), rw (← same) here)
  | inr later ↦
      let same : j ≡ o = rw later at e in let (m, h) = rest (ap some same) in (Memᴰ.tail m, h)
]

-- An identity of the table is the one that a search for its id finds.
pub found_itself :
    (is : List Identity) (o : Identity)
    → ((id : ℕ) → count (has_id id) is ≤ 1)
    → Memᴰ o is
    → find (has_id o.id) is ≡ some o
found_itself is o unique m = elim (Option-cases (find (has_id o.id) is)) [
  | inl missing ↦
      let some_there = count_mem (has_id o.id) m (ground arith) in
      let none_there = count-none (has_id o.id) is missing in absurd (omega arith)
  | inr (y, found) ↦
      let same =
        All_at (λ (z : Identity). has_id o.id z ≡ true → z ≡ y) m
          (find_unique (has_id o.id) is y found (unique o.id)) (ground arith) in
      found ∙ ap some (sym same)
]

pub first_by_person-mem :
    (q : Identity → Bool) (is : List Identity) (o : Identity)
    → first_by_person (filter q is) ≡ some o
    → Memᴰ o is × (q o ≡ true)
unfolding first_by_person
first_by_person-mem q [] o e = absurd (cc)
first_by_person-mem q (i ∷ is) o e = elim (Bool-cases (q i)) [
  | inl here ↦
      let e' : some (earlier i (first_by_person (filter q is))) ≡ some o = rw here at e in
      earlier-mem q i is (first_by_person (filter q is)) o here (λ r. first_by_person-mem q is o r)
        (ground arith)
  | inr there ↦ let (m, h) = first_by_person-mem q is o (rw there at e) in (Memᴰ.tail m, h)
]
