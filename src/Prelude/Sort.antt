-- ===== src/Prelude/Sort.antt =====
-- Numbers in ascending order: what a query's ORDER BY with OFFSET and LIMIT 1 answers.
use Prim.Native.Nat.{ℕ, zero, suc, ◌+◌, ◌≤◌, ◌<◌}
use mathlib.Core.Path.{◌≡◌, refl}
use mathlib.Core.Bool.{Bool}
use mathlib.Core.List.{List, [], ◌∷◌}
use mathlib.Core.Option.{some}
use native.Mathlib.Omega.{arith}
use tg_my_person.Prelude.Tests.{ltb, leb, if◌then◌else◌}
use tg_my_person.Prelude.Lists.{length, get_elem?, count, All, All-map}

insert : ℕ → List ℕ → List ℕ
insert a [] = a ∷ []
insert a (x ∷ xs) = if leb a x then a ∷ x ∷ xs else x ∷ insert a xs

unfoldable pub sort : List ℕ → List ℕ
unfolding insert
sort [] = []
sort (x ∷ xs) = insert x (sort xs)

abbrev pub IsSorted : List ℕ → Type 0
IsSorted [] = Unit
IsSorted (x ∷ xs) = All (λ y. x ≤ y) xs × IsSorted xs

All-insert : (b a : ℕ) (xs : List ℕ) → b ≤ a → All (λ y. b ≤ y) xs → All (λ y. b ≤ y) (insert a xs)
unfolding insert
All-insert b a [] h hs = (h, tt)
All-insert b a (x ∷ xs) h (k, hs) = ground (arith, All-insert b a xs h hs)

insert-IsSorted : (a : ℕ) (xs : List ℕ) → IsSorted xs → IsSorted (insert a xs)
unfolding insert
insert-IsSorted a [] h = (tt, tt)
insert-IsSorted a (x ∷ xs) (h, hs) =
    ground (arith, insert-IsSorted a xs hs, All-insert x a xs, All-map (λ y. x ≤ y) (λ y. a ≤ y) xs)

pub sort-IsSorted : (xs : List ℕ) → IsSorted (sort xs)
unfolding sort
sort-IsSorted [] = tt
sort-IsSorted (x ∷ xs) = insert-IsSorted x (sort xs) (sort-IsSorted xs)

count-insert : (p : ℕ → Bool) (a : ℕ) (xs : List ℕ) → count p (insert a xs) ≡ count p (a ∷ xs)
unfolding insert
count-insert p a [] = refl
count-insert p a (x ∷ xs) = ground (arith, count-insert p a xs)

pub count-sort : (p : ℕ → Bool) (xs : List ℕ) → count p (sort xs) ≡ count p xs
unfolding sort
count-sort p [] = refl
count-sort p (x ∷ xs) = ground (arith, count-sort p xs, count-insert p x (sort xs))

length-insert : (a : ℕ) (xs : List ℕ) → length (insert a xs) ≡ suc (length xs)
unfolding insert
length-insert a [] = refl
length-insert a (x ∷ xs) = ground (arith, length-insert a xs)

pub length-sort : (xs : List ℕ) → length (sort xs) ≡ length xs
unfolding sort
length-sort [] = refl
length-sort (x ∷ xs) = omega (arith, length-insert x (sort xs), length-sort xs)

count_le_length : (p : ℕ → Bool) (xs : List ℕ) → count p xs ≤ length xs
count_le_length p [] = omega arith
count_le_length p (x ∷ xs) = ground (arith, count_le_length p xs)

count-All_above : (b : ℕ) (xs : List ℕ) → All (λ y. b ≤ y) xs → count (leb b) xs ≡ length xs
count-All_above b [] h = refl
count-All_above b (x ∷ xs) (h, hs) = ground (arith, count-All_above b xs hs)

head_eq : (y x : ℕ) (ys : List ℕ) → get_elem? (y ∷ ys) 0 ≡ some x → y ≡ x
head_eq y x ys e = cc

le_of_get_elem? : (b i x : ℕ) (xs : List ℕ) → All (λ y. b ≤ y) xs → get_elem? xs i ≡ some x → b ≤ x
le_of_get_elem? b i x [] h e = absurd (cc)
le_of_get_elem? b zero x (y ∷ ys) (h, hs) e = ground arith
le_of_get_elem? b (suc i) x (y ∷ ys) (h, hs) e = le_of_get_elem? b i x ys hs e

-- At most the items behind the `i`-th of a sorted list are greater than it.
pub count_above_le :
    (i x : ℕ) (xs : List ℕ)
    → IsSorted xs
    → get_elem? xs i ≡ some x
    → count (ltb x) xs + suc i ≤ length xs
count_above_le i x [] h e = absurd (cc)
count_above_le zero x (y ∷ ys) (h, hs) e = ground (arith, count_le_length (ltb x) ys)
count_above_le (suc i) x (y ∷ ys) (h, hs) e =
    ground (arith, count_above_le i x ys hs e, le_of_get_elem? y i x ys h e)

-- At least the items from the `i`-th of a sorted list on are at least that.
pub count_from_ge :
    (i x : ℕ) (xs : List ℕ)
    → IsSorted xs
    → get_elem? xs i ≡ some x
    → length xs ≤ count (leb x) xs + i
count_from_ge i x [] h e = absurd (cc)
count_from_ge zero x (y ∷ ys) (h, hs) e =
    ground (arith, count-All_above x ys (rw (head_eq y x ys e) at h))
count_from_ge (suc i) x (y ∷ ys) (h, hs) e = ground (arith, count_from_ge i x ys hs e)

pub get_elem?_total : (i : ℕ) (xs : List ℕ) → i < length xs → (x : ℕ) × (get_elem? xs i ≡ some x)
get_elem?_total i [] h = absurd (omega arith)
get_elem?_total zero (x ∷ xs) h = (x, refl)
get_elem?_total (suc i) (x ∷ xs) h = get_elem?_total i xs (omega arith)
