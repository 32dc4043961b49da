-- ===== src/Prelude/SortBy.antt =====
-- Python's `sorted` with a key: a stable sort of a list by a test of its order.
use Prim.Native.Nat.{suc}
use mathlib.Core.Path.{◌≡◌, refl}
use native.Mathlib.Omega.{arith}
use mathlib.Core.Bool.{Bool, true, false}
use mathlib.Core.List.{List, [], ◌∷◌, Memᴰ}
use mathlib.Core.Logic.{inl, inr}
use tg_my_person.Prelude.Tests.{if◌then◌else◌, Bool-cases}
use tg_my_person.Prelude.Lists.{length, All, All-map}

module _ {ℓ} {A : Type ℓ} where
  abbrev pub Pairwise {κ} : (A → A → Type κ) → List A → Type κ
  Pairwise R [] = Unit
  Pairwise R (x ∷ xs) = All (R x) xs × Pairwise R xs

module _ {ℓ} {A : Type ℓ} (le : A → A → Bool) where
  insert_by : A → List A → List A
  insert_by a [] = a ∷ []
  insert_by a (x ∷ xs) = if le a x then a ∷ x ∷ xs else x ∷ insert_by a xs

  unfoldable pub sort_by : List A → List A
  unfolding insert_by
  sort_by [] = []
  sort_by (x ∷ xs) = insert_by x (sort_by xs)

  All-insert_by {κ} :
      (P : A → Type κ) (a : A) (xs : List A) → P a → All P xs → All P (insert_by a xs)
  unfolding insert_by
  All-insert_by P a [] h hs = (h, tt)
  All-insert_by P a (x ∷ xs) h (k, hs) = elim (Bool-cases (le a x)) [
    | inl here ↦ rw here (h, (k, hs))
    | inr later ↦ rw later (k, All-insert_by P a xs h hs)
  ]

  pub All-sort_by {κ} : (P : A → Type κ) (xs : List A) → All P xs → All P (sort_by xs)
  unfolding sort_by
  All-sort_by P [] h = tt
  All-sort_by P (x ∷ xs) (h, hs) = All-insert_by P x (sort_by xs) h (All-sort_by P xs hs)

  length-insert_by : (a : A) (xs : List A) → length (insert_by a xs) ≡ suc (length xs)
  unfolding insert_by
  length-insert_by a [] = refl
  length-insert_by a (x ∷ xs) = ground (arith, length-insert_by a xs)

  pub length-sort_by : (xs : List A) → length (sort_by xs) ≡ length xs
  unfolding sort_by
  length-sort_by [] = refl
  length-sort_by (x ∷ xs) = omega (arith, length-insert_by x (sort_by xs), length-sort_by xs)

  mem-insert_by_self : {b : A} (a : A) (xs : List A) → b ≡ a → Memᴰ b (insert_by a xs)
  unfolding insert_by
  mem-insert_by_self a [] same = Memᴰ.head same
  mem-insert_by_self a (x ∷ xs) same = elim (Bool-cases (le a x)) [
    | inl here ↦ rw here (Memᴰ.head same)
    | inr later ↦ rw later (Memᴰ.tail (mem-insert_by_self a xs same))
  ]

  mem-insert_by : {b : A} (a : A) {xs : List A} → Memᴰ b xs → Memᴰ b (insert_by a xs)
  unfolding insert_by
  mem-insert_by a {xs = []} m = elim m [ ]
  mem-insert_by a {xs = x ∷ xs} (Memᴰ.head same) = elim (Bool-cases (le a x)) [
    | inl here ↦ rw here (Memᴰ.tail (Memᴰ.head same))
    | inr later ↦ rw later (Memᴰ.head same)
  ]
  mem-insert_by a {xs = x ∷ xs} (Memᴰ.tail m) = elim (Bool-cases (le a x)) [
    | inl here ↦ rw here (Memᴰ.tail (Memᴰ.tail m))
    | inr later ↦ rw later (Memᴰ.tail (mem-insert_by a m))
  ]

  pub mem-sort_by : {b : A} {xs : List A} → Memᴰ b xs → Memᴰ b (sort_by xs)
  unfolding sort_by
  mem-sort_by {xs = []} m = elim m [ ]
  mem-sort_by {xs = x ∷ xs} (Memᴰ.head same) = mem-insert_by_self x (sort_by xs) same
  mem-sort_by {xs = x ∷ xs} (Memᴰ.tail m) = mem-insert_by x (mem-sort_by m)

  Pairwise-insert_by {κ} :
      (R : A → A → Type κ)
      → ((x y : A) → R x y → R y x)
      → (a : A) (xs : List A) → All (R a) xs
      → Pairwise R xs
      → Pairwise R (insert_by a xs)
  unfolding insert_by
  Pairwise-insert_by R sym a [] h hs = (tt, tt)
  Pairwise-insert_by R sym a (x ∷ xs) (h, hs) (k, ks) = elim (Bool-cases (le a x)) [
    | inl here ↦ rw here ((h, hs), (k, ks))
    | inr later ↦
        rw later (All-insert_by (R x) a xs (sym a x h) k, Pairwise-insert_by R sym a xs hs ks)
  ]

  -- A symmetric relation between any two members does not depend on the order.
  pub Pairwise-sort_by {κ} :
      (R : A → A → Type κ)
      → ((x y : A) → R x y → R y x)
      → (xs : List A) → Pairwise R xs
      → Pairwise R (sort_by xs)
  unfolding sort_by
  Pairwise-sort_by R sym [] h = tt
  Pairwise-sort_by R sym (x ∷ xs) (h, hs) =
      Pairwise-insert_by R sym x (sort_by xs) (All-sort_by (R x) xs h)
        (Pairwise-sort_by R sym xs hs)

  abbrev pub Before : A → A → Type 0
  Before x y = le x y ≡ true

  module _ (total : (x y : A) → le x y ≡ false → le y x ≡ true)
      (trans : (x y z : A) → le x y ≡ true → le y z ≡ true → le x z ≡ true) where
    insert_by-Before : (a : A) (xs : List A) → Pairwise Before xs → Pairwise Before (insert_by a xs)
    unfolding insert_by
    insert_by-Before a [] h = (tt, tt)
    insert_by-Before a (x ∷ xs) (h, hs) = elim (Bool-cases (le a x)) [
      | inl here ↦
          rw here ((here, All-map (Before x) (Before a) xs (λ y k. trans a x y here k) h), (h, hs))
      | inr later ↦
          rw later (All-insert_by (Before x) a xs (total a x later) h, insert_by-Before a xs hs)
    ]

    pub sort_by-Before : (xs : List A) → Pairwise Before (sort_by xs)
    unfolding sort_by
    sort_by-Before [] = tt
    sort_by-Before (x ∷ xs) = insert_by-Before x (sort_by xs) (sort_by-Before xs)
