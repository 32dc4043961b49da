-- ===== src/Prelude/Lists.antt =====
-- Lists filtered and counted by Boolean tests, as the program's queries do.
use Prim.Native.Nat.{ℕ, zero, suc, ◌+◌, ◌≤◌, ◌<◌}
use mathlib.Core.Path.{◌≡◌, refl, sym, ap, subst}
use mathlib.Core.Logic.{◌⊎◌, inl, inr}
use mathlib.Core.Bool.{Bool, true, false, ◌&&◌, ◌||◌}
use mathlib.Core.List.{Memᴰ, List, [], ◌∷◌, ◌++◌, map}
use mathlib.Core.Option.{Option, none, some}
use native.Mathlib.Omega.{arith}
use tg_my_person.Prelude.Tests.{if◌then◌else◌, ◌==◌, Bool-cases}

module _ {ℓ} {A : Type ℓ} where
  abbrev pub length : List A → ℕ
  length [] = 0
  length (x ∷ xs) = suc (length xs)

  abbrev pub get_elem? : List A → ℕ → Option A
  get_elem? [] i = none
  get_elem? (x ∷ xs) zero = some x
  get_elem? (x ∷ xs) (suc i) = get_elem? xs i

  abbrev pub filter : (A → Bool) → List A → List A
  filter p [] = []
  filter p (x ∷ xs) = let rest = filter p xs in if p x then x ∷ rest else rest

  abbrev pub count : (A → Bool) → List A → ℕ
  count p [] = 0
  count p (x ∷ xs) = let rest = count p xs in if p x then suc rest else rest

  abbrev pub find : (A → Bool) → List A → Option A
  find p [] = none
  find p (x ∷ xs) = if p x then some x else find p xs

  abbrev pub any : (A → Bool) → List A → Bool
  any p [] = false
  any p (x ∷ xs) = p x || any p xs

  abbrev pub all : (A → Bool) → List A → Bool
  all p [] = true
  all p (x ∷ xs) = p x && all p xs

  abbrev pub replicate : ℕ → A → List A
  replicate zero a = []
  replicate (suc n) a = a ∷ replicate n a

  abbrev pub All {κ} : (A → Type κ) → List A → Type κ
  All P [] = Unit
  All P (x ∷ xs) = P x × All P xs

module _ {ℓ} {A : Type ℓ} where
  pub count-filter :
      (p q : A → Bool) (xs : List A) → count p (filter q xs) ≡ count (λ x. q x && p x) xs
  count-filter p q [] = refl
  count-filter p q (x ∷ xs) = ground (arith, count-filter p q xs)

  pub filter-filter :
      (p q : A → Bool) (xs : List A) → filter p (filter q xs) ≡ filter (λ x. q x && p x) xs
  filter-filter p q [] = refl
  filter-filter p q (x ∷ xs) = ground (arith, filter-filter p q xs)

  pub filter_comm : (p q : A → Bool) (xs : List A) → filter q (filter p xs) ≡ filter p (filter q xs)
  filter_comm p q [] = refl
  filter_comm p q (x ∷ xs) = ground (arith, filter_comm p q xs)

  pub length-filter : (p : A → Bool) (xs : List A) → length (filter p xs) ≡ count p xs
  length-filter p [] = refl
  length-filter p (x ∷ xs) = ground (arith, length-filter p xs)

  -- A test that implies another on the list's items counts no more of them.
  pub count_mono :
      (p q : A → Bool)
      → ((x : A) → p x ≡ true → q x ≡ true)
      → (xs : List A) → count p xs ≤ count q xs
  count_mono p q h [] = omega arith
  count_mono p q h (x ∷ xs) = ground (arith, h x, count_mono p q h xs)

  pub count_congr :
      (p q : A → Bool) → ((x : A) → p x ≡ q x) → (xs : List A) → count p xs ≡ count q xs
  count_congr p q h [] = refl
  count_congr p q h (x ∷ xs) = ground (arith, h x, count_congr p q h xs)

  pub filter_congr :
      (p q : A → Bool) → ((x : A) → p x ≡ q x) → (xs : List A) → filter p xs ≡ filter q xs
  filter_congr p q h [] = refl
  filter_congr p q h (x ∷ xs) = ground (arith, h x, filter_congr p q h xs)

  pub count-filter_le : (p q : A → Bool) (xs : List A) → count p (filter q xs) ≤ count p xs
  count-filter_le p q [] = omega arith
  count-filter_le p q (x ∷ xs) = ground (arith, count-filter_le p q xs)

  pub count-append : (p : A → Bool) (xs ys : List A) → count p (xs ++ ys) ≡ count p xs + count p ys
  count-append p [] ys = omega arith
  count-append p (x ∷ xs) ys = ground (arith, count-append p xs ys)

  pub filter-append :
      (p : A → Bool) (xs ys : List A) → filter p (xs ++ ys) ≡ filter p xs ++ filter p ys
  filter-append p [] ys = refl
  filter-append p (x ∷ xs) ys = ground (arith, filter-append p xs ys)

  pub All-filter {κ} :
      (P : A → Type κ) (p : A → Bool) (xs : List A) → All P xs → All P (filter p xs)
  All-filter P p [] h = tt
  All-filter P p (x ∷ xs) (h, hs) = ground (arith, All-filter P p xs hs)

  pub All-map {κ} : (P Q : A → Type κ) (xs : List A) → ((x : A) → P x → Q x) → All P xs → All Q xs
  All-map P Q [] f h = tt
  All-map P Q (x ∷ xs) f (h, hs) = (f x h, All-map P Q xs f hs)

module _ {ℓ κ} {A : Type ℓ} {B : Type κ} where
  pub count-map :
      (f : A → B) (p : B → Bool) (xs : List A) → count p (map f xs) ≡ count (λ x. p (f x)) xs
  count-map f p [] = refl
  count-map f p (x ∷ xs) = ground (arith, count-map f p xs)

  pub length-map : (f : A → B) (xs : List A) → length (map f xs) ≡ length xs
  length-map f [] = refl
  length-map f (x ∷ xs) = omega (arith, length-map f xs)

pub All-append {ℓ κ} :
    {A : Type ℓ} (P : A → Type κ) (xs ys : List A) → All P xs → All P ys → All P (xs ++ ys)
All-append P [] ys h k = k
All-append P (x ∷ xs) ys (h, hs) k = (h, All-append P xs ys hs k)

-- Equality of texts of code points.
abbrev pub same_codes : List ℕ → List ℕ → Bool
same_codes [] [] = true
same_codes (a ∷ as_) (b ∷ bs) = a == b && same_codes as_ bs
same_codes _ _ = false

module _ {ℓ} {A : Type ℓ} where
  pub count-map_keeps :
      (f : A → A) (p : A → Bool)
      → ((x : A) → p (f x) ≡ p x)
      → (xs : List A) → count p (map f xs) ≡ count p xs
  count-map_keeps f p h [] = refl
  count-map_keeps f p h (x ∷ xs) = ground (arith, h x, count-map_keeps f p h xs)

  pub count-none : (p : A → Bool) (xs : List A) → find p xs ≡ none → count p xs ≡ 0
  count-none p [] h = refl
  count-none p (x ∷ xs) h = ground (arith, count-none p xs)

  pub count-some :
      (p : A → Bool) (xs : List A) (x : A) → find p xs ≡ some x → (p x ≡ true) × (0 < count p xs)
  count-some p [] x h = absurd (cc)
  count-some p (y ∷ ys) x h = elim (Bool-cases (p y)) [
    | inl e ↦ let same : y ≡ x = ground arith in (rw (← same) e, ground arith)
    | inr e ↦ ground (arith, count-some p ys x)
  ]

  pub All-none {κ} :
      (p : A → Bool) (P : A → Type κ) (xs : List A)
      → count p xs ≡ 0
      → All (λ y. p y ≡ true → P y) xs
  All-none p P [] h = tt
  All-none p P (x ∷ xs) h = (λ k. absurd (ground arith), All-none p P xs (ground arith))

  -- The only item that passes a test is the one that a search finds.
  pub find_unique :
      (p : A → Bool) (xs : List A) (x : A)
      → find p xs ≡ some x
      → count p xs ≤ 1
      → All (λ y. p y ≡ true → y ≡ x) xs
  find_unique p [] x h u = tt
  find_unique p (y ∷ ys) x h u = elim (Bool-cases (p y)) [
    | inl e ↦
        let same : y ≡ x = ground arith in
        let rest : count p ys ≡ 0 = ground arith in (λ k. same, All-none p (λ z. z ≡ x) ys rest)
    | inr e ↦ (λ k. absurd (cc), find_unique p ys x (ground arith) (ground arith))
  ]

module _ {ℓ} {A : Type ℓ} where
  pub count-found :
      (p q : A → Bool) (xs : List A) (x : A) → find p xs ≡ some x → q x ≡ true → 0 < count q xs
  count-found p q [] x h k = absurd (cc)
  count-found p q (y ∷ ys) x h k = elim (Bool-cases (p y)) [
    | inl e ↦
        let same : y ≡ x = ground arith in let here : q y ≡ true = rw same k in ground (arith, here)
    | inr e ↦ ground (arith, count-found p q ys x (ground arith) k)
  ]

  pub find-map_keeps :
      (f : A → A) (p : A → Bool)
      → ((x : A) → p (f x) ≡ p x)
      → (xs : List A) (x : A) → find p xs ≡ some x
      → find p (map f xs) ≡ some (f x)
  find-map_keeps f p h [] x e = absurd (cc)
  find-map_keeps f p h (y ∷ ys) x e = elim (Bool-cases (p y)) [
    | inl here ↦ let same : y ≡ x = ground arith in rw (h y, here) (ap (λ z. some (f z)) same)
    | inr there ↦ rw (h y, there) (find-map_keeps f p h ys x (rw there at e))
  ]

  pub count_mem : (p : A → Bool) {x : A} {xs : List A} → Memᴰ x xs → p x ≡ true → 0 < count p xs
  count_mem p {x} {xs = []} m h = elim m [ ]
  count_mem p {x} {xs = y ∷ ys} (Memᴰ.head same) h =
      let here : p y ≡ true = rw (← same) h in ground (arith, here)
  count_mem p {x} {xs = y ∷ ys} (Memᴰ.tail m) h = ground (arith, count_mem p m h)

  pub All_at {κ} : (P : A → Type κ) {x : A} {xs : List A} → Memᴰ x xs → All P xs → P x
  All_at P (Memᴰ.head same) (h, hs) = subst P (sym same) h
  All_at P (Memᴰ.tail m) (h, hs) = All_at P m hs

pub count-any {ℓ} : {A : Type ℓ} (p : A → Bool) (xs : List A) → any p xs ≡ true → 0 < count p xs
count-any p [] h = absurd (cc)
count-any p (x ∷ xs) h = ground (arith, count-any p xs)

module _ {ℓ} {A : Type ℓ} where
  pub find-mem : (p : A → Bool) (xs : List A) (x : A) → find p xs ≡ some x → Memᴰ x xs
  find-mem p [] x h = absurd (cc)
  find-mem p (y ∷ ys) x h = elim (Bool-cases (p y)) [
    | inl e ↦ let same : y ≡ x = ground arith in Memᴰ.head (sym same)
    | inr e ↦ Memᴰ.tail (find-mem p ys x (rw e at h))
  ]

pub List-cases {ℓ} :
    {A : Type ℓ} (xs : List A) → (xs ≡ []) ⊎ ((y : A) × (ys : List A) × (xs ≡ y ∷ ys))
List-cases [] = inl refl
List-cases (y ∷ ys) = inr (y, ys, refl)

module _ {ℓ} {A : Type ℓ} where
  abbrev pub take : ℕ → List A → List A
  take zero xs = []
  take (suc n) [] = []
  take (suc n) (x ∷ xs) = x ∷ take n xs

  pub All-take {κ} : (P : A → Type κ) (n : ℕ) (xs : List A) → All P xs → All P (take n xs)
  All-take P zero xs h = tt
  All-take P (suc n) [] h = tt
  All-take P (suc n) (x ∷ xs) (h, hs) = (h, All-take P n xs hs)

  pub All-filter_self : (p : A → Bool) (xs : List A) → All (λ x. p x ≡ true) (filter p xs)
  All-filter_self p [] = tt
  All-filter_self p (x ∷ xs) = elim (Bool-cases (p x)) [
    | inl here ↦ rw here (here, All-filter_self p xs)
    | inr out ↦ rw out (All-filter_self p xs)
  ]

  pub mem-filter :
      (p : A → Bool) {x : A} {xs : List A} → Memᴰ x xs → p x ≡ true → Memᴰ x (filter p xs)
  mem-filter p {xs = []} m h = elim m [ ]
  mem-filter p {x} {xs = y ∷ ys} (Memᴰ.head same) h =
      let here : p y ≡ true = rw (← same) h in rw here (Memᴰ.head same)
  mem-filter p {xs = y ∷ ys} (Memᴰ.tail m) h = elim (Bool-cases (p y)) [
    | inl here ↦ rw here (Memᴰ.tail (mem-filter p m h))
    | inr out ↦ rw out (mem-filter p m h)
  ]

  pub All-of_mem {κ} : (P : A → Type κ) (xs : List A) → ((x : A) → Memᴰ x xs → P x) → All P xs
  All-of_mem P [] h = tt
  All-of_mem P (x ∷ xs) h = (h x (Memᴰ.head refl), All-of_mem P xs (λ y m. h y (Memᴰ.tail m)))
