-- ===== src/Phone/Forms.antt =====
-- app/utils/phone.py: the common form of a phone, and its mask.
use tg_my_person.Prelude.{
  ℕ, suc, ◌+◌, ◌-◌, ◌≡◌, refl, Bool, true, false, ◌&&◌, Option, none, some, List, [], ◌∷◌, ◌++◌,
  arith, ◌==◌, ltb, length, filter, all, replicate, Bool-cases, inl, inr,
}
use tg_my_person.Phone.{trunk, drop, mask_digits, normalize_phone, mask_phone}

all-filter : (p : ℕ → Bool) (xs : List ℕ) → all p (filter p xs) ≡ true
all-filter p [] = refl
all-filter p (x ∷ xs) = ground (arith, all-filter p xs)

filter-all : (p : ℕ → Bool) (xs : List ℕ) → all p xs ≡ true → filter p xs ≡ xs
filter-all p [] h = refl
filter-all p (x ∷ xs) h =
    let (here, there) : (p x ≡ true) × (all p xs ≡ true) = (ground arith, ground arith) in
    let rest = filter-all p xs there in rw (here, rest) refl

all-trunk : (p : ℕ → Bool) (xs : List ℕ) → p b'7' ≡ true → all p xs ≡ true → all p (trunk xs) ≡ true
unfolding trunk
all-trunk p [] seven h = refl
all-trunk p (x ∷ xs) seven h = ground arith

trunk-trunk : (xs : List ℕ) → trunk (trunk xs) ≡ trunk xs
unfolding trunk
trunk-trunk [] = refl
trunk-trunk (x ∷ xs) = elim (Bool-cases (length (x ∷ xs) == 11 && x == b'8')) [
  | inl changed ↦ rw changed (ground arith)
  | inr kept ↦ rw (kept, kept) refl
]

-- A phone in the common form is its own common form, if '7' is a decimal digit and '+' is none.
pub normalize_phone-normalize_phone :
    (is_decimal : ℕ → Bool) (raw : Option (List ℕ)) (e164 : List ℕ)
    → is_decimal b'7' ≡ true
    → is_decimal b'+' ≡ false
    → normalize_phone is_decimal raw ≡ some e164
    → normalize_phone is_decimal (some e164) ≡ some e164
unfolding normalize_phone
normalize_phone-normalize_phone is_decimal none e164 seven plus h = absurd (cc)
normalize_phone-normalize_phone is_decimal (some raw) e164 seven plus h =
    let digits = trunk (filter is_decimal raw) in
    elim (Bool-cases (ltb (length digits) 10)) [
      | inl short ↦ absurd (ground arith)
      | inr long ↦
          let same : (b'+' ∷ digits) ≡ e164 = ground arith in
          let kept =
            filter-all is_decimal digits
              (all-trunk is_decimal (filter is_decimal raw) seven (all-filter is_decimal raw)) in
          rw (← same, plus, kept, trunk-trunk (filter is_decimal raw), long) refl
    ]

drop-append : (xs ys : List ℕ) → drop (length xs) (xs ++ ys) ≡ ys
unfolding drop
drop-append [] ys = refl
drop-append (x ∷ xs) ys = drop-append xs ys

length-append : (xs ys : List ℕ) → length (xs ++ ys) ≡ length xs + length ys
length-append [] ys = omega arith
length-append (x ∷ xs) ys = omega (arith, length-append xs ys)

mask_digits_shown :
    (d : ℕ) (hidden shown : List ℕ)
    → length shown ≡ 4
    → mask_digits (d ∷ hidden ++ shown) ≡ b'+' ∷ d ∷ replicate (length hidden) b'*' ++ shown
unfolding mask_digits drop
mask_digits_shown d hidden shown four =
    let n = length-append hidden shown in
    let stars : suc (length (hidden ++ shown)) - 5 ≡ length hidden = omega arith in
    let cut : suc (length (hidden ++ shown)) - 4 ≡ suc (length hidden) = omega arith in
    rw (stars, cut, drop-append hidden shown) refl

-- Phones with the same first digit and the same last four, and as many digits between, have the same
-- mask.
pub mask_phone_hides :
    (is_decimal : ℕ → Bool) (p q : Option (List ℕ)) (d : ℕ) (between other shown : List ℕ)
    → length shown ≡ 4
    → length between ≡ length other
    → normalize_phone is_decimal p ≡ some (b'+' ∷ d ∷ between ++ shown)
    → normalize_phone is_decimal q ≡ some (b'+' ∷ d ∷ other ++ shown)
    → mask_phone is_decimal p ≡ mask_phone is_decimal q
unfolding mask_phone
mask_phone_hides is_decimal p q d between other shown four n hp hq =
    rw (hp, hq, mask_digits_shown d between shown four, mask_digits_shown d other shown four, n)
      refl
