-- ===== src/Phone.antt =====
-- app/utils/phone.py: phones in one form, and their masks. Texts are code points.
-- What a decimal digit is, a table of the Python library, is a parameter. `mask_phones_in_text`,
-- a search by a regular expression, is not modelled.
pub mod Forms
mod Tests
use tg_my_person.Prelude.{
  ℕ, zero, suc, ◌+◌, ◌-◌, ◌≡◌, refl, Bool, true, false, ◌&&◌, Option, none, some, String, List, [],
  ◌∷◌, ◌++◌, arith, str_eq, ◌==◌, ltb, length, filter, replicate, if◌then◌else◌, Bool-cases, inl,
  inr,
}

-- A leading 8 of eleven digits becomes 7.
unfoldable pub trunk : List ℕ → List ℕ
trunk [] = []
trunk (c ∷ cs) = if length (c ∷ cs) == 11 && c == b'8' then b'7' ∷ cs else c ∷ cs

-- What is left after the first n items.
unfoldable pub drop : ℕ → List ℕ → List ℕ
drop zero xs = xs
drop (suc n) [] = []
drop (suc n) (x ∷ xs) = drop n xs

-- The mask of a phone in the common form.
unfoldable pub mask_digits : List ℕ → List ℕ
mask_digits [] = []
mask_digits (d ∷ ds) =
    let n = length (d ∷ ds) in b'+' ∷ d ∷ replicate (n - 5) b'*' ++ drop (n - 4) (d ∷ ds)

-- The JSON values of a body; an integer by its text.
mutual
  pub data Json : Type 0 where
    null : Json
    boolean : Bool → Json
    integer : List ℕ → Json
    float : List ℕ → Json
    text : List ℕ → Json
    array : Items → Json
    object : Fields → Json

  pub data Items : Type 0 where
    nil : Items
    cons : Json → Items → Items

  pub data Fields : Type 0 where
    end : Fields
    field : String → Json → Fields → Fields

abbrev or_question : Option (List ℕ) → List ℕ
or_question none = b'?' ∷ []
or_question (some m) = m

module _ (is_decimal : ℕ → Bool) where
  -- An absent number, or the text of one.
  unfoldable pub normalize_phone : Option (List ℕ) → Option (List ℕ)
  unfolding trunk
  normalize_phone none = none
  normalize_phone (some raw) =
      let digits = trunk (filter is_decimal raw) in
      if ltb (length digits) 10 then none else some (b'+' ∷ digits)

  abbrev mask_e164 : Option (List ℕ) → Option (List ℕ)
  mask_e164 none = none
  mask_e164 (some []) = some []
  mask_e164 (some (plus ∷ digits)) = some (mask_digits digits)

  unfoldable pub mask_phone : Option (List ℕ) → Option (List ℕ)
  mask_phone phone = mask_e164 (normalize_phone phone)

  -- A text or an integer under "phone".
  unfoldable pub mask_value : Json → Json
  mask_value (integer digits) = text (or_question (mask_phone (some digits)))
  mask_value (text digits) = text (or_question (mask_phone (some digits)))
  mask_value (boolean b) = text (b'?' ∷ [])
  mask_value other = other

  mutual
    unfolding mask_value

    pub mask_phone_params : Json → Json
    mask_phone_params (object fields) = object (mask_fields fields)
    mask_phone_params other = other

    pub mask_fields : Fields → Fields
    mask_fields end = end
    mask_fields (field key (array items) fields) =
        let rest = mask_fields fields in
        let masked = mask_items items in
        if str_eq key "contacts"
        then field key (array masked) rest
        else field key (array items) rest
    mask_fields (field key value fields) =
        let rest = mask_fields fields in
        if str_eq key "phone" then field key (mask_value value) rest else field key value rest

    pub mask_items : Items → Items
    mask_items nil = nil
    mask_items (cons item items) = cons (mask_phone_params item) (mask_items items)
