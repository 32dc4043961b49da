-- ===== src/Phone/Tests.antt =====
-- Phones written in two ways, and masks.
use tg_my_person.Prelude.{ℕ, ◌≡◌, refl, Bool, ◌&&◌, some, List, [], ◌∷◌, leb}
use tg_my_person.Phone.{trunk, normalize_phone, mask_phone}
use tg_my_person.Phone.Forms.{normalize_phone-normalize_phone, mask_phone_hides}

abbrev ascii_digit : ℕ → Bool
ascii_digit c = leb b'0' c && leb c b'9'

-- 8 900 1234567
abbrev raw : List ℕ
raw = b'8' ∷ b' ' ∷ b'9' ∷ b'0' ∷ b'0' ∷ b' ' ∷ b'1' ∷ b'2' ∷ b'3' ∷ b'4' ∷ b'5' ∷ b'6' ∷ b'7' ∷ []

-- +79001234567
abbrev e164 : List ℕ
e164 = b'+' ∷ b'7' ∷ b'9' ∷ b'0' ∷ b'0' ∷ b'1' ∷ b'2' ∷ b'3' ∷ b'4' ∷ b'5' ∷ b'6' ∷ b'7' ∷ []

common_form : normalize_phone ascii_digit (some raw) ≡ some e164
unfolding normalize_phone trunk
common_form = refl

normalize_phone-normalize_phone_example : normalize_phone ascii_digit (some e164) ≡ some e164
normalize_phone-normalize_phone_example =
    normalize_phone-normalize_phone ascii_digit (some raw) e164 refl refl common_form

-- +79111234567
abbrev other : List ℕ
other = b'+' ∷ b'7' ∷ b'9' ∷ b'1' ∷ b'1' ∷ b'1' ∷ b'2' ∷ b'3' ∷ b'4' ∷ b'5' ∷ b'6' ∷ b'7' ∷ []

mask_phone_hides_example : mask_phone ascii_digit (some raw) ≡ mask_phone ascii_digit (some other)
unfolding normalize_phone trunk
mask_phone_hides_example =
    mask_phone_hides ascii_digit (some raw) (some other) b'7'
      (b'9' ∷ b'0' ∷ b'0' ∷ b'1' ∷ b'2' ∷ b'3' ∷ []) (b'9' ∷ b'1' ∷ b'1' ∷ b'1' ∷ b'2' ∷ b'3' ∷ [])
      (b'4' ∷ b'5' ∷ b'6' ∷ b'7' ∷ []) refl refl refl refl
