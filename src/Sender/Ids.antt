-- ===== src/Sender/Ids.antt =====
-- app/utils/sender.py: a sender's ids and name.
use tg_my_person.Prelude.{
  ℕ, Bool, true, false, not, if◌then◌else◌, ◌≡◌, refl, ◌≢◌, Option, none, some, List, [], ◌∷◌, ℤ,
  pos, negsuc,
}
use tg_my_person.Sender.{Entity, user, titled, or_default, sender_display_name, classify_sender}

abbrev pub is_negative : ℤ → Bool
is_negative (pos n) = false
is_negative (negsuc n) = true

-- The id, where the test holds.
abbrev pub keep_if : (ℤ → Bool) → Option ℤ → Option ℤ
keep_if test none = none
keep_if test (some id) = if test id then some id else none

or_default-filled : (t : List ℕ) (c : ℕ) (cs : List ℕ) → or_default t (c ∷ cs) ≢ []
or_default-filled [] c cs e = absurd (cc)
or_default-filled (x ∷ xs) c cs e = absurd (cc)

-- The user of a sender is its id where that is zero or more, and its chat is its id where that is
-- negative; the other is not set.
pub classify_sender_keeps :
    (sender : Option ℤ)
    → ((classify_sender sender).0 ≡ keep_if (λ id. not (is_negative id)) sender)
      × ((classify_sender sender).1 ≡ keep_if is_negative sender)
unfolding classify_sender
classify_sender_keeps none = (refl, refl)
classify_sender_keeps (some (negsuc n)) = (refl, refl)
classify_sender_keeps (some (pos n)) = (refl, refl)

-- The name of a sender is never empty.
sender_display_name-filled : (entity : Option Entity) → sender_display_name entity ≢ []
unfolding sender_display_name
sender_display_name-filled none e = absurd (cc)
sender_display_name-filled (some (user first_name last_name)) e = or_default-filled _ _ _ e
sender_display_name-filled (some (titled title)) e = or_default-filled _ _ _ e
