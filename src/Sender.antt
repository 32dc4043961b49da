-- ===== src/Sender.antt =====
-- app/utils/sender.py: the sender of a Telegram message. Texts are code points.
-- `is_user_entity` asks for the class of a Telethon object, and is not modelled.
mod Ids
mod Tests
use tg_my_person.Prelude.{
  ℕ, Bool, true, false, Option, none, some, List, [], ◌∷◌, ◌++◌, ℤ, pos, negsuc, if◌then◌else◌,
}
use tg_my_person.Authz.Authentication.{strip, is_empty}

-- An entity with the attribute `first_name`, or one without.
pub data Entity : Type 0 where
  user : Option (List ℕ) → Option (List ℕ) → Entity
  titled : Option (List ℕ) → Entity

abbrev or_empty : Option (List ℕ) → List ℕ
or_empty none = []
or_empty (some t) = t

abbrev or_default : List ℕ → List ℕ → List ℕ
or_default [] d = d
or_default (c ∷ cs) d = c ∷ cs

-- "(no name)"
abbrev no_name : List ℕ
no_name = b'(' ∷ b'n' ∷ b'o' ∷ b' ' ∷ b'n' ∷ b'a' ∷ b'm' ∷ b'e' ∷ b')' ∷ []

-- "(unknown)"
abbrev unknown : List ℕ
unknown = b'(' ∷ b'u' ∷ b'n' ∷ b'k' ∷ b'n' ∷ b'o' ∷ b'w' ∷ b'n' ∷ b')' ∷ []

-- The parts that are not empty, with a space between.
abbrev joined_parts : List ℕ → List ℕ → List ℕ
joined_parts [] last = last
joined_parts (c ∷ cs) last = if is_empty last then c ∷ cs else c ∷ cs ++ (b' ' ∷ last)

unfoldable pub sender_display_name : Option Entity → List ℕ
unfolding strip
sender_display_name none = unknown
sender_display_name (some (user first_name last_name)) =
    or_default (joined_parts (strip (or_empty first_name)) (strip (or_empty last_name))) no_name
sender_display_name (some (titled title)) = or_default (strip (or_empty title)) unknown

-- (from_user_id, sender_chat_id) of a marked id.
unfoldable pub classify_sender : Option ℤ → Option ℤ × Option ℤ
classify_sender none = (none, none)
classify_sender (some (negsuc n)) = (none, some (negsuc n))
classify_sender (some (pos n)) = (some (pos n), none)
