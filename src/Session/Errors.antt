-- ===== src/Session/Errors.antt =====
-- app/max/errors.py: what an error of the MAX API means for the session.
-- Lower case, a table of the Python library, is a parameter. An error without `opcode` and `error`
-- is no `ApiError`.
use Prim.Native.Char.{code}
use tg_my_person.Prelude.{
  ℕ, Bool, not, ◌&&◌, ◌||◌, String, Option, none, some, List, [], ◌∷◌, ◌++◌, str_eq, leb, any,
  same_codes, if◌then◌else◌,
}

pub record ApiError : Type 0 where
  pub error : Option String
  pub message : Option String

-- The code points of a text.
abbrev pub codes : String → List ℕ
codes String.[] = []
codes (String.◌∷◌ c s) = code c ∷ codes s

abbrev text_of : Option String → List String
text_of none = []
text_of (some t) = if str_eq t "" then [] else t ∷ []

-- `_texts`
abbrev pub texts : ApiError → List String
texts e = text_of e.error ++ text_of e.message

abbrev is_revoked_code : String → Bool
is_revoked_code t = str_eq t "FAIL_LOGIN_TOKEN" || str_eq t "FAIL_LOGOUT_ALL"

unfoldable pub is_unauthorized : ApiError → Bool
is_unauthorized e = any is_revoked_code (texts e)

-- " ".join
abbrev spaced : List String → List ℕ
spaced [] = []
spaced (t ∷ []) = codes t
spaced (t ∷ u ∷ ts) = codes t ++ (b' ' ∷ spaced (u ∷ ts))

abbrev is_letter : ℕ → Bool
is_letter c = leb b'a' c && leb c b'z'

-- The word at the front, which may be empty, and the other words.
abbrev split_words : List ℕ → List ℕ × List (List ℕ)
split_words [] = ([], [])
split_words (c ∷ cs) =
    let (word, words) = split_words cs in
    if is_letter c then (c ∷ word, words) else ([], word ∷ words)

abbrev words_of : List ℕ → List (List ℕ)
words_of t = let (word, words) = split_words t in word ∷ words

abbrev ban_words : List String
ban_words = "ban" ∷ "banned" ∷ "block" ∷ "blocked" ∷ "suspend" ∷ "suspended" ∷ "restricted" ∷ []

abbrev is_ban_word : List ℕ → Bool
is_ban_word word = any (λ b. same_codes (codes b) word) ban_words

unfoldable pub is_banned : (List ℕ → List ℕ) → ApiError → Bool
is_banned lower e = not (is_unauthorized e) && any is_ban_word (words_of (lower (spaced (texts e))))
