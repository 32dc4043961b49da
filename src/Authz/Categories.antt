-- ===== src/Authz/Categories.antt =====
-- app/authz/tool_catalog.py: the categories of the tools.
use text.Mathlib.TextEquality.{eq_iff}
use tg_my_person.Prelude.{
  ◌≡◌, refl, ◌≢◌, ◌↔◌, inl, inr, String, Bool, true, false, not, ◌||◌, none, some, List, [], ◌∷◌,
  ◌++◌, arith, str_eq, all, Bool-cases,
}
use tg_my_person.Authz.Catalog.{
  contains, write_messenger_tools, write_db_tools, manage_session_tools, read_only_tools,
  write_tools, all_tools, tool_is_write,
}

contains-append :
    (xs ys : List String) (t : String) → contains (xs ++ ys) t ≡ (contains xs t || contains ys t)
unfolding contains
contains-append [] ys t = refl
contains-append (x ∷ xs) ys t = ground (arith, contains-append xs ys t)

-- What a test holds of every item of a list, it holds of each tool that the list contains.
all-contains :
    (p : String → Bool) (xs : List String) (t : String)
    → all p xs ≡ true
    → contains xs t ≡ true
    → p t ≡ true
unfolding contains
all-contains p [] t h c = absurd (cc)
all-contains p (x ∷ xs) t h c = elim (Bool-cases (str_eq x t)) [
  | inl same ↦ let e : x ≡ t = (eq_iff x t).0 same in rw (← e) (ground arith)
  | inr other ↦ all-contains p xs t (ground arith) (ground arith)
]

-- No messenger write is in another category.
abbrev elsewhere : String → Bool
elsewhere t =
    contains read_only_tools t || contains write_db_tools t || contains manage_session_tools t

messenger_apart : all (λ t. not (elsewhere t)) write_messenger_tools ≡ true
unfolding contains
messenger_apart = refl

not-true : (b : Bool) → not b ≡ true → b ≡ false
not-true b h = ground arith

-- `tool_is_write` answers for exactly the tools of the catalog; it says true for exactly those that
-- write to the messenger, and these are in no other category.
pub tool_is_write_iff :
    (tool : String)
    → ((tool_is_write tool ≢ none) ↔ (contains all_tools tool ≡ true))
      × ((tool_is_write tool ≡ some true) ↔ (contains write_messenger_tools tool ≡ true))
      × (contains write_messenger_tools tool ≡ true
          → (contains read_only_tools tool
              || contains write_db_tools tool
              || contains manage_session_tools tool)
            ≡ false)
unfolding tool_is_write
tool_is_write_iff tool =
    let known = contains-append read_only_tools write_tools tool in
    let writes =
      contains-append write_messenger_tools (write_db_tools ++ manage_session_tools) tool in
    let others = contains-append write_db_tools manage_session_tools tool in
    (
      ground (arith, known, writes, others),
      ground arith,
      λ m.
          not-true _
            (all-contains (λ t. not (elsewhere t)) write_messenger_tools tool messenger_apart m),
    )
