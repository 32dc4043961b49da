-- ===== src/Authz/Routes.antt =====
-- app/authz/route_table.py: the name of the tool behind a path.
-- A route's compiled path is Starlette's: an entry carries what its regular expression answers
-- (the groups of a match) and whether each convertor takes a value.
use tg_my_person.Prelude.{
  String, Bool, true, false, ◌&&◌, ◌||◌, Option, none, some, List, [], ◌∷◌, str_eq, if◌then◌else◌,
}
use tg_my_person.Authz.Catalog.{contains}

pub record RouteEntry : Type 0 where
  pub path : String
  pub methods : List String
  pub name : String
  pub regex : String → Option (List (String × String))
  pub convertors : String → Option (String → Bool)

-- A convertor that is there and takes the value.
abbrev converts : Option (String → Bool) → String → Bool
converts none value = false
converts (some takes) value = takes value

-- The loop over the groups: false where it raises.
converts_all : (String → Option (String → Bool)) → List (String × String) → Bool
converts_all convertors [] = true
converts_all convertors ((key, value) ∷ groups) =
    converts (convertors key) value && converts_all convertors groups

-- The path fits the entry, and its values convert.
unfoldable pub matches : RouteEntry → String → Bool
unfolding converts_all
matches entry path = elim (entry.regex path) [
  | none ↦ false
  | some groups ↦ converts_all entry.convertors groups
]

-- A route for GET answers HEAD too.
unfoldable pub serves : RouteEntry → String → Bool
serves entry method =
    contains entry.methods method || (str_eq method "HEAD" && contains entry.methods "GET")

-- The first entry that fits, in the routers' order.
unfoldable pub resolve : List RouteEntry → String → String → Option String
resolve [] method path = none
resolve (entry ∷ entries) method path =
    let rest = resolve entries method path in
    if matches entry path && serves entry method then some entry.name else rest

abbrev pub critical_routes : List (String × String × String)
critical_routes =
    ("POST", "/api/v1/messages", "send_message") ∷ ("GET", "/api/v1/messages", "list_messages") ∷ []

abbrev is_name : Option String → String → Bool
is_name none name = false
is_name (some n) name = str_eq n name

-- True where `verify_route_table` does not raise.
unfoldable pub verify_route_table : List RouteEntry → List (String × String × String) → Bool
verify_route_table table [] = true
verify_route_table table ((method, path, name) ∷ critical) =
    is_name (resolve table method path) name && verify_route_table table critical
