-- ===== src/Files/Paths.antt =====
-- src/common/utils/path.util.ts: paths as texts with slashes.
pub mod Parts
use Prim.Native.Char.{code}
use Prim.Native.String
use file_system_spike.Base.{
  ℕ, String, str_eq, Bool, true, false, not, ◌&&◌, ◌||◌, Option, none, some, List, [], ◌∷◌,
  if◌then◌else◌, ◌==◌,
}

abbrev pub slash : ℕ
slash = 47

unfoldable pub build_path : String → String → String
build_path parent_path name =
    if str_eq parent_path "" || str_eq parent_path "/"
    then String.◌++◌ "/" name
    else String.◌++◌ parent_path (String.◌++◌ "/" name)

-- `split('/')`; `with_char` puts a character in front of the first segment.
unfoldable pub with_char : String → List String → List String
with_char c [] = c ∷ []
with_char c (s ∷ ss) = String.◌++◌ c s ∷ ss

unfoldable pub split : String → List String
unfolding with_char
split String.[] = "" ∷ []
split (String.◌∷◌ c s) =
    let rest = split s in
    if code c == slash then "" ∷ rest else with_char (String.◌∷◌ c String.[]) rest

-- The last segment that is not empty; `or` if there is none.
unfoldable pub last_or : String → List String → String
last_or or [] = or
last_or or (s ∷ ss) = let next = if str_eq s "" then or else s in last_or next ss

unfoldable pub extract_name : String → String
unfolding split last_or
extract_name path = if str_eq path "" || str_eq path "/" then "" else last_or "" (split path)

-- The text before its last slash, if it has one.
unfoldable pub before_last_slash : String → Option String
before_last_slash String.[] = none
before_last_slash (String.◌∷◌ c s) = elim (before_last_slash s) [
  | some p ↦ some (String.◌∷◌ c p)
  | none ↦ if code c == slash then some "" else none
]

-- The root where the last slash is the first character or there is none.
parent_of : Option String → String
parent_of none = "/"
parent_of (some p) = if str_eq p "" then "/" else p

unfoldable pub extract_parent_path : String → Option String
unfolding before_last_slash parent_of
extract_parent_path path =
    if str_eq path "" || str_eq path "/" then none else some (parent_of (before_last_slash path))

-- `startsWith('/')`, `includes('//')` and `endsWith('/')`.
starts_with_slash : String → Bool
starts_with_slash String.[] = false
starts_with_slash (String.◌∷◌ c s) = code c == slash

has_double_slash : String → Bool
unfolding starts_with_slash
has_double_slash String.[] = false
has_double_slash (String.◌∷◌ c s) =
    let rest = has_double_slash s in if code c == slash && starts_with_slash s then true else rest

ends_with_slash : String → Bool
ends_with_slash String.[] = false
ends_with_slash (String.◌∷◌ c s) =
    let rest = ends_with_slash s in if str_eq s "" then code c == slash else rest

unfoldable pub is_valid_path : String → Bool
unfolding starts_with_slash has_double_slash ends_with_slash
is_valid_path path =
    if str_eq path ""
    then false
    else if str_eq path "/"
    then true
    else starts_with_slash path && (not (has_double_slash path) && not (ends_with_slash path))
