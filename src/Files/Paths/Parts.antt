-- ===== src/Files/Paths/Parts.antt =====
-- What src/common/utils/path.util.ts takes out of a path that it has built.
use Prim.Native.Char.{Char, code}
use Prim.Native.String
use text.Mathlib.TextLemmas.{nil-append, cons-append, append-nil}
use file_system_spike.Base.{
  ◌≡◌, refl, sym, ◌∙◌, ap, ◌≢◌, String, str_eq, str_eq_iff, false, ◌||◌, Option, none, some, List,
  [], ◌∷◌, inl, inr, Bool-cases, if◌then◌else◌, ◌==◌, arith,
}
use file_system_spike.Files.Paths.{
  slash, build_path, with_char, split, last_or, extract_name, before_last_slash, parent_of,
  extract_parent_path,
}

-- The text of one slash and a name.
abbrev pub under : String → String → String
under path name = String.◌++◌ path (String.◌++◌ "/" name)

pub before_last_slash-append :
    (p q r : String)
    → before_last_slash q ≡ some r
    → before_last_slash (String.◌++◌ p q) ≡ some (String.◌++◌ p r)
unfolding before_last_slash
before_last_slash-append String.[] q r h = rw (nil-append q, nil-append r) h
before_last_slash-append (String.◌∷◌ c p) q r h =
    rw (cons-append c p q, cons-append c p r)
      (rw (before_last_slash-append p q r h, before_last_slash))

pub slash_name :
    (name : String)
    → before_last_slash name ≡ none
    → before_last_slash (String.◌++◌ "/" name) ≡ some ""
unfolding before_last_slash
slash_name name h = rw (cons-append _ String.[] name, nil-append name, h, before_last_slash) refl

abbrev tail : List String → List String
tail [] = []
tail (s ∷ ss) = ss

tail-with_char : (c : String) (ss : List String) → tail (with_char c ss) ≡ tail ss
unfolding with_char
tail-with_char c [] = refl
tail-with_char c (s ∷ ss) = refl

last_or-tail :
    (name or : String) (ss : List String)
    → ((o : String) → last_or o (tail ss) ≡ name)
    → last_or or ss ≡ name
unfolding last_or
last_or-tail name or [] h = h or
last_or-tail name or (s ∷ ss) h = h (if str_eq s "" then or else s)

by_rest :
    (c : Char) (s : String) (o : Option String)
    → before_last_slash s ≡ o
    → before_last_slash (String.◌∷◌ c s) ≡ none
    → (before_last_slash s ≡ none) × ((code c == slash) ≡ false)
unfolding before_last_slash
by_rest c s none e h = elim (Bool-cases (code c == slash)) [
  | inl is ↦ absurd (ground (arith, rw (e, is) at h))
  | inr not ↦ (e, not)
]
by_rest c s (some p) e h = absurd (ground (arith, rw e at h))

split_name : (name : String) → before_last_slash name ≡ none → split name ≡ name ∷ []
unfolding split with_char
split_name String.[] h = refl
split_name (String.◌∷◌ c s) h =
    let (rest, other) = by_rest c s (before_last_slash s) refl h in
    rw (split_name s rest, other, cons-append c String.[] s, nil-append s) refl

extract_name-last : (path : String) → extract_name path ≡ last_or "" (split path)
unfolding extract_name split last_or with_char
extract_name-last path = elim (Bool-cases (str_eq path "")) [
  | inl empty ↦ rw empty (rw ((str_eq_iff path "").0 empty) refl)
  | inr full ↦ rw full (elim (Bool-cases (str_eq path "/")) [
    | inl root ↦ rw root (rw ((str_eq_iff path "/").0 root) refl)
    | inr deep ↦ rw deep refl
  ])
]

module _ (name : String) (whole : before_last_slash name ≡ none) (named : name ≢ "") where
  last_name : (o : String) → last_or o (name ∷ []) ≡ name
  unfolding last_or
  last_name o = elim (Bool-cases (str_eq name "")) [
    | inl empty ↦ absurd (named ((str_eq_iff name "").0 empty))
    | inr full ↦ rw full refl
  ]

  tail_of_under : (p o : String) → last_or o (tail (split (under p name))) ≡ name
  unfolding split
  tail_of_under String.[] o =
      rw
        (
          nil-append (String.◌++◌ "/" name),
          cons-append _ String.[] name,
          nil-append name,
          split_name name whole,
        )
        (last_name o)
  tail_of_under (String.◌∷◌ c p) o =
      rw (cons-append c p (String.◌++◌ "/" name)) (elim (Bool-cases (code c == slash)) [
        | inl is ↦ rw is (last_or-tail name o (split (under p name)) (tail_of_under p))
        | inr not ↦ rw not (
            rw (tail-with_char (String.◌∷◌ c String.[]) (split (under p name))) (tail_of_under p o))
      ])

  -- The name that a path was built with is taken out of it again, whatever the folder, where the name is
  -- not empty and has no slash.
  extract_name-build_path : (path : String) → extract_name (build_path path name) ≡ name
  unfolding build_path
  extract_name-build_path path =
      rw (extract_name-last (build_path path name))
        (elim (Bool-cases (str_eq path "" || str_eq path "/")) [
          | inl root ↦ rw root (
              rw (nil-append (String.◌++◌ "/" name)) at
                (last_or-tail name "" (split (under "" name)) (tail_of_under "")))
          | inr deep ↦ rw deep (last_or-tail name "" (split (under path name)) (tail_of_under path))
        ])

  -- The two guards of `extractParentPath` let the path of a name through.
  deep_parent :
      (path parent : String)
      → extract_name path ≡ name
      → before_last_slash path ≡ some parent
      → extract_parent_path path ≡ some (if str_eq parent "" then "/" else parent)
  unfolding extract_parent_path extract_name parent_of
  deep_parent path parent e h = elim (Bool-cases (str_eq path "" || str_eq path "/")) [
    | inl root ↦ absurd (named (sym (rw root at e)))
    | inr deep ↦ rw (deep, h) refl
  ]

  pub root_once :
      (path : String)
      → let root = str_eq path "" || str_eq path "/" in
        let parent = if root then "" else path in
        (if str_eq parent "" then "/" else parent) ≡ (if root then "/" else path)
  root_once path = elim (Bool-cases (str_eq path "")) [
    | inl empty ↦ rw empty refl
    | inr full ↦ elim (Bool-cases (str_eq path "/")) [
      | inl root ↦ rw (full, root) refl
      | inr deep ↦ rw (full, deep) (rw full refl)
    ]
  ]

  pub built_parent :
      (path : String)
      → before_last_slash (build_path path name)
        ≡ some (if str_eq path "" || str_eq path "/" then "" else path)
  unfolding build_path
  built_parent path = elim (Bool-cases (str_eq path "" || str_eq path "/")) [
    | inl root ↦ rw root (slash_name name whole)
    | inr deep ↦ rw deep (
        before_last_slash-append path (String.◌++◌ "/" name) "" (slash_name name whole)
        ∙ ap some (append-nil path))
  ]

  -- The folder that a path was built under is taken out of it again, and the root where it was built
  -- under the root or an empty path, where the name is not empty and has no slash.
  extract_parent_path-build_path :
      (path : String)
      → extract_parent_path (build_path path name)
        ≡ some (if str_eq path "" || str_eq path "/" then "/" else path)
  extract_parent_path-build_path path =
      deep_parent (build_path path name) (if str_eq path "" || str_eq path "/" then "" else path)
        (extract_name-build_path path) (built_parent path)
      ∙ ap some (root_once path)
