-- ===== src/Ids.antt =====
-- ids.py: stable identifiers, `namespace:name`, checked against the pattern and the known namespaces.
use godot_dn_dsimulator.Base.{
  ℕ, Bool, false, ◌&&◌, ◌||◌, Option, none, some, List, [], ◌∷◌, leb, ◌==◌, if◌then◌else◌, all, any,
  length, Result, ok, validation_error, or_raise, guard, ◌>>=◌, ◌>>◌,
}
use godot_dn_dsimulator.Base.Text.{Text, text, text_eq}

abbrev is_lower : ℕ → Bool
is_lower c = leb b'a' c && leb c b'z'

abbrev is_upper : ℕ → Bool
is_upper c = leb b'A' c && leb c b'Z'

abbrev is_digit : ℕ → Bool
is_digit c = leb b'0' c && leb c b'9'

-- `[a-z0-9_.-]`
unfoldable pub is_namespace_char : ℕ → Bool
is_namespace_char c = is_lower c || is_digit c || c == b'_' || c == b'.' || c == b'-'

-- `[A-Za-z0-9]`
unfoldable pub is_name_start : ℕ → Bool
is_name_start c = is_upper c || is_lower c || is_digit c

-- `[A-Za-z0-9_.:-]`
unfoldable pub is_name_char : ℕ → Bool
unfolding is_name_start
is_name_char c = is_name_start c || c == b'_' || c == b'.' || c == b':' || c == b'-'

-- the text before the first colon, and the text behind it
unfoldable pub split_colon : Text → Option (Text × Text)
split_colon [] = none
split_colon (c ∷ s) =
    if c == b':'
    then some ([], s)
    else elim (split_colon s) [ none ↦ none | some (before, behind) ↦ some (c ∷ before, behind) ]

-- `[a-z][a-z0-9_.-]{0,31}`
is_namespace : Text → Bool
unfolding is_namespace_char
is_namespace [] = false
is_namespace (c ∷ s) = is_lower c && all is_namespace_char s && leb (length s) 31

-- `[A-Za-z0-9][A-Za-z0-9_.:-]{0,127}`
unfoldable pub is_name : Text → Bool
unfolding is_name_char
is_name [] = false
is_name (c ∷ s) = is_name_start c && all is_name_char s && leb (length s) 127

-- `_ID_RE.fullmatch`: the namespace holds no colon, so the first one ends it
unfoldable pub match_id : Text → Option (Text × Text)
unfolding split_colon is_namespace is_name
match_id s = elim (split_colon s) [
  | none ↦ none
  | some (namespace, name) ↦
      if is_namespace namespace && is_name name then some (namespace, name) else none
]

abbrev pub known_namespaces : List Text
known_namespaces =
    text "actor"
    ∷ text "campaign"
    ∷ text "command"
    ∷ text "effect"
    ∷ text "event"
    ∷ text "pack"
    ∷ text "rule"
    ∷ text "session"
    ∷ []

-- `str(StableID(value).require_namespace(namespace))`
unfoldable pub require_id : Text → Text → Result Text
unfolding match_id text_eq
require_id value namespace = do
  (actual, _) ← or_raise (match_id value) validation_error
  guard (any (text_eq actual) known_namespaces) validation_error
  guard (text_eq actual namespace) validation_error
  ok value
