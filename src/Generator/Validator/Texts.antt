-- ===== src/Generator/Validator/Texts.antt =====
-- internal/generator/irspec_validator.go: its tests on texts, by their code points. All that they look
-- for is ASCII, so it makes no difference that the source walks bytes.
use Prim.Native.Char.{code}
use qtest.Prelude.{
  ℕ, String, Bool, true, false, ◌&&◌, ◌||◌, Option, none, some, List, [], ◌∷◌, ◌==◌, leb,
  if◌then◌else◌,
}

abbrev pub is_whitespace : ℕ → Bool
is_whitespace c = (c == 32) || (c == 9) || (c == 10) || (c == 13)

-- `strings.ContainsAny(s, " \t\n\r")`
unfoldable pub has_whitespace : String → Bool
has_whitespace String.[] = false
has_whitespace (String.◌∷◌ c s) = is_whitespace (code c) || has_whitespace s

abbrev pub is_letter : ℕ → Bool
is_letter c = (leb b'a' c && leb c b'z') || (leb b'A' c && leb c b'Z') || (c == b'_')

abbrev pub is_identifier_char : ℕ → Bool
is_identifier_char c = is_letter c || (leb b'0' c && leb c b'9')

unfoldable pub all_identifier : String → Bool
all_identifier String.[] = true
all_identifier (String.◌∷◌ c s) = is_identifier_char (code c) && all_identifier s

unfoldable pub is_valid_identifier : String → Bool
unfolding all_identifier
is_valid_identifier String.[] = false
is_valid_identifier (String.◌∷◌ c s) = is_letter (code c) && all_identifier s

-- The characters up to a closing brace; none without one.
unfoldable pub until_brace : String → Option String
until_brace String.[] = none
until_brace (String.◌∷◌ c s) =
    let rest = until_brace s in
    if code c == b'}'
    then some ""
    else elim rest [ none ↦ none | some name ↦ some (String.◌∷◌ c name) ]

unfoldable pub identifier_prefix : String → String
identifier_prefix String.[] = ""
identifier_prefix (String.◌∷◌ c s) =
    let rest = identifier_prefix s in if is_identifier_char (code c) then String.◌∷◌ c rest else ""

-- The name that is referred to behind a dollar sign; empty if there is none.
unfoldable pub name_behind : String → String
unfolding until_brace identifier_prefix
name_behind String.[] = ""
name_behind (String.◌∷◌ c s) =
    let braced : String = elim (until_brace s) [ none ↦ "" | some name ↦ name ] in
    if code c == b'{' then braced else identifier_prefix (String.◌∷◌ c s)

-- The names that a call refers to, in order: `$name` or `${name}`.
unfoldable pub references : String → List String
unfolding name_behind
references String.[] = []
references (String.◌∷◌ c s) =
    let rest = references s in if code c == b'$' then name_behind s ∷ rest else rest
