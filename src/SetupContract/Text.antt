-- ===== src/SetupContract/Text.antt =====
-- The tests on texts of internal/setupcontract/validate.go: its regular expressions, and
-- `strings.TrimSpace` compared with the empty text. Characters are given by their codes.
use ai_engineer_workflow.Prelude.{
  if◌then◌else◌, ℕ, zero, suc, String, Bool, true, false, ◌&&◌, ◌||◌, not, ◌==◌, leb,
}
use text.Mathlib.Text.{starts_with, ◌==◌ as str_eq}
use Prim.Native.Char.{Char, code}
use Prim.Native.String.{char_at, [], ◌∷◌}

abbrev within : ℕ → ℕ → ℕ → Bool
within low high c = leb low c && leb c high

abbrev is_letter : ℕ → Bool
is_letter c = within 65 90 c || within 97 122 c

abbrev is_digit : ℕ → Bool
is_digit c = within 48 57 c

abbrev is_space : ℕ → Bool
is_space c =
    within 9 13 c
    || c == 32
    || c == 133
    || c == 160
    || c == 5760
    || within 8192 8202 c
    || c == 8232
    || c == 8233
    || c == 8239
    || c == 8287
    || c == 12288

unfoldable pub all_chars : (ℕ → Bool) → String → Bool
all_chars p [] = true
all_chars p (c ∷ s) = p (code c) && all_chars p s

-- `strings.TrimSpace(s) == ""`
unfoldable pub is_blank : String → Bool
unfolding all_chars
is_blank s = all_chars is_space s

abbrev underscore : Char
underscore = char_at "_" 0

-- `^[A-Za-z0-9][A-Za-z0-9._:-]*$`
unfoldable pub matches_identifier : String → Bool
unfolding all_chars
matches_identifier [] = false
matches_identifier (c ∷ s) =
    (is_letter (code c) || is_digit (code c))
    && all_chars (λ d. is_letter d || is_digit d || d == 46 || d == 95 || d == 58 || d == 45) s

-- `^[0-9a-f]{n}$`
unfoldable pub matches_hex : ℕ → String → Bool
matches_hex zero [] = true
matches_hex zero (c ∷ s) = false
matches_hex (suc n) [] = false
matches_hex (suc n) (c ∷ s) = (is_digit (code c) || within 97 102 (code c)) && matches_hex n s

-- `^[A-Za-z]:[\\/].+`, and no prefix `\\`, which the letter rules out
unfoldable pub is_absolute_local_windows_path : String → Bool
is_absolute_local_windows_path (a ∷ b ∷ c ∷ d ∷ s) =
    is_letter (code a) && code b == 58 && (code c == 92 || code c == 47) && not (code d == 10)
is_absolute_local_windows_path _ = false

abbrev is_name : ℕ → Bool
is_name c = is_letter c || is_digit c || c == 95 || c == 46 || c == 45

-- the part behind the slash
unfoldable pub matches_names : String → Bool
unfolding all_chars
matches_names [] = false
matches_names (c ∷ s) = is_name (code c) && all_chars is_name s

unfoldable pub matches_rest : String → Bool
unfolding matches_names
matches_rest [] = false
matches_rest (c ∷ s) = (code c == 47 && matches_names s) || (is_name (code c) && matches_rest s)

-- `^[A-Za-z0-9_.-]+/[A-Za-z0-9_.-]+$`
unfoldable pub matches_github_repository : String → Bool
unfolding matches_rest
matches_github_repository [] = false
matches_github_repository (c ∷ s) = is_name (code c) && matches_rest s

-- `before, _, _ := strings.Cut(s, "#")`
unfoldable pub before_hash : String → String
before_hash [] = []
before_hash (c ∷ s) = elim (code c == 35) [ true ↦ [] | false ↦ c ∷ before_hash s ]

-- `strings.Contains`
unfoldable pub contains_text : String → String → Bool
contains_text [] wanted = str_eq wanted ""
contains_text (c ∷ s) wanted = starts_with (c ∷ s) wanted || contains_text s wanted

abbrev trim_left : String → String
trim_left [] = []
trim_left (c ∷ s) = if is_space (code c) then trim_left s else c ∷ s

abbrev trim_right : String → String
trim_right [] = []
trim_right (c ∷ s) = if is_blank (c ∷ s) then [] else c ∷ trim_right s

-- `strings.TrimSpace`
unfoldable pub trim_space : String → String
trim_space s = trim_right (trim_left s)

-- the two calls of `strings.ReplaceAll`: each '-' and each space becomes '_'
unfoldable pub with_underscores : String → String
with_underscores [] = []
with_underscores (c ∷ s) =
    if code c == 45 || code c == 32 then underscore ∷ with_underscores s else c ∷ with_underscores s
