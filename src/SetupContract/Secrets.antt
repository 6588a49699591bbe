-- ===== src/SetupContract/Secrets.antt =====
-- `findSecret` of internal/setupcontract/validate.go: a search of a JSON value for keys and texts
-- that look like secrets. `strings.ToLower` and the decimal print of an index are parameters.
use ai_engineer_workflow.Prelude.{
  ℕ, ◌+◌, String, Bool, true, false, ◌||◌, Option, none, some, List, [], ◌∷◌, ◌≡◌, refl, ◌↔◌,
  if◌then◌else◌, arith,
}
use text.Mathlib.Text.{starts_with}
use Prim.Native.String.{◌++◌ as str_append}
use ai_engineer_workflow.SetupContract.Text.{contains_text, trim_space, with_underscores}

-- a decoded JSON value; an object lists its members in the order of iteration
mutual
  pub data Value : Type 0 where
    object : Members → Value
    array : Values → Value
    string : String → Value
    other : Value

  pub data Members : Type 0 where
    no_member : Members
    member : String → Value → Members → Members

  pub data Values : Type 0 where
    no_value : Values
    value : Value → Values → Values

-- what the source takes from strings and fmt
pub record Texts : Type 0 where
  pub to_lower : String → String
  pub itoa : ℕ → String

abbrev contains_any : List String → String → Bool
contains_any [] s = false
contains_any (w ∷ ws) s = contains_text s w || contains_any ws s

unfoldable pub is_forbidden : Texts → String → Bool
unfolding contains_text with_underscores
is_forbidden texts key =
    contains_any ("token" ∷ "pat_body" ∷ "password" ∷ "private_key" ∷ "privatekey" ∷ "secret" ∷ [])
      (texts.to_lower (with_underscores key))

unfoldable pub is_secret : Texts → String → Bool
unfolding contains_text trim_space
is_secret texts s =
    let lower = texts.to_lower (trim_space s) in
    starts_with lower "ghp_"
    || starts_with lower "github_pat_"
    || contains_text lower "-----begin private key-----"

-- the first path that a loop finds, else what the rest finds
abbrev pub or_else : Option String → Option String → Option String
or_else none rest = rest
or_else (some path) rest = some path

unfoldable mutual
  pub find_secret : Texts → Value → String → Option String
  find_secret texts (object ms) path = find_member texts ms path
  find_secret texts (array vs) path = find_element texts vs path 0
  find_secret texts (string s) path = if is_secret texts s then some path else none
  find_secret texts other path = none

  pub find_member : Texts → Members → String → Option String
  find_member texts no_member path = none
  find_member texts (member key child rest) path =
      let here = str_append path (str_append "." key) in
      or_else (if is_forbidden texts key then some here else none)
        (or_else (find_secret texts child here) (find_member texts rest path))

  pub find_element : Texts → Values → String → ℕ → Option String
  find_element texts no_value path index = none
  find_element texts (value child rest) path index =
      or_else
        (find_secret texts child
          (str_append path (str_append "[" (str_append (texts.itoa index) "]"))))
        (find_element texts rest path (index + 1))

-- no forbidden key and no secret text, at any depth
abbrev mutual
  pub IsClean : Texts → Value → Type 0
  IsClean texts (object ms) = AreCleanMembers texts ms
  IsClean texts (array vs) = AreClean texts vs
  IsClean texts (string s) = is_secret texts s ≡ false
  IsClean texts other = Unit

  pub AreCleanMembers : Texts → Members → Type 0
  AreCleanMembers texts no_member = Unit
  AreCleanMembers texts (member key child rest) =
      (is_forbidden texts key ≡ false) × IsClean texts child × AreCleanMembers texts rest

  pub AreClean : Texts → Values → Type 0
  AreClean texts no_value = Unit
  AreClean texts (value child rest) = IsClean texts child × AreClean texts rest

or_else-none : (a b : Option String) → or_else a b ≡ none → (a ≡ none) × (b ≡ none)
or_else-none none b h = (refl, h)
or_else-none (some p) b h = absurd cc

none-or_else : (a b : Option String) → a ≡ none → b ≡ none → or_else a b ≡ none
none-or_else a b e f = ground arith

if-none : (b : Bool) (s : String) → (if b then some s else none) ≡ none → b ≡ false
if-none true s h = absurd cc
if-none false s h = refl

none-if : (b : Bool) (s : String) → b ≡ false → (if b then some s else none) ≡ none
none-if b s e = rw e refl

mutual
  unfolding find_secret find_member find_element

  find_secret-IsClean :
      (texts : Texts) (v : Value) (path : String)
      → find_secret texts v path ≡ none
      → IsClean texts v
  find_secret-IsClean texts (object ms) path h = find_member-AreClean texts ms path h
  find_secret-IsClean texts (array vs) path h = find_element-AreClean texts vs path 0 h
  find_secret-IsClean texts (string s) path h = if-none (is_secret texts s) path h
  find_secret-IsClean texts other path h = tt

  find_member-AreClean :
      (texts : Texts) (ms : Members) (path : String)
      → find_member texts ms path ≡ none
      → AreCleanMembers texts ms
  find_member-AreClean texts no_member path h = tt
  find_member-AreClean texts (member key child rest) path h =
      let here = str_append path (str_append "." key) in
      let (a, h1) = or_else-none (if is_forbidden texts key then some here else none) _ h in
      let (b, c) = or_else-none (find_secret texts child here) (find_member texts rest path) h1 in
      (
        if-none (is_forbidden texts key) here a,
        find_secret-IsClean texts child here b,
        find_member-AreClean texts rest path c,
      )

  find_element-AreClean :
      (texts : Texts) (vs : Values) (path : String) (index : ℕ)
      → find_element texts vs path index ≡ none
      → AreClean texts vs
  find_element-AreClean texts no_value path index h = tt
  find_element-AreClean texts (value child rest) path index h =
      let here = str_append path (str_append "[" (str_append (texts.itoa index) "]")) in
      let (a, b) =
        or_else-none (find_secret texts child here) (find_element texts rest path (index + 1)) h in
      (find_secret-IsClean texts child here a, find_element-AreClean texts rest path (index + 1) b)

mutual
  unfolding find_secret find_member find_element

  IsClean-find_secret :
      (texts : Texts) (v : Value) (path : String)
      → IsClean texts v
      → find_secret texts v path ≡ none
  IsClean-find_secret texts (object ms) path h = AreClean-find_member texts ms path h
  IsClean-find_secret texts (array vs) path h = AreClean-find_element texts vs path 0 h
  IsClean-find_secret texts (string s) path h = none-if (is_secret texts s) path h
  IsClean-find_secret texts other path h = refl

  AreClean-find_member :
      (texts : Texts) (ms : Members) (path : String)
      → AreCleanMembers texts ms
      → find_member texts ms path ≡ none
  AreClean-find_member texts no_member path h = refl
  AreClean-find_member texts (member key child rest) path (a, b, c) =
      let here = str_append path (str_append "." key) in
      none-or_else _ _ (none-if (is_forbidden texts key) here a) (
        none-or_else _ _ (IsClean-find_secret texts child here b)
          (AreClean-find_member texts rest path c))

  AreClean-find_element :
      (texts : Texts) (vs : Values) (path : String) (index : ℕ)
      → AreClean texts vs
      → find_element texts vs path index ≡ none
  AreClean-find_element texts no_value path index h = refl
  AreClean-find_element texts (value child rest) path index (a, b) =
      let here = str_append path (str_append "[" (str_append (texts.itoa index) "]")) in
      none-or_else _ _ (IsClean-find_secret texts child here a)
        (AreClean-find_element texts rest path (index + 1) b)

-- `findSecret` finds nothing in a JSON value exactly when no object in it, at any depth, has a
-- forbidden key, and no text in it looks like a secret.
pub find_secret_iff :
    (texts : Texts) (v : Value) (path : String)
    → (find_secret texts v path ≡ none) ↔ IsClean texts v
find_secret_iff texts v path = (find_secret-IsClean texts v path, IsClean-find_secret texts v path)
