-- ===== src/Workspace.antt =====
-- internal/workspace/key.go, and what the services share: identifiers, instants and the rows of
-- workspaces.
use pfas_load_control.Base.{
  ℕ, Bool, true, ◌&&◌, ◌||◌, Option, some, none, leb, ◌==◌, List, [], ◌∷◌, length, Text, trim_space,
  if◌then◌else◌,
}

-- A UUID, as a number.
abbrev pub Uuid : Type 0
Uuid = ℕ

-- An instant, as a number.
abbrev pub Time : Type 0
Time = ℕ

pub record WorkspaceRow : Type 0 where
  pub id : Uuid
  pub key_hash : Text

-- `[A-Za-z0-9_-]`
unfoldable pub is_key_char : ℕ → Bool
is_key_char c =
    (leb b'A' c && leb c b'Z')
    || (leb b'a' c && leb c b'z')
    || (leb b'0' c && leb c b'9')
    || c == b'_'
    || c == b'-'

abbrev pub all : {A : Type 0} → (A → Bool) → List A → Bool
all p [] = true
all p (x ∷ xs) = p x && all p xs

-- `keyPattern`
unfoldable pub is_workspace_key : Text → Bool
unfolding is_key_char
is_workspace_key t = all is_key_char t && leb 43 (length t) && leb (length t) 128

-- `Hash`, with the hexadecimal SHA-256 digest as a parameter; `none` stands for `ErrInvalid`.
unfoldable pub hash_key : (Text → Text) → Text → Option Text
unfolding is_workspace_key
hash_key digest value =
    let trimmed = trim_space value in
    if is_workspace_key trimmed then some (digest trimmed) else none
