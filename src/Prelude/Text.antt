-- ===== src/Prelude/Text.antt =====
-- What the program does with texts other than comparing them: `str.strip`, `str.split("/")`,
-- `str.endswith`, slices, and the concatenation of the parts of an f-string.
use Prim.Native.Nat.{ℕ, zero, suc}
use Prim.Native.Char.{Char, code}
use Prim.Native.String.{String, ◌++◌}
use mathlib.Core.Bool.{Bool, false, not, ◌&&◌, ◌||◌}
use mathlib.Core.List.{List}
use mathlib.Core.Option.{Option, none, some}
use text.Mathlib.Text.{◌==◌}
use mdmfleetmanagement.Prelude.Tests.{leb, eqb, if◌then◌else◌}

-- The characters that `str.strip` removes, of those below U+1680.
abbrev is_space : ℕ → Bool
is_space c = (leb 9 c && leb c 13) || (leb 28 c && leb c 32) || eqb c 133 || eqb c 160

unfoldable pub lstrip : String → String
lstrip String.[] = ""
lstrip (String.◌∷◌ c s) = let rest = lstrip s in if is_space (code c) then rest else String.◌∷◌ c s

unfoldable pub rstrip : String → String
rstrip String.[] = ""
rstrip (String.◌∷◌ c s) =
    let rest = rstrip s in if is_space (code c) && rest == "" then "" else String.◌∷◌ c rest

-- s.strip()
unfoldable pub strip : String → String
unfolding lstrip rstrip
strip s = rstrip (lstrip s)

-- The parts of `s.split("/")`, with the part that is being read given by `front`.
unfoldable pub push_front : Char → List String → List String
push_front c List.[] = List.◌∷◌ (String.◌∷◌ c "") List.[]
push_front c (List.◌∷◌ p ps) = List.◌∷◌ (String.◌∷◌ c p) ps

-- s.split("/")
unfoldable pub split : String → List String
unfolding push_front
split String.[] = List.◌∷◌ "" List.[]
split (String.◌∷◌ c s) =
    let rest = split s in if eqb (code c) b'/' then List.◌∷◌ "" rest else push_front c rest

-- s.endswith(t)
unfoldable pub ends_with : String → String → Bool
ends_with String.[] t = t == ""
ends_with (String.◌∷◌ c s) t = let rest = ends_with s t in String.◌∷◌ c s == t || rest

-- s.rstrip("/")
unfoldable pub rstrip_slash : String → String
rstrip_slash String.[] = ""
rstrip_slash (String.◌∷◌ c s) =
    let rest = rstrip_slash s in if eqb (code c) b'/' && rest == "" then "" else String.◌∷◌ c rest

-- s[:n]
unfoldable pub truncate : ℕ → String → String
truncate zero s = ""
truncate (suc n) String.[] = ""
truncate (suc n) (String.◌∷◌ c s) = String.◌∷◌ c (truncate n s)

-- "".join(parts), the text of an f-string with these parts.
unfoldable pub concat : List String → String
concat List.[] = ""
concat (List.◌∷◌ p ps) = p ++ concat ps

-- `s or fallback`, for a text that may be None.
unfoldable pub text_or : Option String → String → String
text_or none fallback = fallback
text_or (some s) fallback = if s == "" then fallback else s

-- `if s`, for a text that may be None.
unfoldable pub has_text : Option String → Bool
has_text none = false
has_text (some s) = not (s == "")
