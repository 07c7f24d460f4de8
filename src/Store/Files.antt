-- ===== src/Store/Files.antt =====
-- What the stores rely on: pydantic's JSON of a value, and `str.strip`. Files are read back as they
-- were written, and nothing but the stores writes to them.
use Prim.Native.Char.{code}
use Prim.Native.String.{String}
use glass_guru.Base.{ℕ, ◌≡◌, Bool, true, false, ◌&&◌, ◌||◌, leb, nat_eq, ◌==◌, if◌then◌else◌}

-- The JSON texts of a type of values: what is dumped is read back as it was, and a dumped value is
-- no blank line.
pub record Json (Value : Type 0) : Type 1 where
  pub Text : Type 0
  pub dump : Value → Text
  pub load : Text → Value
  pub is_blank : Text → Bool
  pub load-dump : (v : Value) → load (dump v) ≡ v
  pub is_blank-dump : (v : Value) → is_blank (dump v) ≡ false

abbrev in_range : ℕ → ℕ → ℕ → Bool
in_range low high c = leb low c && leb c high

-- `str.isspace` of one character
abbrev is_space : ℕ → Bool
is_space c =
    in_range 9 13 c
    || in_range 28 32 c
    || c == 133
    || c == 160
    || c == 5760
    || in_range 8192 8202 c
    || in_range 8232 8233 c
    || c == 8239
    || c == 8287
    || c == 12288

abbrev is_nothing : String → Bool
is_nothing String.[] = true
is_nothing (String.◌∷◌ c s) = false

unfoldable pub strip_start : String → String
strip_start String.[] = String.[]
strip_start (String.◌∷◌ c s) =
    let rest = strip_start s in if is_space (code c) then rest else String.◌∷◌ c s

unfoldable pub strip_end : String → String
strip_end String.[] = String.[]
strip_end (String.◌∷◌ c s) =
    let rest = strip_end s in
    if is_space (code c) && is_nothing rest then String.[] else String.◌∷◌ c rest

-- s.strip()
unfoldable pub strip : String → String
unfolding strip_start strip_end
strip s = strip_end (strip_start s)
