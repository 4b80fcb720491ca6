-- ===== src/Text.antt =====
-- What the program uses of Go's packages strings, fmt (hexadecimal) and net/url.
-- Positions count characters, in `index`, `take_text` and `drop_text` alike, where Go's count
-- bytes: they are only used together, so they cut a text at the same places.
pub mod Laws
pub mod Escape
pub mod Utf8
pub mod Hex
pub mod Path
pub mod Cut
use Prim.Native.Char.{Char, code}
use Prim.Native.String.{String, [], ◌∷◌}
use mathlib.Core.List.{List, [], ◌∷◌}
use authentik_operator.Prelude.{
  ℕ, zero, suc, ◌+◌, ◌<>◌, ◌==◌, Bool, true, false, ◌&&◌, ◌||◌, Option, none, some, if◌then◌else◌,
  leb, nat_eq,
}

-- `strings.TrimRight(s, "/")`
unfoldable pub trim_slashes : String → String
trim_slashes [] = ""
trim_slashes (c ∷ s) =
    let rest = trim_slashes s in if rest == "" && nat_eq (code c) b'/' then "" else c ∷ rest

-- `strings.HasPrefix`, with the prefix first
unfoldable pub is_prefix : String → String → Bool
is_prefix [] s = true
is_prefix (c ∷ t) [] = false
is_prefix (c ∷ t) (d ∷ s) = nat_eq (code c) (code d) && is_prefix t s

-- `strings.Index(s, sub)`; `none` is -1
unfoldable pub index : String → String → Option ℕ
unfolding is_prefix
index [] sub = if is_prefix sub "" then some 0 else none
index (c ∷ s) sub =
    let later = index s sub in
    if is_prefix sub (c ∷ s) then some 0 else elim later [ none ↦ none | some i ↦ some (suc i) ]

-- `strings.Contains(s, sub)`
unfoldable pub contains : String → String → Bool
unfolding index
contains s sub = elim (index s sub) [ none ↦ false | some _ ↦ true ]

-- `s[:n]`
unfoldable pub take_text : ℕ → String → String
take_text zero s = ""
take_text (suc n) [] = ""
take_text (suc n) (c ∷ s) = c ∷ take_text n s

-- `s[n:]`
unfoldable pub drop_text : ℕ → String → String
drop_text zero s = s
drop_text (suc n) [] = ""
drop_text (suc n) (c ∷ s) = drop_text n s

-- `unicode.IsSpace`
pub is_space : ℕ → Bool
is_space c =
    (leb 9 c && leb c 13)
    || nat_eq c 32
    || nat_eq c 0x85
    || nat_eq c 0xa0
    || nat_eq c 0x1680
    || (leb 0x2000 c && leb c 0x200a)
    || nat_eq c 0x2028
    || nat_eq c 0x2029
    || nat_eq c 0x202f
    || nat_eq c 0x205f
    || nat_eq c 0x3000

trim_space_left : String → String
unfolding is_space
trim_space_left [] = ""
trim_space_left (c ∷ s) = let rest = trim_space_left s in if is_space (code c) then rest else c ∷ s

trim_space_right : String → String
unfolding is_space
trim_space_right [] = ""
trim_space_right (c ∷ s) =
    let rest = trim_space_right s in if rest == "" && is_space (code c) then "" else c ∷ rest

-- `strings.TrimSpace(s)`
unfoldable pub trim_space : String → String
unfolding trim_space_left trim_space_right
trim_space s = trim_space_right (trim_space_left s)

-- the line that is being read, and the lines behind it
grow : Char → List String → List String
grow c [] = (c ∷ "") ∷ []
grow c (line ∷ lines) = (c ∷ line) ∷ lines

-- `strings.Split(s, "\n")`
unfoldable pub split_lines : String → List String
unfolding grow
split_lines [] = "" ∷ []
split_lines (c ∷ s) =
    let rest = split_lines s in if nat_eq (code c) 10 then "" ∷ rest else grow c rest
