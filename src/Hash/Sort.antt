-- ===== src/Hash/Sort.antt =====
-- `sort.Strings`: byte order, which on texts is the order of their characters' numbers.
pub mod Order
use Prim.Native.Nat.{Ordering}
use Prim.Native.String.{compare}
use authentik_operator.Prelude.{String, Bool, true, false, List, [], ◌∷◌, if◌then◌else◌}

-- `s <= t` on Go strings
abbrev pub text_le : String → String → Bool
text_le s t = elim (compare s t) [ Ordering.gt ↦ false | _ ↦ true ]

unfoldable pub insert_sorted : String → List String → List String
insert_sorted k [] = k ∷ []
insert_sorted k (j ∷ ks) = if text_le k j then k ∷ j ∷ ks else j ∷ insert_sorted k ks

-- The sorted list, whatever algorithm makes it.
unfoldable pub sort_strings : List String → List String
unfolding insert_sorted
sort_strings [] = []
sort_strings (k ∷ ks) = insert_sorted k (sort_strings ks)
