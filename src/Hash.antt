-- ===== src/Hash.antt =====
-- internal/hash/hash.go. The digest itself, crypto/sha256, is a parameter.
pub mod Sort
pub mod Laws
pub mod Injective
use authentik_operator.Prelude.{ℕ, String, ◌<>◌, Option, none, some, List, [], ◌∷◌}
use authentik_operator.Prelude.Dict.{Dict, lookup}
use authentik_operator.Text.Escape.{utf8, hex_bytes}
use Sort.{sort_strings}

-- `for k := range data { keys = append(keys, k) }`
unfoldable pub keys : Dict String → List String
keys [] = []
keys ((k, v) ∷ m) = k ∷ keys m

-- `data[k]`: a missing key reads as the empty text
unfoldable pub value_at : Dict String → String → String
unfolding lookup
value_at m k = elim (lookup k m) [ none ↦ "" | some v ↦ v ]

-- The loop that fills the builder.
unfoldable pub write_entries : Dict String → List String → String
unfolding value_at
write_entries m [] = ""
write_entries m (k ∷ ks) = k <> ("=" <> (value_at m k <> ("\n" <> write_entries m ks)))

-- The text that is hashed.
unfoldable pub serialize : Dict String → String
unfolding write_entries keys sort_strings
serialize m = write_entries m (sort_strings (keys m))

module _ (sha256 : List ℕ → List ℕ) where
  unfoldable pub compute_secret_hash : Dict String → String
  unfolding serialize utf8 hex_bytes
  compute_secret_hash m = "sha256:" <> hex_bytes (sha256 (utf8 (serialize m)))
