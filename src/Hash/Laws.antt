-- ===== src/Hash/Laws.antt =====
-- What the hash of a Secret depends on.
use mathlib.Core.List.{Permᴰ}
use mathlib.Core.List.Permᴰ.{nil, cons, swap, trans}
use authentik_operator.Prelude.{
  ℕ, String, ap, ◌≡◌, ◌≢◌, true, refl, ◌∙◌, ◌<>◌, none, some, List, [], ◌∷◌, arith, eq_iff, eq_refl,
}
use authentik_operator.Prelude.Dict.{Dict, lookup, NodupKeys}
use authentik_operator.Text.Escape.{utf8, hex_bytes}
use authentik_operator.Hash.{keys, value_at, write_entries, serialize, compute_secret_hash}
use authentik_operator.Hash.Sort.{text_le, insert_sorted, sort_strings}
use authentik_operator.Hash.Sort.Order.{sort_strings-perm}
use text.Mathlib.TextLemmas.{append_assoc, append-nil}

keys-perm : {m n : Dict String} → Permᴰ m n → Permᴰ (keys m) (keys n)
unfolding keys
keys-perm nil = nil
keys-perm (cons e p) = cons (ap (λ x. x.0) e) (keys-perm p)
keys-perm (swap e f) = swap (ap (λ x. x.0) e) (ap (λ x. x.0) f)
keys-perm (trans p q) = trans (keys-perm p) (keys-perm q)

lookup-swap :
    (k : String) (a b : String × String) (m : Dict String)
    → NodupKeys (a ∷ b ∷ m)
    → lookup k (a ∷ b ∷ m) ≡ lookup k (b ∷ a ∷ m)
unfolding lookup
lookup-swap k a b m u = ground (arith, eq_iff k a.0, eq_iff k b.0, eq_iff a.0 b.0)

-- Two orders of one map have the same values.
SameMap : Dict String → Dict String → Type 0
SameMap m n = NodupKeys n × ((k : String) → lookup k m ≡ lookup k n)

SameMap-swap :
    (a b : String × String) (l : Dict String)
    → NodupKeys (a ∷ b ∷ l)
    → SameMap (a ∷ b ∷ l) (b ∷ a ∷ l)
unfolding SameMap lookup
SameMap-swap a b l u = (ground (arith, eq_iff a.0 b.0, eq_iff b.0 a.0), λ k. lookup-swap k a b l u)

SameMap-swap_eq :
    {a b a' b' : String × String} (l : Dict String)
    → a ≡ b'
    → b ≡ a'
    → NodupKeys (a ∷ b ∷ l)
    → SameMap (a ∷ b ∷ l) (a' ∷ b' ∷ l)
SameMap-swap_eq {a} {b} l e f u = rw (← e, ← f) (SameMap-swap a b l u)

perm-SameMap : {m n : Dict String} → Permᴰ m n → NodupKeys m → SameMap m n
unfolding SameMap lookup
perm-SameMap nil u = (tt, λ k. refl)
perm-SameMap (cons {a} {b} {l₁} {l₂} e p) u =
    let (v, same) = perm-SameMap p u.1 in
    (
      (cc (same b.0, ap (λ x. lookup x.0 l₁) e, u.0), v),
      λ k. cc (ap (λ x. x.0) e, ap (λ x. x.1) e, same k),
    )
perm-SameMap (swap {l} e f) u = SameMap-swap_eq l e f u
perm-SameMap (trans p q) u =
    let (v, same) = perm-SameMap p u in
    let (v', same') = perm-SameMap q v in (v', λ k. same k ∙ same' k)

value_at-same :
    (m n : Dict String) (k : String) → lookup k m ≡ lookup k n → value_at m k ≡ value_at n k
unfolding value_at
value_at-same m n k e = ap (λ o. elim o [ none ↦ "" | some v ↦ v ]) e

write_entries_same :
    (m n : Dict String) (ks : List String)
    → ((k : String) → lookup k m ≡ lookup k n)
    → write_entries m ks ≡ write_entries n ks
unfolding write_entries
write_entries_same m n [] same = refl
write_entries_same m n (k ∷ ks) same =
    rw (value_at-same m n k (same k), write_entries_same m n ks same)

-- The hash does not depend on the order in which Go ranges over the map: two orders of one map, whose
-- keys are all different, give the same hash.
pub compute_secret_hash-perm :
    (sha256 : List ℕ → List ℕ) {m n : Dict String}
    → Permᴰ m n
    → NodupKeys m
    → compute_secret_hash sha256 m ≡ compute_secret_hash sha256 n
unfolding compute_secret_hash SameMap
compute_secret_hash-perm sha256 {m} {n} p u = rw (
  sort_strings-perm (keys-perm p),
  write_entries_same m n (sort_strings (keys n)) (perm-SameMap p u).1,
)

sorted_pair : (k k' : String) → text_le k k' ≡ true → sort_strings (k ∷ k' ∷ []) ≡ k ∷ k' ∷ []
unfolding sort_strings insert_sorted
sorted_pair k k' le = rw le

value_at_first : (k v : String) (m : Dict String) → value_at ((k, v) ∷ m) k ≡ v
unfolding value_at lookup
value_at_first k v m = ground (arith, eq_refl k)

value_at_second : (k v k' v' : String) → k ≢ k' → value_at ((k, v) ∷ (k', v') ∷ []) k' ≡ v'
unfolding value_at lookup
value_at_second k v k' v' h = ground (arith, eq_iff k' k, eq_refl k')

serialize_collision :
    (k v k' v' : String)
    → k ≢ k'
    → text_le k k' ≡ true
    → serialize ((k, v) ∷ (k', v') ∷ []) ≡ serialize ((k, v <> ("\n" <> (k' <> ("=" <> v')))) ∷ [])
unfolding serialize keys write_entries
serialize_collision k v k' v' h le =
    rw
      (
        sorted_pair k k' le,
        value_at_first k v,
        value_at_second k v k' v' h,
        value_at_first k (v <> ("\n" <> (k' <> ("=" <> v')))) [],
      )
      (simp (append_assoc, append-nil))

-- Data of two entries, with different keys in order, have the hash of data of one entry: that of the
-- first key, whose value goes on, behind a line break, with the second key and its value.
pub hash_collision :
    (sha256 : List ℕ → List ℕ) (k v k' v' : String)
    → k ≢ k'
    → text_le k k' ≡ true
    → compute_secret_hash sha256 ((k, v) ∷ (k', v') ∷ [])
      ≡ compute_secret_hash sha256 ((k, v <> ("\n" <> (k' <> ("=" <> v')))) ∷ [])
unfolding compute_secret_hash
hash_collision sha256 k v k' v' h le =
    ap (λ s. "sha256:" <> hex_bytes (sha256 (utf8 s))) (serialize_collision k v k' v' h le)
