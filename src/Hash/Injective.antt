-- ===== src/Hash/Injective.antt =====
-- What the hashed text determines.
use Prim.Native.String.{String, [], ◌∷◌}
use mathlib.Core.List.{List, [], ◌∷◌}
use text.Mathlib.TextLemmas.{cons-append, nil-append, append_cancel_left}
use authentik_operator.Prelude.{
  ℕ, ◌<>◌, ◌≡◌, refl, sym, ap, ◌∙◌, ◌==◌, eq_iff, Bool, true, false, none, some, if◌then◌else◌, All,
  Bool-cases, inl, inr, arith,
}
use authentik_operator.Prelude.Dict.{Dict, lookup}
use authentik_operator.Text.Escape.{utf8}
use authentik_operator.Text.Utf8.{utf8_inj}
use authentik_operator.Text.Hex.{IsByte, hex_bytes_inj}
use authentik_operator.Text.Laws.{Avoids}
use authentik_operator.Text.Cut.{cut_first, append-ne}
use authentik_operator.Hash.{keys, value_at, write_entries, serialize, compute_secret_hash}
use authentik_operator.Hash.Sort.{text_le, insert_sorted, sort_strings}

-- No key holds an equals sign, and no value a line break.
abbrev pub IsClean : Dict String → Type 0
IsClean [] = Unit
IsClean ((k, v) ∷ m) = Avoids b'=' k × (Avoids b'\n' v × IsClean m)

abbrev AreKeys : List String → Type 0
AreKeys ks = All (λ k. Avoids b'=' k) ks

value_at-cons :
    (j v : String) (m : Dict String) (k : String)
    → value_at ((j, v) ∷ m) k ≡ (if k == j then v else value_at m k)
unfolding value_at lookup
value_at-cons j v m k = ground (arith)

lookup-cons :
    (j v : String) (m : Dict String) (k : String)
    → lookup k ((j, v) ∷ m) ≡ (if k == j then some v else lookup k m)
unfolding lookup
lookup-cons j v m k = refl

if_Avoids :
    (n : ℕ) (b : Bool) (s t : String) → Avoids n s → Avoids n t → Avoids n (if b then s else t)
if_Avoids n true s t h h' = h
if_Avoids n false s t h h' = h'

value_at-Avoids : (m : Dict String) (k : String) → IsClean m → Avoids b'\n' (value_at m k)
unfolding value_at lookup
value_at-Avoids [] k h = tt
value_at-Avoids ((j, v) ∷ m) k (hk, (hv, h)) =
    rw (value_at-cons j v m k) (if_Avoids _ (k == j) v (value_at m k) hv (value_at-Avoids m k h))

keys-AreKeys : (m : Dict String) → IsClean m → AreKeys (keys m)
unfolding keys
keys-AreKeys [] h = tt
keys-AreKeys ((k, v) ∷ m) (hk, (hv, h)) = (hk, keys-AreKeys m h)

insert_sorted-AreKeys :
    (k : String) (ks : List String) → Avoids b'=' k → AreKeys ks → AreKeys (insert_sorted k ks)
unfolding insert_sorted
insert_sorted-AreKeys k [] hk h = (hk, tt)
insert_sorted-AreKeys k (j ∷ ks) hk (hj, h) = elim (Bool-cases (text_le k j)) [
  | inl e ↦ rw e (hk, (hj, h))
  | inr e ↦ rw e (hj, insert_sorted-AreKeys k ks hk h)
]

sort_strings-AreKeys : (ks : List String) → AreKeys ks → AreKeys (sort_strings ks)
unfolding sort_strings
sort_strings-AreKeys [] h = tt
sort_strings-AreKeys (k ∷ ks) (hk, h) =
    insert_sorted-AreKeys k (sort_strings ks) hk (sort_strings-AreKeys ks h)

-- Whether a key is listed.
has : String → List String → Bool
has k [] = false
has k (j ∷ ks) = if k == j then true else has k ks

has-insert_sorted :
    (k j : String) (ks : List String)
    → has k (insert_sorted j ks) ≡ (if k == j then true else has k ks)
unfolding has insert_sorted
has-insert_sorted k j [] = refl
has-insert_sorted k j (i ∷ ks) = ground (arith, has-insert_sorted k j ks)

has-sort_strings : (k : String) (ks : List String) → has k (sort_strings ks) ≡ has k ks
unfolding has sort_strings
has-sort_strings k [] = refl
has-sort_strings k (j ∷ ks) = rw (has-insert_sorted k j (sort_strings ks), has-sort_strings k ks)

lookup-has :
    (k : String) (m : Dict String)
    → lookup k m ≡ (if has k (keys m) then some (value_at m k) else none)
unfolding has keys lookup
lookup-has k [] = refl
lookup-has k ((j, v) ∷ m) =
    rw (lookup-cons j v m k, value_at-cons j v m k) (ground (arith, lookup-has k m))

if_some :
    (b : Bool) (v w : String)
    → (b ≡ true → v ≡ w)
    → (if b then some v else none) ≡ (if b then some w else none)
if_some true v w h = ap some (h refl)
if_some false v w h = refl

has-value :
    (m n : Dict String) (k : String) (ks : List String)
    → All (λ j. value_at m j ≡ value_at n j) ks
    → has k ks ≡ true
    → value_at m k ≡ value_at n k
unfolding has
has-value m n k [] h e = absurd (ground (arith, e))
has-value m n k (j ∷ ks) (p, h) e = ground (arith, eq_iff k j, has-value m n k ks h)

equals_sign : (t : String) → "=" <> t ≡ "=" ∷ t
equals_sign t = cons-append "=" "" t ∙ ap (λ x. "=" ∷ x) (nil-append t)

line_break : (t : String) → "\n" <> t ≡ "\n" ∷ t
line_break t = cons-append "\n" "" t ∙ ap (λ x. "\n" ∷ x) (nil-append t)

write_entries-cons :
    (m : Dict String) (k : String) (ks : List String)
    → write_entries m (k ∷ ks) ≡ k <> ("=" ∷ (value_at m k <> ("\n" ∷ write_entries m ks)))
unfolding write_entries
write_entries-cons m k ks = rw (line_break, equals_sign) refl

-- The written text determines the keys and their values.
write_entries_inj :
    (m n : Dict String) (ks ls : List String)
    → IsClean m
    → IsClean n
    → AreKeys ks
    → AreKeys ls
    → write_entries m ks ≡ write_entries n ls
    → (ks ≡ ls) × All (λ k. value_at m k ≡ value_at n k) ks
unfolding write_entries
write_entries_inj m n [] [] hm hn hk hl e = (refl, tt)
write_entries_inj m n [] (l ∷ ls) hm hn hk hl e = absurd (
    append-ne "=" l (value_at n l <> ("\n" ∷ write_entries n ls))
      (sym (write_entries-cons n l ls) ∙ sym e))
write_entries_inj m n (k ∷ ks) [] hm hn hk hl e = absurd (
    append-ne "=" k (value_at m k <> ("\n" ∷ write_entries m ks))
      (sym (write_entries-cons m k ks) ∙ e))
write_entries_inj m n (k ∷ ks) (l ∷ ls) hm hn (hk, hks) (hl, hls) e =
    let (p, q) =
      cut_first "=" k l _ _ hk hl
        (sym (write_entries-cons m k ks) ∙ e ∙ write_entries-cons n l ls) in
    let (v, r) =
      cut_first "\n" (value_at m k) (value_at n l) _ _ (value_at-Avoids m k hm)
        (value_at-Avoids n l hn) q in
    let (same, rest) = write_entries_inj m n ks ls hm hn hks hls r in
    (cc (p, same), (v ∙ ap (value_at n) (sym p), rest))

serialize_inj :
    (m n : Dict String)
    → IsClean m
    → IsClean n
    → serialize m ≡ serialize n
    → (k : String) → lookup k m ≡ lookup k n
unfolding serialize
serialize_inj m n hm hn e k =
    let hk = sort_strings-AreKeys (keys m) (keys-AreKeys m hm) in
    let hl = sort_strings-AreKeys (keys n) (keys-AreKeys n hn) in
    let (same, vals) =
      write_entries_inj m n (sort_strings (keys m)) (sort_strings (keys n)) hm hn hk hl e in
    let listed : has k (keys m) ≡ has k (keys n) =
      sym (has-sort_strings k (keys m)) ∙ ap (has k) same ∙ has-sort_strings k (keys n) in
    let val : has k (keys m) ≡ true → value_at m k ≡ value_at n k =
      λ h. has-value m n k (sort_strings (keys m)) vals (has-sort_strings k (keys m) ∙ h) in
    rw (lookup-has k m, lookup-has k n, ← listed)
      (if_some (has k (keys m)) (value_at m k) (value_at n k) val)

-- Two data without equals signs in their keys and line breaks in their values, with one hash, are the
-- same map, where the digests are bytes and the digest tells the two hashed texts apart.
pub compute_secret_hash_inj :
    (sha256 : List ℕ → List ℕ) (m n : Dict String)
    → IsClean m
    → IsClean n
    → ((text : List ℕ) → All IsByte (sha256 text))
    → (sha256 (utf8 (serialize m)) ≡ sha256 (utf8 (serialize n))
        → utf8 (serialize m) ≡ utf8 (serialize n))
    → compute_secret_hash sha256 m ≡ compute_secret_hash sha256 n
    → (k : String) → lookup k m ≡ lookup k n
unfolding compute_secret_hash
compute_secret_hash_inj sha256 m n hm hn bytes free e k =
    let digest =
      hex_bytes_inj _ _ (bytes (utf8 (serialize m))) (bytes (utf8 (serialize n)))
        (append_cancel_left "sha256:" _ _ e) in
    serialize_inj m n hm hn (utf8_inj _ _ (free digest)) k
