-- ===== src/Text/Laws.antt =====
-- Laws of the text functions: trimming, and the search for a text.
use Prim.Native.Char.{Char, code}
use Prim.Native.String.{String, [], ◌∷◌}
use native.Mathlib.Nat.{zero-add, suc-add}
use text.Mathlib.TextLemmas.{nil-append, cons-append}
use authentik_operator.Prelude.{
  ℕ, suc, ◌+◌, ◌<>◌, ◌≡◌, refl, sym, true, false, none, some, arith, nat_eq,
}
use authentik_operator.Text.{is_prefix, index, take_text, drop_text}

-- No character of the text has this number.
abbrev pub Avoids : ℕ → String → Type 0
Avoids n [] = Unit
Avoids n (c ∷ s) = (nat_eq (code c) n ≡ false) × Avoids n s

unfoldable pub count : String → ℕ
count [] = 0
count (c ∷ s) = suc (count s)

pub drop_text-count : (s t : String) → drop_text (count s) (s <> t) ≡ t
unfolding drop_text count
drop_text-count [] t = nil-append t
drop_text-count (c ∷ s) t = rw cons-append (drop_text-count s t)

pub take_text-count : (s t : String) → take_text (count s) (s <> t) ≡ s
unfolding take_text count
take_text-count [] t = refl
take_text-count (c ∷ s) t = rw cons-append (rw (take_text-count s t))

is_prefix-append : (s t : String) → is_prefix s (s <> t) ≡ true
unfolding is_prefix
is_prefix-append [] t = refl
is_prefix-append (c ∷ s) t = rw cons-append (ground (arith, is_prefix-append s t))

index_here : (d : Char) (sub t : String) → index (d ∷ (sub <> t)) (d ∷ sub) ≡ some 0
unfolding index
index_here d sub t = ground (arith, is_prefix-append sub t)

-- A text is found behind a part in which its first character does not occur.
pub index-append :
    (d : Char) (sub s t : String)
    → Avoids (code d) s
    → index (s <> (d ∷ (sub <> t))) (d ∷ sub) ≡ some (count s)
unfolding index count
index-append d sub [] t a = rw nil-append (index_here d sub t)
index-append d sub (c ∷ s) t (p, a) = rw cons-append (ground (arith, index-append d sub s t a))

-- And is not found in such a part alone.
pub index-none : (d : Char) (sub s : String) → Avoids (code d) s → index s (d ∷ sub) ≡ none
unfolding index
index-none d sub [] a = refl
index-none d sub (c ∷ s) (p, a) = ground (arith, index-none d sub s a)

pub drop_text-count_add : (s t : String) (n : ℕ) → drop_text (count s + n) (s <> t) ≡ drop_text n t
unfolding drop_text count
drop_text-count_add [] t n = rw (nil-append, zero-add)
drop_text-count_add (c ∷ s) t n = rw (cons-append, suc-add) (drop_text-count_add s t n)

pub take_text-count_add :
    (s t : String) (n : ℕ) → take_text (count s + n) (s <> t) ≡ s <> take_text n t
unfolding take_text count
take_text-count_add [] t n = rw (nil-append, zero-add, nil-append)
take_text-count_add (c ∷ s) t n =
    rw (cons-append, suc-add)
      (rw (take_text-count_add s t n) (sym (cons-append c s (take_text n t))))
