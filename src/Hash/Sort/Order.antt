-- ===== src/Hash/Sort/Order.antt =====
-- The order of texts is total, so the sorted list of keys does not depend on their order.
use Prim.Native.Nat.{Ordering}
use Prim.Native.String.{String, [], ◌∷◌, compare}
use Prim.Native.String.compare as Compare
use mathlib.Core.List.{List, [], ◌∷◌, Permᴰ}
use mathlib.Core.List.Permᴰ.{nil, cons, swap, trans}
use authentik_operator.Prelude.{◌≡◌, refl, ◌∙◌, true, false, arith, eq_iff}
use authentik_operator.Hash.Sort.{text_le, insert_sorted, sort_strings}

abbrev flip : Ordering → Ordering
flip Ordering.lt = Ordering.gt
flip Ordering.eq = Ordering.eq
flip Ordering.gt = Ordering.lt

compare-flip : (s t : String) → compare t s ≡ flip (compare s t)
compare-flip [] [] = rw Compare.nil-nil
compare-flip [] (d ∷ t) = rw (Compare.nil-cons, Compare.cons-nil)
compare-flip (c ∷ s) [] = rw (Compare.nil-cons, Compare.cons-nil)
compare-flip (c ∷ s) (d ∷ t) =
    rw (Compare.cons-cons, Compare.cons-cons) (ground (arith, compare-flip s t))

le_antisymm : (s t : String) → text_le s t ≡ true → text_le t s ≡ true → s ≡ t
le_antisymm s t h k = ground (arith, compare-flip s t, eq_iff s t)

le_total : (s t : String) → text_le s t ≡ false → text_le t s ≡ true
le_total s t h = ground (arith, compare-flip s t)

le_trans : (s t u : String) → text_le s t ≡ true → text_le t u ≡ true → text_le s u ≡ true
le_trans [] t [] h k = refl
le_trans [] t (e ∷ u) h k = ground (arith, Compare.nil-cons e u)
le_trans (c ∷ s) [] u h k = ground (arith, Compare.cons-nil c s)
le_trans (c ∷ s) (d ∷ t) [] h k = ground (arith, Compare.cons-nil d t)
le_trans (c ∷ s) (d ∷ t) (e ∷ u) h k = ground (
  arith,
  Compare.cons-cons c d s t,
  Compare.cons-cons d e t u,
  Compare.cons-cons c e s u,
  le_trans s t u,
)

insert_sorted_comm :
    (a b : String) (l : List String)
    → insert_sorted a (insert_sorted b l) ≡ insert_sorted b (insert_sorted a l)
unfolding insert_sorted
insert_sorted_comm a b [] = ground (arith, le_antisymm a b, le_total a b)
insert_sorted_comm a b (x ∷ l) = ground (
  arith,
  le_antisymm a b,
  le_total a b,
  le_antisymm a x,
  le_antisymm b x,
  le_total a x,
  le_total b x,
  le_trans a b x,
  le_trans b a x,
  le_trans a x b,
  le_trans b x a,
  insert_sorted_comm a b l,
)

pub sort_strings-perm : {k l : List String} → Permᴰ k l → sort_strings k ≡ sort_strings l
unfolding sort_strings
sort_strings-perm nil = refl
sort_strings-perm (cons e p) = cc (e, sort_strings-perm p)
sort_strings-perm (swap {a} {b} {l} e f) = rw (← e, ← f) (insert_sorted_comm a b (sort_strings l))
sort_strings-perm (trans p q) = sort_strings-perm p ∙ sort_strings-perm q
