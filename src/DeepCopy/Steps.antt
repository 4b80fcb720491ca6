-- ===== src/DeepCopy/Steps.antt =====
-- What `copy_new` and `copy_each` of the deep copies do.
use authentik_operator.Prelude.{ℕ, suc, ◌≤◌, ◌≡◌, refl, Option, none, some, List, [], ◌∷◌, arith}
use authentik_operator.DeepCopy.{copy_new, copy_each}
use authentik_operator.DeepCopy.Memory.{Pointer, Memory, Alloc, Layout, ◌>>=◌, write, new, load}
use authentik_operator.DeepCopy.Structs.{Cell}
use authentik_operator.DeepCopy.Rules.{
  IsFresh, Grows, Grows-refl, Grows-KeepsFrom, Yields, Yields-pure, Yields-weaken, Yields-bind,
  Reading, IsStable, Copies, Points, Each, Each-IsStable,
}

module _ {S : Type 0} (l : Layout Cell S) where
  -- The memory with one more cell.
  abbrev pub with_new : S → Memory Cell → Memory Cell
  with_new s h = record (write h.next (l.wrap s) h) { next = suc h.next }

  with_new-Grows : (s : S) (h : Memory Cell) → IsFresh h → Grows h (with_new s h)
  with_new-Grows s h fresh = record {
    le = omega arith;
    kept = λ a le. ground (arith, le);
    fresh = λ a le. ground (arith, le, fresh a);
  }

  load_lem :
      (a : ℕ) (s : S) (h : Memory Cell) → h.cell a ≡ some (l.wrap s) → load l a h ≡ some (s, h)
  unfolding load
  load_lem a s h e = rw (load, e, l.unwrap_wrap s) refl

  module _ {V : Type 0} (R : Reading S V) (stable : IsStable R) where
    new-Yields :
        (s : S) (n : ℕ) (h : Memory Cell) (v : V)
        → n ≤ h.next
        → IsFresh h
        → R n h s v
        → Yields h (new l s h) (λ h' p. Points l R n h' p (some v))
    unfolding new
    new-Yields s n h v le fresh r =
        let g = with_new-Grows s h fresh in
        record {
          out = some h.next;
          after = with_new s h;
          ran = refl;
          grows = g;
          holds = (
            le,
            s,
            ground arith,
            stable.at n n h (with_new s h) s v (omega arith) (Grows-KeepsFrom n fresh g) r,
          );
        }

    module _ (into : S → Alloc Cell S) (copies : Copies R into) where
      copy_new-Yields :
          (h : Memory Cell) (p : Pointer) (o : Option V)
          → IsFresh h
          → Points l R 0 h p o
          → Yields h (copy_new l into p h) (λ h' q. Points l R h.next h' q o)
      unfolding copy_new
      copy_new-Yields h none none fresh q = Yields-pure none h fresh tt
      copy_new-Yields h none (some v) fresh q = elim q [ ]
      copy_new-Yields h (some a) none fresh q = elim q [ ]
      copy_new-Yields h (some a) (some v) fresh (above, s, e, r) =
          Yields-bind (λ w. (load l a >>= into) w) (new l) h
            (Yields-bind {Q = λ h' s'. R 0 h' s' v} (load l a) into h
              (record {
                out = s;
                after = h;
                ran = load_lem a s h e;
                grows = Grows-refl h fresh;
                holds = r;
              })
              (λ s' h' g r'.
                Yields-weaken h' (into s' h') (copies.at h' s' v g.fresh r') (λ s'' h'' r''.
                  stable.at h'.next h.next h'' h'' s'' v g.le (λ b c above' e'. e') r'')))
            (λ s' h' g r'. new-Yields s' h.next h' v g.le g.fresh r')

      pub copy_new-Copies : Copies (Points l R) (copy_new l into)
      copy_new-Copies = record { at = copy_new-Yields }

module _ {S V : Type 0} (R : Reading S V) (stable : IsStable R) (into : S → Alloc Cell S)
    (copies : Copies R into) where
  copy_each-Yields :
      (h : Memory Cell) (ss : List S) (vs : List V)
      → IsFresh h
      → Each R 0 h ss vs
      → Yields h (copy_each into ss h) (λ h' ss'. Each R h.next h' ss' vs)
  unfolding copy_each
  copy_each-Yields h [] [] fresh q = Yields-pure [] h fresh tt
  copy_each-Yields h [] (v ∷ vs) fresh q = elim q [ ]
  copy_each-Yields h (s ∷ ss) [] fresh q = elim q [ ]
  copy_each-Yields h (s ∷ ss) (v ∷ vs) fresh (r, rs) =
      Yields-bind (into s) _ h (copies.at h s v fresh r) λ s' h' g r'.
        Yields-bind (copy_each into ss) _ h'
          (copy_each-Yields h' ss vs g.fresh (
            (Each-IsStable R stable).at 0 0 h h' ss vs (omega arith) (Grows-KeepsFrom 0 fresh g)
              rs))
          λ ss' h'' g' rs'. Yields-pure (s' ∷ ss') h'' g'.fresh (
            stable.at h.next h.next h' h'' s' v (omega arith) (Grows-KeepsFrom h.next g.fresh g')
                r',
            (Each-IsStable R stable).at h'.next h.next h'' h'' ss' vs g.le (λ a c l e. e) rs',
          )

  pub copy_each-Copies : Copies (Each R) (copy_each into)
  copy_each-Copies = record { at = copy_each-Yields }
