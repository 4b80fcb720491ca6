-- ===== src/DeepCopy/Rules.antt =====
-- Rules for actions on memory that give out new cells and leave the old ones alone.
use authentik_operator.Prelude.{
  ℕ, ◌≤◌, ◌<◌, ◌≡◌, refl, ◌∙◌, Option, none, some, List, [], ◌∷◌, arith,
}
use authentik_operator.DeepCopy.Memory.{Pointer, Memory, Alloc, Layout, ◌>>=◌, pure}
use authentik_operator.DeepCopy.Structs.{Cell}

-- Nothing lies above what was given out.
abbrev pub IsFresh : Memory Cell → Type 0
IsFresh h = (a : ℕ) → h.next ≤ a → h.cell a ≡ none

-- New cells may have been given out; the old ones are as they were.
pub record Grows (h h' : Memory Cell) : Type 0 where
  pub le : h.next ≤ h'.next
  pub kept : (a : ℕ) → a < h.next → h'.cell a ≡ h.cell a
  pub fresh : IsFresh h'

pub Grows-refl : (h : Memory Cell) → IsFresh h → Grows h h
Grows-refl h fresh = record { le = omega arith; kept = λ a l. refl; fresh = fresh }

pub Grows-trans : {h h' h'' : Memory Cell} → Grows h h' → Grows h' h'' → Grows h h''
Grows-trans g g' = record {
  le = omega (arith, g.le, g'.le);
  kept = λ a l. g'.kept a (omega (arith, l, g.le)) ∙ g.kept a l;
  fresh = g'.fresh;
}

-- The action succeeds, grows the memory, and its outcome is as `Q` says.
pub record Yields {A : Type 0} (h : Memory Cell) (r : Option (A × Memory Cell))
    (Q : Memory Cell → A → Type 0) : Type 0 where
  pub out : A
  pub after : Memory Cell
  pub ran : r ≡ some (out, after)
  pub grows : Grows h after
  pub holds : Q after out

pub Yields-pure :
    {A : Type 0} {Q : Memory Cell → A → Type 0} (a : A) (h : Memory Cell)
    → IsFresh h
    → Q h a
    → Yields h (pure a h) Q
Yields-pure a h fresh q = record {
  out = a;
  after = h;
  ran = refl;
  grows = Grows-refl h fresh;
  holds = q;
}

pub Yields-weaken :
    {A : Type 0} {Q Q' : Memory Cell → A → Type 0} (h : Memory Cell) (r : Option (A × Memory Cell))
    → Yields h r Q
    → ((a : A) (h' : Memory Cell) → Q h' a → Q' h' a)
    → Yields h r Q'
Yields-weaken h r y k = record {
  out = y.out;
  after = y.after;
  ran = y.ran;
  grows = y.grows;
  holds = k y.out y.after y.holds;
}

pub Yields-bind :
    {A B : Type 0} {Q : Memory Cell → A → Type 0} {Q' : Memory Cell → B → Type 0} (m : Alloc Cell A)
    (f : A → Alloc Cell B) (h : Memory Cell)
    → Yields h (m h) Q
    → ((a : A) (h' : Memory Cell) → Grows h h' → Q h' a → Yields h' (f a h') Q')
    → Yields h ((m >>= f) h) Q'
Yields-bind m f h y k =
    let z = k y.out y.after y.grows y.holds in
    record {
      out = z.out;
      after = z.after;
      ran = rw (◌>>=◌, y.ran) z.ran;
      grows = Grows-trans y.grows z.grows;
      holds = z.holds;
    }

-- How a struct in memory is read as a value, by cells that lie at a bound or above.
abbrev pub Reading : Type 0 → Type 0 → Type 1
Reading S V = ℕ → Memory Cell → S → V → Type 0

-- The cells from the bound on that are there are there still.
abbrev pub KeepsFrom : ℕ → Memory Cell → Memory Cell → Type 0
KeepsFrom n h h' = (a : ℕ) (c : Cell) → n ≤ a → h.cell a ≡ some c → h'.cell a ≡ some c

-- Such a change is not seen, and a lower bound serves too.
pub record IsStable {S V : Type 0} (R : Reading S V) : Type 0 where
  pub at :
      (n m : ℕ) (h h' : Memory Cell) (s : S) (v : V)
      → m ≤ n
      → KeepsFrom n h h'
      → R n h s v
      → R m h' s v

-- The copy is read as the same value, by new cells only.
pub record Copies {S V : Type 0} (R : Reading S V) (into : S → Alloc Cell S) : Type 0 where
  pub at :
      (h : Memory Cell) (s : S) (v : V)
      → IsFresh h
      → R 0 h s v
      → Yields h (into s h) (λ h' s'. R h.next h' s' v)

pub is_below : (h : Memory Cell) (a : ℕ) (c : Cell) → IsFresh h → h.cell a ≡ some c → a < h.next
is_below h a c fresh e = ground (arith, fresh a)

pub Grows-KeepsFrom : {h h' : Memory Cell} (n : ℕ) → IsFresh h → Grows h h' → KeepsFrom n h h'
Grows-KeepsFrom {h} n fresh g a c l e = g.kept a (is_below h a c fresh e) ∙ e

-- What a pointer leads to.
abbrev pub Points : {S V : Type 0} → Layout Cell S → Reading S V → Reading Pointer (Option V)
Points l R n h none none = Unit
Points l R n h none (some v) = ⊥
Points l R n h (some a) none = ⊥
Points {S} l R n h (some a) (some v) = (n ≤ a) × (s : S) × (h.cell a ≡ some (l.wrap s)) × R n h s v

abbrev pub Each : {S V : Type 0} → Reading S V → Reading (List S) (List V)
Each R n h [] [] = Unit
Each R n h (s ∷ ss) (v ∷ vs) = R n h s v × Each R n h ss vs
Each R n h _ _ = ⊥

abbrev pub Plain : {V : Type 0} → Reading V V
Plain n h s v = s ≡ v

pub Plain-IsStable : {V : Type 0} → IsStable (Plain {V = V})
Plain-IsStable = record { at = λ n m h h' s v l k e. e }

pub Plain-Copies : {V : Type 0} → Copies (Plain {V = V}) (λ s. pure s)
Plain-Copies = record { at = λ h s v fresh e. Yields-pure s h fresh e }

module _ {S V : Type 0} (R : Reading S V) (stable : IsStable R) where
  Points-stable :
      (l : Layout Cell S) (n m : ℕ) (h h' : Memory Cell) (p : Pointer) (o : Option V)
      → m ≤ n
      → KeepsFrom n h h'
      → Points l R n h p o
      → Points l R m h' p o
  Points-stable l n m h h' none none le k q = tt
  Points-stable l n m h h' none (some v) le k q = elim q [ ]
  Points-stable l n m h h' (some a) none le k q = elim q [ ]
  Points-stable l n m h h' (some a) (some v) le k (above, s, e, r) =
      (omega (arith, above, le), s, k a (l.wrap s) above e, stable.at n m h h' s v le k r)

  pub Points-IsStable : (l : Layout Cell S) → IsStable (Points l R)
  Points-IsStable l = record { at = Points-stable l }

  Each-stable :
      (n m : ℕ) (h h' : Memory Cell) (ss : List S) (vs : List V)
      → m ≤ n
      → KeepsFrom n h h'
      → Each R n h ss vs
      → Each R m h' ss vs
  Each-stable n m h h' [] [] le k q = tt
  Each-stable n m h h' [] (v ∷ vs) le k q = elim q [ ]
  Each-stable n m h h' (s ∷ ss) [] le k q = elim q [ ]
  Each-stable n m h h' (s ∷ ss) (v ∷ vs) le k (r, rs) =
      (stable.at n m h h' s v le k r, Each-stable n m h h' ss vs le k rs)

  pub Each-IsStable : IsStable (Each R)
  Each-IsStable = record { at = Each-stable }

-- What is read is read the same once the memory has grown.
pub still :
    {S V : Type 0} (R : Reading S V) (stable : IsStable R) {h h' : Memory Cell} (n m : ℕ) (s : S)
    (v : V)
    → m ≤ n
    → IsFresh h
    → Grows h h'
    → R n h s v
    → R m h' s v
still R stable {h} {h'} n m s v le fresh g r =
    stable.at n m h h' s v le (Grows-KeepsFrom n fresh g) r
