-- ===== src/DeepCopy/Memory.antt =====
-- The memory that the deep copies of api/v1alpha1/zz_generated.deepcopy.go work on: structs with
-- pointers, each in a cell of its own. Memory is given out and never given back.
use authentik_operator.Prelude.{ℕ, suc, ◌≡◌, Option, none, some, if◌then◌else◌, nat_eq}

-- A pointer; `none` is nil.
abbrev pub Pointer : Type 0
Pointer = Option ℕ

module _ (Cell : Type 0) where
  pub record Memory : Type 0 where
    pub next : ℕ
    pub cell : ℕ → Option Cell

  -- `none` is a fault: a cell that is not there, or that holds another type.
  abbrev pub Alloc : Type 0 → Type 0
  Alloc A = Memory → Option (A × Memory)

  -- How the structs of one type lie in cells.
  pub record Layout (S : Type 0) : Type 0 where
    pub wrap : S → Cell
    pub unwrap : Cell → Option S
    pub unwrap_wrap : (s : S) → unwrap (wrap s) ≡ some s

module _ {Cell : Type 0} where
  infixl 5 ◌>>=◌
  abbrev pub ◌>>=◌ : {A B : Type 0} → Alloc Cell A → (A → Alloc Cell B) → Alloc Cell B
  ◌>>=◌ m f h = elim (m h) [ none ↦ none | some (a, h') ↦ f a h' ]

  abbrev pub pure : {A : Type 0} → A → Alloc Cell A
  pure a h = some (a, h)

  abbrev pub write : ℕ → Cell → Memory Cell → Memory Cell
  write a c h = record h { cell = λ b. if nat_eq a b then some c else h.cell b }

  -- `new`, with the struct that is then written to it
  unfoldable pub new : {S : Type 0} → Layout Cell S → S → Alloc Cell Pointer
  new l s h = some (some h.next, record (write h.next (l.wrap s) h) { next = suc h.next })

  -- `*p`
  unfoldable pub load : {S : Type 0} → Layout Cell S → ℕ → Alloc Cell S
  load l a h = elim (h.cell a) [
    | none ↦ none
    | some c ↦ elim (l.unwrap c) [ none ↦ none | some s ↦ some (s, h) ]
  ]
