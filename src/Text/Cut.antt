-- ===== src/Text/Cut.antt =====
-- Texts cut at a character.
use Prim.Native.Char.{Char, code}
use Prim.Native.String.{String, [], ◌∷◌}
use mathlib.Core.List.{[], ◌∷◌}
use text.Mathlib.TextLemmas.{
  cons-append, nil-append, head-eq_of_cons-eq, tail-eq_of_cons-eq, cons≢nil,
}
use authentik_operator.Prelude.{◌<>◌, ◌≡◌, ◌≢◌, refl, sym, false, nat_eq, arith}
use authentik_operator.Text.Laws.{Avoids}

code_ne : (d c : Char) → nat_eq (code c) (code d) ≡ false → c ≢ d
code_ne d c p e = let p' = rw e at p in ground (arith, p')

cons_eq : {c d : Char} {s t : String} → c ≡ d → s ≡ t → ◌≡◌ {A = String} (c ∷ s) (d ∷ t)
cons_eq p q = cc (p, q)

-- Two texts are cut at the first place of a character in the same way.
pub cut_first :
    (d : Char) (s s' t t' : String)
    → Avoids (code d) s
    → Avoids (code d) s'
    → s <> (d ∷ t) ≡ s' <> (d ∷ t')
    → (s ≡ s') × (t ≡ t')
cut_first d [] [] t t' h h' e =
    let r : d ∷ t ≡ d ∷ t' = rw (← nil-append (d ∷ t), ← nil-append (d ∷ t')) e in
    (refl, tail-eq_of_cons-eq r)
cut_first d [] (c ∷ s') t t' h (p, h') e =
    let r : d ∷ t ≡ c ∷ (s' <> (d ∷ t')) =
      rw (← nil-append (d ∷ t), ← cons-append c s' (d ∷ t')) e in
    absurd (code_ne d c p (sym (head-eq_of_cons-eq r)))
cut_first d (c ∷ s) [] t t' (p, h) h' e =
    let r : c ∷ (s <> (d ∷ t)) ≡ d ∷ t' = rw (← cons-append c s (d ∷ t), ← nil-append (d ∷ t')) e in
    absurd (code_ne d c p (head-eq_of_cons-eq r))
cut_first d (c ∷ s) (c' ∷ s') t t' (p, h) (p', h') e =
    let r : c ∷ (s <> (d ∷ t)) ≡ c' ∷ (s' <> (d ∷ t')) =
      rw (← cons-append c s (d ∷ t), ← cons-append c' s' (d ∷ t')) e in
    let (q, q') = cut_first d s s' t t' h h' (tail-eq_of_cons-eq r) in
    (cons_eq (head-eq_of_cons-eq r) q, q')

pub append-ne : (d : Char) (s t : String) → s <> (d ∷ t) ≢ ""
append-ne d [] t e = let r : d ∷ t ≡ "" = rw (← nil-append (d ∷ t)) e in cons≢nil r
append-ne d (c ∷ s) t e =
    let r : c ∷ (s <> (d ∷ t)) ≡ "" = rw (← cons-append c s (d ∷ t)) e in cons≢nil r
