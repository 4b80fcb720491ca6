-- ===== src/DeepCopy/Apart.antt =====
-- What a write to memory changes of a deep copy and of its original.
use authentik_operator.Prelude.{ℕ, ◌≤◌, ◌<◌, ◌≡◌, ◌⊎◌, inl, inr, none, some, List, arith}
use authentik_operator.Api.{
  OidcClient, OidcClientSpec, OidcClientStatus, RolloutRestart, AuthentikSource, SecretTarget,
  ConfigMapTarget, RolloutTargetRef,
}
use authentik_operator.DeepCopy.{
  copy_new, client_into, list_into, deep_copy_object, deep_copy_list_object, deep_copy_source,
  deep_copy_target, deep_copy_config_map, deep_copy_ref, deep_copy_rollout, deep_copy_spec,
  deep_copy_status, rollout_into, spec_into, status_into,
}
use authentik_operator.DeepCopy.Memory.{Pointer, Memory, Alloc, Layout, pure, write}
use authentik_operator.DeepCopy.Structs.{
  Cell, client_layout, clients_layout, source_layout, target_layout, config_map_layout, ref_layout,
  rollout_layout, spec_layout, status_layout,
}
use authentik_operator.DeepCopy.Rules.{
  IsFresh, Grows, Plain, Plain-IsStable, Plain-Copies, Reading, IsStable, KeepsFrom, Copies, Points,
  Points-IsStable, is_below, Grows-KeepsFrom,
}
use authentik_operator.DeepCopy.Steps.{copy_new-Copies}
use authentik_operator.DeepCopy.Readings.{
  ReadsRollout, ReadsRollout-IsStable, ReadsSpec, ReadsSpec-IsStable, ReadsStatus,
  ReadsStatus-IsStable, ReadsClient, ReadsClient-IsStable, ReadsList, ReadsList-IsStable,
}
use authentik_operator.DeepCopy.Copies.{
  rollout-Copies, spec-Copies, status-Copies, client-Copies, list-Copies,
}

-- One of two numbers is the smaller.
lt_or_le : (a b : ℕ) → (a < b) ⊎ (b ≤ a)
lt_or_le a b = ground arith

write-KeepsFrom : (n a : ℕ) (c : Cell) (h : Memory Cell) → a < n → KeepsFrom n h (write a c h)
write-KeepsFrom n a c h l b d le e = ground (arith, l, le, e)

write-KeepsFrom_new :
    (h h' : Memory Cell) (a : ℕ) (c : Cell)
    → IsFresh h
    → Grows h h'
    → h.next ≤ a
    → KeepsFrom 0 h (write a c h')
write-KeepsFrom_new h h' a c fresh g l b d le e =
    let below = is_below h b d fresh e in
    let same = g.kept b below in ground (arith, l, below, same, e)

module _ {S V : Type 0} (l : Layout Cell S) (R : Reading S V)
    (deep_copy : Pointer → Alloc Cell Pointer) where
  -- The copy of what `p` points to: it is read as the same value, and so is the original after the copy. Where a
  -- cell is then written, one of the two is read as before: the copy, where the cell was there before the
  -- copy, or the original, where the cell is a new one.
  pub record IsApart (h : Memory Cell) (p : ℕ) (v : V) (a : ℕ) (c : Cell) : Type 0 where
    pub q : ℕ
    pub after : Memory Cell
    pub ran : deep_copy (some p) h ≡ some (some q, after)
    pub copied : Points l R h.next after (some q) (some v)
    pub original : Points l R 0 after (some p) (some v)
    pub written :
        ((a < h.next) × Points l R h.next (write a c after) (some q) (some v))
        ⊎ ((h.next ≤ a) × Points l R 0 (write a c after) (some p) (some v))

  module _ (stable : IsStable R) (copies : Copies (Points l R) deep_copy) where
    apart :
        (h : Memory Cell) (p : ℕ) (v : V) (a : ℕ) (c : Cell) (q : Pointer) (after : Memory Cell)
        → IsFresh h
        → Points l R 0 h (some p) (some v)
        → deep_copy (some p) h ≡ some (q, after)
        → Grows h after
        → Points l R h.next after q (some v)
        → IsApart h p v a c
    apart h p v a c none after fresh r ran g r' = elim r' [ ]
    apart h p v a c (some q) after fresh r ran g r' =
        let points = Points-IsStable R stable l in
        record {
          q = q;
          after = after;
          ran = ran;
          copied = r';
          original =
              points.at 0 0 h after (some p) (some v) (omega arith) (Grows-KeepsFrom 0 fresh g) r;
          written = elim (lt_or_le a h.next) [
            | inl le ↦ inl (
              le,
              points.at h.next h.next after (write a c after) (some q) (some v) (omega arith)
                  (write-KeepsFrom h.next a c after le) r',
            )
            | inr le ↦ inr (
              le,
              points.at 0 0 h (write a c after) (some p) (some v) (omega arith)
                  (write-KeepsFrom_new h after a c fresh g le) r,
            )
          ];
        }

    Copies-IsApart :
        (h : Memory Cell) (p : ℕ) (v : V) (a : ℕ) (c : Cell)
        → IsFresh h
        → Points l R 0 h (some p) (some v)
        → IsApart h p v a c
    Copies-IsApart h p v a c fresh r =
        let y = copies.at h (some p) (some v) fresh r in
        apart h p v a c y.out y.after fresh r y.ran y.grows y.holds

plain-IsApart :
    {S : Type 0} (l : Layout Cell S) (h : Memory Cell) (p : ℕ) (v : S) (a : ℕ) (c : Cell)
    → IsFresh h
    → Points l Plain 0 h (some p) (some v)
    → IsApart l Plain (copy_new l (λ s. pure s)) h p v a c
plain-IsApart l =
    Copies-IsApart l Plain (copy_new l (λ s. pure s)) Plain-IsStable
      (copy_new-Copies l Plain Plain-IsStable (λ s. pure s) Plain-Copies)

-- Four types have no pointer: one cell is copied.
deep_copy_source-IsApart :
    (h : Memory Cell) (p : ℕ) (v : AuthentikSource) (a : ℕ) (c : Cell)
    → IsFresh h
    → Points source_layout Plain 0 h (some p) (some v)
    → IsApart source_layout Plain deep_copy_source h p v a c
deep_copy_source-IsApart = plain-IsApart source_layout

deep_copy_target-IsApart :
    (h : Memory Cell) (p : ℕ) (v : SecretTarget) (a : ℕ) (c : Cell)
    → IsFresh h
    → Points target_layout Plain 0 h (some p) (some v)
    → IsApart target_layout Plain deep_copy_target h p v a c
deep_copy_target-IsApart = plain-IsApart target_layout

deep_copy_config_map-IsApart :
    (h : Memory Cell) (p : ℕ) (v : ConfigMapTarget) (a : ℕ) (c : Cell)
    → IsFresh h
    → Points config_map_layout Plain 0 h (some p) (some v)
    → IsApart config_map_layout Plain deep_copy_config_map h p v a c
deep_copy_config_map-IsApart = plain-IsApart config_map_layout

deep_copy_ref-IsApart :
    (h : Memory Cell) (p : ℕ) (v : RolloutTargetRef) (a : ℕ) (c : Cell)
    → IsFresh h
    → Points ref_layout Plain 0 h (some p) (some v)
    → IsApart ref_layout Plain deep_copy_ref h p v a c
deep_copy_ref-IsApart = plain-IsApart ref_layout

-- The parts with pointers.
deep_copy_rollout-IsApart :
    (h : Memory Cell) (p : ℕ) (v : RolloutRestart) (a : ℕ) (c : Cell)
    → IsFresh h
    → Points rollout_layout ReadsRollout 0 h (some p) (some v)
    → IsApart rollout_layout ReadsRollout deep_copy_rollout h p v a c
deep_copy_rollout-IsApart =
    Copies-IsApart rollout_layout ReadsRollout deep_copy_rollout ReadsRollout-IsStable (
      copy_new-Copies rollout_layout ReadsRollout ReadsRollout-IsStable rollout_into rollout-Copies)

deep_copy_spec-IsApart :
    (h : Memory Cell) (p : ℕ) (v : OidcClientSpec) (a : ℕ) (c : Cell)
    → IsFresh h
    → Points spec_layout ReadsSpec 0 h (some p) (some v)
    → IsApart spec_layout ReadsSpec deep_copy_spec h p v a c
deep_copy_spec-IsApart =
    Copies-IsApart spec_layout ReadsSpec deep_copy_spec ReadsSpec-IsStable
      (copy_new-Copies spec_layout ReadsSpec ReadsSpec-IsStable spec_into spec-Copies)

deep_copy_status-IsApart :
    (h : Memory Cell) (p : ℕ) (v : OidcClientStatus) (a : ℕ) (c : Cell)
    → IsFresh h
    → Points status_layout ReadsStatus 0 h (some p) (some v)
    → IsApart status_layout ReadsStatus deep_copy_status h p v a c
deep_copy_status-IsApart =
    Copies-IsApart status_layout ReadsStatus deep_copy_status ReadsStatus-IsStable
      (copy_new-Copies status_layout ReadsStatus ReadsStatus-IsStable status_into status-Copies)

-- Where a pointer leads to a custom resource in memory, with nothing above the cells that were given out,
-- `DeepCopyObject` succeeds. The copy is read as the same custom resource, by new cells only, and so is
-- the original still; and where any one cell is written after that, the copy is read as before if
-- the cell was there before the copy, and the original if it is a new one.
pub deep_copy_object-IsApart :
    (h : Memory Cell) (p : ℕ) (oc : OidcClient) (a : ℕ) (c : Cell)
    → IsFresh h
    → Points client_layout ReadsClient 0 h (some p) (some oc)
    → IsApart client_layout ReadsClient deep_copy_object h p oc a c
deep_copy_object-IsApart =
    Copies-IsApart client_layout ReadsClient deep_copy_object ReadsClient-IsStable
      (copy_new-Copies client_layout ReadsClient ReadsClient-IsStable client_into client-Copies)

-- The same of a list of custom resources, for the items of the list and all that they point to: the copy and the
-- original are read as the same items, and a cell that is written after the copy is seen in one of
-- the two at most.
pub deep_copy_list-IsApart :
    (h : Memory Cell) (p : ℕ) (ocs : List OidcClient) (a : ℕ) (c : Cell)
    → IsFresh h
    → Points clients_layout ReadsList 0 h (some p) (some ocs)
    → IsApart clients_layout ReadsList deep_copy_list_object h p ocs a c
deep_copy_list-IsApart =
    Copies-IsApart clients_layout ReadsList deep_copy_list_object ReadsList-IsStable
      (copy_new-Copies clients_layout ReadsList ReadsList-IsStable list_into list-Copies)
