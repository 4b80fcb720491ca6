-- ===== src/DeepCopy/Copies.antt =====
-- The copies that `DeepCopyInto` makes, type by type.
use authentik_operator.Prelude.{ℕ, String, ◌≡◌, ◌∙◌, none, some, List, [], ◌∷◌, arith}
use authentik_operator.Prelude.Dict.{
  Dict, lookup, insert, copy, NodupKeys, lookup-copy, insert-NodupKeys,
}
use authentik_operator.Api.{Condition}
use authentik_operator.DeepCopy.{
  copy_new, copy_each, map_into, ref_into, config_map_into, rollout_into, spec_into,
  conditions_into, status_into, client_into, list_into,
}
use authentik_operator.DeepCopy.Memory.{Pointer, Memory, Alloc, Layout, pure}
use authentik_operator.DeepCopy.Structs.{
  Cell, config_map_layout, ref_layout, rollout_layout, map_layout, conditions_layout, time_layout,
  items_layout,
}
use authentik_operator.DeepCopy.Rules.{
  IsFresh, Yields, Yields-pure, Yields-bind, Yields-weaken, Reading, IsStable, Copies, Points, Each,
  Each-IsStable, Plain, Plain-IsStable, Plain-Copies, Grows-trans, still,
}
use authentik_operator.DeepCopy.Steps.{copy_new-Copies, copy_each-Copies}
use authentik_operator.DeepCopy.Readings.{
  Entries, Entries-IsStable, OrEmpty, ReadsRollout, ReadsRollout-IsStable, ReadsSpec,
  overrides-IsStable, config_map-IsStable, rollout-IsStable, ReadsStatus, conditions-IsStable,
  time-IsStable, ReadsClient, ReadsClient-IsStable, ReadsSpec-IsStable, ReadsStatus-IsStable,
  ReadsList,
}

copy-NodupKeys : (dst src : Dict String) → NodupKeys dst → NodupKeys (copy dst src)
unfolding copy
copy-NodupKeys dst [] h = h
copy-NodupKeys dst ((k, v) ∷ src) h =
    copy-NodupKeys (insert k v dst) src (insert-NodupKeys k v dst h)

lookup-map : (k : String) (d : Dict String) → NodupKeys d → lookup k (copy [] d) ≡ lookup k d
unfolding lookup
lookup-map k d h = ground (arith, lookup-copy k [] d h)

map-Copies : Copies Entries map_into
map-Copies = record {
  at = λ h d v fresh r.
      Yields-pure (copy [] d) h fresh (copy-NodupKeys [] d tt, λ k. lookup-map k d r.0 ∙ r.1 k);
}

module _ {S X : Type 0} (l : Layout Cell S) (R : Reading S (List X)) (stable : IsStable R)
    (into : S → Alloc Cell S) (copies : Copies R into) where
  Points-OrEmpty :
      (n : ℕ) (h : Memory Cell) (p : Pointer) (v : List X)
      → Points l R n h p (some v)
      → OrEmpty l R n h p v
  Points-OrEmpty n h none v r = elim r [ ]
  Points-OrEmpty n h (some a) v r = r

  OrEmpty-Yields :
      (h : Memory Cell) (p : Pointer) (v : List X)
      → IsFresh h
      → OrEmpty l R 0 h p v
      → Yields h (copy_new l into p h) (λ h' q. OrEmpty l R h.next h' q v)
  unfolding copy_new
  OrEmpty-Yields h none v fresh e = Yields-pure none h fresh e
  OrEmpty-Yields h (some a) v fresh r =
      Yields-weaken h (copy_new l into (some a) h)
        ((copy_new-Copies l R stable into copies).at h (some a) (some v) fresh r)
        (λ q h'. Points-OrEmpty h.next h' q v)

  OrEmpty-Copies : Copies (OrEmpty l R) (copy_new l into)
  OrEmpty-Copies = record { at = OrEmpty-Yields }

ref-Copies : Copies (Points ref_layout Plain) (copy_new ref_layout ref_into)
ref-Copies = copy_new-Copies ref_layout Plain Plain-IsStable ref_into Plain-Copies

pub rollout-Copies : Copies ReadsRollout rollout_into
unfolding rollout_into
rollout-Copies = record {
  at = λ h s v fresh r.
      Yields-bind (copy_new ref_layout ref_into s.target_ref) _ h
        (ref-Copies.at h s.target_ref v.target_ref fresh r.ref)
        λ p h' g r'.
          Yields-pure (record s { target_ref = p }) h' g.fresh
            (record { enabled = r.enabled; ref = r' });
}

overrides-Copies : Copies (OrEmpty map_layout Entries) (copy_new map_layout map_into)
overrides-Copies = OrEmpty-Copies map_layout Entries Entries-IsStable map_into map-Copies

config_map-Copies :
    Copies (Points config_map_layout Plain) (copy_new config_map_layout config_map_into)
config_map-Copies =
    copy_new-Copies config_map_layout Plain Plain-IsStable config_map_into Plain-Copies

restart-Copies : Copies (Points rollout_layout ReadsRollout) (copy_new rollout_layout rollout_into)
restart-Copies =
    copy_new-Copies rollout_layout ReadsRollout ReadsRollout-IsStable rollout_into rollout-Copies

pub spec-Copies : Copies ReadsSpec spec_into
unfolding spec_into
spec-Copies = record {
  at = λ h s v fresh r.
      Yields-bind (copy_new map_layout map_into s.secret_overrides) _ h
        (overrides-Copies.at h s.secret_overrides v.secret_overrides fresh r.overrides)
        λ p h1 g1 r1.
          Yields-bind (copy_new config_map_layout config_map_into s.config_map_target) _ h1
            (config_map-Copies.at h1 s.config_map_target v.config_map_target g1.fresh
              (still _ config_map-IsStable 0 0 _ _ (omega arith) fresh g1 r.config_map))
            λ q h2 g2 r2.
              Yields-bind (copy_new rollout_layout rollout_into s.rollout_restart) _ h2
                (restart-Copies.at h2 s.rollout_restart v.rollout_restart g2.fresh (
                  still _ rollout-IsStable 0 0 _ _ (omega arith) fresh (Grows-trans g1 g2)
                    r.rollout))
                λ t h3 g3 r3.
                  Yields-pure
                    (record s { secret_overrides = p; config_map_target = q; rollout_restart = t })
                    h3 g3.fresh
                    (record {
                      authentik = r.authentik;
                      target = r.target;
                      profile = r.profile;
                      overrides =
                          still _ overrides-IsStable h.next h.next _ _ (omega arith) g1.fresh
                            (Grows-trans g2 g3) r1;
                      config_map =
                          still _ config_map-IsStable h1.next h.next _ _ g1.le g2.fresh g3 r2;
                      rollout =
                          rollout-IsStable.at h2.next h.next h3 h3 t v.rollout_restart
                            (omega (arith, g1.le, g2.le)) (λ a c l e. e) r3;
                    });
}

conditions-Copies :
    Copies
      (OrEmpty conditions_layout (Each (Plain {V = Condition})))
      (copy_new conditions_layout conditions_into)
conditions-Copies =
    OrEmpty-Copies conditions_layout (Each Plain) (Each-IsStable Plain Plain-IsStable)
      conditions_into (copy_each-Copies Plain Plain-IsStable (λ c. pure c) Plain-Copies)

time-Copies : Copies (Points time_layout Plain) (copy_new time_layout (λ t. pure t))
time-Copies = copy_new-Copies time_layout Plain Plain-IsStable (λ t. pure t) Plain-Copies

pub status-Copies : Copies ReadsStatus status_into
unfolding status_into
status-Copies = record {
  at = λ h s v fresh r.
      Yields-bind (copy_new conditions_layout conditions_into s.conditions) _ h
        (conditions-Copies.at h s.conditions v.conditions fresh r.conditions)
        λ p h1 g1 r1.
          Yields-bind (copy_new time_layout (λ t. pure t) s.last_sync_time) _ h1
            (time-Copies.at h1 s.last_sync_time v.last_sync_time g1.fresh
              (still _ time-IsStable 0 0 _ _ (omega arith) fresh g1 r.time))
            λ q h2 g2 r2.
              Yields-pure (record s { conditions = p; last_sync_time = q }) h2 g2.fresh
                (record {
                  conditions =
                      still _ conditions-IsStable h.next h.next _ _ (omega arith) g1.fresh g2 r1;
                  time =
                      time-IsStable.at h1.next h.next h2 h2 q v.last_sync_time g1.le (λ a c l e. e)
                        r2;
                  hash = r.hash;
                });
}

pub client-Copies : Copies ReadsClient client_into
unfolding client_into
client-Copies = record {
  at = λ h s v fresh r.
      Yields-bind (spec_into s.spec) _ h (spec-Copies.at h s.spec v.spec fresh r.spec) λ p h1 g1 r1.
        Yields-bind (status_into s.status) _ h1
          (status-Copies.at h1 s.status v.status g1.fresh
            (still _ ReadsStatus-IsStable 0 0 _ _ (omega arith) fresh g1 r.status))
          λ q h2 g2 r2.
            Yields-pure (record s { spec = p; status = q }) h2 g2.fresh
              (record {
                name = r.name;
                namespace = r.namespace;
                generation = r.generation;
                spec = still _ ReadsSpec-IsStable h.next h.next _ _ (omega arith) g1.fresh g2 r1;
                status =
                    ReadsStatus-IsStable.at h1.next h.next h2 h2 q v.status g1.le (λ a c l e. e) r2;
              });
}

items-Copies :
    Copies (OrEmpty items_layout (Each ReadsClient)) (copy_new items_layout (copy_each client_into))
items-Copies =
    OrEmpty-Copies items_layout (Each ReadsClient) (Each-IsStable ReadsClient ReadsClient-IsStable)
      (copy_each client_into)
      (copy_each-Copies ReadsClient ReadsClient-IsStable client_into client-Copies)

pub list-Copies : Copies ReadsList list_into
unfolding list_into
list-Copies = record {
  at = λ h s v fresh r.
      Yields-bind (copy_new items_layout (copy_each client_into) s.items) _ h
        (items-Copies.at h s.items v fresh r)
        λ p h' g r'. Yields-pure (record s { items = p }) h' g.fresh r';
}
