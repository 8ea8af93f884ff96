-- ===== src/Dispatcher/Marking.antt =====
-- A field of a task that is written while calls of submitTask and of popNextTask are under way.
use my_taskflow_system.Common.{
  ◌≡◌, refl, sym, ap, ◌∙◌, subst, true, some, Text, text_eq, text_eq_iff, c_str, codes, ◌++◌,
  Bool-cases, inl, inr,
}
use my_taskflow_system.Common.Maps.{Map, put}
use my_taskflow_system.Redis.Server.{Server}
use my_taskflow_system.Redis.Client.{RedisClient, hash_set}
use my_taskflow_system.Redis.Tasks.{task_key}
use my_taskflow_system.Redis.Laws.{RedisLaws, as_hash, as_list}
use my_taskflow_system.Redis.Status.{Written, hash_set-Written}
use my_taskflow_system.Redis.Lists.{Queues, Holds}
use my_taskflow_system.Dispatcher.Marks.{
  Mark, mark_field, mark_value, IsInTime, marked, Holds-marked, IsTask-marked,
}
use my_taskflow_system.Dispatcher.Interleaving.{
  Progress, IsKnown, Sound, same_id, IsKept-same, All-IsKnown, ids-IsKnown,
}

field_plain : (k : Mark) → c_str (mark_field k) ≡ mark_field k
unfolding c_str
field_plain Mark.as_running = refl
field_plain (Mark.with_worker worker_id) = refl
field_plain (Mark.as_started now) = refl

key_plain : {task_id : Text} → c_str task_id ≡ task_id → c_str (task_key task_id) ≡ task_key task_id
unfolding c_str
key_plain plain = ap (λ i. codes "task:" ++ i) plain

module _ (S : Server) (laws : RedisLaws S) (c : RedisClient) (up : c.connected ≡ true) (k : Mark)
    (task_id : Text) (plain : c_str task_id ≡ task_id)
    (value_plain : c_str (mark_value k) ≡ mark_value k) where
  open S use {State}

  abbrev mark : State → State
  mark s = (hash_set S c (task_key task_id) (mark_field k) (mark_value k) s).1

  mark-Written :
      (s : State) (m : Map Text)
      → as_hash (laws.view s (task_key task_id)) ≡ some m
      → Written S laws (task_key task_id) s (mark s) (put (mark_field k) (mark_value k) m)
  mark-Written s m h =
      hash_set-Written S laws c up (task_key task_id) (mark_field k) (mark_value k) s s m
        (key_plain plain) (field_plain k) value_plain (h, λ j _. refl)

  mark-IsKnown :
      (s : State) (m : Map Text)
      → IsInTime k
      → as_hash (laws.view s (task_key task_id)) ≡ some m
      → (u : Text) → IsKnown S laws s u
      → IsKnown S laws (mark s) u
  mark-IsKnown s m lt old u (w, same, kept) =
      elim (Bool-cases (text_eq (task_key task_id) (task_key w.id))) [
        | inl equal ↦
            let e = same_id task_id w.id equal in
            let hash =
              subst (λ i. as_hash (laws.view s (task_key i)) ≡ some kept.fields) (sym e)
                kept.hash in
            let written = (mark-Written s kept.fields hash).0 in
            let after = put (mark_field k) (mark_value k) kept.fields in
            (
              marked k w,
              same,
              record {
                in_range = IsTask-marked k w lt kept.in_range;
                plain = kept.plain;
                fields = after;
                hash =
                    subst (λ i. as_hash (laws.view (mark s) (task_key i)) ≡ some after) e written;
                held = Holds-marked k kept.fields w kept.held;
              },
            )
        | inr other ↦ (
          w,
          same,
          IsKept-same S laws s (mark s) w ((mark-Written s m old).1 (task_key w.id) other) kept,
        )
      ]

  mark-hashes :
      (s : State)
      → ((i : Text) → (m : Map Text) × (as_hash (laws.view s (task_key i)) ≡ some m))
      → (i : Text) → (m : Map Text) × (as_hash (laws.view (mark s) (task_key i)) ≡ some m)
  mark-hashes s h i =
      let (m, old) = h task_id in
      let written = mark-Written s m old in
      elim (Bool-cases (text_eq (task_key task_id) (task_key i))) [
        | inl equal ↦
            subst (λ j. (n : Map Text) × (as_hash (laws.view (mark s) j) ≡ some n))
              ((text_eq_iff (task_key task_id) (task_key i)).0 equal) (_, written.0)
        | inr other ↦ ((h i).0, ap as_hash (written.1 (task_key i) other) ∙ (h i).1)
      ]

  mark-Holds :
      (s : State) (m : Map Text) (q : Queues)
      → as_hash (laws.view s (task_key task_id)) ≡ some m
      → Holds S laws s q
      → Holds S laws (mark s) q
  unfolding text_eq
  mark-Holds s m q old h =
      let others = (mark-Written s m old).1 in
      record {
        high_list = ap as_list (others (codes "queue:high") refl) ∙ h.high_list;
        medium_list = ap as_list (others (codes "queue:medium") refl) ∙ h.medium_list;
        low_list = ap as_list (others (codes "queue:low") refl) ∙ h.low_list;
      }

  pub marks-Sound :
      (p : Progress State) (q : Queues)
      → IsInTime k
      → Sound S laws p q
      → Sound S laws
          (record p {
            redis = (hash_set S c (task_key task_id) (mark_field k) (mark_value k) p.redis).1;
          })
          q
  marks-Sound p q lt h =
      let (m, old) = h.hashes task_id in
      let keep = mark-IsKnown p.redis m lt old in
      let s' = mark p.redis in
      record {
        queued = mark-Holds p.redis m q old h.queued;
        hashes = mark-hashes p.redis h.hashes;
        high_known = All-IsKnown S laws p.redis s' q.high keep h.high_known;
        medium_known = All-IsKnown S laws p.redis s' q.medium keep h.medium_known;
        low_known = All-IsKnown S laws p.redis s' q.low keep h.low_known;
        under_way = ids-IsKnown S laws p.redis s' p.saved keep h.under_way;
      }
