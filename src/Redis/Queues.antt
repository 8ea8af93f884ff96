-- ===== src/Redis/Queues.antt =====
-- The priority queues in Redis against three plain queues, and what single methods answer.
use my_taskflow_system.Common.{
  inr, inl, ◌≡◌, refl, ap, ◌∙◌, true, false, some, List, [], ◌∷◌, Text, text_eq, c_str, codes,
  Bool-cases,
}
use my_taskflow_system.Common.Int.{ℤ, pos, eq_ℤ}
use my_taskflow_system.Redis.Server.{Server}
use my_taskflow_system.Redis.Client.{RedisClient, pop_left}
use my_taskflow_system.Redis.Tasks.{queue_of, push_to_priority_queue, pop_from_priority_queue}
use my_taskflow_system.Redis.Laws.{as_list, RedisLaws}
use my_taskflow_system.Redis.Lists.{
  Fit, Holds, Queues, pop_left-empty, pop_left-view, pop_spec, push_right-view, push_spec,
}

module _ (S : Server) (laws : RedisLaws S) (c : RedisClient) (up : c.connected ≡ true) where
  open S use {State}

  -- pushToPriorityQueue refines the specification: it succeeds and puts the id at the end of the
  -- queue of its priority, for an id without a NUL.
  pub push_to_priority_queue-push_spec :
      (p : ℤ) (x : Text) (s : State) (q : Queues)
      → c_str x ≡ x
      → Holds S laws s q
      → ((push_to_priority_queue S c p x s).0 ≡ true)
        × Holds S laws (push_to_priority_queue S c p x s).1 (push_spec p x q)
  unfolding push_to_priority_queue text_eq c_str
  push_to_priority_queue-push_spec p x s q cx h = elim (Bool-cases (eq_ℤ p (pos 2))) [
    | inl two ↦
        let v = push_right-view S laws c up (codes "queue:high") x s q.high refl cx h.high_list in
        rw two (
          v.0,
          record {
            high_list = v.1;
            medium_list = ap as_list (v.2 _ refl) ∙ h.medium_list;
            low_list = ap as_list (v.2 _ refl) ∙ h.low_list;
          },
        )
    | inr not_two ↦ rw not_two (elim (Bool-cases (eq_ℤ p (pos 1))) [
      | inl one ↦
          let v =
            push_right-view S laws c up (codes "queue:medium") x s q.medium refl cx h.medium_list in
          rw one (
            v.0,
            record {
              high_list = ap as_list (v.2 _ refl) ∙ h.high_list;
              medium_list = v.1;
              low_list = ap as_list (v.2 _ refl) ∙ h.low_list;
            },
          )
      | inr other ↦
          let v = push_right-view S laws c up (codes "queue:low") x s q.low refl cx h.low_list in
          rw other (
            v.0,
            record {
              high_list = ap as_list (v.2 _ refl) ∙ h.high_list;
              medium_list = ap as_list (v.2 _ refl) ∙ h.medium_list;
              low_list = v.1;
            },
          )
    ])
  ]

  -- popFromPriorityQueue refines the specification: it takes the first id of the first queue that
  -- is not empty, and returns the empty string exactly when all three are; if no queue holds an
  -- empty id.
  pub pop_from_priority_queue-pop_spec :
      (s : State) (h m l : List Text)
      → let q : Queues = record { high = h; medium = m; low = l } in
        Fit q
        → Holds S laws s q
        → ((pop_from_priority_queue S c s).0 ≡ (pop_spec q).0)
          × Holds S laws (pop_from_priority_queue S c s).1 (pop_spec q).1
  unfolding pop_from_priority_queue text_eq c_str
  pop_from_priority_queue-pop_spec s (x ∷ h) m l f r =
      let v = pop_left-view S laws c up (codes "queue:high") x s h refl r.high_list in
      rw (v.0, f.high_ids.0)
        (
          refl,
          record {
            high_list = v.1;
            medium_list = ap as_list (v.2 _ refl) ∙ r.medium_list;
            low_list = ap as_list (v.2 _ refl) ∙ r.low_list;
          },
        )
  pop_from_priority_queue-pop_spec s [] (x ∷ m) l f r =
      let u = pop_left-empty S laws c up (codes "queue:high") s refl r.high_list in
      let s1 = (pop_left S c (codes "queue:high") s).1 in
      let v =
        pop_left-view S laws c up (codes "queue:medium") x s1 m refl
          (ap as_list (u.2 _ refl) ∙ r.medium_list) in
      rw (u.0, v.0, f.medium_ids.0)
        (
          refl,
          record {
            high_list = ap as_list (v.2 _ refl) ∙ u.1;
            medium_list = v.1;
            low_list = ap as_list (v.2 _ refl) ∙ ap as_list (u.2 _ refl) ∙ r.low_list;
          },
        )
  pop_from_priority_queue-pop_spec s [] [] (x ∷ l) f r =
      let u = pop_left-empty S laws c up (codes "queue:high") s refl r.high_list in
      let s1 = (pop_left S c (codes "queue:high") s).1 in
      let v =
        pop_left-empty S laws c up (codes "queue:medium") s1 refl
          (ap as_list (u.2 _ refl) ∙ r.medium_list) in
      let s2 = (pop_left S c (codes "queue:medium") s1).1 in
      let w =
        pop_left-view S laws c up (codes "queue:low") x s2 l refl
          (ap as_list (v.2 _ refl) ∙ ap as_list (u.2 _ refl) ∙ r.low_list) in
      rw (u.0, v.0, w.0)
        (
          refl,
          record {
            high_list = ap as_list (w.2 _ refl) ∙ ap as_list (v.2 _ refl) ∙ u.1;
            medium_list = ap as_list (w.2 _ refl) ∙ v.1;
            low_list = w.1;
          },
        )
  pop_from_priority_queue-pop_spec s [] [] [] f r =
      let u = pop_left-empty S laws c up (codes "queue:high") s refl r.high_list in
      let s1 = (pop_left S c (codes "queue:high") s).1 in
      let v =
        pop_left-empty S laws c up (codes "queue:medium") s1 refl
          (ap as_list (u.2 _ refl) ∙ r.medium_list) in
      let s2 = (pop_left S c (codes "queue:medium") s1).1 in
      let w =
        pop_left-empty S laws c up (codes "queue:low") s2 refl
          (ap as_list (v.2 _ refl) ∙ ap as_list (u.2 _ refl) ∙ r.low_list) in
      rw (u.0, v.0, w.0)
        (
          refl,
          record {
            high_list = ap as_list (w.2 _ refl) ∙ ap as_list (v.2 _ refl) ∙ u.1;
            medium_list = ap as_list (w.2 _ refl) ∙ v.1;
            low_list = w.1;
          },
        )

  -- Pushing an id touches no key but the queue of the priority.
  pub push_to_priority_queue-others :
      (p : ℤ) (x : Text) (s : State) (q : Queues) (j : Text)
      → c_str x ≡ x
      → Holds S laws s q
      → text_eq (queue_of p) j ≡ false
      → laws.view (push_to_priority_queue S c p x s).1 j ≡ laws.view s j
  unfolding push_to_priority_queue queue_of c_str
  push_to_priority_queue-others p x s q j cx h e = elim (Bool-cases (eq_ℤ p (pos 2))) [
    | inl two ↦ rw two (
        (push_right-view S laws c up (codes "queue:high") x s q.high refl cx h.high_list).2 j
          (rw (two, queue_of) at e))
    | inr not_two ↦ elim (Bool-cases (eq_ℤ p (pos 1))) [
      | inl one ↦
          rw (not_two, one)
            ((push_right-view S laws c up (codes "queue:medium") x s q.medium refl cx
                h.medium_list).2
              j (rw (not_two, one, queue_of) at e))
      | inr other ↦
          rw (not_two, other)
            ((push_right-view S laws c up (codes "queue:low") x s q.low refl cx h.low_list).2 j
              (rw (not_two, other, queue_of) at e))
    ]
  ]

  pop_left-others :
      (k : Text) (s : State) (xs : List Text) (j : Text)
      → c_str k ≡ k
      → as_list (laws.view s k) ≡ some xs
      → text_eq k j ≡ false
      → laws.view (pop_left S c k s).1 j ≡ laws.view s j
  pop_left-others k s [] j ck h e = (pop_left-empty S laws c up k s ck h).2 j e
  pop_left-others k s (x ∷ xs) j ck h e = (pop_left-view S laws c up k x s xs ck h).2 j e

  -- Popping an id touches no key but the three queues.
  pub pop_from_priority_queue-others :
      (s : State) (h m l : List Text) (j : Text)
      → let q : Queues = record { high = h; medium = m; low = l } in
        Fit q
        → Holds S laws s q
        → ((p : ℤ) → text_eq (queue_of p) j ≡ false)
        → laws.view (pop_from_priority_queue S c s).1 j ≡ laws.view s j
  unfolding pop_from_priority_queue queue_of text_eq c_str
  pop_from_priority_queue-others s (x ∷ h) m l j f r e =
      let v = pop_left-view S laws c up (codes "queue:high") x s h refl r.high_list in
      rw (v.0, f.high_ids.0) (v.2 j (e (pos 2)))
  pop_from_priority_queue-others s [] (x ∷ m) l j f r e =
      let u = pop_left-empty S laws c up (codes "queue:high") s refl r.high_list in
      let s1 = (pop_left S c (codes "queue:high") s).1 in
      let v =
        pop_left-view S laws c up (codes "queue:medium") x s1 m refl
          (ap as_list (u.2 _ refl) ∙ r.medium_list) in
      rw (u.0, v.0, f.medium_ids.0) (v.2 j (e (pos 1)) ∙ u.2 j (e (pos 2)))
  pop_from_priority_queue-others s [] [] l j f r e =
      let u = pop_left-empty S laws c up (codes "queue:high") s refl r.high_list in
      let s1 = (pop_left S c (codes "queue:high") s).1 in
      let v =
        pop_left-empty S laws c up (codes "queue:medium") s1 refl
          (ap as_list (u.2 _ refl) ∙ r.medium_list) in
      let s2 = (pop_left S c (codes "queue:medium") s1).1 in
      let w =
        pop_left-others (codes "queue:low") s2 l j refl
          (ap as_list (v.2 _ refl) ∙ ap as_list (u.2 _ refl) ∙ r.low_list) (e (pos 0)) in
      rw (u.0, v.0) (w ∙ v.2 j (e (pos 1)) ∙ u.2 j (e (pos 2)))
