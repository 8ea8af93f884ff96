-- ===== src/Redis/Status.antt =====
-- What updateTaskStatus leaves of the fields of a task.
use my_taskflow_system.Common.{
  ◌∙◌, ℕ, zero, suc, ◌+◌, ◌%◌, ◌/◌, ltb, ◌≡◌, refl, ap, Bool, true, false, ◌&&◌, ◌||◌, not, Option,
  some, [], ◌∷◌, ◌++◌, Text, text_eq, c_str, codes, is_empty, if◌then◌else◌, arith, Bool-cases, inl,
  inr,
}
use mathlib.Core.List.{append_assoc, append-nil}
use my_taskflow_system.Common.Int.{ℤ, pos, negsuc, eq_ℤ}
use my_taskflow_system.Common.Maps.{Map, find, put, find-put}
use my_taskflow_system.Common.Decimal.{to_string, digits}
use my_taskflow_system.Redis.Server.{Server}
use my_taskflow_system.Redis.Client.{RedisClient, hash_set}
use my_taskflow_system.Redis.Tasks.{task_key, update_task_status}
use my_taskflow_system.Redis.Laws.{RedisLaws, as_hash}
use my_taskflow_system.Redis.RoundTrip.{request_ran}

pub digits-c_str : (f n : ℕ) (t : Text) → c_str t ≡ t → c_str (digits f n ++ t) ≡ digits f n ++ t
unfolding digits c_str
digits-c_str zero n t h = h
digits-c_str (suc f) n t h = elim (Bool-cases (ltb n 10)) [
  | inl small ↦ rw small (ground arith)
  | inr large ↦
      let front = append_assoc (digits f (n / 10)) ((48 + n % 10) ∷ []) t in
      let rest = digits-c_str f (n / 10) ((48 + n % 10) ∷ t) (ground arith) in
      rw large (rw front rest)
]

pub to_string-c_str : (z : ℤ) → c_str (to_string z) ≡ to_string z
unfolding to_string c_str
to_string-c_str (pos n) =
    let all = digits-c_str 20 n [] refl in let tail = append-nil (digits 20 n) in rw tail at all
to_string-c_str (negsuc n) =
    let all = digits-c_str 20 (n + 1) [] refl in
    let tail = append-nil (digits 20 (n + 1)) in ap (λ t. b'-' ∷ t) (rw tail at all)

-- A field's value after updateTaskStatus, from its value before.
abbrev pub updated : ℕ → ℤ → Text → Text → Option Text → Option Text
updated now status error_msg field before =
    if text_eq (codes "finished_at") field && (eq_ℤ status (pos 2) || eq_ℤ status (pos 3))
    then some (to_string (pos now))
    else if text_eq (codes "error_message") field && not (is_empty error_msg)
    then some error_msg
    else if text_eq (codes "status") field
    then some (to_string status)
    else before

module _ (S : Server) (laws : RedisLaws S) where
  open S use {State}

  -- From one state to another, the key has come to hold the hash and no other key has changed.
  abbrev pub Written : Text → State → State → Map Text → Type 0
  Written k s s' m =
      (as_hash (laws.view s' k) ≡ some m)
      × ((j : Text) → text_eq k j ≡ false → laws.view s' j ≡ laws.view s j)

module _ (S : Server) (laws : RedisLaws S) (c : RedisClient) (up : c.connected ≡ true) where
  open S use {State}

  pub hash_set-Written :
      (k f v : Text) (s0 s : State) (m : Map Text)
      → c_str k ≡ k
      → c_str f ≡ f
      → c_str v ≡ v
      → Written S laws k s0 s m
      → Written S laws k s0 (hash_set S c k f v s).1 (put f v m)
  unfolding hash_set
  hash_set-Written k f v s0 s m ck cf cv (h, before) =
      let r = laws.hset_law k f v s m h in
      rw (ck, cf, cv, request_ran S laws c up r)
        (ap as_hash r.described.1, λ j apart. r.others j apart ∙ before j apart)

  set_if :
      (b : Bool) (k f v : Text) (s0 s : State) (m : Map Text)
      → c_str k ≡ k
      → c_str f ≡ f
      → c_str v ≡ v
      → Written S laws k s0 s m
      → Written S laws k s0 (if b then (hash_set S c k f v s).1 else s) (if b then put f v m else m)
  set_if true k f v s0 s m ck cf cv h = hash_set-Written k f v s0 s m ck cf cv h
  set_if false k f v s0 s m ck cf cv h = h

  set_unless :
      (b : Bool) (k f v : Text) (s0 s : State) (m : Map Text)
      → c_str k ≡ k
      → c_str f ≡ f
      → c_str v ≡ v
      → Written S laws k s0 s m
      → Written S laws k s0 (if b then s else (hash_set S c k f v s).1) (if b then m else put f v m)
  set_unless true k f v s0 s m ck cf cv h = h
  set_unless false k f v s0 s m ck cf cv h = hash_set-Written k f v s0 s m ck cf cv h

  -- What updateTaskStatus leaves in the hash of a task, field by field: the status as given, the
  -- error message if one is given, the clock as finished_at if the status is success or failed, and
  -- every other field as it was; no other key changes. The id and the message have no NUL, and the key held nothing but a
  -- hash.
  pub update_task_status-find :
      (now : ℕ) (task_id : Text) (status : ℤ) (error_msg : Text) (s : State) (m : Map Text)
      → c_str task_id ≡ task_id
      → c_str error_msg ≡ error_msg
      → as_hash (laws.view s (task_key task_id)) ≡ some m
      → (after : Map Text) × Written S laws
          (task_key task_id)
          s
          (update_task_status S c now task_id status error_msg s)
          after
        × ((field : Text) → find field after ≡ updated now status error_msg field (find field m))
  unfolding update_task_status c_str
  update_task_status-find now task_id status error_msg s m cs ce h =
      let key = task_key task_id in
      let ck = ap (λ i. codes "task:" ++ i) cs in
      let ended = eq_ℤ status (pos 2) || eq_ℤ status (pos 3) in
      let named = codes "status" in
      let message = codes "error_message" in
      let time = codes "finished_at" in
      let s1 = (hash_set S c key named (to_string status) s).1 in
      let m1 = put named (to_string status) m in
      let h1 =
        hash_set-Written key named (to_string status) s s m ck refl (to_string-c_str status)
          (h, λ j _. refl) in
      let s2 = if is_empty error_msg then s1 else (hash_set S c key message error_msg s1).1 in
      let m2 = if is_empty error_msg then m1 else put message error_msg m1 in
      let h2 = set_unless (is_empty error_msg) key message error_msg s s1 m1 ck refl ce h1 in
      let m3 = if ended then put time (to_string (pos now)) m2 else m2 in
      let h3 =
        set_if ended key time (to_string (pos now)) s s2 m2 ck refl (to_string-c_str (pos now))
          h2 in
      (
        m3,
        h3,
        λ field.
            let a = find-put named field (to_string status) m in
            let b = find-put message field error_msg m1 in
            let d = find-put time field (to_string (pos now)) m2 in ground (arith, a, b, d),
      )
