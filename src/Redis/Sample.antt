-- ===== src/Redis/Sample.antt =====
-- A small Redis server that keeps the laws of Redis/Laws.antt, for the examples.
use my_taskflow_system.Common.{
  ◌<◌, ℕ, true, zero, suc, ◌+◌, ◌≡◌, refl, subst, sym, Option, none, some, List, [], ◌∷◌, ◌++◌,
  Text, text_eq, text_eq_refl, length, if◌then◌else◌, arith,
}
use my_taskflow_system.Common.Int.{ltb_ℤ, ℤ, pos, negsuc}
use my_taskflow_system.Common.Maps.{Map, find, put, find-put}
use my_taskflow_system.Common.Exec.{ok, throw}
use my_taskflow_system.Common.Decimal.{to_string, stoll, stoll-to_string}
use my_taskflow_system.Redis.Server.{
  setex, Server, Command, Reply, ReplyType, Element, get, set, del, hset, hget, hmset, hgetall,
  incr, incrby, rpush, lpop, llen,
}
use my_taskflow_system.Redis.Laws.{
  Value, absent, text_value, list_value, hash_value, as_hash, as_list, enter, flatten, Ran,
  RedisLaws,
}

abbrev pub Store : Type 0
Store = Text → Value

-- A reply and what the key holds after the command.
abbrev Effect : Type 0
Effect = Reply × Value

abbrev reply_of : ReplyType → Reply
reply_of t = record { type = t; integer = pos 0; str = []; element = [] }

abbrev number : ℤ → Reply
number n = record { type = ReplyType.integer; integer = n; str = []; element = [] }

abbrev string_reply : Text → Reply
string_reply t = record { type = ReplyType.string; integer = pos 0; str = t; element = [] }

abbrev array_reply : List Element → Reply
array_reply es = record { type = ReplyType.array; integer = pos 0; str = []; element = es }

-- The entries, the last one first.
abbrev backwards : Map Text → Map Text
backwards [] = []
backwards ((k, v) ∷ m) = backwards m ++ (k, v) ∷ []

abbrev on_hash : (Map Text → Effect) → Value → Effect
on_hash f x = elim (as_hash x) [ none ↦ (reply_of ReplyType.error, x) | some m ↦ f m ]

abbrev on_list : (List Text → Effect) → Value → Effect
on_list f x = elim (as_list x) [ none ↦ (reply_of ReplyType.error, x) | some xs ↦ f xs ]

abbrev found_in : Option Text → Reply
found_in none = reply_of ReplyType.nil
found_in (some v) = string_reply v

abbrev popped : Value → List Text → Effect
popped x [] = (reply_of ReplyType.nil, x)
popped x (v ∷ xs) = (string_reply v, list_value xs)

abbrev got : Value → Effect
got absent = (reply_of ReplyType.nil, absent)
got (text_value t) = (string_reply t, text_value t)
got x = (reply_of ReplyType.error, x)

abbrev counted : (ℤ → ℤ) → Value → Effect
counted f absent = (number (f (pos 0)), text_value (to_string (f (pos 0))))
counted f (text_value t) = elim (stoll t) [
  | ok n ↦ (number (f n), text_value (to_string (f n)))
  | throw _ ↦ (reply_of ReplyType.error, text_value t)
]
counted f x = (reply_of ReplyType.error, x)

abbrev one_more : ℤ → ℤ
one_more (pos n) = pos (n + 1)
one_more (negsuc zero) = pos 0
one_more (negsuc (suc n)) = negsuc n

abbrev one_less : ℤ → ℤ
one_less (pos zero) = negsuc 0
one_less (pos (suc n)) = pos n
one_less (negsuc n) = negsuc (n + 1)

abbrev pub write : Text → Effect → Store → Option Reply × Store
write k (r, x) s = (some r, λ j. if text_eq k j then x else s j)

abbrev run_command : Command → Store → Option Reply × Store
run_command (hset k f v) s =
    write k (on_hash (λ m. (number (pos 1), hash_value (put f v m))) (s k)) s
run_command (hget k f) s = write k (on_hash (λ m. (found_in (find f m), s k)) (s k)) s
run_command (hmset k fields) s =
    write k (on_hash (λ m. (reply_of ReplyType.status, hash_value (enter fields m))) (s k)) s
run_command (hgetall k) s =
    write k (on_hash (λ m. (array_reply (flatten (backwards m)), s k)) (s k)) s
run_command (get k) s = write k (got (s k)) s
run_command (set k v) s = write k (reply_of ReplyType.status, text_value v) s
run_command (setex k seconds v) s =
    if ltb_ℤ (pos 0) seconds
    then write k (reply_of ReplyType.status, text_value v) s
    else (some (reply_of ReplyType.error), s)
run_command (del k) s = write k (number (pos 1), absent) s
run_command (incr k) s = write k (counted one_more (s k)) s
run_command (incrby k n) s = write k (counted one_less (s k)) s
run_command (rpush k v) s =
    write k (on_list (λ xs. (number (pos (length xs)), list_value (xs ++ v ∷ []))) (s k)) s
run_command (lpop k) s = write k (on_list (popped (s k)) (s k)) s
run_command (llen k) s = write k (on_list (λ xs. (number (pos (length xs)), s k)) (s k)) s
run_command _ s = (some (reply_of ReplyType.error), s)

abbrev pub sample : Server
sample = record { State = Store; command = run_command }

abbrev stored : Store → Store
stored s = s

pub ran_at :
    (cmd : Command) (k : Text) (e : Effect) (s : Store) (P : Reply → Value → Type 0)
    → run_command cmd s ≡ write k e s
    → P e.0 e.1
    → Ran sample stored cmd s k P
ran_at cmd k (r, x) s P e p = record {
  reply = r;
  state = λ j. if text_eq k j then x else s j;
  ran = e;
  described = subst (λ b. P r (if b then x else s k)) (sym (text_eq_refl k)) p;
  others = λ j apart. rw apart refl;
}

enter_last :
    (entries m : Map Text) (k v : Text)
    → enter (entries ++ (k, v) ∷ []) m ≡ put k v (enter entries m)
enter_last [] m k v = refl
enter_last ((j, w) ∷ entries) m k v = enter_last entries (put j w m) k v

pub find-backwards : (f : Text) (m : Map Text) → find f (enter (backwards m) []) ≡ find f m
unfolding find
find-backwards f [] = refl
find-backwards f ((k, v) ∷ m) =
    rw
      (enter_last (backwards m) [] k v, find-put k f v (enter (backwards m) []), find-backwards f m)
      refl

pub setex_ran :
    (k v : Text) (seconds : ℕ) (s : Store)
    → 0 < seconds
    → run_command (setex k (pos seconds) v) s ≡ write k (reply_of ReplyType.status, text_value v) s
setex_ran k v seconds s lt =
    let positive : ltb_ℤ (pos 0) (pos seconds) ≡ true = ground arith in rw positive refl

abbrev pub sample_laws : RedisLaws sample
sample_laws = record {
  view = stored;
  hset_law = λ k f v s m h. ran_at (hset k f v) k _ s _ refl (rw (h, on_hash) (refl, refl));
  hget_law =
      λ k f v s m h g. ran_at (hget k f) k _ s _ refl (rw (h, g, on_hash) (refl, refl, refl));
  hget_missing_law =
      λ k f s m h g. ran_at (hget k f) k _ s _ refl (rw (h, g, on_hash) (refl, refl));
  hmset_law = λ k fields s m h. ran_at (hmset k fields) k _ s _ refl (rw (h, on_hash) (refl, refl));
  hgetall_law = λ k s m h.
      ran_at (hgetall k) k _ s _ refl
        (rw (h, on_hash) (refl, (backwards m, refl, λ f. find-backwards f m), refl));
  setex_law = λ k v seconds s lt.
      ran_at (setex k (pos seconds) v) k (reply_of ReplyType.status, text_value v) s _
        (setex_ran k v seconds s lt) (refl, refl);
  get_law = λ k v s h. ran_at (get k) k _ s _ refl (rw h (refl, refl, refl));
  get_missing_law = λ k s h. ran_at (get k) k _ s _ refl (rw h (refl, refl));
  incr_law = λ k n s h lt.
      ran_at (incr k) k _ s _ refl
        (rw (h, counted, stoll-to_string (pos n) (omega arith)) (refl, refl));
  incr_missing_law = λ k s h. ran_at (incr k) k _ s _ refl (rw h (refl, refl));
  decr_law = λ k n s h lt.
      ran_at (incrby k (negsuc 0)) k _ s _ refl
        (rw (h, counted, stoll-to_string (pos (suc n)) (omega arith)) (refl, refl));
  rpush_law = λ k v s xs h. ran_at (rpush k v) k _ s _ refl (rw (h, on_list) (refl, refl));
  lpop_law = λ k v s xs h. ran_at (lpop k) k _ s _ refl (rw (h, on_list) (refl, refl, refl));
  lpop_empty_law = λ k s h. ran_at (lpop k) k _ s _ refl (rw (h, on_list) (refl, h));
  llen_law = λ k s xs h. ran_at (llen k) k _ s _ refl (rw (h, on_list) (refl, refl, refl));
}
