-- ===== src/Redis/Laws.antt =====
-- What common/redis_client.cpp relies on of the Redis commands that the task store is built of, as
-- their documentation states it: each command with its reply and with what it does to the keys, for
-- a key that holds no value of another type, while nothing expires and no other client writes.
use my_taskflow_system.Common.{
  inr, text_eq_iff, subst, inl, Bool-cases, ℕ, suc, ◌+◌, ◌<◌, ◌^◌, ◌≡◌, false, Option, none, some,
  List, [], ◌∷◌, ◌++◌, Text, text_eq, length,
}
use my_taskflow_system.Common.Int.{pos, negsuc}
use my_taskflow_system.Common.Maps.{Map, find, put}
use my_taskflow_system.Common.Decimal.{to_string}
use my_taskflow_system.Redis.Server.{
  setex, Server, Command, Reply, ReplyType, Element, get, hset, hget, hmset, hgetall, incr, incrby,
  rpush, lpop, llen,
}

-- What a key holds.
pub data Value : Type 0 where
  absent : Value
  text_value : Text → Value
  list_value : List Text → Value
  hash_value : Map Text → Value

-- An absent key counts as an empty hash and as an empty list.
abbrev pub as_hash : Value → Option (Map Text)
as_hash absent = some []
as_hash (hash_value m) = some m
as_hash _ = none

abbrev pub as_list : Value → Option (List Text)
as_list absent = some []
as_list (list_value xs) = some xs
as_list _ = none

-- The entries put into a map one after the other.
abbrev pub enter : Map Text → Map Text → Map Text
enter [] m = m
enter ((k, v) ∷ entries) m = enter entries (put k v m)

abbrev pub string_element : Text → Element
string_element s = record { type = ReplyType.string; str = s }

abbrev pub flatten : Map Text → List Element
flatten [] = []
flatten ((k, v) ∷ m) = string_element k ∷ string_element v ∷ flatten m

module _ (S : Server) (view : S.State → Text → Value) where
  -- The command gets a reply of the type, leaves at the key a value as described, and changes no
  -- other key.
  pub record Ran (cmd : Command) (s : S.State) (k : Text) (P : Reply → Value → Type 0)
      : Type 0 where
    pub reply : Reply
    pub state : S.State
    pub ran : S.command cmd s ≡ (some reply, state)
    pub described : P reply (view state k)
    pub others : (j : Text) → text_eq k j ≡ false → view state j ≡ view s j

pub record RedisLaws (S : Server) : Type 0 where
  pub view : S.State → Text → Value
  pub hset_law :
      (k f v : Text) (s : S.State) (m : Map Text)
      → as_hash (view s k) ≡ some m
      → Ran S view
          (hset k f v)
          s
          k
          (λ r x. (r.type ≡ ReplyType.integer) × (x ≡ hash_value (put f v m)))
  pub hget_law :
      (k f v : Text) (s : S.State) (m : Map Text)
      → as_hash (view s k) ≡ some m
      → find f m ≡ some v
      → Ran S view
          (hget k f)
          s
          k
          (λ r x. (r.type ≡ ReplyType.string) × (r.str ≡ v) × (x ≡ view s k))
  pub hget_missing_law :
      (k f : Text) (s : S.State) (m : Map Text)
      → as_hash (view s k) ≡ some m
      → find f m ≡ none
      → Ran S view (hget k f) s k (λ r x. (r.type ≡ ReplyType.nil) × (x ≡ view s k))
  pub hmset_law :
      (k : Text) (fields : Map Text) (s : S.State) (m : Map Text)
      → as_hash (view s k) ≡ some m
      → Ran S view
          (hmset k fields)
          s
          k
          (λ r x. (r.type ≡ ReplyType.status) × (x ≡ hash_value (enter fields m)))
  pub hgetall_law :
      (k : Text) (s : S.State) (m : Map Text)
      → as_hash (view s k) ≡ some m
      → Ran S view (hgetall k) s k (λ r x.
        (r.type ≡ ReplyType.array)
        × ((entries : Map Text) × (r.element ≡ flatten entries)
            × ((f : Text) → find f (enter entries []) ≡ find f m))
        × (x ≡ view s k))
  -- SETEX refuses a time that is not positive.
  pub setex_law :
      (k v : Text) (seconds : ℕ) (s : S.State)
      → 0 < seconds
      → Ran S view
          (setex k (pos seconds) v)
          s
          k
          (λ r x. (r.type ≡ ReplyType.status) × (x ≡ text_value v))
  pub get_law :
      (k v : Text) (s : S.State)
      → view s k ≡ text_value v
      → Ran S view (get k) s k (λ r x. (r.type ≡ ReplyType.string) × (r.str ≡ v) × (x ≡ view s k))
  pub get_missing_law :
      (k : Text) (s : S.State)
      → view s k ≡ absent
      → Ran S view (get k) s k (λ r x. (r.type ≡ ReplyType.nil) × (x ≡ absent))
  pub incr_law :
      (k : Text) (n : ℕ) (s : S.State)
      → view s k ≡ text_value (to_string (pos n))
      → n + 1 < 2 ^ 63
      → Ran S view
          (incr k)
          s
          k
          (λ r x. (r.type ≡ ReplyType.integer) × (x ≡ text_value (to_string (pos (n + 1)))))
  pub incr_missing_law :
      (k : Text) (s : S.State)
      → view s k ≡ absent
      → Ran S view
          (incr k)
          s
          k
          (λ r x. (r.type ≡ ReplyType.integer) × (x ≡ text_value (to_string (pos 1))))
  pub decr_law :
      (k : Text) (n : ℕ) (s : S.State)
      → view s k ≡ text_value (to_string (pos (suc n)))
      → suc n < 2 ^ 63
      → Ran S view
          (incrby k (negsuc 0))
          s
          k
          (λ r x. (r.type ≡ ReplyType.integer) × (x ≡ text_value (to_string (pos n))))
  pub rpush_law :
      (k v : Text) (s : S.State) (xs : List Text)
      → as_list (view s k) ≡ some xs
      → Ran S view
          (rpush k v)
          s
          k
          (λ r x. (r.type ≡ ReplyType.integer) × (as_list x ≡ some (xs ++ v ∷ [])))
  pub lpop_law :
      (k v : Text) (s : S.State) (xs : List Text)
      → as_list (view s k) ≡ some (v ∷ xs)
      → Ran S view
          (lpop k)
          s
          k
          (λ r x. (r.type ≡ ReplyType.string) × (r.str ≡ v) × (as_list x ≡ some xs))
  pub lpop_empty_law :
      (k : Text) (s : S.State)
      → as_list (view s k) ≡ some []
      → Ran S view (lpop k) s k (λ r x. (r.type ≡ ReplyType.nil) × (as_list x ≡ some []))
  pub llen_law :
      (k : Text) (s : S.State) (xs : List Text)
      → as_list (view s k) ≡ some xs
      → Ran S view
          (llen k)
          s
          k
          (λ r x. (r.type ≡ ReplyType.integer) × (r.integer ≡ pos (length xs)) × (x ≡ view s k))

-- A key that is as it was, when no other key has changed.
pub same_everywhere :
    (S : Server) (laws : RedisLaws S) (k : Text) (s s' : S.State)
    → laws.view s' k ≡ laws.view s k
    → ((j : Text) → text_eq k j ≡ false → laws.view s' j ≡ laws.view s j)
    → (j : Text) → laws.view s' j ≡ laws.view s j
same_everywhere S laws k s s' here others j = elim (Bool-cases (text_eq k j)) [
  | inl same ↦ subst (λ i. laws.view s' i ≡ laws.view s i) ((text_eq_iff k j).0 same) here
  | inr other ↦ others j other
]
