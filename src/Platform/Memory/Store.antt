-- ===== src/Platform/Memory/Store.antt =====
-- A Redis of hashes and sets, as functions of the key.
use text.Mathlib.TextPositions.{eq_refl}
use lite_mcp.Base.{
  ℕ, String, true, Option, none, some, List, [], ◌∷◌, ◌++◌, ◌≡◌, refl, arith, eq_iff, member,
  lookup, or_else, not, ◌&&◌, ◌==◌, is_none, if◌then◌else◌, Bool-cases, inl, inr,
}
use lite_mcp.Base.Exec.{Result, ok, err}
use lite_mcp.Platform.Redis.{RedisError, wrong_type, Redis, RedisLaws}

pub record Keys : Type 0 where
  pub hash : String → Option (List (String × String))
  pub set : String → List String
  pub ttl : String → Option ℕ

abbrev pairs : Option (List (String × String)) → List (String × String)
pairs none = []
pairs (some m) = m

abbrev text_at : Option (List (String × String)) → Result RedisError (Option String)
text_at none = ok none
text_at (some m) = err wrong_type

unfoldable pub without : String → List String → List String
without x [] = []
without x (y ∷ ys) = let rest = without x ys in if x == y then rest else y ∷ rest

abbrev pub memory_redis : Redis
memory_redis = record {
  State = Keys;
  exists = λ s k. not (is_none (s.hash k));
  hgetall = λ s k. pairs (s.hash k);
  hset =
      λ s k m. record s { hash = λ j. if k == j then some (m ++ pairs (s.hash j)) else s.hash j };
  get = λ s k. text_at (s.hash k);
  expire = λ s k n. record s {
    ttl = λ j. if is_none (s.hash k) then s.ttl j else if k == j then some n else s.ttl j;
  };
  ttl = λ s k. s.ttl k;
  delete = λ s k. record {
    hash = λ j. if k == j then none else s.hash j;
    set = λ j. if k == j then [] else s.set j;
    ttl = λ j. if k == j then none else s.ttl j;
  };
  smembers = λ s k. s.set k;
  sadd = λ s k x. record s { set = λ j. if k == j then x ∷ s.set j else s.set j };
  srem = λ s k x. record s { set = λ j. if k == j then without x (s.set j) else s.set j };
}

lookup-append :
    (f : String) (m d : List (String × String))
    → lookup f (m ++ d) ≡ or_else (lookup f m) (lookup f d)
unfolding lookup
lookup-append f [] d = refl
lookup-append f ((j, v) ∷ m) d = ground (arith, lookup-append f m d)

member-without :
    (x y : String) (ys : List String) → member y (without x ys) ≡ (not (x == y) && member y ys)
unfolding member without
member-without x y [] = ground arith
member-without x y (z ∷ ys) =
    ground (arith, member-without x y ys, eq_iff x z, eq_iff x y, eq_iff z y)

-- The value of a key after a command, by whether it is the command's key.
module _ (k j : String) where
  field-if :
      (f : String) (m : List (String × String)) (h : Option (List (String × String)))
      → lookup f (pairs (if k == j then some (m ++ pairs h) else h))
        ≡ (if k == j then or_else (lookup f m) (lookup f (pairs h)) else lookup f (pairs h))
  field-if f m h = elim (Bool-cases (k == j)) [
    | inl e ↦ rw e (lookup-append f m (pairs h))
    | inr e ↦ rw e refl
  ]

  member-if :
      (x y : String) (ys : List String)
      → member y (if k == j then without x ys else ys) ≡ (not (k == j && x == y) && member y ys)
  member-if x y ys = elim (Bool-cases (k == j)) [
    | inl e ↦ rw e (member-without x y ys)
    | inr e ↦ rw e refl
  ]

if_there :
    (s : Keys) (k j : String) (n : ℕ)
    → not (is_none (s.hash k)) ≡ true
    → (if is_none (s.hash k) then s.ttl j else if k == j then some n else s.ttl j)
      ≡ (if k == j then some n else s.ttl j)
if_there s k j n h = ground arith

pub memory_redis-laws : RedisLaws memory_redis
unfolding member
memory_redis-laws = record {
  hgetall-hset = λ s k j f m. field-if k j f m (s.hash j);
  hgetall-expire = λ s k j n p. refl;
  hgetall-delete = λ s k j. ground arith;
  hgetall-sadd = λ s k j x ne. refl;
  hgetall-srem = λ s k j x ne. refl;
  exists-hset = λ s k j m. ground arith;
  exists-expire = λ s k j n p. refl;
  exists-delete = λ s k j. ground arith;
  exists-sadd = λ s k j x ne. refl;
  exists-srem = λ s k j x ne. refl;
  get-hset = λ s k m fresh. rw (eq_refl k) refl;
  get-expire = λ s k j n p. refl;
  get-sadd = λ s k j x ne. refl;
  ttl-hset = λ s k j m. refl;
  ttl-expire = λ s k j n p there. if_there s k j n there;
  smembers-hset = λ s k j m ne. refl;
  smembers-expire = λ s k j n p. refl;
  member-sadd = λ s k j x y. ground arith;
  member-srem = λ s k j x y. member-if k j x y (s.set j);
  smembers-delete = λ s k j. refl;
}
