-- ===== src/Platform/Redis.antt =====
-- Redis as its clients use it. The server is not part of the repository: the commands are a record
-- of functions on its state, and the documented behaviour that the code relies on is a record of
-- laws. No command here stores a plain text under a key, and the laws are of states in which the keys
-- that `HSET` is used on hold hashes.
use lite_mcp.Base.{
  String, Bool, true, false, Option, some, List, [], ◌≡◌, ◌≢◌, ◌&&◌, ◌||◌, not, ◌==◌, member,
  lookup, or_else, if◌then◌else◌, ℕ, ◌<◌,
}
use lite_mcp.Base.Exec.{Result, err}

pub data RedisError : Type 0 where
  wrong_type : RedisError

pub record Redis : Type 1 where
  pub State : Type 0
  pub exists : State → String → Bool
  pub hgetall : State → String → List (String × String)
  pub hset : State → String → List (String × String) → State
  pub get : State → String → Result RedisError (Option String)
  pub expire : State → String → ℕ → State
  -- The seconds that `EXPIRE` last gave to a key, `none` for a key without an expiry.
  pub ttl : State → String → Option ℕ
  pub delete : State → String → State
  pub smembers : State → String → List String
  pub sadd : State → String → String → State
  pub srem : State → String → String → State

module _ (R : Redis) where
  open R use {State, exists, hgetall, hset, get, expire, ttl, delete, smembers, sadd, srem}

  pub record RedisLaws : Type 0 where
    -- Fields of a hash, after each command on a key.
    pub hgetall-hset :
        (s : State) (k j f : String) (m : List (String × String))
        → lookup f (hgetall (hset s k m) j) ≡ (
            if k == j
            then or_else (lookup f m) (lookup f (hgetall s j))
            else lookup f (hgetall s j))
    pub hgetall-expire :
        (s : State) (k j : String) (n : ℕ) → 0 < n → hgetall (expire s k n) j ≡ hgetall s j
    pub hgetall-delete :
        (s : State) (k j : String) → hgetall (delete s k) j ≡ (if k == j then [] else hgetall s j)
    pub hgetall-sadd : (s : State) (k j x : String) → k ≢ j → hgetall (sadd s k x) j ≡ hgetall s j
    pub hgetall-srem : (s : State) (k j x : String) → k ≢ j → hgetall (srem s k x) j ≡ hgetall s j
    -- Which keys there are.
    pub exists-hset :
        (s : State) (k j : String) (m : List (String × String))
        → exists (hset s k m) j ≡ (if k == j then true else exists s j)
    pub exists-expire :
        (s : State) (k j : String) (n : ℕ) → 0 < n → exists (expire s k n) j ≡ exists s j
    pub exists-delete :
        (s : State) (k j : String) → exists (delete s k) j ≡ (if k == j then false else exists s j)
    pub exists-sadd : (s : State) (k j x : String) → k ≢ j → exists (sadd s k x) j ≡ exists s j
    pub exists-srem : (s : State) (k j x : String) → k ≢ j → exists (srem s k x) j ≡ exists s j
    -- `GET` of a key that `HSET` created
    pub get-hset :
        (s : State) (k : String) (m : List (String × String))
        → exists s k ≡ false
        → get (hset s k m) k ≡ err wrong_type
    pub get-expire : (s : State) (k j : String) (n : ℕ) → 0 < n → get (expire s k n) j ≡ get s j
    pub get-sadd : (s : State) (k j x : String) → k ≢ j → get (sadd s k x) j ≡ get s j
    -- Expiries of keys.
    pub ttl-hset :
        (s : State) (k j : String) (m : List (String × String)) → ttl (hset s k m) j ≡ ttl s j
    pub ttl-expire :
        (s : State) (k j : String) (n : ℕ)
        → 0 < n
        → exists s k ≡ true
        → ttl (expire s k n) j ≡ (if k == j then some n else ttl s j)
    -- Members of a set.
    pub smembers-hset :
        (s : State) (k j : String) (m : List (String × String))
        → k ≢ j
        → smembers (hset s k m) j ≡ smembers s j
    pub smembers-expire :
        (s : State) (k j : String) (n : ℕ) → 0 < n → smembers (expire s k n) j ≡ smembers s j
    pub member-sadd :
        (s : State) (k j x y : String)
        → member y (smembers (sadd s k x) j) ≡ (k == j && x == y || member y (smembers s j))
    pub member-srem :
        (s : State) (k j x y : String)
        → member y (smembers (srem s k x) j) ≡ (not (k == j && x == y) && member y (smembers s j))
    pub smembers-delete :
        (s : State) (k j : String) → smembers (delete s k) j ≡ (if k == j then [] else smembers s j)
