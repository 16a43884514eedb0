-- ===== src/Auth/Refresh/Holding.antt =====
-- What Redis holds of a session, before and after the commands of a rotation.
use text.Mathlib.TextPositions.{eq_refl}
use lite_mcp.Base.{
  ℕ, ◌<◌, String, true, false, Option, some, List, [], ◌∷◌, ◌&◌, ◌≡◌, ◌≢◌, ◌∙◌, refl, arith, eq_iff,
  is_nil, is_text, lookup,
}
use lite_mcp.Base.Text.{Lacks, split-dot}
use lite_mcp.Base.Exec.{ok, guard}
use lite_mcp.Platform.Python.{Stdlib, StdlibLaws}
use lite_mcp.Platform.Redis.{Redis, RedisLaws}
use lite_mcp.Auth.Refresh.{
  RefreshError, StoredSession, rotated_fields, parse_refresh_token, read_session,
}

-- A text that can stand on a side of the dot.
abbrev pub IsPiece : String → Type 0
IsPiece s = (s ≢ "") × Lacks b'.' s

pub parse-token :
    (a b : String) → IsPiece a → IsPiece b → parse_refresh_token (a & "." & b) ≡ some (a, b)
unfolding parse_refresh_token
parse-token a b (na, ha) (nb, hb) =
    rw (split-dot a b ha hb) (ground (arith, eq_iff a "", eq_iff b ""))

pub not-nil-of-lookup :
    (f v : String) (d : List (String × String)) → lookup f d ≡ some v → is_nil d ≡ false
unfolding lookup
not-nil-of-lookup f v [] h = cc
not-nil-of-lookup f v (x ∷ d) h = refl

pub guard-confirmed :
    {W : Type 0} (found : Option String) (hash : String) (e : RefreshError) (w : W)
    → found ≡ some hash
    → guard (is_text found hash) e w ≡ (ok tt, w)
guard-confirmed found hash e w h = rw (h, eq_refl hash)

module _ (py : Stdlib) (pyl : StdlibLaws py) (R : Redis) (laws : RedisLaws R) where
  open py use {sha256, isoformat, uuid_parse}
  open R use {State, exists, hgetall, hset, expire}

  -- The session that a key of Redis holds.
  pub record Holds (s : State) (key : String) (session : StoredSession) : Type 0 where
    pub there : exists s key ≡ true
    pub fields : is_nil (hgetall s key) ≡ false
    pub reads : read_session py (hgetall s key) ≡ some session

  read-hset :
      (s : State) (key hash : String) (last idle : ℕ) (session : StoredSession)
      → read_session py (hgetall s key) ≡ some session
      → read_session py (hgetall (hset s key (rotated_fields py hash last idle)) key)
        ≡ some (record session { stored_hash = hash; idle_expires_at = idle })
  unfolding read_session lookup rotated_fields
  read-hset s key hash last idle session h =
      let m = rotated_fields py hash last idle in
      ground (
        arith,
        eq_refl key,
        pyl.fromisoformat-isoformat idle,
        laws.hgetall-hset s key key "created_at" m,
        laws.hgetall-hset s key key "idle_expires_at" m,
        laws.hgetall-hset s key key "absolute_expires_at" m,
        laws.hgetall-hset s key key "current_secret_hash" m,
        laws.hgetall-hset s key key "user_id" m,
      )

  -- What is read back at once is the new hash.
  pub hash-hset :
      (s : State) (key hash : String) (last idle : ℕ)
      → lookup "current_secret_hash" (hgetall (hset s key (rotated_fields py hash last idle)) key)
        ≡ some hash
  unfolding lookup rotated_fields
  hash-hset s key hash last idle =
      let m = rotated_fields py hash last idle in
      ground (arith, eq_refl key, laws.hgetall-hset s key key "current_secret_hash" m)

  pub Holds-hset :
      (s : State) (key hash : String) (last idle : ℕ) (session : StoredSession)
      → Holds s key session
      → Holds
          (hset s key (rotated_fields py hash last idle))
          key
          (record session { stored_hash = hash; idle_expires_at = idle })
  Holds-hset s key hash last idle session h = record {
    there =
        ground (arith, eq_refl key, laws.exists-hset s key key (rotated_fields py hash last idle));
    fields = not-nil-of-lookup _ _ _ (hash-hset s key hash last idle);
    reads = read-hset s key hash last idle session h.reads;
  }

  pub Holds-expire :
      (s : State) (key : String) (n : ℕ) (session : StoredSession)
      → 0 < n
      → Holds s key session
      → Holds (expire s key n) key session
  Holds-expire s key n session p h = record {
    there = laws.exists-expire s key key n p ∙ h.there;
    fields = rw (laws.hgetall-expire s key key n p) h.fields;
    reads = rw (laws.hgetall-expire s key key n p) h.reads;
  }
