-- ===== src/Auth/AccessJwt/Wire.antt =====
-- How a token carries its header and its claims, apart from the code that reads them: segments of
-- base64url without padding, each with a JSON object that names nothing twice, and the keys that a
-- key id stands for.
use lite_mcp.Base.{
  ℕ, ◌+◌, ◌-◌, ◌%◌, ◌<◌, String, Bool, true, false, Option, some, List, [], ◌∷◌, ◌≡◌, ◌≢◌, ◌⊎◌, inl,
  inr, ◌∙◌, sym, ap, refl, arith, ◌&◌, ◌&&◌, ◌==◌, not, eq_iff, eq_refl, lookup, IsIn, Bool-cases,
  if◌then◌else◌,
}
use lite_mcp.Base.Length.{len}
use lite_mcp.Base.Text.{split}
use lite_mcp.Base.Checks.{>>=-eq-ok, or_raise-eq-ok, or_raise-last, require-eq-ok}
use lite_mcp.Base.Exec.{Result, ok}
use lite_mcp.Platform.Python.{Stdlib}
use lite_mcp.Platform.Jwt.{
  Json, Items, Members, null, bool, int, float, text, array, object, nil, item, end, field, Jwt,
}
use lite_mcp.Config.{Settings}
use lite_mcp.Db.User.{User}
use lite_mcp.Auth.AccessJwt.{
  AccessJwtError, invalid_token, equals_signs, padded, has_key, unique_keys, unique_items,
  unique_members, entries, as_object, load_segment, three_parts, parse_header_and_payload,
  verification_keyring,
}

-- The names of an object, in order.
unfoldable pub names : Members → List String
names end = []
names (field k v ms) = k ∷ names ms

unfoldable pub AllDifferent : List String → Type 0
AllDifferent [] = Unit
AllDifferent (x ∷ xs) = ¬ IsIn x xs × AllDifferent xs

-- In no object of a tree do two members have the same name.
unfoldable mutual
  pub HasDistinctNames : Json → Type 0
  HasDistinctNames (array xs) = EachDistinct xs
  HasDistinctNames (object ms) = AllDifferent (names ms) × ValuesDistinct ms
  HasDistinctNames null = Unit
  HasDistinctNames (bool b) = Unit
  HasDistinctNames (int n) = Unit
  HasDistinctNames (float s) = Unit
  HasDistinctNames (text s) = Unit

  pub EachDistinct : Items → Type 0
  EachDistinct nil = Unit
  EachDistinct (item x xs) = HasDistinctNames x × EachDistinct xs

  pub ValuesDistinct : Members → Type 0
  ValuesDistinct end = Unit
  ValuesDistinct (field k v ms) = HasDistinctNames v × ValuesDistinct ms

and_parts : (a b : Bool) → (a && b) ≡ true → (a ≡ true) × (b ≡ true)
and_parts a b h = ground arith

other_key : (b r : Bool) → b ≡ false → (if b then true else r) ≡ true → r ≡ true
other_key true r e h = cc
other_key false r e h = h

has_key-IsIn : (k : String) (ms : Members) → has_key k ms ≡ true → IsIn k (names ms)
unfolding has_key names
has_key-IsIn k end h = absurd cc
has_key-IsIn k (field l v ms) h = elim (Bool-cases (l == k)) [
  | inl e ↦ inl ((eq_iff l k).0 e)
  | inr e ↦ inr (has_key-IsIn k ms (other_key (l == k) (has_key k ms) e h))
]

IsIn-has_key : (k : String) (ms : Members) → IsIn k (names ms) → has_key k ms ≡ true
unfolding has_key names
IsIn-has_key k end i = absurd i
IsIn-has_key k (field l v ms) (inl e) = ground (arith, eq_iff l k)
IsIn-has_key k (field l v ms) (inr i) = ground (arith, IsIn-has_key k ms i)

lacks_key : (k : String) (ms : Members) → not (has_key k ms) ≡ true → ¬ IsIn k (names ms)
lacks_key k ms h i = let e = IsIn-has_key k ms i in absurd (ground arith)

key_lacked : (k : String) (ms : Members) → ¬ IsIn k (names ms) → not (has_key k ms) ≡ true
key_lacked k ms h = elim (Bool-cases (has_key k ms)) [
  | inl e ↦ absurd (h (has_key-IsIn k ms e))
  | inr e ↦ rw e refl
]

mutual
  unfolding unique_keys names AllDifferent HasDistinctNames

  pub distinct : (v : Json) → unique_keys v ≡ true → HasDistinctNames v
  distinct (array xs) h = distinct_items xs h
  distinct (object ms) h = distinct_members ms h
  distinct null h = tt
  distinct (bool b) h = tt
  distinct (int n) h = tt
  distinct (float s) h = tt
  distinct (text s) h = tt

  distinct_items : (xs : Items) → unique_items xs ≡ true → EachDistinct xs
  distinct_items nil h = tt
  distinct_items (item x xs) h =
      let (a, b) = and_parts (unique_keys x) (unique_items xs) h in
      (distinct x a, distinct_items xs b)

  distinct_members :
      (ms : Members) → unique_members ms ≡ true → AllDifferent (names ms) × ValuesDistinct ms
  distinct_members end h = (tt, tt)
  distinct_members (field k v ms) h =
      let (ab, c) = and_parts (not (has_key k ms) && unique_keys v) (unique_members ms) h in
      let (a, b) = and_parts (not (has_key k ms)) (unique_keys v) ab in
      let (different, values) = distinct_members ms c in
      ((lacks_key k ms a, different), (distinct v b, values))

mutual
  unfolding unique_keys names AllDifferent HasDistinctNames

  pub unique : (v : Json) → HasDistinctNames v → unique_keys v ≡ true
  unique (array xs) h = unique_in_items xs h
  unique (object ms) (a, b) = unique_in_members ms a b
  unique null h = refl
  unique (bool b) h = refl
  unique (int n) h = refl
  unique (float s) h = refl
  unique (text s) h = refl

  unique_in_items : (xs : Items) → EachDistinct xs → unique_items xs ≡ true
  unique_in_items nil h = refl
  unique_in_items (item x xs) (a, b) = rw (unique x a, unique_in_items xs b) refl

  unique_in_members :
      (ms : Members) → AllDifferent (names ms) → ValuesDistinct ms → unique_members ms ≡ true
  unique_in_members end a b = refl
  unique_in_members (field k v ms) (n, a) (x, b) =
      rw (key_lacked k ms n, unique v x, unique_in_members ms a b) refl

-- A segment with the members of an object: padded to a multiple of four characters it is the base64
-- of a JSON object without two members of one name.
pub record IsSegment (j : Jwt) (segment : String) (members : List (String × Json)) : Type 0 where
  pub signs : ℕ
  pub few : signs < 4
  pub whole : (len segment + signs) % 4 ≡ 0
  pub raw : List ℕ
  pub decoded : j.urlsafe_b64decode (segment & equals_signs signs) ≡ some raw
  pub tree : Members
  pub parsed : j.json_loads raw ≡ some (object tree)
  pub different : HasDistinctNames (object tree)
  pub read : members ≡ entries tree

object_of :
    (v : Json) (members : List (String × Json))
    → as_object v ≡ some members
    → (tree : Members) × (v ≡ object tree) × (members ≡ entries tree)
object_of (object ms) members h = (ms, refl, cc)
object_of (array xs) members h = absurd cc
object_of null members h = absurd cc
object_of (bool b) members h = absurd cc
object_of (int n) members h = absurd cc
object_of (float s) members h = absurd cc
object_of (text s) members h = absurd cc

pair-eq :
    {A : Type 0} (x y a b : A)
    → ◌≡◌ {A = Result AccessJwtError (A × A)} (ok (x, y)) (ok (a, b))
    → (x ≡ a) × (y ≡ b)
pair-eq x y a b h = (cc, cc)

signs_of : (n s : ℕ) → s < 4 → (n + s) % 4 ≡ 0 → s ≡ (4 - n % 4) % 4
signs_of n s a b = omega arith

module _ (py : Stdlib) (j : Jwt) (settings : Settings) (load_user : ℕ → Option (Option User)) where
  pub load_segment-IsSegment :
      (segment : String) (members : List (String × Json))
      → load_segment py j settings load_user segment ≡ ok members
      → IsSegment j segment members
  unfolding load_segment
  load_segment-IsSegment segment members h =
      let (raw, decoded, h₁) =
        or_raise-eq-ok (j.urlsafe_b64decode (padded segment)) invalid_token _ members h in
      let (v, loaded, h₂) = or_raise-eq-ok (j.json_loads raw) invalid_token _ members h₁ in
      let (u, h₃) = require-eq-ok (unique_keys v) invalid_token _ members h₂ in
      let (tree, same, read) =
        object_of v members (or_raise-last (as_object v) invalid_token members h₃) in
      record {
        signs = (4 - len segment % 4) % 4;
        few = omega arith;
        whole = omega arith;
        raw = raw;
        decoded = decoded;
        tree = tree;
        parsed = loaded ∙ ap some same;
        different = distinct (object tree) (sym (ap unique_keys same) ∙ u);
        read = read;
      }

  pub to_segment :
      (segment : String) (members : List (String × Json))
      → IsSegment j segment members
      → load_segment py j settings load_user segment ≡ ok members
  unfolding load_segment
  to_segment segment members s =
      rw
        (
          sym (signs_of (len segment) s.signs s.few s.whole),
          s.decoded,
          s.parsed,
          unique (object s.tree) s.different,
        )
        (ap ok (sym s.read))

  -- A token of three segments, of which the first two have a header and a payload.
  pub record IsToken (token : String) (header payload : List (String × Json)) : Type 0 where
    pub first : String
    pub second : String
    pub third : String
    pub pieces : split b'.' token ≡ first ∷ second ∷ third ∷ []
    pub header_read : IsSegment j first header
    pub payload_read : IsSegment j second payload

  of_pieces :
      (pieces : List String) (token : String) (header payload : List (String × Json))
      → split b'.' token ≡ pieces
      → three_parts py j settings load_user pieces ≡ ok (header, payload)
      → IsToken token header payload
  of_pieces [] token header payload e h = absurd cc
  of_pieces (a ∷ []) token header payload e h = absurd cc
  of_pieces (a ∷ b ∷ []) token header payload e h = absurd cc
  of_pieces (a ∷ b ∷ c ∷ d ∷ r) token header payload e h = absurd cc
  of_pieces (a ∷ b ∷ c ∷ []) token header payload e h =
      let (x, hx, h₁) = >>=-eq-ok (load_segment py j settings load_user a) _ (header, payload) h in
      let (y, hy, h₂) = >>=-eq-ok (load_segment py j settings load_user b) _ (header, payload) h₁ in
      let (p, q) = pair-eq x y header payload h₂ in
      record {
        first = a;
        second = b;
        third = c;
        pieces = e;
        header_read = load_segment-IsSegment a header (hx ∙ ap ok p);
        payload_read = load_segment-IsSegment b payload (hy ∙ ap ok q);
      }

  pub of_parts :
      (token : String) (header payload : List (String × Json))
      → parse_header_and_payload py j settings load_user token ≡ ok (header, payload)
      → IsToken token header payload
  unfolding parse_header_and_payload
  of_parts token header payload h = of_pieces (split b'.' token) token header payload refl h

  pub to_parts :
      (token : String) (header payload : List (String × Json))
      → IsToken token header payload
      → parse_header_and_payload py j settings load_user token ≡ ok (header, payload)
  unfolding parse_header_and_payload
  to_parts token header payload t =
      rw
        (
          t.pieces,
          to_segment t.first header t.header_read,
          to_segment t.second payload t.payload_read,
        )
        refl

found_first :
    (b : Bool) (u v : String) (r : Option String)
    → b ≡ true
    → (if b then some u else r) ≡ some v
    → u ≡ v
found_first true u v r e h = cc
found_first false u v r e h = cc

found_later :
    (b : Bool) (u v : String) (r : Option String)
    → b ≡ false
    → (if b then some u else r) ≡ some v
    → r ≡ some v
found_later true u v r e h = cc
found_later false u v r e h = h

-- The secret of a key id: the current one, or that of a previous key under another id.
abbrev pub IsKey : Settings → String → String → Type 0
IsKey settings kid secret =
    ((kid ≡ settings.admin_jwt_kid) × (secret ≡ settings.admin_jwt_secret))
    ⊎ ((kid ≢ settings.admin_jwt_kid) × (lookup kid settings.admin_jwt_previous_keys ≡ some secret))

module _ (py : Stdlib) (j : Jwt) (settings : Settings) (load_user : ℕ → Option (Option User)) where
  pub of_keyring :
      (kid secret : String)
      → lookup kid (verification_keyring py j settings load_user) ≡ some secret
      → IsKey settings kid secret
  unfolding lookup
  of_keyring kid secret h = elim (Bool-cases (settings.admin_jwt_kid == kid)) [
    | inl e ↦ inl (
      sym ((eq_iff settings.admin_jwt_kid kid).0 e),
      sym (found_first _ settings.admin_jwt_secret secret _ e h),
    )
    | inr e ↦ inr (
      λ q. ground (arith, eq_iff settings.admin_jwt_kid kid),
      found_later _ settings.admin_jwt_secret secret _ e h,
    )
  ]

  pub to_keyring :
      (kid secret : String)
      → IsKey settings kid secret
      → lookup kid (verification_keyring py j settings load_user) ≡ some secret
  unfolding lookup
  to_keyring kid secret (inl (a, b)) = rw (a, eq_refl settings.admin_jwt_kid) (ap some (sym b))
  to_keyring kid secret (inr (a, b)) = ground (arith, eq_iff settings.admin_jwt_kid kid)
