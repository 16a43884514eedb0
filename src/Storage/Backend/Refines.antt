-- ===== src/Storage/Backend/Refines.antt =====
-- The backend is a map from keys to payloads: every sequence of calls is one of the abstract map.
use lite_mcp.Base.{
  String, Option, none, some, List, [], ◌∷◌, ◌≡◌, ◌≢◌, inl, inr, ◌∙◌, refl, ap, Option-cases,
}
use lite_mcp.Base.Exec.{Result, ok, err, Result-cases}
use lite_mcp.Storage.{StorageError, FsError, raised, key_of}
use lite_mcp.Storage.Backend.{FileSystem, put, get, delete, named}

-- A key that the validation gives for some text.
abbrev pub IsKey : String → Type 0
IsKey key = (object_key : String) × (key_of object_key ≡ ok key)

abbrev payload_of : {E A : Type 0} → Result E A → Option A
payload_of (ok b) = some b
payload_of (err e) = none

module _ (fs : FileSystem) where
  open fs use {FilePath, Bytes, Disk, join, make_parent, write_bytes, read_bytes, unlink, digest}

  -- What a file holds, if it can be read.
  abbrev pub content : Disk → FilePath → Option Bytes
  content s p = payload_of (read_bytes p s)

  -- A file system of files that are not links: a call changes the file that it names, and no other.
  pub record FileLaws (root : FilePath) : Type 0 where
    pub distinct : (a b : String) → IsKey a → IsKey b → a ≢ b → join root a ≢ join root b
    pub make_parent_keeps :
        (p q : FilePath) (s : Disk) → content (make_parent p s).1 q ≡ content s q
    pub write_stores :
        (p : FilePath) (b : Bytes) (s : Disk)
        → (write_bytes p b s).0 ≡ none
        → content (write_bytes p b s).1 p ≡ some b
    pub write_keeps :
        (p q : FilePath) (b : Bytes) (s : Disk)
        → p ≢ q
        → content (write_bytes p b s).1 q ≡ content s q
    pub unlink_removes :
        (p : FilePath) (s : Disk) → (unlink p s).0 ≡ none → content (unlink p s).1 p ≡ none
    pub unlink_keeps : (p q : FilePath) (s : Disk) → p ≢ q → content (unlink p s).1 q ≡ content s q
    pub unlink_raises :
        (p q : FilePath) (s : Disk) (e : FsError)
        → (unlink p s).0 ≡ some e
        → content (unlink p s).1 q ≡ content s q

  pub data Op : Type 0 where
    to_put : String → Bytes → Op
    to_get to_delete : String → Op

  pub data Value : Type 0 where
    digest_of : String → Value
    payload : Bytes → Value
    nothing : Value

  abbrev Map : Type 0
  Map = String → Option Bytes

  abbrev pub Answer : Type 0
  Answer = Result StorageError Value

  abbrev KeepsAll : Map → Map → Type 0
  KeepsAll m m' = (q : String) → IsKey q → m' q ≡ m q

  abbrev KeepsOthers : String → Map → Map → Type 0
  KeepsOthers key m m' = (q : String) → IsKey q → key ≢ q → m' q ≡ m q

  abbrev key_in : Op → String
  key_in (to_put o b) = o
  key_in (to_get o) = o
  key_in (to_delete o) = o

  -- The abstract map, one call at a time: a call whose key is refused, and one that raises, change
  -- nothing, but for the payload of the key of a `put` that raises.
  pub data Step : Map → Op → Answer → Map → Type 0 where
    refused :
        {m m' : Map} (op : Op) (e : StorageError)
        → key_of (key_in op) ≡ err e
        → KeepsAll m m'
        → Step m op (err e) m'
    stored :
        {m m' : Map} (o key : String) (b : Bytes)
        → key_of o ≡ ok key
        → m' key ≡ some b
        → KeepsOthers key m m'
        → Step m (to_put o b) (ok (digest_of (digest b))) m'
    not_stored :
        {m m' : Map} (o key : String) (b : Bytes) (e : StorageError)
        → key_of o ≡ ok key
        → KeepsOthers key m m'
        → Step m (to_put o b) (err e) m'
    found :
        {m m' : Map} (o key : String) (b : Bytes)
        → key_of o ≡ ok key
        → m key ≡ some b
        → KeepsAll m m'
        → Step m (to_get o) (ok (payload b)) m'
    missing :
        {m m' : Map} (o key : String) (e : StorageError)
        → key_of o ≡ ok key
        → m key ≡ none
        → KeepsAll m m'
        → Step m (to_get o) (err e) m'
    deleted :
        {m m' : Map} (o key : String)
        → key_of o ≡ ok key
        → m' key ≡ none
        → KeepsOthers key m m'
        → Step m (to_delete o) (ok nothing) m'
    not_deleted :
        {m m' : Map} (o key : String) (e : StorageError)
        → key_of o ≡ ok key
        → KeepsAll m m'
        → Step m (to_delete o) (err e) m'

  pub data Steps : Map → List Op → List Answer → Map → Type 0 where
    done : {m : Map} → Steps m [] [] m
    next :
        {m m' m'' : Map} {op : Op} {a : Answer} {ops : List Op} {answers : List Answer}
        → Step m op a m'
        → Steps m' ops answers m''
        → Steps m (op ∷ ops) (a ∷ answers) m''

  module _ (root : FilePath) where
    abbrev answer : {A : Type 0} → (A → Value) → Result StorageError A × Disk → Answer × Disk
    answer f (ok a, s) = (ok (f a), s)
    answer f (err e, s) = (err e, s)

    abbrev call : Op → Disk → Answer × Disk
    call (to_put o b) s = answer digest_of (put fs root o b s)
    call (to_get o) s = answer payload (get fs root o s)
    call (to_delete o) s = answer (λ _. nothing) (delete fs root o s)

    -- Calls after one another: what each gave, and the disk after them.
    pub calls : List Op → Disk → List Answer × Disk
    calls [] s = ([], s)
    calls (op ∷ ops) s =
        (let (a, s1) = call op s in let (answers, s2) = calls ops s1 in (a ∷ answers, s2))

    -- The map that a disk is.
    abbrev pub view : Disk → Map
    view s key = content s (join root key)

    module _ (laws : FileLaws root) where
      apart :
          (o key q : String) → key_of o ≡ ok key → IsKey q → key ≢ q → join root key ≢ join root q
      apart o key q h k ne = laws.distinct key q (o, h) k ne

      put-Step :
          (o : String) (b : Bytes) (s : Disk) (r : Result StorageError String)
          → key_of o ≡ r
          → Step (view s) (to_put o b) (call (to_put o b) s).0 (view (call (to_put o b) s).1)
      unfolding put
      put-Step o b s (err e) h = rw h (refused (to_put o b) e h (λ q _. refl))
      put-Step o b s (ok key) h =
          let p = join root key in
          let parent = make_parent p s in
          elim (Option-cases parent.0) [
            | inr (e, made) ↦
                rw (h, made)
                  (not_stored o key b (raised e) h (λ q _ _. laws.make_parent_keeps p _ s))
            | inl made ↦ elim (Option-cases (write_bytes p b parent.1).0) [
              | inl written ↦
                  rw (h, made, written)
                    (stored o key b h (laws.write_stores p b parent.1 written) (λ q k ne.
                      laws.write_keeps p (join root q) b parent.1 (apart o key q h k ne)
                      ∙ laws.make_parent_keeps p (join root q) s))
              | inr (e, written) ↦
                  rw (h, made, written)
                    (not_stored o key b (raised e) h (λ q k ne.
                      laws.write_keeps p (join root q) b parent.1 (apart o key q h k ne)
                      ∙ laws.make_parent_keeps p (join root q) s))
            ]
          ]

      get-Step :
          (o : String) (s : Disk) (r : Result StorageError String)
          → key_of o ≡ r
          → Step (view s) (to_get o) (call (to_get o) s).0 (view (call (to_get o) s).1)
      unfolding get
      get-Step o s (err e) h = rw h (refused (to_get o) e h (λ q _. refl))
      get-Step o s (ok key) h = elim (Result-cases (read_bytes (join root key) s)) [
        | inl (b, e) ↦ rw (h, e) (found o key b h (ap payload_of e) (λ q _. refl))
        | inr (e, f) ↦
            rw (h, f) (missing o key (named fs root key e) h (ap payload_of f) (λ q _. refl))
      ]

      delete-Step :
          (o : String) (s : Disk) (r : Result StorageError String)
          → key_of o ≡ r
          → Step (view s) (to_delete o) (call (to_delete o) s).0 (view (call (to_delete o) s).1)
      unfolding delete
      delete-Step o s (err e) h = rw h (refused (to_delete o) e h (λ q _. refl))
      delete-Step o s (ok key) h =
          let p = join root key in
          elim (Option-cases (unlink p s).0) [
            | inl gone ↦
                rw (h, gone)
                  (deleted o key h (laws.unlink_removes p s gone)
                    (λ q k ne. laws.unlink_keeps p (join root q) s (apart o key q h k ne)))
            | inr (e, kept) ↦
                rw (h, kept)
                  (not_deleted o key (named fs root key e) h
                    (λ q _. laws.unlink_raises p (join root q) s e kept))
          ]

      call-Step : (op : Op) (s : Disk) → Step (view s) op (call op s).0 (view (call op s).1)
      call-Step (to_put o b) s = put-Step o b s (key_of o) refl
      call-Step (to_get o) s = get-Step o s (key_of o) refl
      call-Step (to_delete o) s = delete-Step o s (key_of o) refl

      -- Every sequence of calls of the backend, with its results, is one of the abstract map, from the
      -- map that the disk is before the calls to the one that it is after them.
      pub calls-Steps :
          (ops : List Op) (s : Disk) → Steps (view s) ops (calls ops s).0 (view (calls ops s).1)
      unfolding calls
      calls-Steps [] s = done
      calls-Steps (op ∷ ops) s = next (call-Step op s) (calls-Steps ops (call op s).1)
