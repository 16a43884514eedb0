-- ===== src/Storage/Backend.antt =====
-- The class of backend/src/litemcp/storage.py. The file system and SHA-256 are parameters; a call on
-- the file system that raises comes back with the state it leaves.
pub mod Refines
use lite_mcp.Base.{String, Option, none, some}
use lite_mcp.Base.Exec.{Result, ok, err, Exec, ◌>>=◌, ◌>>◌, lift, pure}
use lite_mcp.Storage.{FsError, file_not_found, os_error, StorageError, not_found, raised, key_of}

pub record FileSystem : Type 1 where
  pub FilePath : Type 0
  pub Bytes : Type 0
  pub Disk : Type 0
  -- `root / key`
  pub join : FilePath → String → FilePath
  -- `path.parent.mkdir(parents=True, exist_ok=True)`
  pub make_parent : FilePath → Disk → Option FsError × Disk
  pub write_bytes : FilePath → Bytes → Disk → Option FsError × Disk
  pub read_bytes : FilePath → Disk → Result FsError Bytes
  pub unlink : FilePath → Disk → Option FsError × Disk
  -- `hashlib.sha256(payload).hexdigest()`
  pub digest : Bytes → String

module _ (fs : FileSystem) (root : fs.FilePath) where
  open fs use {FilePath, Bytes, Disk, join, make_parent, write_bytes, read_bytes, unlink, digest}

  abbrev Act : Type 0 → Type 0
  Act A = Exec Disk StorageError A

  -- A call that may raise.
  abbrev run_call : (Disk → Option FsError × Disk) → Act (Unit {0})
  run_call call s = let (e, s') = call s in (elim e [ none ↦ ok tt | some e ↦ err (raised e) ], s')

  -- `except FileNotFoundError as exc: raise FileNotFoundError(key) from exc`
  abbrev named : String → FsError → StorageError
  named key file_not_found = not_found key
  named key os_error = raised os_error

  abbrev run_named : String → (Disk → Option FsError × Disk) → Act (Unit {0})
  run_named key call s =
      let (e, s') = call s in (elim e [ none ↦ ok tt | some e ↦ err (named key e) ], s')

  abbrev payload_or : String → Result FsError Bytes → Result StorageError Bytes
  payload_or key (ok payload) = ok payload
  payload_or key (err e) = err (named key e)

  pub put : String → Bytes → Act String
  put object_key payload = do
    key ← lift (key_of object_key)
    run_call (make_parent (join root key))
    run_call (write_bytes (join root key) payload)
    pure (digest payload)

  pub get : String → Act Bytes
  get object_key = do
    key ← lift (key_of object_key)
    λ s. (payload_or key (read_bytes (join root key) s), s)

  pub delete : String → Act (Unit {0})
  delete object_key = do key ← lift (key_of object_key); run_named key (unlink (join root key))
