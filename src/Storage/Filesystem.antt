-- ===== src/Storage/Filesystem.antt =====
-- backend/lexmind/storage/filesystem.py, over a disk that is a parameter: `pathlib.Path` and `shutil`
-- on texts of absolute paths. The disk
-- tells the time. `walk` and `open` are left out, and what the disk itself raises.
pub mod Guard
use lex_mind.Storage.Manager.{StorageStat}
use lex_mind.Common.{
  ℕ, suc, ◌+◌, String, Bool, true, false, not, Option, none, some, List, [], ◌∷◌, if◌then◌else◌,
}
use lex_mind.Common.Texts.{startswith}
use lex_mind.Common.Effect.{ok, err, Outcome, Action}

-- `resolve` makes a path absolute and free of links, `under root rel` is `root / rel`
pub record Disk (Data : Type 0) : Type 1 where
  pub Files : Type 0
  pub resolve : Files → String → String
  pub under : String → String → String
  pub parent : String → String
  pub exists : Files → String → Bool
  pub is_dir : Files → String → Bool
  pub is_file : Files → String → Bool
  pub size : Files → String → ℕ
  pub read : Files → String → Data
  pub children : Files → String → List String
  pub sorted : List String → List String
  pub write : String → Data → Files → Files
  pub mkdir : String → Files → Files
  pub rmtree : String → Files → Files
  pub unlink : String → Files → Files
  pub copytree : String → String → Files → Files
  pub copy2 : String → String → Files → Files
  pub move : String → String → Files → Files
  pub utcnow : Files → ℕ
  pub digest : String → Data → Option String

-- StorageNotFoundError, StoragePermissionDeniedError, and ValueError for an unknown algorithm
pub data FileError : Type 0 where
  not_found permission_denied unsupported_algorithm : FileError

abbrev pub digest_or_raise : Option String → Outcome FileError String
digest_or_raise none = err unsupported_algorithm
digest_or_raise (some text) = ok text

module _ {Data : Type 0} (d : Disk Data) (root : String) where
  abbrev pub Filed : Type 0 → Type 0
  Filed = Action FileError d.Files

  -- `_resolve`
  unfoldable pub resolve : String → d.Files → Outcome FileError String
  resolve rel s =
      let resolved = d.resolve s (d.under root rel) in
      if startswith resolved (d.resolve s root) then ok resolved else err permission_denied

  -- what an operation does with the path that is resolved
  abbrev pub at : {A : Type 0} → Outcome FileError String → (String → Filed A) → Filed A
  at (err e) f s = (err e, s)
  at (ok path) f s = f path s

  abbrev pub resolved : {A : Type 0} → String → (String → Filed A) → Filed A
  resolved rel f s = at (resolve rel s) f s

  abbrev pub if_there : {A : Type 0} → (String → Filed A) → String → Filed A
  if_there f path s = if d.exists s path then f path s else (err not_found, s)

  -- `_require_exists`, and then `f`
  abbrev pub required : {A : Type 0} → String → (String → Filed A) → Filed A
  required rel f = resolved rel (if_there f)

  abbrev pub unless_dir : {A : Type 0} → (String → d.Files → A) → String → Filed A
  unless_dir f path s = if d.is_dir s path then (err not_found, s) else (ok (f path s), s)

  abbrev pub changed : (d.Files → d.Files) → Filed (Unit {0})
  changed f s = (ok tt, f s)

  unfoldable pub exists : String → Filed Bool
  unfolding resolve
  exists rel = resolved rel (λ path s. (ok (d.exists s path), s))

  unfoldable pub read_bytes : String → Filed Data
  unfolding resolve
  read_bytes rel = required rel (unless_dir (λ path s. d.read s path))

  -- the parent directory is made first
  unfoldable pub write_bytes : String → Data → Filed (Unit {0})
  unfolding resolve
  write_bytes rel bytes =
      resolved rel (λ path. changed (λ s. d.write path bytes (d.mkdir (d.parent path) s)))

  unfoldable pub delete : String → Filed (Unit {0})
  unfolding resolve
  delete rel =
      required rel
        (λ path. changed (λ s. if d.is_dir s path then d.rmtree path s else d.unlink path s))

  abbrev pub copied : String → String → Filed (Unit {0})
  copied src dst = changed (λ s.
      if d.is_dir s src then d.copytree src dst s else d.copy2 src dst (d.mkdir (d.parent dst) s))

  unfoldable pub copy : String → String → Filed (Unit {0})
  unfolding resolve
  copy src dst = required src (λ src_path. resolved dst (copied src_path))

  unfoldable pub move : String → String → Filed (Unit {0})
  unfolding resolve
  move src dst = required src (λ src_path.
      resolved dst
        (λ dst_path. changed (λ s. d.move src_path dst_path (d.mkdir (d.parent dst_path) s))))

  unfoldable pub mkdir : String → Filed (Unit {0})
  unfolding resolve
  mkdir rel = resolved rel (λ path. changed (d.mkdir path))

  abbrev pub listed : String → Filed (List String)
  listed path s =
      if d.is_dir s path then (ok (d.sorted (d.children s path)), s) else (err not_found, s)

  unfoldable pub list : String → Filed (List String)
  unfolding resolve
  list rel = required rel listed

  abbrev pub stat_of : String → d.Files → StorageStat
  stat_of path s =
      if d.exists s path
      then record {
        exists = true;
        is_directory = d.is_dir s path;
        size = if d.is_file s path then d.size s path else 0;
        modified = some (d.utcnow s);
      }
      else record { exists = false; is_directory = false; size = 0; modified = none }

  unfoldable pub stat : String → Filed StorageStat
  unfolding resolve
  stat rel = resolved rel (λ path s. (ok (stat_of path s), s))

  abbrev pub digested :
      String → Outcome FileError Data × d.Files → Outcome FileError String × d.Files
  digested algorithm (ok bytes, s) = (digest_or_raise (d.digest algorithm bytes), s)
  digested algorithm (err e, s) = (err e, s)

  unfoldable pub checksum : String → (algorithm : String) → Filed String
  unfolding read_bytes
  checksum rel algorithm s = digested algorithm (read_bytes rel s)
