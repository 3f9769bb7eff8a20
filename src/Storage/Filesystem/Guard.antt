-- ===== src/Storage/Filesystem/Guard.antt =====
-- What the guard of the filesystem provider refuses and what it lets through.
use text.Mathlib.TextPositions.{slice-append_left}
use lex_mind.Storage.Filesystem.{
  Disk, FileError, permission_denied, resolve, exists, read_bytes, write_bytes, delete, copy, move,
  mkdir, list, stat, checksum,
}
use lex_mind.Common.{String, true, false, ◌≡◌, refl, eq_refl}
use lex_mind.Common.Texts.{concat, startswith}
use lex_mind.Common.Effect.{ok, err, Outcome}

startswith-concat : (s t : String) → startswith (concat s t) s ≡ true
startswith-concat s t = rw (slice-append_left s t) (eq_refl s)

module _ {Data : Type 0} (d : Disk Data) (root : String) (s : d.Files) where
  -- what an operation answers for a path that the guard refuses
  abbrev pub Refused : {A : Type 0} → Outcome FileError A × d.Files → Type 0
  Refused run = run ≡ (err permission_denied, s)

  -- Each operation on a path whose resolved text does not begin with that of the root raises
  -- `StoragePermissionDeniedError` and leaves the disk as it was.
  pub escape-Refused :
      (rel other : String) (bytes : Data) (algorithm : String)
      → startswith (d.resolve s (d.under root rel)) (d.resolve s root) ≡ false
      → Refused (read_bytes d root rel s)
        × Refused (write_bytes d root rel bytes s)
        × Refused (delete d root rel s)
        × Refused (copy d root rel other s)
        × Refused (move d root rel other s)
        × Refused (mkdir d root rel s)
        × Refused (list d root rel s)
        × Refused (stat d root rel s)
        × Refused (checksum d root rel algorithm s)
        × Refused (exists d root rel s)
  unfolding resolve exists read_bytes write_bytes delete copy move mkdir list stat checksum
  escape-Refused rel other bytes algorithm outside = (
    rw outside refl,
    rw outside refl,
    rw outside refl,
    rw outside refl,
    rw outside refl,
    rw outside refl,
    rw outside refl,
    rw outside refl,
    rw outside refl,
    rw outside refl,
  )

  -- The guard compares texts and not parts: it lets every path through whose text goes on from that of
  -- the root, as that of a directory beside the root does.
  pub resolve_admits_beside :
      (rel rest : String)
      → d.resolve s (d.under root rel) ≡ concat (d.resolve s root) rest
      → resolve d root rel s ≡ ok (concat (d.resolve s root) rest)
  unfolding resolve
  resolve_admits_beside rel rest beside =
      rw (beside, startswith-concat (d.resolve s root) rest) refl
