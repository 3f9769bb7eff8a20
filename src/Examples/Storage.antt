-- ===== src/Examples/Storage.antt =====
-- The theorems about the storage layer, on a provider that keeps its objects in a dictionary and a disk
-- that holds nothing.
use lex_mind.Storage.Uri.{StorageUri, UriError, uri_text, parse_uri, join_uri, build_uri}
use lex_mind.Storage.Uri.RoundTrip.{IsWorkspace, has_slash, parse_uri-uri_text}
use lex_mind.Storage.Uri.Parsed.{join_uri-workspace}
use lex_mind.Storage.Manager.{StorageProvider, save, load}
use lex_mind.Storage.Filesystem.{Disk, permission_denied, resolve, read_bytes}
use lex_mind.Storage.Manager.Aliasing.{KeepsBytes, load-save}
use lex_mind.Common.{
  String, Option, none, some, [], ◌∷◌, ◌≡◌, ◌⊎◌, refl, eq_refl, ap, subst, false, filter,
}
use lex_mind.Common.Dict.{Dict, get, put, pop, has, get-put}
use lex_mind.Common.Effect.{ok, err, Outcome}

case-IsWorkspace : IsWorkspace "case-7"
unfolding has_slash
case-IsWorkspace = record { named = refl; whole = refl }

other-IsWorkspace : IsWorkspace "case-8"
unfolding has_slash
other-IsWorkspace = record { named = refl; whole = refl }

parse_uri-uri_text_example :
    parse_uri "storage://case-7/docs/a.pdf"
    ≡ ok (record { workspace = "case-7"; path = "docs/a.pdf"; raw = "storage://case-7/docs/a.pdf" })
unfolding uri_text
parse_uri-uri_text_example = parse_uri-uri_text "case-7" "docs/a.pdf" case-IsWorkspace

join_uri-workspace_example :
    ((e : UriError) × (parse_uri "storage://case-7/docs" ≡ err e)
      × (join_uri "storage://case-7/docs" ("a.pdf" ∷ []) ≡ err e))
    ⊎ ((u v : StorageUri) × (t : String) × (parse_uri "storage://case-7/docs" ≡ ok u)
        × (join_uri "storage://case-7/docs" ("a.pdf" ∷ []) ≡ ok t)
        × (parse_uri t ≡ ok v)
        × (v.workspace ≡ u.workspace))
join_uri-workspace_example = join_uri-workspace "storage://case-7/docs" ("a.pdf" ∷ [])

joined_uri :
    join_uri "storage://case-7/docs/" ("scans" ∷ "./a.pdf" ∷ [])
    ≡ ok "storage://case-7/docs/scans/a.pdf"
unfolding join_uri filter
joined_uri = refl

-- with nothing to join, a dot is made of the empty path
joined_nothing : join_uri "storage://case-7" [] ≡ ok "storage://case-7/."
unfolding join_uri filter
joined_nothing = refl

built_empty : build_uri "case-7" "" ≡ "storage://case-7/"
unfolding build_uri filter
built_empty = refl

abbrev or_missing : Option String → Outcome (Unit {0}) String
or_missing none = err tt
or_missing (some text) = ok text

abbrev memory : StorageProvider String
memory = record {
  State = Dict String;
  Failure = Unit;
  exists = λ path s. (ok (has s path), s);
  read_bytes = λ path s. (or_missing (get s path), s);
  write_bytes = λ path text s. (ok tt, put s path text);
  read_text = λ path encoding s. (or_missing (get s path), s);
  write_text = λ path text encoding s. (ok tt, put s path text);
  delete = λ path s. (ok tt, pop s path);
  copy = λ src dst s. (err tt, s);
  move = λ src dst s. (err tt, s);
  mkdir = λ path s. (ok tt, s);
  list = λ path s. (ok [], s);
  walk = λ path s. (ok [], s);
  stat = λ path s. (err tt, s);
  checksum = λ path algorithm s. (err tt, s);
  backend_name = "memory";
}

memory-KeepsBytes : KeepsBytes memory
memory-KeepsBytes path bytes s t wrote =
    let same : put s path bytes ≡ t =
      ap (λ (r : Outcome (Unit {0}) (Unit {0}) × Dict String). r.1) wrote in
    subst (λ (t : Dict String). memory.read_bytes path t ≡ (ok bytes, t)) same
      (rw (get-put s path path bytes, eq_refl path) refl)

load-save_example :
    (save memory "storage://case-7/a.pdf" "%PDF" [] ≡ (ok tt, ("a.pdf", "%PDF") ∷ []))
    × (load memory "storage://case-7/a.pdf" (("a.pdf", "%PDF") ∷ [])
        ≡ (ok "%PDF", ("a.pdf", "%PDF") ∷ []))
    × (load memory "storage://case-8/a.pdf" (("a.pdf", "%PDF") ∷ [])
        ≡ (ok "%PDF", ("a.pdf", "%PDF") ∷ []))
unfolding uri_text put
load-save_example =
    load-save memory "case-7" "case-8" "a.pdf" "%PDF" [] (("a.pdf", "%PDF") ∷ []) memory-KeepsBytes
      case-IsWorkspace other-IsWorkspace refl

-- an absolute path replaces the root, as `pathlib` has it
abbrev bare_disk : Disk String
bare_disk = record {
  Files = Unit;
  resolve = λ s path. path;
  under = λ root rel. rel;
  parent = λ path. "/";
  exists = λ s path. false;
  is_dir = λ s path. false;
  is_file = λ s path. false;
  size = λ s path. 0;
  read = λ s path. "";
  children = λ s path. [];
  sorted = λ l. l;
  write = λ path bytes s. s;
  mkdir = λ path s. s;
  rmtree = λ path s. s;
  unlink = λ path s. s;
  copytree = λ src dst s. s;
  copy2 = λ src dst s. s;
  move = λ src dst s. s;
  utcnow = λ s. 0;
  digest = λ algorithm bytes. none;
}

-- an absolute path of another place is refused
passwd_refused : read_bytes bare_disk "/data" "/etc/passwd" tt ≡ (err permission_denied, tt)
unfolding read_bytes
passwd_refused = refl

-- a directory whose name goes on from that of the root counts as one inside it
beside_the_root : resolve bare_disk "/data" "/data-old/a.pdf" tt ≡ ok "/data-old/a.pdf"
unfolding resolve
beside_the_root = refl
