-- ===== src/Storage/Uri.antt =====
-- backend/lexmind/storage/uri.py.
pub mod RoundTrip
pub mod Parsed
use lex_mind.Storage.Paths.{
  pure_path, path_text, join_path, path_parent, path_name, suffix_of_name, is_slash, PurePosixPath,
}
use Prim.Native.Char.{Char, code}
use lex_mind.Common.{
  String, Bool, true, false, Option, none, some, List, [], ◌∷◌, ◌==◌, eqb, if◌then◌else◌,
}
use lex_mind.Common.Texts.{concat}
use lex_mind.Common.Effect.{ok, err, Outcome}

pub record StorageUri : Type 0 where
  pub workspace : String
  pub path : String
  pub raw : String

-- InvalidStorageURIError, by its reason
pub data UriError : Type 0 where
  empty_uri wrong_scheme missing_workspace empty_workspace : UriError

-- f"{SCHEME}://"
abbrev pub scheme_prefix : String
scheme_prefix = "storage://"

-- `StorageURI.__str__`
unfoldable pub uri_text : String → String → String
uri_text workspace path = concat scheme_prefix (concat workspace (concat "/" path))

abbrev pub text_of : StorageUri → String
text_of u = uri_text u.workspace u.path

-- `s.startswith(p)`, and then what follows it, `s[len(p):]`
unfoldable pub after_prefix : String → String → Option String
after_prefix String.[] s = some s
after_prefix (String.◌∷◌ d p) String.[] = none
after_prefix (String.◌∷◌ d p) (String.◌∷◌ c s) =
    if eqb (code d) (code c) then after_prefix p s else none

abbrev pub more : Char → String × Option String → String × Option String
more c (before, rest) = (String.◌∷◌ c before, rest)

-- `s.split("/", 1)`: what stands before the first slash, and after it, if there is one
unfoldable pub cut_slash : String → String × Option String
cut_slash String.[] = ("", none)
cut_slash (String.◌∷◌ c s) =
    let rest = cut_slash s in if is_slash c then ("", some s) else more c rest

abbrev pub path_or_empty : Option String → String
path_or_empty none = ""
path_or_empty (some path) = path

abbrev pub from_parts : String → String × Option String → Outcome UriError StorageUri
from_parts uri (workspace, rest) =
    if workspace == ""
    then err empty_workspace
    else ok (record { workspace = workspace; path = path_or_empty rest; raw = uri })

abbrev pub from_remainder : String → Option String → Outcome UriError StorageUri
from_remainder uri none = err wrong_scheme
from_remainder uri (some remainder) =
    if remainder == "" then err missing_workspace else from_parts uri (cut_slash remainder)

unfoldable pub parse_uri : String → Outcome UriError StorageUri
unfolding after_prefix cut_slash
parse_uri uri =
    if uri == "" then err empty_uri else from_remainder uri (after_prefix scheme_prefix uri)

unfoldable pub build_uri : String → String → String
unfolding path_text pure_path uri_text
build_uri workspace path =
    uri_text workspace (if path == "" then "" else path_text (pure_path path))

abbrev pub joined_onto : PurePosixPath → List String → PurePosixPath
joined_onto current [] = current
joined_onto current (segment ∷ l) = joined_onto (join_path current segment) l

abbrev pub join_parsed : List String → Outcome UriError StorageUri → Outcome UriError String
join_parsed segments (err e) = err e
join_parsed segments (ok parsed) =
    ok (build_uri parsed.workspace (path_text (joined_onto (pure_path parsed.path) segments)))

unfoldable pub join_uri : String → List String → Outcome UriError String
unfolding parse_uri build_uri path_text pure_path join_path
join_uri base segments = join_parsed segments (parse_uri base)

abbrev pub dot_to_empty : String → String
dot_to_empty s = if s == "." then "" else s

-- `StorageURI.parent`, `name`, `suffix` and `child`
unfoldable pub parent : StorageUri → StorageUri
unfolding path_text pure_path
parent u = record u { path = dot_to_empty (path_text (path_parent (pure_path u.path))) }

unfoldable pub name : StorageUri → String
unfolding pure_path
name u = path_name (pure_path u.path)

unfoldable pub suffix : StorageUri → String
unfolding pure_path
suffix u = suffix_of_name (path_name (pure_path u.path))

unfoldable pub child : StorageUri → String → StorageUri
unfolding path_text pure_path join_path uri_text
child u n =
    let path = path_text (join_path (pure_path u.path) n) in
    record { workspace = u.workspace; path = path; raw = uri_text u.workspace path }
