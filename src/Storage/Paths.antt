-- ===== src/Storage/Paths.antt =====
-- `pathlib.PurePosixPath` of the standard library, as the storage layer uses it: a root and the parts
-- that are neither empty nor ".". A text that begins with exactly two slashes has the root "//".
use Prim.Native.Char.{Char, code}
use lex_mind.Common.{
  String, Bool, false, not, Option, none, some, List, [], ◌∷◌, ◌++◌, ◌==◌, ◌||◌, eqb, if◌then◌else◌,
  filter,
}
use lex_mind.Common.Texts.{concat}

abbrev pub is_slash : Char → Bool
is_slash c = eqb (code c) 47

abbrev pub is_dot : Char → Bool
is_dot c = eqb (code c) 46

-- a character in front of the first text of a list
abbrev pub push : Char → List String → List String
push c [] = String.◌∷◌ c "" ∷ []
push c (s ∷ l) = String.◌∷◌ c s ∷ l

-- `s.split("/")`
unfoldable pub split_slash : String → List String
split_slash String.[] = "" ∷ []
split_slash (String.◌∷◌ c s) =
    let rest = split_slash s in if is_slash c then "" ∷ rest else push c rest

abbrev pub begins_slash : String → Bool
begins_slash String.[] = false
begins_slash (String.◌∷◌ c s) = is_slash c

abbrev pub double_root : String → String
double_root s = if begins_slash s then "/" else "//"

-- the root of a text that begins with a slash, from what follows it
abbrev pub root_after : String → String
root_after String.[] = "/"
root_after (String.◌∷◌ c s) = if is_slash c then double_root s else "/"

abbrev pub root_of : String → String
root_of String.[] = ""
root_of (String.◌∷◌ c s) = if is_slash c then root_after s else ""

pub record PurePosixPath : Type 0 where
  pub root : String
  pub parts : List String

abbrev pub is_kept : String → Bool
is_kept part = not (part == "" || part == ".")

-- `PurePosixPath(s)`
unfoldable pub pure_path : String → PurePosixPath
unfolding split_slash
pure_path s = record { root = root_of s; parts = filter is_kept (split_slash s) }

abbrev pub joined : List String → String
joined [] = ""
joined (x ∷ []) = x
joined (x ∷ y ∷ l) = concat x (concat "/" (joined (y ∷ l)))

abbrev pub or_dot : String → String
or_dot s = if s == "" then "." else s

-- `str(p)`
unfoldable pub path_text : PurePosixPath → String
path_text p = or_dot (concat p.root (joined p.parts))

-- `p / segment`: an absolute segment replaces the path
unfoldable pub join_path : PurePosixPath → String → PurePosixPath
unfolding pure_path
join_path p segment =
    let q = pure_path segment in
    if begins_slash segment then q else record { root = p.root; parts = p.parts ++ q.parts }

abbrev pub init : List String → List String
init [] = []
init (x ∷ []) = []
init (x ∷ y ∷ l) = x ∷ init (y ∷ l)

abbrev pub last_or_empty : List String → String
last_or_empty [] = ""
last_or_empty (x ∷ []) = x
last_or_empty (x ∷ y ∷ l) = last_or_empty (y ∷ l)

-- `p.parent` and `p.name`
abbrev pub path_parent : PurePosixPath → PurePosixPath
path_parent p = record p { parts = init p.parts }

abbrev pub path_name : PurePosixPath → String
path_name p = last_or_empty p.parts

abbrev or_here : Option String → Char → String → Option String
or_here (some t) c s = some t
or_here none c s = if is_dot c then some (String.◌∷◌ c s) else none

-- the end of a text from its last dot on
unfoldable pub from_last_dot : String → Option String
from_last_dot String.[] = none
from_last_dot (String.◌∷◌ c s) = or_here (from_last_dot s) c s

abbrev pub longer_than_dot : Option String → String
longer_than_dot none = ""
longer_than_dot (some t) = if t == "." then "" else t

-- `p.suffix`: nothing where the last dot begins or ends the name
abbrev pub suffix_of_name : String → String
suffix_of_name String.[] = ""
suffix_of_name (String.◌∷◌ c s) = longer_than_dot (from_last_dot s)
