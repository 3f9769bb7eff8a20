-- ===== src/Common/Texts.antt =====
-- `str.startswith`, `str.endswith` and `+` on texts.
use Prim.Native.Nat.{◌-◌}
use Prim.Native.String.{String, ◌++◌, len, slice}
use mathlib.Core.Bool.{Bool, ◌&&◌}
use text.Mathlib.Text.{◌==◌}
use lex_mind.Common.Tests.{leb}

abbrev pub concat : String → String → String
concat s t = s ++ t

abbrev pub startswith : String → String → Bool
startswith s t = slice s 0 (len t) == t

abbrev pub endswith : String → String → Bool
endswith s t = leb (len t) (len s) && (slice s (len s - len t) (len s) == t)
