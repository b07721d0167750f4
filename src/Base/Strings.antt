-- ===== src/Base/Strings.antt =====
-- Texts that are only compared as wholes.
use Prim.Native.String.{String}
use text.Mathlib.Text.{◌==◌}
use mathlib.Core.Bool.{Bool}

abbrev pub same_string : String → String → Bool
same_string s t = s == t
