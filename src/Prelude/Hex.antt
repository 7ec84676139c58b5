-- ===== src/Prelude/Hex.antt =====
-- The prefix of a hexadecimal text.
use Prim.Native.Char.{code}
use Prim.Native.String.{String}
use mathlib.Core.Bool.{◌&&◌}
use mpp_rs.Prelude.Tests.{◌==◌, if◌then◌else◌}

-- `s.strip_prefix("0x").unwrap_or(s)`
unfoldable pub strip_0x : String → String
strip_0x (String.◌∷◌ c (String.◌∷◌ d s)) =
    if code c == b'0' && code d == b'x' then s else String.◌∷◌ c (String.◌∷◌ d s)
strip_0x s = s
