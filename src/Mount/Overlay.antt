-- ===== src/Mount/Overlay.antt =====
-- The options of an overlay mount (`escape_overlay_opt`, `build_overlay_options` of
-- ssamd/src/mount.rs).
use Prim.Native.Char.{code}
use Prim.Native.String.{◌++◌}
use ssam.Prelude.{ℕ, String, ◌==◌, if◌then◌else◌}

-- `str::replace` of one character.
unfoldable pub replace : ℕ → String → String → String
replace n to String.[] = String.[]
replace n to (String.◌∷◌ c s) =
    let rest = replace n to s in if code c == n then to ++ rest else String.◌∷◌ c rest

abbrev pub backslash : ℕ
backslash = 0x5c

abbrev pub comma : ℕ
comma = 0x2c

abbrev pub colon : ℕ
colon = 0x3a

unfoldable pub escape_overlay_opt : String → String
escape_overlay_opt path = replace colon "\\:" (replace comma "\\," (replace backslash "\\\\" path))

unfoldable pub build_overlay_options : String → String → String → String
build_overlay_options lowerdir upperdir workdir =
    "lowerdir="
    ++ (escape_overlay_opt lowerdir ++ (",upperdir=" ++ (upperdir ++ (",workdir=" ++ workdir))))
