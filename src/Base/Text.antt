-- ===== src/Base/Text.antt =====
-- `str::eq_ignore_ascii_case` of Rust's standard library.
use Prim.Native.Nat.{ℕ, ◌+◌}
use Prim.Native.Char.{Char, code}
use Prim.Native.String.{String, [], ◌∷◌}
use mathlib.Core.Bool.{Bool, true, false, ◌&&◌}
use macniri.Base.Tests.{◌==◌, leb, if◌then◌else◌}

abbrev to_ascii_lowercase : Char → ℕ
to_ascii_lowercase c = if leb 65 (code c) && leb (code c) 90 then code c + 32 else code c

abbrev pub eq_ignore_ascii_case : String → String → Bool
eq_ignore_ascii_case [] [] = true
eq_ignore_ascii_case [] (d ∷ t) = false
eq_ignore_ascii_case (c ∷ s) [] = false
eq_ignore_ascii_case (c ∷ s) (d ∷ t) =
    to_ascii_lowercase c == to_ascii_lowercase d && eq_ignore_ascii_case s t
