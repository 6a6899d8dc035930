-- ===== src/Prelude/Text/Trim.antt =====
-- `str::trim`, and the first characters of a text.
use Prim.Native.Nat.{ℕ, zero, suc}
use mathlib.Core.Bool.{◌&&◌}
use mathlib.Core.List.{List, [], ◌∷◌, map, reverse}
use mathlib.Core.Option.{Option, none, some}
use agcp.Prelude.Tests.{ltb, leb, if◌then◌else◌}
use agcp.Prelude.Lists.{length}
use agcp.Prelude.Text.{Bytes, strip_prefix}

-- `str::trim` takes away Unicode white space, here in its UTF-8 forms.
abbrev whitespace : List Bytes
whitespace =
    (9 ∷ [])
    ∷ (10 ∷ [])
    ∷ (11 ∷ [])
    ∷ (12 ∷ [])
    ∷ (13 ∷ [])
    ∷ (32 ∷ [])
    ∷ (0xc2 ∷ 0x85 ∷ [])
    ∷ (0xc2 ∷ 0xa0 ∷ [])
    ∷ (0xe1 ∷ 0x9a ∷ 0x80 ∷ [])
    ∷ (0xe2 ∷ 0x80 ∷ 0x80 ∷ [])
    ∷ (0xe2 ∷ 0x80 ∷ 0x81 ∷ [])
    ∷ (0xe2 ∷ 0x80 ∷ 0x82 ∷ [])
    ∷ (0xe2 ∷ 0x80 ∷ 0x83 ∷ [])
    ∷ (0xe2 ∷ 0x80 ∷ 0x84 ∷ [])
    ∷ (0xe2 ∷ 0x80 ∷ 0x85 ∷ [])
    ∷ (0xe2 ∷ 0x80 ∷ 0x86 ∷ [])
    ∷ (0xe2 ∷ 0x80 ∷ 0x87 ∷ [])
    ∷ (0xe2 ∷ 0x80 ∷ 0x88 ∷ [])
    ∷ (0xe2 ∷ 0x80 ∷ 0x89 ∷ [])
    ∷ (0xe2 ∷ 0x80 ∷ 0x8a ∷ [])
    ∷ (0xe2 ∷ 0x80 ∷ 0xa8 ∷ [])
    ∷ (0xe2 ∷ 0x80 ∷ 0xa9 ∷ [])
    ∷ (0xe2 ∷ 0x80 ∷ 0xaf ∷ [])
    ∷ (0xe2 ∷ 0x81 ∷ 0x9f ∷ [])
    ∷ (0xe3 ∷ 0x80 ∷ 0x80 ∷ [])
    ∷ []

-- What is left behind the first of the prefixes that stands in front.
strip_any : List Bytes → Bytes → Option Bytes
unfolding strip_prefix
strip_any [] s = none
strip_any (p ∷ ps) s =
    let rest = strip_any ps s in elim (strip_prefix s p) [ none ↦ rest | some r ↦ some r ]

-- Each round takes at least one byte, so the length is fuel enough.
trim_front : List Bytes → ℕ → Bytes → Bytes
unfolding strip_any
trim_front ps zero s = s
trim_front ps (suc fuel) s = elim (strip_any ps s) [ none ↦ s | some r ↦ trim_front ps fuel r ]

unfoldable pub trim : Bytes → Bytes
unfolding trim_front
trim s =
    let front = trim_front whitespace (length s) s in
    reverse (trim_front (map reverse whitespace) (length front) (reverse front))

-- The first `n` characters: a byte 10xxxxxx goes on with the character before it.
unfoldable pub take_chars : ℕ → Bytes → Bytes
take_chars n [] = []
take_chars zero (b ∷ s) = if leb 128 b && ltb b 192 then b ∷ take_chars zero s else []
take_chars (suc n) (b ∷ s) =
    if leb 128 b && ltb b 192 then b ∷ take_chars (suc n) s else b ∷ take_chars n s
