-- ===== src/Cbor/Utf8.antt =====
-- `core::str::from_utf8` as a test: which byte strings are well-formed UTF-8.
use d_hsm.Prelude.{
  ℕ, zero, suc, List, [], ◌∷◌, Bool, true, false, ◌&&◌, Option, none, some, ltb, leb, ◌==◌,
  if◌then◌else◌,
}

-- After a leading byte: how many bytes follow, and the range of the next one.
utf8_lead : ℕ → Option (ℕ × ℕ × ℕ)
utf8_lead b =
    if ltb b 0x80
    then some (0, 0x80, 0xbf)
    else if leb 0xc2 b && leb b 0xdf
    then some (1, 0x80, 0xbf)
    else if b == 0xe0
    then some (2, 0xa0, 0xbf)
    else if b == 0xed
    then some (2, 0x80, 0x9f)
    else if leb 0xe1 b && leb b 0xef
    then some (2, 0x80, 0xbf)
    else if b == 0xf0
    then some (3, 0x90, 0xbf)
    else if leb 0xf1 b && leb b 0xf3
    then some (3, 0x80, 0xbf)
    else if b == 0xf4
    then some (3, 0x80, 0x8f)
    else none

-- `pending` bytes are still due, the next of them between `lo` and `hi`.
utf8_scan : ℕ → ℕ → ℕ → List ℕ → Bool
utf8_scan zero lo hi [] = true
utf8_scan (suc pending) lo hi [] = false
utf8_scan zero lo hi (b ∷ rest) = elim (utf8_lead b) [
  | none ↦ false
  | some (pending, lo', hi') ↦ utf8_scan pending lo' hi' rest
]
utf8_scan (suc pending) lo hi (b ∷ rest) = leb lo b && leb b hi && utf8_scan pending 0x80 0xbf rest

unfoldable pub is_utf8 : List ℕ → Bool
unfolding utf8_lead utf8_scan
is_utf8 = utf8_scan 0 0x80 0xbf
