-- ===== src/Encoder/Utf8.antt =====
-- `decodeUtf8` of core/src/code_page.cpp. The input is its next byte and the rest of it; the result is
-- the code point, `none` for an invalid sequence, and the input behind what was consumed.
use printer_driver.Base.{
  ℕ, ◌+◌, ◌*◌, ◌/◌, ◌%◌, Bytes, Bool, ◌&&◌, ◌||◌, [], ◌∷◌, Option, none, some, if◌then◌else◌, ltb,
  leb, ◌==◌, suc, zero,
}

-- How many continuation bytes a lead byte announces, and the payload bits of the lead byte.
unfoldable pub lead : ℕ → Option (ℕ × ℕ)
lead byte =
    if byte / 32 == 6
    then some (1, byte % 32)
    else if byte / 16 == 14
    then some (2, byte % 16)
    else if byte / 8 == 30
    then some (3, byte % 8)
    else none

-- The continuation bytes, with the code point and the input behind them; `none` if one is missing or
-- not of the form 10xxxxxx.
unfoldable pub continuation : ℕ → ℕ → Bytes → Option (ℕ × Bytes)
continuation zero codepoint input = some (codepoint, input)
continuation (suc extra) codepoint [] = none
continuation (suc extra) codepoint (byte ∷ rest) =
    let next = continuation extra (codepoint * 64 + byte % 64) rest in
    if byte / 64 == 2 then next else none

-- The code point is out of range for a sequence of its length, or no scalar at all.
unfoldable pub rejected : ℕ → ℕ → Bool
rejected extra codepoint =
    (extra == 1 && ltb codepoint 128)
    || ((extra == 2 && ltb codepoint 2048)
        || ((extra == 3 && ltb codepoint 65536)
            || ((leb 55296 codepoint && leb codepoint 57343) || ltb 1114111 codepoint)))

abbrev pub invalid : Bytes → Option ℕ × Bytes
invalid rest = (none, rest)

unfoldable pub accept : ℕ → Bytes → Option (ℕ × Bytes) → Option ℕ × Bytes
unfolding rejected
accept extra rest none = invalid rest
accept extra rest (some (codepoint, input)) =
    if rejected extra codepoint then invalid rest else (some codepoint, input)

unfoldable pub decode_sequence : Bytes → Option (ℕ × ℕ) → Option ℕ × Bytes
unfolding continuation accept
decode_sequence rest none = invalid rest
decode_sequence rest (some (extra, bits)) = accept extra rest (continuation extra bits rest)

unfoldable pub decode_utf8 : ℕ → Bytes → Option ℕ × Bytes
unfolding lead decode_sequence
decode_utf8 byte rest = if ltb byte 128 then (some byte, rest) else decode_sequence rest (lead byte)
