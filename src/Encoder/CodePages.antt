-- ===== src/Encoder/CodePages.antt =====
-- `transliterate` and the table of code page 852 in core/src/code_page.cpp.
use printer_driver.Base.{
  ℕ, Bytes, List, [], ◌∷◌, Option, none, some, if◌then◌else◌, ltb, ◌==◌, suc, zero, length,
}
use printer_driver.Encoder.{CodePage, code_page_value}
use printer_driver.Encoder.Utf8.{decode_utf8}

-- `kCp852`: code point and byte, ascending by code point.
abbrev pub cp852 : List (ℕ × ℕ)
cp852 =
    (160, 255)
    ∷ (164, 207)
    ∷ (167, 245)
    ∷ (168, 249)
    ∷ (171, 174)
    ∷ (172, 170)
    ∷ (173, 240)
    ∷ (176, 248)
    ∷ (180, 239)
    ∷ (184, 247)
    ∷ (187, 175)
    ∷ (193, 181)
    ∷ (194, 182)
    ∷ (196, 142)
    ∷ (199, 128)
    ∷ (201, 144)
    ∷ (203, 211)
    ∷ (205, 214)
    ∷ (206, 215)
    ∷ (211, 224)
    ∷ (212, 226)
    ∷ (214, 153)
    ∷ (215, 158)
    ∷ (218, 233)
    ∷ (220, 154)
    ∷ (221, 237)
    ∷ (223, 225)
    ∷ (225, 160)
    ∷ (226, 131)
    ∷ (228, 132)
    ∷ (231, 135)
    ∷ (233, 130)
    ∷ (235, 137)
    ∷ (237, 161)
    ∷ (238, 140)
    ∷ (243, 162)
    ∷ (244, 147)
    ∷ (246, 148)
    ∷ (247, 246)
    ∷ (250, 163)
    ∷ (252, 129)
    ∷ (253, 236)
    ∷ (258, 198)
    ∷ (259, 199)
    ∷ (260, 164)
    ∷ (261, 165)
    ∷ (262, 143)
    ∷ (263, 134)
    ∷ (268, 172)
    ∷ (269, 159)
    ∷ (270, 210)
    ∷ (271, 212)
    ∷ (272, 209)
    ∷ (273, 208)
    ∷ (280, 168)
    ∷ (281, 169)
    ∷ (282, 183)
    ∷ (283, 216)
    ∷ (313, 145)
    ∷ (314, 146)
    ∷ (317, 149)
    ∷ (318, 150)
    ∷ (321, 157)
    ∷ (322, 136)
    ∷ (323, 227)
    ∷ (324, 228)
    ∷ (327, 213)
    ∷ (328, 229)
    ∷ (336, 138)
    ∷ (337, 139)
    ∷ (340, 232)
    ∷ (341, 234)
    ∷ (344, 252)
    ∷ (345, 253)
    ∷ (346, 151)
    ∷ (347, 152)
    ∷ (350, 184)
    ∷ (351, 173)
    ∷ (352, 230)
    ∷ (353, 231)
    ∷ (354, 221)
    ∷ (355, 238)
    ∷ (356, 155)
    ∷ (357, 156)
    ∷ (366, 222)
    ∷ (367, 133)
    ∷ (368, 235)
    ∷ (369, 251)
    ∷ (377, 141)
    ∷ (378, 171)
    ∷ (379, 189)
    ∷ (380, 190)
    ∷ (381, 166)
    ∷ (382, 167)
    ∷ (711, 243)
    ∷ (728, 244)
    ∷ (729, 250)
    ∷ (731, 242)
    ∷ (733, 241)
    ∷ (9472, 196)
    ∷ (9474, 179)
    ∷ (9484, 218)
    ∷ (9488, 191)
    ∷ (9492, 192)
    ∷ (9496, 217)
    ∷ (9500, 195)
    ∷ (9508, 180)
    ∷ (9516, 194)
    ∷ (9524, 193)
    ∷ (9532, 197)
    ∷ (9552, 205)
    ∷ (9553, 186)
    ∷ (9556, 201)
    ∷ (9559, 187)
    ∷ (9562, 200)
    ∷ (9565, 188)
    ∷ (9568, 204)
    ∷ (9571, 185)
    ∷ (9574, 203)
    ∷ (9577, 202)
    ∷ (9580, 206)
    ∷ (9600, 223)
    ∷ (9604, 220)
    ∷ (9608, 219)
    ∷ (9617, 176)
    ∷ (9618, 177)
    ∷ (9619, 178)
    ∷ (9632, 254)
    ∷ []

-- The binary search finds the first entry that is not less than the code point.
unfoldable pub lower_bound : List (ℕ × ℕ) → ℕ → Option (ℕ × ℕ)
lower_bound [] codepoint = none
lower_bound (entry ∷ entries) codepoint =
    let later = lower_bound entries codepoint in if ltb entry.0 codepoint then later else some entry

-- The byte of the entry that the search ended on, if it is the code point's.
abbrev pub checked : ℕ → Option (ℕ × ℕ) → Option ℕ
checked codepoint none = none
checked codepoint (some entry) = if entry.0 == codepoint then some entry.1 else none

unfoldable pub lookup_in : List (ℕ × ℕ) → ℕ → Option ℕ
unfolding lower_bound
lookup_in table codepoint = checked codepoint (lower_bound table codepoint)

unfoldable pub lookup_cp852 : ℕ → Option ℕ
lookup_cp852 = lookup_in cp852

abbrev pub unmapped_codepoint_fallback : ℕ
unmapped_codepoint_fallback = 63

abbrev pub or_fallback : Option ℕ → ℕ
or_fallback none = unmapped_codepoint_fallback
or_fallback (some mapped) = mapped

-- The byte that one decoded code point becomes; `none` is an invalid sequence.
unfoldable pub encode_codepoint : CodePage → Option ℕ → ℕ
unfolding lookup_cp852
encode_codepoint page none = unmapped_codepoint_fallback
encode_codepoint page (some codepoint) =
    if ltb codepoint 128
    then codepoint
    else if code_page_value page == 18
    then or_fallback (lookup_cp852 codepoint)
    else unmapped_codepoint_fallback

-- The loop over the input, which takes at most one turn for each byte of it.
unfoldable pub transliterate_loop : ℕ → Bytes → CodePage → Bytes
unfolding encode_codepoint decode_utf8
transliterate_loop zero input page = []
transliterate_loop (suc fuel) [] page = []
transliterate_loop (suc fuel) (byte ∷ rest) page =
    let decoded = decode_utf8 byte rest in
    encode_codepoint page decoded.0 ∷ transliterate_loop fuel decoded.1 page

unfoldable pub transliterate : Bytes → CodePage → Bytes
unfolding transliterate_loop
transliterate utf8 page = transliterate_loop (length utf8) utf8 page
