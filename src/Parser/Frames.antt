-- ===== src/Parser/Frames.antt =====
-- What the frame tests of core/src/response_parser.cpp say about the bytes at the front of the buffer.
use printer_driver.Base.{
  ℕ, zero, suc, ◌≤◌, Bytes, true, false, [], ◌∷◌, ◌++◌, ◌≡◌, refl, ap, arith, length, take, drop,
  all,
}
use printer_driver.Parser.{gs_h_disqualified, is_printable_ascii}

-- A whole frame that is not disqualified has the two header bytes and the terminator, and four
-- printable bytes between them.
pub gs_h_shape :
    (b rest : Bytes)
    → b ≡ 0x37 ∷ rest
    → gs_h_disqualified b ≡ false
    → 7 ≤ length b
    → (0x37 ∷ 0x22 ∷ (take 4 (drop 2 b) ++ (0x00 ∷ drop 7 b)) ≡ b)
      × (all is_printable_ascii (take 4 (drop 2 b)) ≡ true)
      × (length (take 4 (drop 2 b)) ≡ 4)
unfolding gs_h_disqualified
gs_h_shape (x ∷ h ∷ c ∷ d ∷ e ∷ f ∷ t ∷ b) rest s q n = ground arith
gs_h_shape [] rest s q n = absurd (omega arith)
gs_h_shape (x ∷ []) rest s q n = absurd (omega arith)
gs_h_shape (x ∷ h ∷ []) rest s q n = absurd (omega arith)
gs_h_shape (x ∷ h ∷ c ∷ []) rest s q n = absurd (omega arith)
gs_h_shape (x ∷ h ∷ c ∷ d ∷ []) rest s q n = absurd (omega arith)
gs_h_shape (x ∷ h ∷ c ∷ d ∷ e ∷ []) rest s q n = absurd (omega arith)
gs_h_shape (x ∷ h ∷ c ∷ d ∷ e ∷ f ∷ []) rest s q n = absurd (omega arith)

pub take-append-drop : (n : ℕ) (b : Bytes) → take n b ++ drop n b ≡ b
take-append-drop zero b = refl
take-append-drop (suc n) [] = refl
take-append-drop (suc n) (x ∷ b) = ap (◌∷◌ x) (take-append-drop n b)
