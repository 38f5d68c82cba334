-- ===== src/Encoder/Examples.antt =====
-- The encoder on a small ticket.
use printer_driver.Base.{arith, ℕ, codes, true, List, [], ◌∷◌, ◌≡◌, refl, some, all, is_some, map}
use printer_driver.Encoder.{Encoder, Alignment, CutMode, CodePage, RasterScale, new_encoder}
use printer_driver.Encoder.Builder.{
  Call, run, raster_packed, cut, feed_dots, text, set_bold, align, dot_commands, banded_raster,
}
use printer_driver.Encoder.CodePages.{transliterate, encode_codepoint, lookup_in}
use printer_driver.Encoder.Commands.{drawer_kick, raster_command}
use printer_driver.Encoder.Drawing.{draw_all, blank, is_valid}
use printer_driver.Encoder.Faithful.{run-renders, run-is_valid}
use printer_driver.Encoder.Printer.{interpret, power_on, ready_in}
use printer_driver.Encoder.Scalars.{is_scalar, utf8_text, transliterate-scalars}
use printer_driver.Encoder.Styles.{style_of}

abbrev ticket_calls : List Call
ticket_calls =
    Call.aligns Alignment.center
    ∷ Call.aligns Alignment.center
    ∷ Call.sets_bold true
    ∷ Call.writes (codes "Hi")
    ∷ Call.feeds_dots 300
    ∷ Call.draws (1 ∷ 2 ∷ 3 ∷ []) 8 3 RasterScale.normal 2
    ∷ Call.cuts CutMode.full
    ∷ []

abbrev ticket : Encoder
ticket = record new_encoder {
  alignment = Alignment.center;
  bold = true;
  buffer =
      27 ∷ 97 ∷ 1 ∷ 27 ∷ 69 ∷ 1 ∷ 72 ∷ 105 ∷ 27 ∷ 74 ∷ 255 ∷ 27 ∷ 74 ∷ 45 ∷ 29 ∷ 118 ∷ 48 ∷ 0 ∷ 1
      ∷ 0 ∷ 2 ∷ 0 ∷ 1 ∷ 2 ∷ 29 ∷ 118 ∷ 48 ∷ 0 ∷ 1 ∷ 0 ∷ 1 ∷ 0 ∷ 3 ∷ 29 ∷ 86 ∷ 0 ∷ [];
}

run-renders_example :
    (interpret ticket.buffer power_on
      ≡ ready_in (draw_all ticket_calls blank).style (draw_all ticket_calls blank).items)
    × (style_of ticket ≡ (draw_all ticket_calls blank).style)
unfolding raster_packed cut feed_dots text set_bold align transliterate dot_commands banded_raster
    raster_command
run-renders_example =
    run-renders ticket_calls ticket (tt, (tt, (tt, (refl, (tt, (omega arith, (tt, tt)))))))
      (unfold run in refl)

abbrev bad_calls : List Call
bad_calls =
    Call.feeds
    ∷ Call.draws [] 4294967295 1 RasterScale.normal 0
    ∷ Call.sets_text_size 9 1
    ∷ Call.feeds
    ∷ []

run-is_valid_example : is_some (run bad_calls new_encoder) ≡ all is_valid bad_calls
run-is_valid_example = run-is_valid bad_calls new_encoder (tt, (omega arith, (tt, (tt, tt))))

-- Three scalars of two, three and four bytes.
abbrev scalars : List ℕ
scalars = 0x161 ∷ 0x20AC ∷ 0x1F600 ∷ []

transliterate-scalars_example :
    transliterate (utf8_text scalars) CodePage.pc852
    ≡ map (λ c. encode_codepoint CodePage.pc852 (some c)) scalars
transliterate-scalars_example =
    transliterate-scalars scalars CodePage.pc852 (unfold is_scalar in refl)

-- The scalar that code page 852 has comes out as its byte.
scalars_bytes : transliterate (utf8_text scalars) CodePage.pc852 ≡ 0xE7 ∷ 63 ∷ 63 ∷ []
unfolding transliterate utf8_text lookup_in
scalars_bytes = refl

-- Two hundred milliseconds on the second channel: one hundred units on, two hundred off.
kick_bytes : drawer_kick 2 200 ≡ some (27 ∷ 112 ∷ 1 ∷ 100 ∷ 200 ∷ [])
unfolding drawer_kick
kick_bytes = refl
