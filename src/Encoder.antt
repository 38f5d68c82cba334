-- ===== src/Encoder.antt =====
-- core/include/printerdriver/escpos_encoder.hpp and core/src/escpos_encoder.cpp: the builder of ESC/POS
-- byte strings. An encoder is a record, a call of it that throws `EncodingError` gives `none`.
pub mod Utf8
pub mod CodePages
pub mod Commands
pub mod Builder
pub mod Printer
pub mod Drawing
pub mod Rendering
pub mod Plain
pub mod Styles
pub mod Frames
pub mod Faithful
pub mod Scalars
pub mod Table
pub mod Chunks
mod Examples
use printer_driver.Base.{ℕ, Bytes, Bool, true, false, []}

pub data Alignment : Type 0 where
  left center right : Alignment

abbrev pub alignment_value : Alignment → ℕ
alignment_value left = 0
alignment_value center = 1
alignment_value right = 2

pub data CutMode : Type 0 where
  partial full : CutMode

pub data CodePage : Type 0 where
  pc437 pc850 wpc1252 pc852 pc858 : CodePage

-- The operand of ESC t.
abbrev pub code_page_value : CodePage → ℕ
code_page_value pc437 = 0
code_page_value pc850 = 2
code_page_value wpc1252 = 16
code_page_value pc852 = 18
code_page_value pc858 = 19

pub data QrModel : Type 0 where
  model1 model2 micro_qr : QrModel

abbrev pub qr_model_value : QrModel → ℕ
qr_model_value model1 = 49
qr_model_value model2 = 50
qr_model_value micro_qr = 51

pub data QrErrorCorrection : Type 0 where
  l m q h : QrErrorCorrection

abbrev pub qr_error_correction_value : QrErrorCorrection → ℕ
qr_error_correction_value l = 48
qr_error_correction_value m = 49
qr_error_correction_value q = 50
qr_error_correction_value h = 51

pub data RasterScale : Type 0 where
  normal double_width double_height quadruple : RasterScale

abbrev pub raster_scale_value : RasterScale → ℕ
raster_scale_value normal = 0
raster_scale_value double_width = 1
raster_scale_value double_height = 2
raster_scale_value quadruple = 3

-- `Encoder`: the bytes so far and the style that the encoder takes the printer to have.
pub record Encoder : Type 0 where
  pub buffer : Bytes
  pub code_page : CodePage
  pub alignment : Alignment
  pub bold : Bool
  pub underline : ℕ
  pub size_width : ℕ
  pub size_height : ℕ
  pub cut_with_feed : Bool
  pub cut_feed_units : ℕ

abbrev pub new_encoder : Encoder
new_encoder = record {
  buffer = [];
  code_page = pc437;
  alignment = left;
  bold = false;
  underline = 0;
  size_width = 1;
  size_height = 1;
  cut_with_feed = false;
  cut_feed_units = 0;
}
