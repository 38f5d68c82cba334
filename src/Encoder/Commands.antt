-- ===== src/Encoder/Commands.antt =====
-- The stand-alone commands of core/src/escpos_encoder.cpp.
use printer_driver.Base.{
  ℕ, ◌-◌, ◌*◌, ◌/◌, min, Bytes, Bool, ◌&&◌, not, [], ◌∷◌, ◌++◌, Option, none, some, if◌then◌else◌,
  leb, ◌==◌, length, all, low_byte, high_byte,
}
use printer_driver.Parser.Status.{DleEotKind}

abbrev pub lf : ℕ
lf = 10

abbrev pub dle_eot_value : DleEotKind → ℕ
dle_eot_value DleEotKind.printer_status = 1
dle_eot_value DleEotKind.offline_cause = 2
dle_eot_value DleEotKind.error_cause = 3
dle_eot_value DleEotKind.paper_sensor = 4

abbrev pub dle_eot : DleEotKind → Bytes
dle_eot kind = 16 ∷ 4 ∷ dle_eot_value kind ∷ []

abbrev pub gs_paper_status : Bytes
gs_paper_status = 29 ∷ 114 ∷ 1 ∷ []

abbrev is_printable : ℕ → Bool
is_printable value = leb 32 value && leb value 126

abbrev pub is_valid_process_id_token : Bytes → Bool
is_valid_process_id_token token = (length token == 4) && all is_printable token

abbrev pub process_id_marker : Bytes → Option Bytes
process_id_marker token =
    if is_valid_process_id_token token
    then some ((29 ∷ 40 ∷ 72 ∷ 6 ∷ 0 ∷ 48 ∷ 48 ∷ []) ++ token)
    else none

abbrev pub asb_enable : ℕ → Bytes
asb_enable mask = 29 ∷ 97 ∷ mask ∷ []

abbrev pub gs_drawer_status : Bytes
gs_drawer_status = 29 ∷ 114 ∷ 2 ∷ []

abbrev at_least_one : ℕ → ℕ
at_least_one n = if n == 0 then 1 else n

-- ESC p with a pulse in milliseconds, in units of 2 ms that saturate at 255.
unfoldable pub drawer_kick : ℕ → ℕ → Option Bytes
drawer_kick channel pulse_ms =
    let on_units = min (pulse_ms / 2) 255 in
    let off_units = min (on_units * 2) 255 in
    if not (channel == 1) && not (channel == 2)
    then none
    else some (27 ∷ 112 ∷ (channel - 1) ∷ at_least_one on_units ∷ at_least_one off_units ∷ [])

-- `appendRasterCommand`: one GS v 0 command.
unfoldable pub raster_command : ℕ → ℕ → ℕ → Bytes → Bytes
raster_command scale bytes_per_row rows bits =
    29
    ∷ 118
    ∷ 48
    ∷ scale
    ∷ low_byte bytes_per_row
    ∷ high_byte bytes_per_row
    ∷ low_byte rows
    ∷ high_byte rows
    ∷ bits
