-- ===== src/Submit.antt =====
-- Submission and its idempotency in core/src/driver.cpp: `JobIndex`, `PrinterRuntime::submit`, `reserve`
-- and `submitReserved`. The jobs that `shared_ptr` shares are the cells of a list, and a pointer is an
-- index into it. What the platform decides while a call runs, the random ids, the clock, the disk and
-- whether the printer is being stopped, is an argument of the call.
pub mod Calls
pub mod Steps
pub mod Covers
pub mod Unique
mod Examples
use printer_driver.Base.{
  ℕ, zero, suc, Bytes, codes, Bool, true, false, ◌&&◌, Option, none, some, List, [], ◌∷◌, ◌++◌,
  length, if◌then◌else◌,
}
use printer_driver.Encoder.{CodePage}
use printer_driver.Engine.{CutSetting, PreflightMode}
use printer_driver.Journal.Lines.{PayloadKind}
use printer_driver.Store.{Disk, JobStore, StoreError, no_maps}
use printer_driver.Types.{JobState}

pub data Binarization : Type 0 where
  fixed_threshold floyd_steinberg : Binarization

-- `Payload`: the gray levels of a raster with its width, height, binarization, threshold and rows to a
-- band; the bytes of a document with its code page; or raw bytes.
pub data Payload : Type 0 where
  raster : Bytes → ℕ → ℕ → Binarization → ℕ → ℕ → Payload
  document : Bytes → CodePage → Payload
  raw : Bytes → Payload

unfoldable pub kind : Payload → PayloadKind
kind (raster gray width height binarization threshold band) = PayloadKind.raster
kind (document bytes page) = PayloadKind.document
kind (raw bytes) = PayloadKind.raw

unfoldable pub payload_input_bytes : Payload → ℕ
payload_input_bytes (raster gray width height binarization threshold band) = length gray
payload_input_bytes (document bytes page) = length bytes
payload_input_bytes (raw bytes) = length bytes

pub record JobOptions : Type 0 where
  pub key : Bytes
  pub cut : CutSetting
  pub open_drawer : Bool
  pub preflight : PreflightMode
  pub timeout_ms : ℕ
  pub top_feed_dots : ℕ
  pub bottom_feed_dots : ℕ
  pub print_verification_id : Bool

abbrev pub default_options : JobOptions
default_options = record {
  key = [];
  cut = CutSetting.profile;
  open_drawer = false;
  preflight = PreflightMode.strict;
  timeout_ms = 0;
  top_feed_dots = 0;
  bottom_feed_dots = 0;
  print_verification_id = true;
}

-- `PrintJob`, less its observers: `state_` and `terminal_`.
pub record PrintJob : Type 0 where
  pub id : Bytes
  pub key : Bytes
  pub printer_id : Bytes
  pub attempt : ℕ
  pub state : JobState
  pub finished : Bool

pub record JobEntry : Type 0 where
  pub job : ℕ
  pub printer_id : Bytes
  pub payload : Option Payload
  pub options : JobOptions
  pub attempt : ℕ

-- A task on a printer's worker: the arguments of its `runJob`.
pub record Task : Type 0 where
  pub job : ℕ
  pub printer_id : Bytes
  pub payload : Payload
  pub options : JobOptions
  pub attempt : ℕ
  pub banner : Bool

-- What the printers of one driver share, and the tasks that were pushed, oldest first.
pub record Driver : Type 0 where
  pub store : JobStore
  pub jobs : List PrintJob
  pub by_key : List (Bytes × JobEntry)
  pub tasks : List Task

-- What a call meets: the disk and the clock at `createJob` and at a `recordState` behind it, whether
-- the printer is being stopped, and the two results of `newJobId`.
pub record World : Type 0 where
  pub disk : Disk
  pub now : ℕ
  pub end_disk : Disk
  pub end_now : ℕ
  pub stopping : Bool
  pub auto_id : Bytes
  pub job_id : Bytes

-- A call returns a job or null, or the store's error passes through it.
pub data Outcome : Type 0 where
  returned : Option ℕ → Driver → Outcome
  threw : StoreError → Driver → Outcome

abbrev pub driver_after : Outcome → Driver
driver_after (returned job d) = d
driver_after (threw error d) = d

-- A driver on a new store.
abbrev pub new_driver : JobStore → Driver
new_driver store = record { store = store; jobs = []; by_key = []; tasks = [] }

-- A change of the object that a pointer points to.
unfoldable pub update_at {ℓ} : {A : Type ℓ} → ℕ → (A → A) → List A → List A
update_at i f [] = []
update_at zero f (x ∷ xs) = f x ∷ xs
update_at (suc i) f (x ∷ xs) = x ∷ update_at i f xs
