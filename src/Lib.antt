-- ===== src/Lib.antt =====
-- PrinterDriver: a driver for receipt printers that says of every job whether it printed, failed or may
-- have printed, and never guesses. This library models its core and proves what makes it trustworthy.
--
-- The parts, and the files that model them:
--
-- - Base: bytes as natural numbers, lists measured by native numbers, Boolean tests.
-- - Types, Types/Names, Types/Order: core/include/printerdriver/types.hpp and core/src/types.cpp, the
--   states, reasons, grades and results of a job, their names, and the confidence ladder (`raise`,
--   `clampTo` of core/src/driver.cpp).
-- - Parser and its children: core/src/response_parser.cpp, the classifier of what the printer sends.
--   `ResponseParser` is a record of the buffer and the outstanding expectations; `step`, `drain`,
--   `feed` and `flush` are functions of the same names. The drain loop runs on as much fuel as
--   the length of the buffer; each step that emits takes a byte, so the fuel is enough, and
--   Parser/Termination proves that the loop then stops for want of bytes and not of fuel.
-- - Profile: the parts of core/src/capability_profile.cpp that say which engine drives a profile, how
--   much it can confirm, and by what evidence.
-- - Engine, Engine/EscPos, Engine/Star: `PrinterRuntime::runJob` and `runStarJob` of
--   core/src/driver.cpp. A run is the list of its actions: records in the journal, publications, bytes
--   handed to the link, waits, and the result. What the link answers at each point is a field of `Link`,
--   and so is what the token allocator hands out, if it does not throw; a registered completion method is an argument of the
--   job. Engine/Trace says what a list of actions can be checked for, with no reference to the code.
-- - Engine/Markers: `MarkerAllocator` of core/src/driver.cpp, the tokens of a job's two fences; its loop
--   takes 4418 rounds, as in the source.
-- - Fence and its children: the backchannel of core/src/driver.cpp, `onBytes`, `beginJobIo`, the arming of
--   the fences and the `await…` functions, over the state that `io_mutex_` guards, and the parser of Star
--   answers of core/src/star.cpp. A registered matcher is a function in that state; a wait is the state at
--   the moment that it ends.
-- - Submit and its children: `submit`, `reserve` and `submitReserved` of core/src/driver.cpp over the index
--   of keys. Shared jobs are cells of a list and a pointer is an index into it; the random ids, the clock
--   and the disk are arguments. Submit/Steps adds what the workers do to a job.
-- - Drawer and its children: core/src/cash_drawer.cpp with core/include/printerdriver/cash_drawer.hpp, and
--   `openDrawer`, `runDrawerSequence` and `pollDrawerPin` of core/src/driver.cpp. What the link does at each
--   poll is a `Poll`; the polls are a list, since the time that ends them is not modelled. A registered
--   vendor kick is an argument.
-- - Registrations and its children: core/src/registrations.cpp, the registries of custom completion methods,
--   probe steps, drawer kicks, formatters and block handlers; a callback is a function, and none where the
--   source's is empty. A drawer kick's callbacks are those that Drawer/Polling has.
-- - Encoder and its children: core/src/escpos_encoder.cpp and core/src/code_page.cpp. Encoder/Builder has
--   the members of `Encoder`, Encoder/Utf8 and Encoder/CodePages `transliterate`. Encoder/Printer is a
--   printer that reads the commands as escpos_encoder.hpp describes them, Encoder/Drawing what a chain of
--   calls asks for; both are references and model no code. The loops over dots, rows and input bytes
--   run on as much fuel as there are dots, rows and bytes, and each turn takes one at least.
-- - Journal and its children: the line format of core/src/job_store.cpp (`escapeField`, `jobLine`,
--   `stateLine`, `tokenLine`, `parseLine`, `readJournal`).
-- - Store and its children: the class `JobStore` of core/src/job_store.cpp: opening with recovery and
--   compaction, `createJob`, `recordState`, `recordTokens`, and the lookups. Its maps are association
--   lists, its file is a list of bytes; an exception is an error result with the store that is left. A
--   write is taken, refused before any byte, or in the file with its fsync failed.
-- - Queue and its children: the class `PrintQueue` of queue/src/print_queue.cpp: lanes, admission, the
--   inbox, expiry, selection, draining, and the calls of the operator. What a call makes the driver do
--   is the list of its effects. The priority, an `int32_t`, is held with its offset 2 ^ 31.
--
-- How they interact: the queue hands jobs to the engine (`starts` is the call of `submitReserved`), and
-- the engine's terminal publications come back as completions in its inbox; the engine writes its records
-- to the store; the store writes and reads lines of the journal; the parser turns the printer's bytes into
-- events, and the fences turn these into the answers that the engine waits for.
--
-- Bounds: numbers of 64 and 32 bits keep their wrap-around; the theorems that need it say that a number
-- fits. The journal's numbers are at most 2 ^ 64 - 1, so twenty digits are enough to write one.
--
-- Not modelled: how the engine puts a payload and a cut together (they are names in Engine), locks,
-- threads and condition variables (a call is one step), clocks (arguments), runs of a job that an
-- exception ends, from the store, from an allocator with no free slot or from the builder of the payload
-- (no worker catches one, so the process ends), a disk that takes a part of a write, transports and
-- discovery, gray rasters, the Star encoder, the receipt language, the agent, and the bindings.
mod Base
pub mod Types
pub mod Parser
pub mod Profile
pub mod Encoder
pub mod Engine
pub mod Fence
pub mod Drawer
pub mod Registrations
pub mod Journal
pub mod Store
pub mod Queue
pub mod Submit
