-- ===== src/Lib.antt =====
-- Verification of EGoTouchRev, a user-mode driver and service for a Himax touch panel with a pen.
--
-- The service reads frames from the chip, runs them through a chain of processors and reports touches
-- and the pen to Windows. The development follows the parts of the sources:
-- - Prelude: lists, integers, booleans and an abstract floating-point type that all parts share.
-- - RingBuffer: Tools/EGoTouchApp/include/ConcurrentRingBuffer.h. The state is the array with its
--   head, tail and count; the lock makes each member function one step, and a wait is a list of what
--   other threads call between its tests. `Spec` is a bounded queue.
-- - Engine: the contacts of EGoTouchService/Engine/EngineTypes.h.
-- - Gesture: EGoTouchService/Engine/Reporting/TouchGestureStateMachine.h and .cpp. A slot is a record,
--   UpdateSlot is a function on slots, and Process works on the list of slots and the list of contacts.
--   Pointers into the contacts are positions in the list. Floats are a type with the operations that
--   the code uses, of which nothing else is assumed. The counters are `uint16` and wrap.
-- - Driver: KernelDriver/EGoTouchKm, the kernel driver's control requests. What the driver framework
--   returns for a buffer is a parameter; a run keeps the list of completions of the request.
-- - Afe: EGoTouchService/Device/himax/HimaxAfe.h and .cpp, the commands to the analogue front end and
--   the tracking of the pen's frequency. The bus is a port whose answers are arbitrary. The `uint32`
--   frame counter wraps; the theorems about ages ask that it does not wrap within the run.
-- - Runtime: EGoTouchService/Device/runtime/DeviceRuntime.h and .cpp. The worker's iteration is a
--   function of the runtime, the chip's answers are a port, and the chip's controller is Afe. A life is
--   a list of iterations and of the other threads' calls, in the order in which they happen: a call
--   under the mutex and a state handler are one step each.
-- - Pen: EGoTouchService/Device/penevt/PenEventBridge.cpp and penpress/PenPressureReader.cpp, the
--   handling of a packet as a function to the packets that are sent back and the calls that are made.
-- - Himax: EGoTouchService/Device/himax/HimaxProtocol.cpp, HimaxChip.cpp and HimaxRegisters.cpp. An
--   operation takes the board to a result and the next board; the calls of the operating system are a
--   port with arbitrary answers. Loops take the rounds that are left, as many as the code has. `Frame`
--   fills the port that Runtime takes for its chip, and `Init` the one that Afe takes for its bus.
-- - Vhf: EGoTouchService/Device/vhf/VhfReporter.cpp, the reports to the injector driver byte by byte;
--   `Layout` writes them down without the code.
--   The arithmetic on `float` and the calls on the device are parameters.
-- - Asa: EGoTouchService/Engine/StylusSolver, the grids of the pen: GridPeakDetector, `Coordinate` for
--   CoordinateSolver and `Post` for CoorPostProcessor. The flood fill has 82 rounds, one more than the
--   grid has cells, and each round takes a cell from the stack for good.
-- - Peaks: EGoTouchService/Engine/TouchSolver/PeakDetector.h and .cpp, from the matrix of a frame to the
--   peaks with their numbers. `Track` holds the numbering and Detect; the sort is a parameter that has
--   to permute and to sort where a theorem needs it.
-- - Preprocessing: EGoTouchService/Engine/Preprocessing. A matrix is a function from row and column to an
--   integer, and what the code converts to `int16` wraps. `Parser` is MasterFrameParser and
--   BaselineSubtraction, `Cmf` CMFProcessor, `Gaussian` GaussianFilter, `Iir` GridIIRProcessor and
--   `Conditioning` SignalConditioningFilter. A history that is not there yet
--   is `none`. The products with a `float` are parameters.
-- - Pipeline: EGoTouchService/Engine/FramePipeline.cpp on processors with a name and a Process.
-- - TouchSolver: EGoTouchService/Engine/TouchSolver: `Size` for TouchSize.cpp, `Edge` for the edge info in
--   EdgeCompensation.h, `Zone` for the flood fill of ZoneExpander.cpp over all peaks and `Closing` for its
--   DilateAndErode. A flood fill has 2401 rounds, one more than the grid has cells, and each cell is
--   queued once.
--
-- Not modelled: logging, thread primitives, HID and pipe input and output, the vendored logging
-- library, the diagnostics windows, and for now the rest of the engine: the later steps of ZoneExpander
-- with its contacts, the edge compensation and rejection, the touch tracker and the pen's pipeline.
pub mod Prelude
pub mod RingBuffer
pub mod Engine
pub mod Gesture
pub mod Driver
pub mod Afe
pub mod Runtime
pub mod Pen
pub mod Himax
pub mod Vhf
pub mod Asa
pub mod Peaks
pub mod Preprocessing
pub mod Pipeline
pub mod TouchSolver
