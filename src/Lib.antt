-- ===== src/Lib.antt =====
-- Verification of the memory roofline tool, tools/roofline/src.
--
-- The tool measures a machine's memory: `main` (main.cpp) runs the benches that the command line asks
-- for, collects their results in a `Report`, and prints it for people and as JSON. The benches time
-- loops over buffers with `now_ns()`; the latency and huge page benches chase pointers through an
-- array that chase.hpp wires into one cycle; the JSON goes through `JsonWriter` of util.hpp.
--
-- Where each part is modelled:
-- - Chase: chase.hpp, `build_single_cycle_permutation` and `wire_single_cycle`. An array of nodes is
--   the list of its `next` fields. Positions, Extend, Cycle and Sattolo below it
--   prove the shuffle, Wire the wiring.
-- - Json: `class JsonWriter` of util.hpp; the stream is a list of bytes, and a method is a function on
--   the writer. Json/Document has JSON documents and their text, Json/Writes what a run of methods
--   writes, Json/Parse a strict reader of JSON and its round trip, over the numbers of Json/Number.
-- - Report: the result structs (Report/Structs) and `write_json` of report.cpp with the function for each
--   part (Report/WriteJson); Report/Document is the document of a report. Report/WriteHuman and
--   Report/WriteGuidance are `write_human` and `write_guidance`, over a stream that keeps its notation
--   for doubles (Report/Print); Report/HumanLines has the lines that they print, and Report/Says what it
--   is to print lines.
-- - Clock: the loops `do … while (now_ns() - start < duration_ns)` of all the benches.
-- - Plateau: the search for the point of saturation, which ram_bench.cpp and latency_bench.cpp share.
-- - Ram: ram_bench.cpp, the buffers and kernels (Ram/Passes), thread steps, sweeps and `run_ram_bench`, with
--   the workers of a sweep one after the other. Ram/Threads has them in any order of their passes behind the flag
--   `go`, as a step relation, Ram/Interleaved what that leaves, and Ram/Progress its end.
-- - Latency: latency_bench.cpp, the chase array, both measurements and `run_latency_bench`.
-- - Compute: compute_bench.cpp; the vector instructions are a parameter, and Compute/Lanes has what each
--   of the eight accumulators gathers.
-- - Hugepage: hugepage_bench.cpp; what `mmap` gives and the text of /proc/self/smaps are parameters.
--   Hugepage/Vmas reads that text, Hugepage/Smaps has it as the kernel prints it, and Hugepage/Expected
--   what the bench is to say.
-- - Options: `Options` and `parse_options` of main.cpp; the map is an association list.
-- - Main: `print_usage` and `main` of main.cpp over the benches as an interface (Main/Arguments), which
--   Main/Roofline fills with the models of the benches; Main/Asked has which commands ask for
--   which, and Main/Collected the report of a command.
-- - Cpu: cpu_info.cpp, with the texts of the files below /proc and /sys as a parameter.
-- - Disk: disk_bench.cpp, the two measurements, and below Disk/Bench the file and `run_disk_bench`. The
--   system answers each call from the calls before it.
-- - Text: what Options, Cpu and Hugepage use of `std::string`, `std::stoull`, `std::stol` and `strtoull`.
-- - Base: shared types, tests, lists, integers and decimal print. Run is the outcome of a bench: a
--   result, an uncaught exception, undefined behaviour, or the end of the fuel.
-- - Tests: runs at concrete inputs.
--
-- What the code takes from outside is a parameter: `double` is a record of operations (Float), of which
-- the print of a finite number is a number of JSON where that matters; the random engine and
-- distribution are a record (Random), of which the draws keep to their range; the clock is the sequence
-- of a thread's readings; an allocation is a function that may fail. Words are natural numbers with
-- their wrap-around written out. The timed loops run on fuel, since nothing bounds them but the clock:
-- the theorems give the number of the first reading at which the time is up, and the fuel is enough if
-- it is above that number. Main/Roofline collects what a whole run asks of memory, clocks, options and
-- fuel in one record, `IsAble`. The digits of a number run on fuel above the number, and
-- the loop that fills the disk bench's file on fuel above its size.
--
-- Not modelled: `std::thread`, of which the step relation keeps the order of passes; memory that threads
-- share, since each has a buffer of its own; the sinks that keep loads alive, which nothing reads;
-- `madvise`, whose effect is in the text of smaps; a file of `--out` that does not open, whose stream
-- the code does not look at; the build, the scripts and the documents.
pub mod Base
pub mod Random
pub mod Float
pub mod Clock
pub mod Plateau
pub mod Chase
pub mod Json
pub mod Report
pub mod Ram
pub mod Latency
pub mod Compute
pub mod Cpu
pub mod Disk
pub mod Hugepage
pub mod Main
pub mod Options
pub mod Tests
pub mod Text
