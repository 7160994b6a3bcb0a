-- ===== src/Lib.antt =====
-- A model of Compatra, a compatibility runtime that loads macOS programs and runs their threads.
--
-- Threading models crates/compatra-threading/src/lib.rs, the scheduler of guest threads. A runtime is
-- a record with the fields of `GuestThreadRuntime`, a method is a function from the runtime to the new
-- runtime and the result, and a u64, u32 or usize is a native number with its saturation or
-- wrap-around written out. Threading.State has the data, Threading.Ops the pending queue, dispatch,
-- yield, waits, reservation and completion, Threading.Wake the wake functions and signals, and
-- Threading.Calls sequences of operations. A HashMap is an association list; where the source iterates
-- one, the order is an argument. The wake loops recur on the number of rounds that `limit` leaves, and
-- each round adds one wake, so no further bound is needed.
--
-- Loader models crates/compatra-runtime/src/macos/loader. Loader.Cursor has the results and the reads
-- of the `Cursor`; an index or a slice out of bounds is an outcome of its own. Loader.Strings has
-- `String::from_utf8_lossy`, as the bytes of the string. Loader.Command has loader/command.rs: the
-- records in Types, LC_UNIXTHREAD in Thread, the commands of a fixed layout in Fixed, those with a path
-- in Names, segments and sections in Segments, and `LoadCommand::parse` in Dispatch. Loader.Header has
-- loader/header.rs. Loader.Parser has loader/parser.rs: the loop over the commands in Commands,
-- `build_binary` in Binary, FAT files in Fat, and `parse` with `parse_fat` in Parse. These two call each
-- other and recur on fuel, one unit for each call; a slice is shorter than its file or the file itself,
-- so that one call more than the file has bytes is enough where any number is.
-- Loader.Parser.Relocations, Loader.Parser.Queries, Loader.Parser.Symbols and Loader.Parser.Imports have
-- the queries of a parsed binary. A usize has 64 bits, and the length of a file is a native number:
-- where a result needs fewer than 2 ^ 64 bytes it says so.
--
-- Loader.Library models loader/guest_libraries.rs, and `align_up` of guest_model/memory.rs. Range has
-- the range of a binary, Keys the names of a symbol, Image the placement of a library and its exports,
-- Reference the references that it answers to, Set the libraries with their symbols, Specs the loading of
-- a list of paths, Bindings the imports of a program, and Mapping the requests to the emulator. A BTreeMap
-- is a list that ascends by its keys (Common.BTree), a path is the bytes of a UTF-8 string
-- (Common.FilePath), and `?` is a result type (Common.Result). The files of the host, the emulator,
-- `normalize_import_symbol` and `chained_fixup_import_symbols` are parameters: every theorem holds for
-- all of them. The sums of `align_up` wrap, as in a release build.
--
-- Loader.Images models loader/guest_images.rs: the registry of a program and its libraries in Registry.
--
-- Guest models what a program sees of the host. Guest.Files and Guest.Access have the table of files
-- and directories in crates/compatra-runtime/src/macos/guest_model/files.rs; the files of the host are a
-- parameter (`HostFiles`). Guest.Os has `Arm64SyntheticOsRuntime` of macos/arch_arm64/runtime.rs with the
-- binding of file descriptors, Guest.Descriptors `duplicate_synthetic_fd` and `close_synthetic_fd`,
-- Guest.Streams directory streams, the end of a process, and sequences of calls. The search for a free
-- number recurs on fuel: each number that it passes is bound, so more fuel than there are bindings is
-- enough, unless the numbers run out at 2 ^ 64, where the source does not end. The pipes are created by
-- the imports, which are not modelled; their ends are opened and closed here.
--
-- Not modelled: the emulator and the calls of the host system, the emulated imports and syscalls on top of
-- them, with the chained fixups that they write, the reports, and the command line.
pub mod Common
pub mod Threading
pub mod Loader
pub mod Guest
