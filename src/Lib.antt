-- ===== src/Lib.antt =====
-- The Python programs that the extension runs beside the editor: the debugger that is loaded into the
-- debugged process and its byte protocol, the normalizer of code for a terminal, the completion and
-- the refactoring server, the back end of the interactive window, the runner of unit tests, and the generator of the changelog. The parts of
-- the debugger talk as follows. The client sends commands over a socket (Wire); DebuggerLoop reads
-- them and changes the tables of breakpoints and of exceptions; the trace function of each thread
-- (Stepping) looks into these tables at the calls, lines, returns and exceptions of the program, sends
-- what it finds to the client and blocks the thread.
--
-- - Prelude: tests, lists over the native numbers, dictionaries in insertion order, integers.
-- - Wire: `read_bytes`, `read_int`, `write_int`, `read_string` and `write_string` of
--   pythonFiles/PythonTools/visualstudio_py_util.py for Python 3. A connection is the chunks that `recv`
--   will hand over and the bytes that are sent. A loop takes fuel and is `running` when that is used up;
--   one more than the number of bytes to read is enough while the stream holds them. Wire/Bytes is
--   `struct` with the format !q, Wire/Utf8 is the UTF-8 codec.
-- - SafeRepr: the class of that name in the same file, on objects as its tests see them: SafeRepr/Shape.
-- - Debugger: pythonFiles/PythonTools/visualstudio_py_debugger.py.
--   - Loop is `DebuggerLoop.loop` with what the handler of each command reads; the fuel for the commands is
--     their number, and that for a read more than the bytes of the commands. What a handler does with what
--     it has read is a parameter, which may raise.
--   - Registry is THREADS as threads start, end and are detached; Children is `Thread.enum_child_locally`.
--   - PathMatch is `breakpoint_path_match`; the fuel of its walk is one more than the length of the local
--     path, and each step shortens that path.
--   - Check is the tests of one breakpoint in `Thread.handle_line`.
--   - Breakpoints is BREAKPOINTS, PENDING_BREAKPOINTS and MODULES with the commands of DebuggerLoop and,
--     in Events, the module part of `Thread.handle_call` and the loop of `Thread.handle_line`; detaching,
--     which clears BREAKPOINTS, is left out there.
--   - Stepping is `Thread.trace_func` and its handlers of calls, lines and returns. It takes the breakpoint
--     that a line hits as an argument, which `line_event` of Breakpoints/Events computes. That a module is
--     loaded is a message without its number here, and what the load does is in Breakpoints/Events.
--   - Threads is the commands that set the mode of a thread or resume threads, on a dictionary of the
--     threads of Stepping.
--   - Blocking is the locks of `Thread.block` beside `run_on_thread` and the commands that resume, as moves
--     of two threads and a client that awaits its answers; DETACHED is off.
--   - Frames is `Thread.get_frame_list` with the variables of each frame, `should_debug_code` and
--     `is_file_in_zip`, while DJANGO_DEBUG is off.
--   - Reports is the messages to the client as the fields that are written. Reports/Received and
--     Reports/Parsed are a client that reads them. Reports/Raised is `report_exception`; the loop for a free
--     name in it has one turn more than there are locals as fuel.
--   - Django is DjangoBreakpointInfo and its commands, and Django/Lines the offsets of lines.
--   - Exceptions is ExceptionBreakInfo and `command_set_exception_info`.
-- - Normalize: pythonFiles/normalizeForInterpreter.py.
-- - Completion: pythonFiles/completion.py. Paths is `sys.path` over the requests as names of lists in a
--   store, Jedi what the code reads of jedi's objects, Signatures, Items and Definitions the answers, and
--   Requests `_process_request` and the loop. The recursion limit of the process is the fuel of
--   `_get_top_level_module` and `_top_definition`; `watch` has the number of its turns as fuel.
-- - Refactor: pythonFiles/refactor.py. Requests/Turns counts the turns of its loop, which does not end.
-- - Repl: the back end of the interactive window, pythonFiles/PythonTools/visualstudio_py_repl.py. Commands
--   is the thread that receives, Main the thread that executes, Commands/Schedule the steps of both over the
--   back end that they share, Members and Signatures what is shown of values, Messages what is sent.
-- - TestLauncher: pythonFiles/PythonTools/visualstudio_py_testlauncher.py, the events that a run sends and
--   the choice of its tests.
-- - Announce: the generator of the changelog, news/announce.py.
--
-- Parameters stand for what the code calls and does not contain: the file system and path functions,
-- `eval` and the comparison of the program's values, the client's replies, `tokenize`, `ast`, jedi,
-- rope, `difflib`, `inspect`, JSON, and what `str` knows of characters. Numbers that the client sends and that
-- the code uses as ids, lines, kinds and counts are taken to be natural.
--
-- Not modelled: threads that run at the same time outside of Blocking and Repl/Commands/Schedule
-- (there a handler's effects are one step), the source of a Django frame, stackless, previous trace
-- functions, the evaluation of code in the debuggee, attach and launch; what the items of the
-- window execute, its back end of IPython, the launchers, the older completion server
-- (pythonFiles/completionServer.py), what news/announce.py prints and removes, and the vendored
-- jedi, parso, isort and ptvsd.
pub mod Prelude
pub mod Wire
pub mod Debugger
pub mod SafeRepr
pub mod Normalize
pub mod Announce
pub mod Completion
pub mod Refactor
pub mod Repl
pub mod TestLauncher
