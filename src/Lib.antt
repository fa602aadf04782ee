-- ===== src/Lib.antt =====
-- Solari streams a host's desktop and takes the client's input. This library models the parts of it
-- that keep state between packets and between requests, and what must hold of that state.
--
-- How the parts interact. The control stream hands each input packet to `input::passthrough`, which
-- queues it in the session's `input_t` and pushes a task to the task pool. A worker thread runs the
-- tasks one at a time: `passthrough_next_message` takes the oldest packet, merges later ones into it
-- (`batch`), and calls the packet's handler, which calls the platform. Handlers schedule tasks of
-- their own: the repeat of a held key, the late release of the left button, the Home button. Before any of
-- this a client has to pair, over HTTP: `pair` runs the phases of the exchange, and `pin` takes the
-- PIN that the host's user enters; a client whose proof holds is put among the authorized devices. A
-- paired client then asks to launch an app: the display is configured, the app's prep commands run, the
-- app starts, and a launch session waits for the client's RTSP connection. While the session runs, a thread
-- makes packets of every encoded frame, with shards that make up for lost ones. The host's user sets things up
-- in a configuration file and through a web interface, which only those who log in may use.
--
-- - TaskPool: `src/task_pool.h`. The two containers are lists, `_timer_tasks` from its front (the
--   latest task) to its back. The clock is an argument; a task's address is a number. TaskPool/Order
--   and TaskPool/Run are about the order of the delayed tasks, TaskPool/Pop about `pop` and `ready`,
--   TaskPool/Cancel about `cancel`.
-- - Input/State: the statics of `src/input.cpp` and one session's `input_t` as one record. What the
--   code asks of the platform is a list of events, the newest first. An id of -1 is `none`.
-- - Input/Keyboard, Input/Mouse, Input/Mouse/Scroll, Input/Pointer, Input/Gamepad: the handlers of
--   `src/input.cpp` (the overloads of `passthrough`), with the closures that they schedule and the
--   parts of a reset that undo them. A handler that is long in the source is split where it branches.
-- - Input/Packet and Input/Batch: the packets of moonlight-common-c as far as the code reads them, and
--   the overloads of `batch`.
-- - Input/Session: the queue, `passthrough_next_message`, `reset` and `reset_input_state`.
-- - Hex: the hexadecimal text of `src/utility.h` (`hex_vec`, `from_hex`, `from_hex_vec`).
-- - Pairing: the pairing of clients in `src/nvhttp.cpp`: sessions by their unique id, the handlers of the
--   four phases, each as a function to a reply and to what becomes of the session, `pair` and `pin`.
--   Pairing/Once is about refusals, Pairing/Authorized about the last phase, Pairing/Phases about the
--   order of the phases over a history of calls.
-- - ThreadSafe: `queue_t` of `src/thread_safe.h`, by which threads hand values to each other; the
--   certificates that pairing raises go through one. ThreadSafe/Shared: `shared_t`, an object that exists while
--   pointers own it.
-- - Process: the app that a client launches, in `src/process.cpp`: `execute` with the commands that
--   prepare the host, `running`, `terminate` with the commands that undo the preparation, and `refresh`.
--   The calls of the platform are a log, the newest first; `Host` is what the system answers to them,
--   anew at every call. Process/State holds the state and the environment of the commands; Process/Stack
--   reads the log as a stack of prep commands, Process/Launch is about `execute` and `running`,
--   Process/History about any sequence of calls.
-- - Display: the display mode of a session, in `src/display_device.cpp`: the options, the remapping of
--   modes, and `parse_configuration`; Display/Parse reads resolutions and refresh rates. Display/Size and
--   Display/Rate are about the reading, Display/Remap about the list of entries, Display/Optimise about a
--   client that keeps its own settings.
-- - Sessions: `launch`, `resume` and `cancel` of `src/nvhttp.cpp`, over the app of Process and the state
--   of the RTSP server in `src/rtsp.cpp`: the launch session that waits for its client, its expiry, and
--   the set of streaming sessions, with the end of `start` and with `join` of `src/stream.cpp`. Sessions/Cancel is about any sequence of requests, Sessions/Quiet and
--   Sessions/Refused about the display where a launch is refused.
-- - Stream: how `videoBroadcastThread` of `src/stream.cpp` makes packets of an encoded frame: `replace`,
--   `concat_and_insert`, the blocks of a frame, `fec::encode`, the numbers in the headers, the batches.
--   Stream/Fec and Stream/Blocks hold the definitions, Stream/Frame is about the whole frame. `lowseq` and the
--   sizes are unbounded numbers; a pointer is the bytes it points to. Rate control, encryption and the sockets
--   are not modelled.
-- - Web: who may use the interface of `src/confighttp.cpp`: `authenticate`, `get_client_id`, and the CSRF
--   tokens. A time is a number of nanoseconds of the monotonic clock. Web/Auth is about logins, Web/Csrf about
--   the store of tokens, Web/Origin about the whole check.
-- - Config: `parse_config` and `parse_option` of `src/config.cpp`, over the text that is left. Config/Line
--   is about one line, Config/File about the whole file, Config/Ends about the loop.
-- - Base: tests, lists and integers over the native natural numbers.
--
-- Parameters. `Limelight` holds constants of moonlight-common-c; `Floats` the arithmetic of `float`, of
-- which nothing is assumed; `Backend` whether the platform refuses a virtual gamepad, which it may
-- decide anew at every call; `Crypto` what OpenSSL computes, of which nothing is assumed either; `Host`
-- and `Video` what the system and the encoders answer, given all calls made before; `Libraries` the
-- trimming of texts by Boost, of which theorems name what they assume, and the equality of display modes
-- by libdisplaydevice; `ReedSolomon` the code for lost packets, of which theorems name that it can code up to
-- 255 shards; `Library` the class of an address, Base64, the hash and the comparison without case. Names
-- of tasks are the addresses of live tasks; `schedule` hands out new ones above the two pseudo
-- addresses 0 and 1 that `src/input.cpp` uses as marks.
--
-- Bounds. Every loop is a structural recursion over a list, a count of rounds that the source computes, or a
-- number of seconds, so no fuel is needed, with two exceptions. The writing of a number in decimal has the
-- number's successor as its fuel, which is enough, since the value of the text is the number
-- (`value-decimal` in Base/Text). `parse_config` may take one round more than the text has characters, which
-- is enough, since each round leaves a shorter text; without enough rounds the loop would give `none`. The number of worker
-- rounds that empties the queue is a theorem below. Key codes are cut to the bits that the code keeps;
-- sums of 16-bit amounts wrap as the code stores them.
--
-- Not modelled: locks (each operation is one step), `std::future`, logging and `print`, the map of
-- retained sessions, what the platform does with a call, the file that keeps the paired clients, the
-- file that lists the apps, the making of a launch session from a request's arguments, the commands of
-- RTSP, the readers of single settings, the pages and handlers of the configuration's interface, and the
-- transport of requests and replies. Of the streams only the packets of a video frame are modelled: capture,
-- encoders, audio and sockets are calls of libraries and of the platform for the most part.
pub mod Base
pub mod Hex
pub mod TaskPool
pub mod ThreadSafe
pub mod Pairing
pub mod Process
pub mod Display
pub mod Sessions
pub mod Stream
pub mod Web
pub mod Config
pub mod Input
