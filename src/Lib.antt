-- ===== src/Lib.antt =====
-- forgectrl, the machine-services daemon of a laser cutter: a model of its core logic.
--
-- The supervisor keeps at most one motion controller alive: it starts it behind the gates, stops
-- it behind the safing pair (motion stopped, laser latched), reaps it, and delays its restarts.
-- The machine lease says which of the daemon's own activities has the machine; the routes ask it
-- before they move anything. The job sender streams a program to the controller over its Grbl
-- port and watches the tube while it does. The panel's sessions say who is logged in, and compare
-- ids with the hash component's constant-time comparison. The airflow and the camera's frame
-- ladders are small state machines that other engines tick, and the holds are the verdict over
-- what the extension packages have raised. The cooling engine reads the machine once a second and
-- says whether the laser may fire: it keeps the run session, drives fans, heater and TEC, watches
-- the controller's reports, the coolant, the fans, the lid and the head, and stops the machine
-- itself where that cannot wait. Its thresholds are the gate settings', its fans are judged by
-- the airflow gate, its crash watch is the accelerometer's, and a standing hold is an input of
-- its tick. The scoped tokens are credentials that reach only what they were granted, hashed by
-- the hash component and kept in a file of their own. The event stream keeps the machine's events
-- in a ring that each listener follows at its own pace. The release check orders versions, and
-- the button is the press that proves a person at the machine. The MP4 muxer wraps the camera's
-- H.264 units for the panel's player.
--
-- Which file models what, paths of the program from the repository's root:
--
--   Prelude       names of the libraries, tests on numbers, lists, and texts as lists of bytes
--   Lease         src/lease.c: lease_take, lease_release, lease_refusal and their kin, with
--                 lease_words; the two levels are a list, the innermost first
--   Super         src/super.c: State is the struct behind mu; Sections has wait_enter_locked,
--                 spawn_locked, reap_locked and what other threads do while mu is dropped; Stop is
--                 stop_locked, Probe the probe sequence, Pass is pass_locked in the order of its
--                 parts, Main is super_init and super_main, Api the calls of other threads
--   Jobstream     src/jobstream.c: Answers, Sending and Ticks are the three blocks of the loop of
--                 jobstream_run, Lines is jobstream_lines_gen
--   Sha256        src/sha256.c: Compress is compress, Stream has sha256_init, sha256_update,
--                 sha256_final and sha256, Hmac is hmac_sha256, Compare has ct_equal and
--                 sha256_hex
--   Session       src/session.c: State and Store are the table and its file, Login is the brake on
--                 login failures
--   Airflow       src/airflow.c: airflow_tick and airflow_reset over a run of ticks, and the two
--                 decisions on a duty
--   Camhealth     src/camhealth.c: the ladder of a capture queue
--   Gates         src/gates.c: the table of the settings and the decisions on a value
--   Crash         src/accel.c: crash_tick and crash_reset
--   Cool          src/cool.c: State is the engine's statics and what a tick reads (Sight), Fans
--                 the writes to fans and heater, Limits the settings and the effective limits,
--                 Session flood_apply and the flow check's start; Watches, Airflow, Coolant and
--                 Flow are the parts of engine_tick in its order, Tick puts them together with the
--                 cooldown, the TEC and the verdict, and Calls has the calls of other threads,
--                 cool_init and cool_shutdown, and a list of such calls and ticks
--   Holds         src/holds.c: judge and holds_read, behind the parsing of the files
--   Tokens        src/tokens.c: Caps and Checks are its sets and its tests on texts, Numbers and
--                 File the bytes of its file, and Store the operations on the table
--   Events        src/events.c: Slots is the table of addresses, Ring what mu guards, and Streams
--                 events_next among the calls of other threads; the log in Ring is the model's own
--   Relcheck      src/relcheck.c: parse_version and relcheck_is_newer
--   Button        src/button.c: the thread that waits for a press, over its rounds of readings
--   Mp4           src/mp4mux.c: Buffer is struct bb, Boxes its writes as data, Nals is each_nal,
--                 and Muxer has the public functions
--
-- The modules below these hold the proofs, named for what they prove, and the tests.
--
-- How the code is carried over. State behind a mutex is a record, and each stretch of code that
-- holds the mutex is a function on it; where pass_locked or stop_locked drops the mutex, the
-- sections that other threads run then are an input, a list of steps. A clock is read once in
-- such a stretch and is a number of milliseconds (seconds in Session and Button). What devices,
-- children, files, the random source and the HTTP layer give is an input too: an answer of open,
-- flock, waitpid, read, or the outcome of a save. What a stretch writes to attributes, and the
-- signals that it sends, are a log, the latest first. The pid that fork gives is a successor,
-- since fork gives the parent no 0. Floating point readings that are only compared are natural
-- numbers of one common scale: ten million times the code's in Gates and Cool, with a temperature
-- counted from 300 degrees below zero. Means that the flow check compares are compared with their
-- counts multiplied out, without the rounding of a float. A tick of the cooling engine is one
-- step: its device readings, the settings as conf_reload resolves them, and what is standing of
-- the extensions' holds are its input, and a call of another thread falls between two ticks. C
-- strings are lists of bytes without the terminator, cut where the code's snprintf cuts them.
--
-- Loops are recursion on what they run over. Where a loop has no such thing it has a bound: the
-- probe ladder and the polls of super_controller_stop run over their lists of rounds; taking the
-- answers apart has one round more than the buffer has bytes, and sha256_update as many as there
-- are bytes, since a round takes at least one; the padding has 64, since at most 63 zeros are
-- missing; caps_parse has one round more than the text has bytes, and load_locked one for each
-- byte of the file; each_nal has as many rounds as the unit has bytes, since a round passes one
-- at least, and the doubling of a buffer as many as it needs bytes, since a doubling adds one at
-- least; the generator of a text is called once more than the text has bytes, since each line
-- takes one at least. The loops of the daemon that do not end, super_main and jobstream_run, run
-- over a list of rounds of any length.
--
-- Integers of the program that can wrap around wrap around here: the bytes in flight of the job
-- sender (32 bits), the words and the count of bits of the hash, and the generations of the event
-- streams' slots; a number of a version is at most LONG_MAX (32 bits), as strtol gives it. Those
-- that only count events are natural numbers, and so are sizes of memory, where the allocator is a
-- test of the size asked for.
--
-- Not modelled: the child's side of fork and the waits of super_mode_switch; the formatters of
-- JSON; the sockets and the table of the senders in src/jobstream.c; the cookies, and the text of
-- the session file, which stands as the list of the sessions in it; the cut of an event's text to
-- its buffer, which no event of the program reaches; the parsing of JSON, which is a library's; in
-- the cooling engine (src/cool.c) the words of its log and of the published reason, what is
-- measured only for them, the correction of a coolant reading by the air assist's duty, the three
-- tries of a fan's write, and the JSON of its status; the firmware update, the camera and imaging
-- code, the setup wizards, the JSON of the tokens' list, the edge detector of the events, and the
-- HTTP routes.
pub mod Prelude
pub mod Lease
pub mod Super
pub mod Tokens
pub mod Jobstream
pub mod Sha256
pub mod Session
pub mod Airflow
pub mod Camhealth
pub mod Gates
pub mod Crash
pub mod Cool
pub mod Holds
pub mod Mp4
pub mod Events
pub mod Relcheck
pub mod Button
