-- ===== src/Lib.antt =====
-- ibctl: the controller of an IB Gateway process, and the theorems about its core.
--
-- The program keeps one Gateway JVM logged in. Its state machine (ibctl/src/state_machine/mod.rs) is
-- driven by transitions, commands, signals and a weekly cold restart; a recovery coordinator decides
-- how long a lost connection is retried and when an operator is called; markers on disk carry both
-- over a restart of the program.
--
-- The files, and the code that they model:
--   Base               what the modules share: Boolean tests, lists, texts (lists of Unicode scalar
--                      values, with str::trim, split and parse), words, decimal printing, integers,
--                      masks of bits.
--   Recovery           ibctl/src/state_machine/recovery.rs.
--     Decision         RecoveryPhase, RecoveryConfig, NextAction, compute_next_action.
--     Disk             the file operations of std::fs that it performs, with faults.
--     Persist          RecoveryPersistedState, load, classify_corrupt, save, clear_sidecar.
--     Coordinator      RecoveryCoordinator: boot, compute, apply, record_success; `tick` is the call
--                      of compute and apply in tick_recovery of mod.rs.
--   ColdRestart        ibctl/src/cold_restart.rs: the decision and the parser; Scheduler has the
--                      files and one round of scheduler_loop.
--     Equivalent       ibctl/src/state_machine/markers.rs.
--   Machine            ibctl/src/state_machine/types.rs, mod.rs, revocation.rs.
--     State            State, from_name, Display, client_advisory.
--     Revocation       RevocationSource and RevocationTracker.
--     Lifecycle        StateMachine's fields and apply_transition; Commands has dispatch_command,
--                      handle_command and handle_interrupt.
--     Events           ibctl/src/agent_events.rs, and handle_agent_event of mod.rs.
--     Json             serde_json's values and what mod.rs and handlers/totp_entry.rs read in dumps.
--     Handlers         the do_ functions of mod.rs: Start, Login, TwoFactor, Popups, Connected, Recover
--                      and Hitl; Transition has transition, one turn of run and its gates.
--     Park             tick_recovery and RESUME_RECONNECT: the coordinator under the state machine.
--     Probe            the task of mod.rs that probes the API port.
--     Queries          ibctl/src/state_machine/queries.rs: the JSON answers, and the snapshots in Publish.
--   CommandServer      ibctl/src/command_server.rs: the parser; Address has the access rules and
--                      Connection one connection.
--   Config             ibctl/src/config.rs: the settings of the recovery and the environment; Data and
--                      Defaults have the sections, Names the enums' texts, Overrides the environment,
--                      Load the validation and Config::load.
--   Dialogs            ibctl/src/handlers/ and ocr.rs: one child for each larger handler, Notices for the
--                      small ones, Registry for their order and dispatch, ApiConfig for api_config.rs
--                      (Settings, Screen, Pages), Commands for what mod.rs asks of the agent itself.
--                      Keeps has rules for invariants of a handler's requests.
--   SaveSettings       ibctl/src/save_settings.rs: the schedule's parser and the loop.
--   TimeSync           ibctl/src/time_sync.rs: the login delay, in Offset the clock's offset, and in
--                      Corrected the time that codes are generated for.
--   Totp               ibctl/src/totp.rs: the built-in codes, with Base32 and Sha1.
-- Each has its theorems in child modules, named for what they prove, and concrete runs in Tests.
--
-- How code becomes definitions. A method that changes `self` is a function from the old record to the
-- new one. A `?` chain on files is a block of the monad Io of Recovery/Disk. Result and Option are
-- data types. A panic is `none`. u64 counters are native natural numbers, and subtraction stops at 0
-- where the code saturates; counters that the code increments do not reach their width here. An
-- Instant is the nanoseconds since the earliest instant that the platform can represent. Signals sent
-- on a channel are part of a result.
--
-- Faults. Each operation that changes a file meets one entry of a list: it works, it fails with an error,
-- or the process dies in it, and a write that is cut short leaves any text. A rename is atomic. A list that
-- is used up means that the rest works. A read takes no entry: in the cold restart's loop the inputs of
-- a round say which reads fail, and elsewhere a file that cannot be read is a file of its own kind.
--
-- Parameters. jiff (Platform in Recovery/Coordinator, Calendar in ColdRestart), serde_json (Json in
-- Recovery/Persist) and the hasher are records of functions. IsFaithful says that JSON that was written
-- is read back; IsCalendar says that a date is a year and a day of it and that times of day are ordered
-- by hour and minute. Unicode's case tables are Casing (Base/Words), and the texts of addresses are Net
-- (CommandServer/Address), of which nothing is assumed; a sample of the time is a function of its number
-- and server.
-- Tests instantiate them. What the agent and the supervisor answer in one step
-- of a handler is the record Agent (Machine/Handlers): the calls of list_windows and of dump_components
-- in a step are numbered, and the clock is read once.
-- The dialog handlers (Dialogs) make requests of an AgentClient, whose answer to each may depend on all
-- requests before it; the screenshot reader is Ocr. Files (Config/Load) has the configuration file and
-- the toml parser. Dates (Machine/Queries/Recovery) has what jiff makes of dates there.
--
-- Loops are structural recursion on lists of inputs. Fuel is used in the printing of decimals, where a
-- number has at most as many digits as its own value, and in the padding of SHA-1, where 63 bytes are
-- enough (Totp/Padding).
--
-- Not modelled: logging, the text of JSON values and the counters of the statistics, tokio's scheduling
-- and sleeps, the JVM's process, the Java agent and the client's HTTP requests to it, the event stream,
-- the listener of the command server, the process of socat, the program's start and
-- signals, the programs oathtool and tesseract, and the dashboard.
pub mod Base
pub mod ColdRestart
pub mod CommandServer
pub mod Config
pub mod Dialogs
pub mod Machine
pub mod Recovery
pub mod SaveSettings
pub mod TimeSync
pub mod Totp
