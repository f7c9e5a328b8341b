-- ===== src/Lib.antt =====
-- Verification of the remote executor: a Rust server that runs shell commands, reads files and
-- edits them for a remote caller, and the caller's side of it.
--
-- Which file models which part:
--   Base (Base.antt, Base/): native numbers and their Boolean tests, lists, the stable sort of
--   the standard library, and `Outcome`: a value, an `Err`, or a panic, which an index or a slice
--   out of range causes.
--   Text (Text.antt, Text/): what the program uses of Rust's `str`. A text is a list of
--   Unicode scalar values, and byte offsets are counted in UTF-8, which Text/Utf8.antt encodes
--   and decodes.
--   FileAction/Types.antt: the structs and enums of file_action/mod.rs, and its errors, one
--   constructor for each message.
--   FileAction/Binary.antt: `apply_binary_hunks`, `hunk_to_binary_operation`, `byte_range_end`,
--   `ensure_append_offset`. `usize` has 64 bits. FileAction/Binary/Parse.antt: `parse_binary_patch`
--   and the readers it calls. Edits, Ranges, Overlap, Totals, Laws and Accepted hold proofs.
--   FileAction/Hex.antt: `decode_hex`, and `hex_lower` of src/tools/fs/mod.rs. RoundTrip and
--   Boundaries hold proofs.
--   FileAction/Lines.antt: `apply_line_patch`, `mark_line_removal`, `resolve_line_insertions`,
--   `push_line_insertions`, `line_text`, `ensure_line_range`, `LineInsertTarget::index`.
--   FileAction/Lines/Parse.antt: `parse_line_patch`, its readers and `apply_line_text_patch`.
--   FileAction/Lines/Snapshot.antt is the description that it is compared with; Marks, Ops, Place,
--   Emit, Laws and Accepted hold proofs.
--   FileAction/Shape.antt: `TextShape`, `detect_line_ending`, `normalize_to_lf`,
--   `restore_line_endings`, `binary_byte`. FileAction/Shape/RoundTrip.antt holds proofs.
--   FileAction/Hash.antt: `normalize_hash_code`, `hash_bytes` and the hash check.
--   FileAction/Hash/Normal.antt holds proofs.
--   FileAction/Report.antt: `result_from_file_with_diff`, the `PatchFile` of each action, diffs.
--   FileAction/Actions.antt: `file_action` and the action of each mode, from a state of the disk
--   to the next; Actions/Change.antt lists the changes that may be made; Laws and Success hold
--   proofs.
--   Dict.antt, Json.antt: maps whose keys are texts, and `serde_json::Value`, with `json_merge` of
--   src/settings/mod.rs. Dict/Laws.antt and Json/Merge.antt hold proofs.
--   Paths.antt: what the program uses of `Path`, and `ToolContext::resolve` of src/context.rs.
--   Protocol.antt: the messages and results of src/protocol.rs.
--   Settings.antt: the data of src/settings/mod.rs. Settings/Shell.antt: profiles, candidates and
--   arguments. Settings/Load.antt: the layers of settings files. Settings/Store.antt: the operations
--   of `SettingsStore`, whose locked state is passed on. Settings/Tools.antt: `list_shells`,
--   `set_default_shell`, `request_reload`. Valid, Valid/Kept, Reach, Change and Args hold proofs.
--   Caller.antt: the data, addresses and call timeouts of src/caller/mod.rs. Caller/Remote.antt:
--   `call_ws`, `refresh_info` and `call` of an endpoint. Caller/Transfer.antt: the plan of a file
--   transfer. Caller/Handle.antt: `handle` and the tools of the caller, from one `CallerState` to the
--   next. Handle/Cases, Laws, Reach and Reach/Answers hold proofs.
--   Executor.antt: the data, tool timeouts and the description of src/executor/mod.rs.
--   Executor/Handle.antt: `handle`, `dispatch_tool` and the stores of directories. Timeouts, Info and
--   Handle/Configured, Configured/Kept and Configured/Beside hold proofs.
--   Fs.antt: the data of src/tools/fs/mod.rs and the disk that it asks. Fs/Page.antt: the pages of
--   `read_dir` and `read_file`. Fs/Stamp.antt: `stat_path` and the stamps. Fs/Read.antt: `read_path`
--   and the reading of text, directories and bytes; Read/Listing holds proofs. Fs/Glob.antt: `glob_paths` over the entries of
--   a walk. SoftTimeout.antt: src/tools/soft_timeout.rs.
--   Caller/Mcp.antt, Mcp/Messages.antt and Mcp/Catalogue.antt: src/caller/mcp.rs, its answers, its
--   messages and the schemas of its tools. Messages/Answers holds proofs.
--   FileTransfer.antt: the data of src/file_transfer.rs. FileTransfer/Prefix.antt: how a transfer is told
--   from a WebSocket. Request.antt: `read_http_request` and the headers. Response.antt: what is
--   written. Body.antt: `receive_upload_body`. Handle.antt: `handle_download`, `handle_upload` and
--   `handle_file_transfer_http`. Laws.antt is what is assumed of a disk; Prefix/Stable, Response/Lines,
--   Body/Received, Body/Kept, Handle/Placed, Handle/Answers, Handle/Target and Handle/Download hold proofs.
--   Shell.antt: the data of src/shell_manager.rs and what it calls of pty_t_core. Shell/Manager.antt: the
--   operations of `ShellManager`. Shell/Socket.antt: src/websocket.rs. Shell/Events.antt: the order in
--   which the operations come. Clients, Events/Maps, Events/NonEmpty and Events/Locked hold proofs.
--   Exbash.antt: the data of src/tools/exbash. Exbash/Options.antt: the checks of the options. Exbash/Runs.antt:
--   labels and details. Exbash/Jobs.antt: `start_job`, `stop_run`, `remove_run`, `spawn_timeout`.
--   Exbash/Waits.antt: the waits and `attach`. Exbash/Attach.antt: mode attach. Exbash/Modes.antt: `exbash` and
--   its other modes. Options/Limits, Jobs/Ends, Waits/Time and Attach/Deadline hold proofs.
--   Tests.antt, Tests/: the functions at concrete inputs.
--
-- How the parts interact: a binary patch is text that `parse_binary_patch` turns into hunks, with
-- `decode_hex` for their bytes; `apply_binary_hunks` turns each hunk into a range of the file,
-- sorts the ranges and splices. A text file is read into its shape and a text with "\n" line
-- ends. A line patch is text that `parse_line_patch` turns into instructions, which
-- `apply_line_patch` applies to the lines of that text: an array marks removed lines, another holds
-- new texts, and a queue holds insertions. `file_action` reads the file, checks its hash code, runs
-- one of the two patches, and writes; or it creates, deletes or renames. The settings
-- store is loaded from a base file and an overlay, which `json_merge` joins; the shell that runs a
-- command is resolved in it. A caller keeps a table of endpoints: it
-- asks an executor for its description, `executor_info_result`, when it connects, and then forwards
-- requests to the endpoint that they name or to the default; the executor picks the settings store of
-- the request's directory and runs the tool on it. The first bytes of a connection decide whether it is
-- a file transfer or a WebSocket; an upload goes to a temporary file that takes the target's place
-- when it is complete. exbash runs a command in a terminal of the shell manager, waits
-- for its end or leaves it running, and attaches to it later; clients of the WebSocket share the terminal, of
-- which one has control.
--
-- Loops are structural recursion: over the list that the source walks, or over the rounds that are
-- left of a range; decimal printing has fuel for the 39 digits of 128 bits, and the dump a row for
-- each byte at most. A wait of n milliseconds has n + 1 rounds, each of which but the last
-- sleeps at least one; a wait whose rounds run out has no result, and the calls that wait pass this on, so that
-- no theorem takes it for an answer. Sums of sizes wrap at 2 ^ 64.
--
-- Not modelled: the tool rg, the sockets, the tasks that copy between a channel and a socket, the
-- programs that start the servers, and `ToolContext::title`, which is only shown. Locks are not
-- modelled: an operation is one step on the state that its lock guards. `set_default_shell` takes its
-- lock twice: Settings/Reach.antt has its two sections as two steps, between which other changes may
-- come, and Executor/Handle/Configured/Beside.antt has whole requests between them; otherwise the
-- executor's requests are handled one after another. While a stop waits for the end of a run, timers
-- of runs may come, which are given as a list; no other request acts meanwhile. The network and the
-- passing of time are parameters. The calls of the disk, of pty_t_core, SHA-256 and the printing of
-- diffs are not code of this repository: they are parameters, and a call that changes the disk may
-- fail.
pub mod Base
pub mod Text
pub mod Dict
pub mod Json
pub mod Paths
pub mod Protocol
pub mod Settings
pub mod Caller
pub mod Shell
pub mod Exbash
pub mod Executor
pub mod SoftTimeout
pub mod Fs
pub mod FileTransfer
pub mod FileAction
mod Tests
