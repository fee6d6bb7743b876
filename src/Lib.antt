-- ===== src/Lib.antt =====
-- paur: a daemon that builds packages of the AUR in containers and serves them as a pacman
-- repository. This library models its core, the crates paur-core, paur-db, paur-aur, paur-builder,
-- paur-s3, paur-repo, paur-daemon and paur-cli, and proves what keeps it correct.
--
-- The parts, and where they are:
-- - Core: crates/paur-core/src. `Core.Name` is `PkgName::new` of name.rs, `Core.Flags` and
--   `Core.Variants` are build_flags.rs, `Core.Auth` is auth.rs,
--   `Core.Config` is `load` of config.rs. `Prelude.Results` is `Error` of error.rs.
-- - Db: crates/paur-db/src. `Db.Models` holds the rows, `Db.Packages`, `Db.Builds`, `Db.Logs`,
--   `Db.Settings` and `Db.Sessions` the methods of `Db` in queries.rs, under their names. `Db.Invariant`
--   is the well-formedness of the database, and its children are about the statements and it;
--   `Db.Lifecycle` follows one build. `Db.Statements` is the specification of what a task can do to the
--   database, the relation of one statement and of a sequence of them, and `Db.Progress` the order in
--   which builds go through their states.
-- - Aur: crates/paur-aur/src. `Aur.Info` and `Aur.Srcinfo` are the data and the parser of
--   srcinfo.rs, `Aur.Refs` is `aur_url` and `latest_ref` of lib.rs.
-- - Builder: crates/paur-builder/src/lib.rs, `run_in_container` and `list_artifacts`;
--   `Builder.Local` is `run_local_in_container`, and `Builder.RepoOps` is
--   `run_repo_op` with the functions of container/build.sh that update a database.
-- - S3: crates/paur-s3/src/lib.rs, the keys, the URLs and the retries of `put` and `delete`;
--   `S3.Signing` is `sign_request`.
-- - Repo: crates/paur-repo/src/lib.rs, `publish_with` and `remove_with` over the interface `RepoOps`, and
--   `ContainerRepoOps`, which implements it. The files are a function from paths to contents, an
--   operation takes them to the next files and a result (`Prelude.Effects`, `Prelude.Disk`), and
--   `HostLaws` and `ToolLaws` are the documented behaviour of `fs::copy`, gpg and pacman's tools.
-- - Daemon: crates/paur-daemon/src. `Daemon.State` is `AppState` and the log sink of worker.rs,
--   `Daemon.Worker` is `process_one`, `run_worker` and `run`, `Daemon.Poller` is `poll_once` of
--   poller.rs (`Daemon.Poller.Due` says which packages are due), `Daemon.Api` the handlers of api.rs, `Daemon.Auth` is auth.rs. `Daemon.Steps` is the
--   relation of the steps of all tasks, which are sequences of statements; `Daemon.Worker.Drained` is
--   about the loop of the worker.
-- - Cli: crates/paur-cli/src. `Cli` is `add`, `remove` and `rebuild` of cmd.rs with the requests of
--   client.rs, and the parsers of main.rs and output.rs; `Cli.Flag` is `flag`. A request is the call of
--   the handler that its route has, as the daemon on the same host admits it; for the routes that read
--   an `AddPackageBody`, `Cli.with_body` is its deserializer, which answers 422 to a body without a name.
-- - Examples: the laws at concrete inputs.
--
-- The parts meet in the state: the handlers and the poller enqueue builds in the database, `send_wake`
-- puts ids in the channel to the worker, and the worker claims the build with the id that it takes out
-- of the channel, runs the builder and writes the end of the build.
--
-- How the code is modelled:
-- - A statement of SQL is an operation on lists of rows in the order of their rowids. Keys, unique
--   columns, references, cascades and AUTOINCREMENT are written out, and a violated constraint is the
--   error `db`; failures of SQLite itself are not modelled. Columns that a CHECK constrains are the
--   enums, but `variant` is a text, as in the row. SQLite leaves the order of rows with equal keys of an
--   `ORDER BY` open: the model takes the rowid, latest first where the order is descending. JSON columns hold the values that serde writes.
-- - Errors carry no message. Times are arguments, in seconds. Numbers that are i64 or usize in the code
--   are natural numbers: they count rows, seconds and bytes, and do not get near their bounds.
-- - A text is the list of its code points; its length is that of its UTF-8 encoding. A path is a text,
--   and `join` is `Path::join` of a directory and a relative path.
-- - The maps of `AppState` are the lists of their keys, the channel to the worker is a list, and a
--   handler or a round of the worker takes the state to the next state and an answer. What other
--   tasks can come between are separate definitions (`next_log_seq` and `insert_log`, `write_line`,
--   `finish`), and the steps of `Daemon.Steps`; the statements of `Db.Statements` come in any order.
-- - The container, `git ls-remote`, the publishing of artifacts, the clock and the hashes of the crates
--   sha2, hmac, bcrypt and hex are parameters: the records `Container`, `Outside`, `Crypto` and `Hashes`.
-- - The endless loop of the worker is cut to a number of rounds, and the laws hold for every number.
--   Every other loop is over a list.
--
-- Not modelled: the creation, listing and export of keys in crates/paur-repo, the transport of S3
-- requests, the commands of crates/paur-cli that print, follow a log or set the host up, the
-- directories of paths.rs, logging, routing and file serving, and the web interface: they start
-- processes, move files or are not Rust. Of the modelled files, the removal of work directories,
-- the export of the public key, the log file and the subscribers of a live log are left out.
pub mod Prelude
pub mod Core
pub mod Db
pub mod Aur
pub mod Builder
pub mod S3
pub mod Repo
pub mod Daemon
pub mod Cli
pub mod Examples
