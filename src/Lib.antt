-- ===== src/Lib.antt =====
-- EdgelessDB: a model of the Go code that runs MariaDB in an enclave.
--
-- The program gets a master key for the storage engine, starts or bootstraps MariaDB from a manifest,
-- and serves an API over which clients verify the node, apply a manifest and recover a key.
--
--   edb/core     the object Core: key.go (module Core.Key), core.go (Core.States, Core.Certificate,
--                Core.Lifecycle), config.go (Core.Environment). Core calls the database through an
--                interface, and the enclave through the runtime.
--   edb/db       interface.go (Db.Interface), mariadb.go (Db.Mariadb: Config for the files that are
--                written, Bootstrap for Initialize, Startup for NewMariadb and Start), marblerun.go
--                (Db.Marblerun), util.go and edb/util/util.go (Db.Util).
--                The tests' database, mock.go, is Db.Mock.
--   edb/server   server.go (Server.Response, Server.Handlers, Server.Mux with the table of paths and
--                RunServer); Server.Schedule has the requests that are served at the same time.
--   edb/rt       console.go (Rt.Console), the tests' runtime mock.go (Rt.Mock).
--   cmd/edb      run.go (Cmd.Run), error.go (Cmd.Diagnosis), enclavemain.go (Cmd.EnclaveMain, with its
--                paths in Cmd.Paths), main.go (Cmd.NativeMain), invokemain.go (Cmd.InvokeMain),
--                mariadbd.go and restart.go (Cmd.Bindings). Cmd.Serve is run with its server.
--
-- Each function or method of the source is a definition of the same name in snake case, in the monad
-- of World.Monad: a call takes the state (World.Memory: environment, disk, the fields of Core, the
-- database object) and ends with a value, with an error, or by stopping: a panic, the end of the
-- process (log.Fatalln, or a panic of another goroutine), or a wait that has no end, for a mutex that
-- its own goroutine holds or for mariadbd. An error keeps the state that the code had changed.
-- A `defer c.mutex.Unlock()` is `defer_unlock`, which runs for values, errors and panics. Frames follow
-- the code by rules (World.Frame, World.Progress, World.Tame): what a call leaves alone, and that it
-- never waits forever.
--
-- Requests that a node serves at the same time are a relation on states (Server.Schedule): a step is a
-- part of a request that the mutex keeps whole, the part of Initialize before it takes the mutex, or a
-- request to /quote, which takes no mutex and changes nothing, so that any number of requests
-- interleave there. A /quote in the middle of a part that the mutex keeps whole, between two writes of
-- a Recover, is not a step. net/http recovers the panic of a request; a fatal error
-- ends the process, and behind a deadlock there is no step. The data race of an Initialize that reads
-- the master key while Recover writes it is not in the model: such a read is before the write or behind.
--
-- The lives of a node (Node.Lives) are a relation on disks: a stretch of a process is a run, whatever it
-- comes to, or a sequence of steps of requests, and the next process finds the disk that is left. The
-- abstract view of a node there is a register that is written once, the row of the table
-- $edgeless.config; Node.Served follows what a client reads from the request that applies a manifest to
-- all later lives. World.Invariant has the rules by which code keeps a predicate on the state, and
-- Node.Intact the predicate and what MariaDB documents of the row, Node.Found that a start finds the
-- database. What MariaDB documents is about the
-- text of the files that it is handed, which Db.Mariadb.Script has statement by statement, apart from
-- the code that writes them. The predicate is for whatever a disk
-- holds apart from the files that are written: in Node.Recovered it is the key file, and the code is
-- Recover, which is followed by the load of the next process.
--
-- Code that is not in the repository is a record of functions, Host (World.External), that the
-- definitions take as an argument: the enclave runtime, cryptography, JSON and PEM, the faults of the
-- operating system, and mariadbd, whose bootstrap gives a code and a new disk, and whose start
-- listens, returns or does neither. The Go library's hex,
-- base64, net, path/filepath and strings functions that the code relies on are defined in Std.
--
-- Strings and byte slices are lists of numbers. The only recursion is on lists, but for the decimal
-- digits of a number, which have fuel for the number's size plus one (a number has fewer digits), and
-- for the wait for mariadbd (Cmd.Bindings), which ends with fuel for the looks at the flag up to one that
-- finds it set.
--
-- Not modelled: the parsing of flags, the TLS listener (a parameter of run with its server), the redirects
-- of net/http for paths that are not clean, the bodies of the C functions behind the bindings, the
-- generated SQL (a parameter), and the C++ sources. The console's descriptors stand apart from the other
-- state, and a mount is an entry of a list: paths below it are not looked up on the host. Log lines are
-- left out; what users act on (recovery data, diagnoses) is kept in the field `printed`. A file system
-- is a map of paths: parents, links and permissions are not looked at. The restart of the process,
-- which a goroutine does a second later, is a flag. A mariadbd that returns later than while `Start`
-- waits for it to listen, which ends the process, is not modelled.
pub mod Prelude
pub mod Std
pub mod World
pub mod Db
pub mod Core
pub mod Server
pub mod Node
pub mod Cmd
mod Examples
pub mod Rt
