-- ===== src/Lib.antt =====
-- The BOSH CPI for LXD and Incus: a program that BOSH runs for each request about a VM, a disk, a
-- stemcell or a snapshot, and that asks an LXD or Incus server for what the request takes.
--
-- Parts and files (paths are from the repository's root):
-- - Config: `src/config/config.go` and the `config.go` of `src/adapter`, `src/agentmgr` and
--   `src/throttle`. The configuration as records; its loading over a decoder.
-- - Adapter: `src/adapter`. Adapter/Interface is `ApiAdapter` as a record of actions, one field for a
--   method. Adapter/Lxd and Adapter/Incus implement it, file by file (device.go is Device, volume.go
--   is Volume), over what Adapter/Client lists of the client libraries. Adapter/Agreement compares
--   the two.
-- - Cpi: `src/cpi`. Cpi/State is the struct `CPI`; Cpi/Vm, Cpi/Create, Cpi/Disk, Cpi/Snapshot and
--   Cpi/Stemcell hold the operations, under the Go names in lower case (`DeleteVM` is `delete_vm`);
--   Cpi/Factory is `factory.go`;
--   Cpi/Devices, Cpi/Agent and Cpi/Errors are the `utils_*.go`. Cpi/Requests is the specification's
--   view of an adapter: the same adapter with a list of the changes it was asked for.
-- - AgentMgr: `src/agentmgr`. The agent's settings in a local file and on a disk image;
--   AgentMgr/Image/Steps is the specification's view of the file systems, which lists what they did.
-- - Throttle: `src/throttle`. The server's handlers as functions on its state, and the client;
--   Throttle/Server/Promise is the specification of the server as a step relation on the map that it
--   holds, and Throttle/Together puts the client in front of the server.
-- - Cmd: `main.go` of `src/cmd/cpi`, `src/cmd/cleanup`, `src/cmd/throttle` and `src/cmd/tc`, from the
--   loading of the configuration to the exit status.
-- - Base: Go's maps, texts, errors and effects. Tests: runs on small worlds.
--
-- How Go is rendered. A call takes a world `W`, which stands for all that is outside of the
-- process, and returns a result and a world; a result is a value, an error or a panic. An
-- operation that returns both a value and an error beside it returns a pair. A map is the list of
-- its entries in the order in which one `range` visits it, so that a statement on every list is
-- one on every order. An `int` that is a size or a count is a natural number (no code path gives a
-- negative size a meaning of its own), and the code's only arithmetic on one is an addition of one
-- or a division. What is read outside (the clock, the generator of ids, JSON, YAML, tar and gzip,
-- go-diskfs, the client libraries) is a parameter of any behaviour; a theorem that relies on some
-- of it names that as a hypothesis.
--
-- Fuel: `decimal`, the verb `%d`, recurses on fuel, one more than the number, which has no more
-- digits than that. `lock_and_wait` recurses on the list of the replies that it gets, and
-- `lock_and_wait_at_most` on a number of calls of `Lock`; Throttle/Together/Turn shows how many are
-- enough.
--
-- Read as given: the maps that a server returns are not nil where the code stores into them; sizes
-- and durations are not negative (a negative size of an ephemeral disk, which makes no disk, is read
-- as 0); the generator of ids and the JSON encoder of the throttle server, and the reading of a body,
-- return, with or without an error.
--
-- Not modelled: logging, options of the command line, the vendored libraries and the packaging of
-- the release.
pub mod Base
pub mod Config
pub mod Adapter
pub mod Cpi
pub mod Throttle
pub mod AgentMgr
pub mod Cmd
mod Tests
