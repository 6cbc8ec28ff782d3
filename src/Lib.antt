-- ===== src/Lib.antt =====
-- The ZooKeeper K8s operator: a charm that runs Apache ZooKeeper on Kubernetes under Juju.
--
-- The program. Juju runs one hook of one unit at a time. A hook builds the charm object of
-- src/charm.py, reads the relation databags through the models of src/core/models.py and the flags of
-- src/core/cluster.py, and acts through the managers of src/managers and the event handlers of
-- src/events. The units of the application share its databag, which only the leader writes, and each
-- unit writes its own; the databags are the only memory between hooks. The leader brings the started
-- units into the quorum, one at a time, and tells the clients where the cluster is.
--
-- How it is modelled.
--   - Base: the shared names, lists over native numbers, and Outcome, the result of code that may
--     raise. Text: Python's text functions. Samples: a small application for the tests.
--   - Databag: a databag as a Python mapping, and RelationState.update (src/core/models.py).
--   - Literals: src/literals.py and src/core/stubs.py. Models: the classes of src/core/models.py, with
--     Models.App for ZKCluster, Models.Server and Models.Bundle for ZKServer, Models.Client for
--     ZKClient. A name of the model is the Python name.
--   - State: ClusterState (src/core/cluster.py); State.Turns has the order in which the servers start,
--     State.Health the statuses, State.Endpoints the addresses for clients.
--   - Charm: the handlers of src/charm.py, as functions that take an Observed (what the hook learns
--     from outside: leadership, health, generated secrets, the ZooKeeper client) and a Charm (the state,
--     files, status, and the trace of effects so far) and give a result or an exception with the charm
--     as it then is. Charm.Monad composes them, and attempt stands for a try statement;
--     Charm.Monad.Adds is about what they add to the trace.
--   - Config, Tls, Quorum: src/managers/config.py, src/managers/tls.py, src/managers/quorum.py.
--     Quorum.Members has the members after an update, Quorum.Ledger the record of them, and
--     Quorum.Acls the access rights, with Quorum.Acls.Grants for the calls of a whole update.
--     Config.Changes.Environment reads the environment file back.
--   - K8s: src/managers/k8s.py, with K8s.Services for the services that it builds.
--   - Backups: src/managers/backup.py over a record ObjectStore of the storage's calls, with
--     Backups.Files for the calls that a restore makes on the unit's disk, and Stream for the adapter
--     that reads a response as a file.
--   - Workload: the paths of src/core/workload.py and the files of src/workload.py, with Workload.Admin
--     for its health checks and the version, Workload.Passwords for the passwords, and
--     Workload.Container for the calls of the container, as a trace. Charm.Pebble has the layer that
--     the service is started with.
--   - Events: src/events, one module per file; Events.Restore is the restore workflow of
--     src/events/backup.py.
--   - Events.Restore.Flow is an abstract view of that workflow: the progress of all units, and a step
--     relation for the hooks in any order. Events.Restore.Refine links the handlers to it,
--     Events.Restore.Local says what one whole hook does to the facts that its unit sees, and
--     Events.Restore.Network has the databags of all units, changed by the hooks that the units run in
--     any order. Events.Restore.Termination measures the work that is left, Events.Restore.Returns is
--     about the flow's exceptions, and Events.Restore.Rounds about rounds in which each unit of that
--     network runs a hook, with Events.Restore.Turns for a unit's turn in a round.
--   - Events.Hooks: which handlers a hook runs for each event, in the order of the registrations in
--     the `__init__` methods of src/charm.py and src/events, after those that were deferred; what a hook
--     emits is handled in it too. The modules named Keeps are about what each handler leaves
--     alone, on the records of Charm.Monad.Fields.
--
-- Bounds and fuel. The retries of the code are recursion on the number of attempts, 3 in the restore
-- flow, 5 after an upgrade and 5 for the health of the service. The end of a restore is found with
-- as much fuel as there is work left; in rounds of hooks, with four for each unit and five more.
-- Printing a number takes the number as fuel, which is at least its number of digits. Reads of a stream
-- take the number of reads, and the number of bytes is enough.
--
-- What is assumed. The ZooKeeper client is the record ZkAdmin of answers; that it removes and adds what
-- it is asked to is a named hypothesis of the theorem that needs it. A set of servers is a list in an
-- arbitrary order, and two units may see different orders. Secrets and plain fields of the
-- application's databag are one mapping, as the data interface library gives them to the code. A unit
-- has Juju's name, and its number is what the code parses out of it. In the network, a hook that raises
-- leaves the databags as they were, since Juju discards what it wrote, and every unit sees the databags
-- of all the others. The object storage keeps what is put, as a named hypothesis. Python's find on a
-- text with a number in it is not computed: that the limits do not name the dynamic file is a hypothesis.
--
-- What is not modelled: the libraries under lib/charms, the boto3 session and the table of backups
-- that the rich library formats, the handlers that the libraries register for themselves, and
-- logging. Outside of the restore flow, a start or restart of the service, and the reading of its
-- version, is one effect, without the exceptions of the container. In the network, units neither
-- come nor go, and the restart that the library of rolling operations may run while it is asked for
-- the lock stands behind the handler that asked.
pub mod Base
pub mod Text
pub mod Databag
pub mod Literals
pub mod Models
pub mod State
pub mod Workload
pub mod Config
pub mod Charm
pub mod Tls
pub mod Quorum
pub mod Events
pub mod Stream
pub mod Backups
pub mod K8s
pub mod Samples
