-- ===== src/Lib.antt =====
-- battery: a manager of pools of microVMs. This library models its store, its reconciler, its
-- services, its pool of flintlock clients and the registry of its reconcilers, and proves what
-- makes them correct. Paths are from the repository's root.
--
-- The program. poolmgrd keeps pools, VMs, leases, events, hosts and placement reservations in one
-- SQLite database (internal/store). Each pool has a reconciler (internal/reconciler) that counts
-- the pool's VMs, asks its replenishment strategy how many are missing, picks a host for each and
-- provisions it with flintlock; the gRPC services (internal/api) claim, lease, renew and release
-- VMs and administer pools and hosts. All of them meet in the store: what keeps them from harming
-- one another is what each call of the store refuses and what it changes in one transaction.
--
-- Prelude, Table: Boolean tests, lists and integers; SQL tables as lists of rows with SELECT,
-- UPDATE, DELETE and ORDER BY, and their laws (Table/Laws, Table/Keys).
--
-- Types: the messages of api/proto/poolmgr/v1alpha1/types.proto, as types.pb.go declares them. Of
-- flintlock's MicroVMSpec it has the fields that the program reads or writes. A timestamp is a
-- natural number of nanoseconds, from the least time on that an int64 of UnixNano can hold, and a
-- duration a signed number: Prelude/Time has UnixNano, which wraps, AsDuration, which saturates,
-- and Add. What is stored is wrapped, and theorems that need a time to be storable say so.
--
-- Store: internal/store. Store/Error has the sentinel errors of store.go; Store/Rows the row types
-- and conversions of convert.go, with the JSON columns decoded; Store/Db the database as a record
-- of tables, and Tx, a call as a function from a database to an error or a value and a new
-- database, so that an error is a rollback. Store/Pools, Store/Vms, Store/Leases, Store/Events and
-- Store/Hosts have one function for each method of sqliteStore, named as the method is
-- (ClaimAvailableVM is claim_available_vm), with the constraints of schema.sql as guards. The clock
-- is an argument, and so is the row that SQLite chooses where a query has LIMIT 1 and no order:
-- theorems hold for every choice. Store/Call lists the calls that write; since the store has one
-- connection, a history is a list of calls, and `run` applies one. Store/Outcomes has a case rule
-- for each such call, and Store/Moves says what a call may do to each table; the files of proofs
-- (WellFormed, Deleting, Claim, Leasing, Expiry, PoolDelete, Cordon, Drain) rest on these.
-- Store/RoundTrips has the conversions. Store/Migration is Open with the migrations, over the names
-- of tables, columns and indexes.
--
-- Reconciler: Strategy is internal/reconciler/strategy.go, HostPick is hostpick.go, and Count the
-- counting and the static network cap of reconciler.go. What these functions read from the store is
-- an argument, errors of the store included. Counts are natural numbers without a bound, since a
-- count is of records in memory; the one conversion to int32 wraps as Go's does.
--
-- World: what a program outside the store does. A program takes the world, which is the database,
-- the number of its next action and what it has done outside the store, to a result and a new
-- world. Its environment says, for each action, which calls the store serves for other goroutines
-- before it, whether the store call fails (and is rolled back), what the clock shows and what
-- flintlock answers: theorems for every world hold under every interleaving. World/Rules has the
-- case rules, and World/Quiet those for a world in which no other goroutine calls the store.
--
-- World/Steady has the rules for programs that keep a property of the database, and those that
-- never end with an error.
--
-- Reconciler/Deletion: EmitEvent, EnsureVMDeleted, FinishVMDeletion and FinishVMRelease of
-- internal/reconciler/provision.go, and beginExpiry of sweeper.go. Reconciler/Policy is its hook
-- failure policy and deleteOrphan, and Reconciler/Provision is Provision, waitCreated and
-- updatePhase: the proofs go through its steps backwards (Hooks, then Making, then Outcome), with
-- Added for the set of AVAILABLE VMs. Reconciler/Loop is New, Run with the wakes as a list,
-- reconcile and provisionN of reconciler.go. Reconciler/Sweeper is Tick with what it calls, and
-- DeleteDrainedVMs of drain.go. Reconciler/Recovery: RecoverAbandonedProvisions and
-- RecoverAbandonedClaims of reconciler.go.
--
-- Api/Status has the replies. Api/Lease: Heartbeat, ReleaseVM and ListLeases of
-- internal/api/lease.go; Api/Claim is ClaimVM, with replayClaim, yieldClaim and runPreLeaseHooks.
-- Api/Pools: the checks of pool specs and the counts of internal/api/pooladmin.go, and
-- Api/PoolAdmin its handlers. Api/HostAdmin: internal/api/hostadmin.go. Api/Events: the batches of
-- Subscribe in internal/api/events.go.
--
-- Manager: internal/poolmanager/manager.go. Each critical section of its mutex and each close of a
-- `done` channel is one event, and theorems are about every history of events.
--
-- FlintlockClient: the client pool of internal/flintlockclient/pool.go, with the validation of
-- hosts and Dial; FlintlockClient/Version is version.go. A connection is a number, and the state
-- has the numbers that are open. Calls of CheckVersion may overlap: what others record while one
-- waits for its answer is an argument. What files, x509, grpc.NewClient and golang.org/x/mod/semver
-- answer is an argument. The programs of World see the client pool only as the environment's
-- answers.
--
-- Examples: a small database and pools, and the theorems at them.
--
-- Every definition is structurally recursive. The rounds of waitCreated are bounded by the number
-- of ticks before its deadline, which is the environment's and finite since the deadline is. The
-- rounds of Subscribe are bounded by an argument, and its theorem says which bound is enough.
--
-- Programs that run concurrently in the source and whose order nothing depends on (the deletions of
-- drained VMs and of a deleted pool's VMs) run in the order of their list. The Provision calls of
-- one reconcile run one after the other; a call of another goroutine may come between any two of
-- their actions. The locks by host, by pool and of hostRefsMu are not modelled: an environment may
-- let any call of another goroutine come in between, so theorems for every world hold with the
-- locks as well.
--
-- Not modelled: SQLite itself (a call is atomic, which its transactions and the single connection
-- give), JSON encoding, gRPC, flintlock's side, the waiting and running of commands in exec.go of
-- internal/flintlockclient, logging, the texts of errors, and metrics; the tickers and channels
-- that wake the reconciler and the sweeper; the daemon's wiring and the command line client.
pub mod Prelude
pub mod Table
pub mod Types
pub mod Store
pub mod World
pub mod FlintlockClient
pub mod Manager
pub mod Reconciler
pub mod Api
pub mod Examples
