-- ===== src/Lib.antt =====
-- Verification of spyder, a daemon that manages mobile devices, simulators and emulators for its
-- callers: who holds a device, which device a request gets, which simulators stand ready, and what the
-- daemon knows of the health of each.
--
-- The parts and how they interact.
--
--   * A caller names a device by a selector. internal/selector matches it against the candidates, which
--     the device adapters and the inventory list, skips those that internal/reservations has reserved,
--     and asks the simulator pool if nothing else fits.
--   * internal/reservations records who holds which device and until when; every operation on a device
--     asks it first.
--   * internal/pool keeps simulators and emulators in three tiers (available, running, reserved), and
--     records what is reserved in the ledger of internal/poolstore.
--   * internal/health keeps the state of each monitored thing. Its watchdog, its supervisor and its
--     classifier drive or read that state, its notifier tells the user of what needs attention, and its
--     limiter bounds how often the daemon restarts itself.
--
-- The files.
--
--   * Prelude and its children: names of the libraries, Boolean tests, lists, association lists with
--     unique keys for Go's maps, Go's integers, byte strings.
--   * Reservations: internal/reservations/reservations.go. `Store` is the struct less its lock and its
--     file; `acquire`, `release`, `renew`, `authorize`, `get`, `list_active`, `save` and `load` are the
--     methods of those names (`list_active` is `listLocked`, `load` is `New` with `load`). `serve`
--     (Reservations/Touches) takes a call as a value.
--   * Selector: internal/selector/selector.go. Selector/Match is `matchCandidate`, Selector/Version is
--     `compareVersion`, Selector/Resolve is `Resolve`. Strings are lists of bytes. Selector/Strings is
--     `ParseSelectorString` of parse_string.go.
--   * Pool: internal/pool/pool.go and config.go. Pool has the state and the lookups, Pool/Ledger is
--     internal/poolstore/poolstore.go, Pool/Lifecycle is what happens to one instance (`mintInstance`,
--     `bootInstance`, `markReserved`, `shutdownInstance`, `destroyInstance`), Pool/Calls has `Acquire`,
--     `Release`, `onLingerExpired`, `ForceShutdown` and `Warm`. Pool/Sound has a relation of elementary
--     moves on the pool; Pool/Steps, Pool/Acquire, Pool/Retire, Pool/Drain and Pool/Warmth read each
--     call as a sequence of moves, and Pool/Serve takes histories of calls.
--   * Health: internal/health. Health/Entity is one entity and Health/Model the map of them (model.go),
--     Health/Calls takes the model's calls as values, Health/Watchdog is watchdog.go, Health/Supervise
--     is supervise.go, Health/SelfRestart is self_restart.go, Health/Classify is classify.go, Health/Notify is
--     notify.go. In Health/Watchdog, `check`, `force_stall` and `done` are the parts of the calls under the
--     lock, with the calls on the model that are left to make; `act` is the next step of a goroutine, or a
--     call of somebody else on the model. In Health/Notify, `watch` is an operation of the model, whose
--     transition then waits, or the handling of one that waits.
--   * ServicePool: internal/goios/pool.go, the connections to a device's services that concurrent callers
--     share. `Shared` is what the lock guards, with the entries in a heap; `move` (ServicePool/Threads) is
--     the next step of a thread in `AcquireLease`, in the release or the cancellation of its lease, or in
--     `Invalidate`, `Close` or the sweeper, and a schedule is a list of such steps.
--   * UsbSpeed: internal/usbspeed/ceiling.go, the highest link speed seen per device, with `CanonicalID`
--     of speed.go.
--   * DevPolicy: `Resolve` of internal/devpolicy/policy.go, the development flags of an app,
--     and `Validate` (DevPolicy/Validate).
--     DevPolicy/Sessions is session.go, the overrides that a run sets and keeps alive; DevPolicy/Dispatch is
--     what `Reconcile` of controller.go sends to one peer, decided (`push`) from what its worker has taken.
--   * A module called Tests beside each part has inputs, and runs of the theorems on them.
--
-- How state is read. A method under its lock is one step, a function from the state and the arguments to
-- the new state and the result; in ServicePool, where the order of the threads matters, each locked
-- section, each operation on a permit and each call of a connection's factory or closer is a step of its
-- own, and the watchdog and the notifier, which act on the model after an unlock, are taken apart in the
-- same way. Errors are values. A pointer into a map that is changed through the
-- pointer is written back under its key. Go iterates over a map in any order; the lists that stand for
-- maps are iterated in their order, and the statements hold for every list.
--
-- Numbers. Times are numbers of nanoseconds, and 0 is Go's zero time. Durations and `int` are integers
-- without wrap-around, but for the products that the code guards against or that a large configured
-- number reaches (the backoff and the linger time), which wrap at 64 bits. Loops are recursions on
-- lists or on the count of a loop, so no fuel is needed; the retries of the supervisor, which the code
-- bounds only by the policy, run on the list of what the attempts met, and end in `waiting` where that
-- list is too short.
--
-- What is outside and stands as an argument: the clock, the executor that runs simctl and avdmanager,
-- `uuid`, the configuration file, the environment, the normalizer of device names, the pool that a
-- selector asks, and the printing of durations. The statements about histories of the pool's calls ask
-- that minted identifiers are new, which is what `uuid` is for. Not modelled: the encoding of files,
-- logging, observers of transitions other than the notifier (they are returned), Unicode case folding (ASCII only), the pool's
-- adoption and garbage collection, and the parts of the daemon that talk to devices, to networks and to
-- tools.
pub mod DevPolicy
pub mod Health
pub mod Pool
pub mod Prelude
pub mod Reservations
pub mod Selector
pub mod ServicePool
pub mod UsbSpeed
