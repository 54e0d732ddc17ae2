-- ===== src/Lib.antt =====
-- run_farm: renting machines by the hour, running jobs on them, and accounting for what became of each.
--
-- A caller plans a campaign of legs (`farm`), dispatches the configs that passed its gate, and keeps a corpus
-- of verified shipments with a cut-flow that tells where each leg was dropped. One config is run by `driver`
-- against a registry of runs (done, checkpoints) and a sink of events. Legs that are a shell command on a rented
-- host are run by `fleet`, which fails over from host to host. Each rental is written to a ledger (`ledger`),
-- from which `budget` computes what is spent and still burning, and `reap` destroys what a dead driver left
-- behind and closes its rows. What a leg leaves on its host is fetched, published with its completion marker last and
-- verified (`arrival`). Instead of `fleet`, `provider_exec` runs the configs of a campaign one after the other on a
-- rented host, each in a `worker` there, and `multi` deals configs to several such executors. `gauntlet` checks, before
-- any rental, what can fail for want of a local file, a key or an offer.
--
-- Files, and the code they model:
--   Prelude   shared names, Boolean tests, lists over the native numbers, association lists, texts
--   Json, Config   JSON values, `sha256_json`, and what is read of a `RunConfig` (run_farm/protocols.py)
--   Registry   the contracts RunRegistry and EventSink of run_farm/protocols.py; Registry/Files and Registry/Events
--     are FileRunRegistry and JsonlEventSink of run_farm/reference.py with `run_dir` of run_farm/config.py
--   Driver   `execute_config` and `run_campaign` of run_farm/driver.py, over any registry and sink: the
--     registry's laws are a parameter of the theorems, and the file registry fills it
--   CutFlow   class CutFlow of run_farm/farm.py
--   Farm   the rest of run_farm/farm.py: Shipment (`verify_shipment`), Launch (`launch_gate`), Campaign (`plan`,
--     `gate_launch`), Govern (`execute_leg`, `_on_skip`, `_govern`, `_ingest`), Dispatch (`execute_fleet`)
--   Ledger, Budget   run_farm/ledger.py and the spend and cap of run_farm/budget.py
--   Reap   run_farm/reap.py: Leaks, Destroy, Select, the call `reap`, and Main with the gates of `main`
--   Fleet   run_farm/fleet.py: Host (the steps on one host), Leg (offer pool, `_run_leg`), Leg/Run (`run`)
--   Multi   run_farm/multi.py: `split_configs` by round robin, `stream_multi`, `run_multi`, and Weights (the split by
--     weights)
--   Admission   `guard` of ProbeAdmission in run_farm/reference.py
--   Remote   `run_one` of run_farm/remote.py, and run_farm/local_exec.py over it
--   Sweep   run_farm/sweep.py: `legs`, the product of arms, replicates and cells
--   Farm.Factory   `leg_params` of run_farm/farm.py
--   Arrival   run_farm/arrival.py: `publish` and `_merge_dir` as steps of the file system, Interleaved
--     and Beside (two at once), Files (`verify_file`), Report (`verify_report`),
--     Atomic (`atomic_write`)
--   Store   run_farm/store.py: the contract of a blob store, Memory (MemoryBlobStore), the registry and the event sink
--   Hosted   run_farm/provider_exec.py: Worker (the steps on a rented host), Run (the walk over the offers); the loops that
--     wait have fuel of a step for each second of the time to wait, which Hosted.Fuel shows to be enough
--   Gauntlet   run_farm/gauntlet.py: how checks run and stop a launch, Checks and Markers (the checks), Completed (the
--     check of a registry's finished runs), Launch (`standard_gauntlet`, `registry_gauntlet`)
--   Fleet.Landing   `_fetch` and `_validate_artifacts` of run_farm/fleet.py over the model of run_farm/arrival.py
--   Worker   run_farm/worker.py: `main`, the lines that it prints; Worker.Line joins it to Hosted.Worker
--   Examples   concrete runs, and the theorems at concrete inputs
--
-- Paths are those below src/ of the repository. State is passed explicitly; an exception is a value. Whatever the
-- program calls outside itself (clouds, ssh, the clock, hashing, `str.lower`) is a field of a record that the
-- definitions take, with a state type of its own, and what a theorem relies on is a named hypothesis.
--
-- Numbers: times are whole seconds and prices millionths of a dollar an hour, so an amount is their product; the
-- roundings of the program are left out. JSON numbers are never computed with.
--
-- Fuel: `fresh_key` (the key of an unplanned record) has the length of the longest key in use as its fuel, since each
-- round makes the key longer. `wait_loop` has one round for each second of `ready_timeout`, since a round sleeps for
-- at least one; so have the waiting loops of Hosted.Worker. `command_loop` and `worker_loop` recurse on the attempts
-- left, and `run_leg` on the refills left and the queue of offers.
--
-- Not modelled: threads (the legs of a fleet run one after the other; the fetches beside the command of a resumable leg
-- stand where their thread is joined, and one that outlasts the join is left out, but for two publishes at once in
-- Arrival.Interleaved), signals, printing, file formats, the clouds' REST adapters, and
-- the modules that the repository has beside those above.
pub mod Admission
pub mod Arrival
pub mod Budget
pub mod Config
pub mod CutFlow
pub mod Driver
pub mod Examples
pub mod Farm
pub mod Fleet
pub mod Gauntlet
pub mod Hosted
pub mod Json
pub mod Ledger
pub mod Multi
pub mod Prelude
pub mod Reap
pub mod Registry
pub mod Remote
pub mod Store
pub mod Sweep
pub mod Worker
