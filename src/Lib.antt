-- ===== src/Lib.antt =====
-- The shared memory, the rate limiters, the pods and the scheduler of vgpu.rs.
--
-- The hypervisor and the limiters inside of the client processes share a block of memory per pod. It
-- holds an entry for each device with its limits and its token bucket, a heartbeat of the hypervisor,
-- and the set of registered processes under a spin lock. A limiter takes tokens off a device's bucket
-- before it launches a kernel; the controller in the hypervisor measures the utilisation, refills the
-- buckets, and adapts the refill rate and the capacity. The scheduler in the hypervisor keeps the
-- processes in queues of running, sleeping and trapped ones, and decides which to resume and which to release.
-- The pod manager in the hypervisor keeps which process belongs to which pod, registers and removes
-- processes in all components, and lets the dead ones go; the limiter library in a process decides
-- before each kernel whether to look at the shared memory, and waits until it is admitted.
--
-- Which file models which part:
--   Base       numbers, Boolean tests, lists, and Outcome: a value, a panic, or undefined behaviour
--   Float      f64 as an interface: the operations and the laws that the proofs use; max, min, clamp
--   Bitmap     crates/utils/src/shared_memory/bitmap.rs: Bitmap
--   Set        crates/utils/src/shared_memory/set.rs: Set and SetIter
--   Mutex      crates/utils/src/shared_memory/mutex.rs: ShmMutex, its guard, its orphan cleanup
--   Device     crates/utils/src/shared_memory/mod.rs: the device entries of both layouts (V1, V2), the
--              UUID field (Bytes, Uuid) and the token bucket (Tokens)
--   State      crates/utils/src/shared_memory/mod.rs: SharedDeviceStateV1 and SharedDeviceStateV2;
--              State/Versions is the enum SharedDeviceState over both
--   Erl        crates/erl/src: the errors and the trait DeviceBackend (backend.rs, error.rs), the
--              adapter over the shared memory (Erl/Adapter, for
--              crates/utils/src/shared_memory/erl_adapter.rs), KernelLimiter (Erl/Limiter, for
--              limiter.rs) and DeviceController (Erl/Controller, for hypervisor.rs)
--   Scheduler  crates/hypervisor/src/core/scheduler: WeightedScheduler with its registry, its queues and
--              weights, and its decisions (Scheduler/Decisions); Scheduler/Queues is the interface of
--              the priority_queue crate, with the laws that its documentation gives
--   Dict       the hash maps of the source: an association list with fetch, assign and erase
--   Paths      crates/utils/src/shared_memory/mod.rs: PodIdentifier and its path
--   Pods       crates/hypervisor/src/core/pod: PodState (types.rs), PodStateStore (pod_state_store.rs, in
--              Pods/Store), the registration and the exit of processes (manager.rs, in Pods/Manager), the
--              totals (utilization.rs) and the share of cores (coordinator.rs, both in Pods/Shares),
--              the monitoring cycle (coordinator.rs, in Pods/Watch, with ErlConfig of
--              crates/hypervisor/src/config/mod.rs); Pods/Hypervisor is the interface to the scheduler
--   KeyedLock  crates/utils/src/keyed_lock.rs: KeyedAsyncLock and KeyedLockGuard
--   Cuda       crates/cuda-limiter/src/limiter.rs: the decision of Limiter::rate_limiter, the attempts of
--              both layouts, the wait loop, the queries (Cuda/Limits) and the devices (Cuda/Devices); the
--              hooks of allocations (Cuda/Memory, for detour/mem.rs) and of launches (Cuda/Launch, for
--              detour/gpu.rs)
-- Functions keep the names of the source. The Examples files apply the theorems at concrete values.
--
-- How state is modelled: an operation takes the state and returns the new one with its result.
-- Operations that can panic return an Outcome, calls of a backend a Result with its errors. The
-- atomic accesses of the lock and of the token bucket are steps of a relation (Mutex.Step,
-- Device.Tokens.Step, with the stores of the tokens and of the capacity), in which any number of
-- threads interleave in any order; memory is sequentially consistent there. The rest is sequential: a
-- call runs from its first access to its last.
--
-- The calls of the scheduler are sequential as well, since it stands under a lock; Scheduler.Runs has
-- any sequence of them, and Pods.Runs any sequence of calls of the store. The keyed lock is a step
-- relation again (KeyedLock.Runs): tasks come, wait, hold and go in any order, and the drop of a guard is
-- one step there. What an awaited call answers, and what the memory and the clock show at the nth attempt
-- of a wait, are arguments. In the monitoring cycle the memories that paths lead to are numbered, and a
-- controller keeps the number of its memory, since it goes on writing there when the path leads
-- elsewhere. Float/Tests and the Examples instantiate the interfaces by concrete functions.
--
-- How the parts are joined: Set is built on Bitmap and its theorems use those of Bitmap by the bits.
-- State uses a set for the processes, and an interface EntryOps for the entries, which both layouts
-- fill. The limiter and the controller use a backend through the interface DeviceBackend, and their
-- theorems use its laws, TokenStore, which the adapter's theorem supplies. The pod manager uses the
-- hypervisor through the interface ProcessTable, which the scheduler's theorems fill
-- (Pods.Hypervisor.scheduler_table); Cuda uses State for the memory and Erl for the second layout.
--
-- Bounds and fuel: a bitmap of n words has 64 * n bits, which must fit in a u32. A set over n slots
-- has a bitmap of n words, as in the source, and n is 2048 for the processes. The iteration over a
-- set is recursion on fuel of the number of slots, which is enough since each round passes at least
-- one slot. The wait loop runs on fuel of the number of attempts: if the device is unhealthy from the
-- dth wait on, then d + 10 is enough, since the health is looked at in every tenth wait. Two rounds of
-- get_or_create_lock are enough, since the first removes a dead entry. Words of 32 and 64 bits keep
-- their wrap-around. f64 fields are stored as bits.
--
-- What is not modelled: the texts of errors and the log lines, the spinning between two attempts of a
-- lock, the mapping of the memory by the operating system, and what kill(pid, 0) answers, which is an
-- argument. Of the pods, the tasks around the monitoring cycle, the restoration from shared memory and the
-- calls of Kubernetes are left out; of the CUDA limiter, the other hooks, their installation, and the
-- freezing of processes. The platform, the communication crates and the interfaces are outside of this
-- library.
pub mod Base
pub mod Bitmap
pub mod Set
pub mod Mutex
pub mod Float
pub mod Device
pub mod State
pub mod Erl
pub mod Scheduler
pub mod Dict
pub mod Paths
pub mod Pods
pub mod KeyedLock
pub mod Cuda
