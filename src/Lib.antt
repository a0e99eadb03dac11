-- ===== src/Lib.antt =====
-- The simulation core of astra-network-analytical: the event queue, the network configuration, the
-- congestion-unaware estimator, the congestion-aware simulator and the simulator of reconfigurable
-- networks, as executable definitions with theorems about them.
--
-- How the parts interact. A configuration file is read by NetworkParser. congestion_unaware builds a
-- topology from it, of one or of several dimensions, and `send` answers the time of one transfer by
-- a formula. congestion_aware builds devices with links; `Topology::send` hands a chunk to the first
-- device of its route, a link that is free transmits it and schedules two events, the arrival at the
-- next device and the link becoming free, a busy link queues it, and the loop of the driver runs
-- `EventQueue::proceed` until no event is left. An arrival forwards the chunk or calls its callback.
-- reconfigurable works in the same way, with the queues of chunks in the devices, and a manager above
-- them: a request for new bandwidths computes all routes, then drains the network by counting the
-- links that become free, and when all are counted every device takes its new links and routes and
-- counts up its iteration. A chunk of a later iteration than its device's waits.
--
-- Files and sources (paths from the repository's root):
--   Common            common/NetworkFunction.cpp, include/astra-network-analytical/common/Type.h
--   EventQueue        common/event-queue/: EventList, EventQueue, and the drivers' loop `run`;
--                     below it Invariant (time order), Order (the queue as one sequence of timed
--                     events), Run (proceed and the loop), Machine (one event at a time), States, Front
--                     (a queue of one event or two), Weight (sums over the pending events)
--   NetworkParser     common/network-parser/NetworkParser.cpp; Validity is what the checks guarantee
--   Unaware           congestion_unaware/: Basic (basic-topology/ and Topology.cpp), MultiDim
--                     (multi-dim-topology/), Construct (topology/Helper.cpp), Example
--                     (example.cpp)
--   Aware             congestion_aware/: State (the objects), Chunk, Link, Device, Topology, Basic
--                     (basic-topology/), Construct (topology/Helper.cpp), Simulation (the events),
--                     Example (example.cpp); proofs in Clock, Delay, Transmission, Work, Protocol,
--                     Basic.RingRoute, Construct.Start, Reads, Wires, Loops and Wired (the links
--                     that the constructors make, and the routes over them), Progress (no assertion
--                     of a run fails), Alone with Hop, Moments, Flight and Built (one chunk in an
--                     empty network) and Agreement (with congestion_unaware), and Example.Gather
--                     and Finish
--   Reconfigurable    reconfigurable/: State (the objects), Chunk, Link, Device, Topology, Routes
--                     (precomputeRoutes), Manager with Manager.Drain (TopologyManager.cpp), Events,
--                     Construct (topology/Helper.cpp), Example (example.cpp and AllReduce.cpp), Text,
--                     Trace and Simulate (simulate.cpp); proofs in Routes.Relax, Round, Loop, Shortest,
--                     Matrix and Table (the search), Devices, Synced, Draining, Requests, Initial,
--                     Sound, Reachable, Waiting, Counting and Idle with Finish, Configured and
--                     Request (the manager and its devices), Forward and Transmission (a chunk on its way), Text.Extract,
--                     Trace.Holds and Trace.Topologies (a trace line by line)
--   Base, Double      lists, tests, results and int; the operations on `double`
-- The modules called Examples or Tests run the code on small inputs, those of test/ among them.
--
-- How the model corresponds to the code. Functions and fields keep their names in snake case; a
-- virtual call is a case on the class. The state that callbacks share is passed explicitly: a World
-- is the static `Link::event_queue` and the topology with its devices, a link is named by its two
-- devices, and a chunk, which one pointer at a time owns, is a value. The two callbacks that the
-- simulator schedules, Chunk::chunk_arrived_next_device and Link::link_become_free, are the
-- constructors of Event. The callback of a chunk is the client's code: a function on the World that
-- is a parameter, with named hypotheses on it where a theorem needs any. In Reconfigurable the
-- World holds the manager and the static counter of drained links, and Reachable has one constructor
-- for the start, one for the client's requests and one for `proceed`.
--
-- Errors are values of Outcome: `assertion` is an `assert` that fails (assertions are taken as
-- enabled), `exited` is std::exit with an error, `undefined` is undefined behaviour (a signed
-- overflow, a reading out of range or of an uninitialised field, a cast to uint64_t out of range),
-- `unfinished` is fuel that ran out. Ids and counts are ℕ where the code asserts that they are not negative, and
-- ℤ where a negative value is meaningful. Additions of uint64_t wrap at 2 ^ 64; for an event that
-- falls before the current time because of that, the assertion of schedule_event fails.
-- `double` is a parameter: Double has the operations that the code uses, DoubleLaws what is known of
-- them, and Double.Rational is an instance of both by exact fractions, on which the examples run.
-- The YAML library is the record Yaml of NetworkParser.
--
-- Fuel. `run` has one unit for each `proceed`; one more than the number of events that the chunks in
-- flight still take is enough; on a network that is ready, as many as these events are, and the
-- example of congestion_aware takes at most two for each hop of each chunk, as does a chunk alone.
-- `route_loop` has npus_count units, for a route round the ring visits no device twice. The search and the walk back along `parent` of precomputeRoutes have as much as
-- there are devices, for each is queued at most once and no route visits one twice; the code's INF,
-- 10 ^ 9, bounds the devices for which this is proved. All else recurses on a list.
--
-- Counters that the code only counts up from 0 (iterations, drained links) and the product that the
-- links are counted against are ℕ, without the overflow of int, and so are the number of devices of
-- a Switch, one more than its NPUs, and dims_count. The route functions of congestion_aware answer
-- places in the topology's list of devices, without the check that the list has them: npus_count is at
-- most devices_count, which the constructors see to.
--
-- Not modelled: Link::get_current_time and the counters and members of reconfigurable/ that nothing
-- reads; the printing of debug_log, of error messages and of what the drivers say on the way; the
-- reading of files; the rounding of floating point. The drivers are functions: what they print at the
-- end is their value, a file is its lines, and the three of reconfigurable/, which leave out the last
-- argument of the manager's constructor, have it as a parameter. That the drivers of reconfigurable/
-- succeed is tested and not proved.
pub mod Base
pub mod EventQueue
pub mod Double
pub mod Common
pub mod NetworkParser
pub mod Unaware
pub mod Aware
pub mod Reconfigurable
