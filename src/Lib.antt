-- ===== src/Lib.antt =====
-- Nightfury: a fleet of camera agents and the backend that they report to.
--
-- An agent (agent/pipeline) runs camera workers, as many as its capacity allows, follows people
-- through configured step sequences and queues what it cannot send. The backend (backend/app)
-- places cameras on agents, keeps events and their workflow, checks sessions, roles and sites, and
-- caps what a day's calls to the language model may cost. The model has one module per part:
--
-- - Prelude: library names, Boolean tests, lists, dictionaries and stable sorting.
-- - Redis: what the backend relies on of Redis, an interface that Sessions and Provision take as an
--   instance, and in Redis/Memory an implementation by a dictionary.
-- - Placement: services/camera_placement.py of the backend, the pure planner: the three passes of
--   `plan_placement` as functions on the load and the plan that its local functions change.
-- - Reconcile: `reconcile_site` of the same file: it plans over the rows and writes cameras and agents.
-- - FleetHealth: services/fleet_health.py: the sweep that marks silent agents, reconciles their sites
--   by Reconcile and tells the customer.
-- - Spend: services/digest/spend_tracker.py: `try_charge` alone, and in Spend/Race the Redis commands
--   of concurrent calls as a step relation.
-- - Sessions: core/sessions.py: the Redis keys, and every operation on them.
-- - Pairing, Provision: services/pairing_service.py and services/device_provision_service.py: codes
--   that pair an agent, and boxes that are provisioned and claimed, with the tables they write.
-- - Access: the role and site checks of core/dependencies.py.
-- - RateLimit: core/rate_limit.py: the sliding window, and in RateLimit/Middleware the rules of a request
--   and the middleware.
-- - Retention: services/retention.py with `delete_gcs_object` of services/gcs.py: which events a sweep
--   deletes, media first.
-- - SoftDelete: services/soft_delete_service.py: deletion and restoration.
-- - Incident: `set_event_status` of api/events.py, which uses Access for its role and its query.
-- - Alerts: services/alert_service.py and services/alert_escalation.py: which rules an event fires,
--   their cooldowns, and the ladder of an event that nobody acknowledges. Its events have the status of
--   Incident.
-- - Journeys: services/journeys.py: the map of a site as a graph, and the walk over it.
-- - Proposals: services/assistant/proposals.py: what the assistant proposes and a human applies, with
--   the scoping of Access and the pairs of Journeys.
-- - CameraSetup: services/camera_setup/grouping.py: the groups of a review; in CameraSetup/Approval the
--   approval endpoints of api/camera_setup.py, which write a camera, with the scoping of Access.
-- - Assistant: services/assistant/loop.py and registry.py: one turn, which is charged by Spend.
-- - Supervisor: supervisor.py of agent/pipeline: the workers, the capacity tracker (Capacity) and the
--   rejected cameras; a round against the assignments of the backend, and a health check.
-- - SequenceEngine, Capacity, OfflineQueue: the modules of agent/pipeline with these names.
--
-- Tables are the lists of their rows: the statements that the code issues do on them what their
-- documentation says.
--
-- State is passed explicitly: an operation takes the state and returns the new one. A value that
-- raises is an Option. UUIDs, zones, poses and texts that are only compared are numbers; a clock
-- reading, a random id and what the operating system reports are arguments. Ratios and money are
-- whole numbers of a small unit, so that floating-point rounding is left out. Loops are structural
-- recursion on the list that the code walks, or on the rounds left of a loop with a bound: one over
-- `range(10)`, and the assistant's, whose rounds left are MAX_ITERATIONS less the turns taken.
--
-- Not modelled: databases beyond the rows that an operation reads and writes, HTTP and template
-- code, image analysis, the calls of language models, and the parts in Go and TypeScript.
pub mod Prelude
pub mod Redis
pub mod Placement
pub mod Reconcile
pub mod FleetHealth
pub mod Spend
pub mod Sessions
pub mod Pairing
pub mod Provision
pub mod Access
pub mod RateLimit
pub mod Incident
pub mod Alerts
pub mod Capacity
pub mod Journeys
pub mod Proposals
pub mod Assistant
pub mod Supervisor
pub mod SequenceEngine
pub mod OfflineQueue
pub mod Retention
pub mod SoftDelete
pub mod CameraSetup
