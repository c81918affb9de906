-- ===== src/Lib.antt =====
-- Verification library for the Node Health Check operator.
--
-- The operator watches the nodes of a cluster. A NodeHealthCheck selects nodes and says which of
-- their conditions, in which status and for how long, make them unhealthy. The reconciler
-- (internal/controller/nodehealthcheck_controller.go) classifies the nodes, compares the number of
-- healthy ones with a threshold, holds new remediations back during a storm, and creates for every
-- unhealthy node a remediation CR from a template, escalating to the next template when one times
-- out. It records what it did in the status. A second reconciler
-- (internal/controller/machinehealthcheck_controller.go) does the like for the MachineHealthChecks of
-- OpenShift, with machines in the place of nodes. The webhook
-- (internal/webhook/v1alpha1/nodehealthcheck_webhook.go) admits changes of NodeHealthChecks.
--
-- Files:
--   Prelude, Prelude/*: Boolean tests, signed integers, lists, string maps and Go's string
--     helpers.
--   Api, Api/Validation: api/v1alpha1/nodehealthcheck_types.go and validation.go.
--   Requeue: MinRequeueDuration and updateRequeueAfter.
--   Conditions: IsConditionTrue and its relatives of internal/controller/utils/conditions.go, over
--     the condition functions of k8s.io/apimachinery (record ConditionMeta).
--   Storm/Evaluate: evaluateStormRecovery, activateStorm, startCooldown, stopCooldown.
--     Storm/Machine is the machine with the phases calm, storm and cooling that they implement;
--     Storm/Refinement and Storm/Quiet have the proofs.
--   Health: matchesUnhealthyConditions, checkNodeConditions, isHealthy. Health/Matching,
--     Health/Lasting, Health/Pending and Health/Classes have the proofs.
--   Threshold, Threshold/Gate: getMinHealthy, over GetScaledValueFromIntOrPercent (record IntStr).
--   Remediation: the readers of remediation CRs and templates of
--     internal/controller/utils/utils.go.
--   Status, Status/Unique, Status/Tracking: internal/controller/resources/status.go.
--   Escalation, Escalation/*: the choice of the next template in GetCurrentTemplateWithTimeout of
--     internal/controller/resources/templates.go, and GetRemediationDuration.
--   Cluster: the API server and the lease manager of github.com/medik8s/common as an environment
--     that answers every call as it likes, depending on the calls before it (record Environment).
--     A method that makes calls returns its results and the history of calls.
--   NodeLease, NodeLease/Secured: nhcLeaseManager of internal/controller/resources/lease.go.
--   Manager: creating, listing and deleting remediation CRs of
--     internal/controller/resources/manager.go. Manager/Safe says which calls may be made,
--     Manager/Create proves it. Manager/Healthy is HandleHealthyNode, Manager/Healthy/Keeps has
--     its proofs.
--   Templates, Templates/Valid: getting and validating templates,
--     internal/controller/resources/templates.go.
--   Remediate/Run: remediate of internal/controller/nodehealthcheck_controller.go. Remediate/Setup
--     and Remediate/Outcome are what it does before and after the CR; Remediate/Safety,
--     Remediate/Exclusive and Remediate/Cancelled have the proofs.
--   Orphans, Orphans/Safety: deleteOrphanedRemediationCRs of the same file.
--   Mhc, Mhc/Checked: internal/controller/mhc/checker.go.
--   NodeEvents, NodeEvents/Ignored: the filter of node updates of internal/controller/shared.go.
--   Webhook, Webhook/Escalating, Webhook/Admission: the validating webhook, over the API server's
--     answers (record Validator) and reflect.DeepEqual (record DeepEqual).
--   Upgrade, Upgrade/Detected: internal/controller/cluster/upgrade_checker.go.
--   Watches, Watches/Complete, Watches/Started: the watch manager of internal/controller/resources/watch.go.
--   Reconcile/*: Reconcile of internal/controller/nodehealthcheck_controller.go, from its parts.
--     Operator is the reconciler with what it is built from. Healthy and Unhealthy are the loops over
--     the healthy and the unhealthy nodes, Alert looks at old CRs, Report is patchStatus, Outcome has
--     what Reconcile returns and writes, and Run composes them. Quiet and Deleting have the steps that make no calls of some kind, Loops and
--     Safety which CRs Reconcile creates and deletes, HeldBack, Unheld and GoesAhead when it creates
--     one, Updates, Updated and Recorded what becomes of the unhealthy nodes in the status, Present
--     which nodes stand there, InTime and AlertLoop when it looks again, Upgrading what an upgrade stops.
--   MachineApi: machines and MachineHealthChecks, as far as they are read and written.
--   Machines/*: the MachineHealthCheck reconciler,
--     internal/controller/machinehealthcheck_controller.go. Targets is GetMHCTargets of
--     internal/controller/resources/mhc.go, Health needsRemediation and checkHealth, Limit
--     getMaxUnhealthy, Conditions SetMachineCondition, Remediate remediateAll, Outcome what Reconcile
--     returns and writes, and Run Reconcile.
--     Verdicts, Bounds and Stated have the proofs about Health, Limit and Conditions; Quiet and Held
--     show when a CR is created, Safety and Allowed which CRs are created and deleted, Panics and Unfinished where a nil pointer is followed.
--   Mapper, Mapper/*: internal/controller/utils/mapper.go, the events that wake up a health check. Woken
--     has those about nodes and templates, Misdirected those that get lost.
--   FeatureGates, FeatureGates/Followed: the state of
--     internal/controller/featuregates/accessor.go.
--   Capabilities, Capabilities/Detected: internal/controller/cluster/capabilities.go.
--   Aggregation, Aggregation/Settled: internal/controller/rbac/aggregation.go.
--   Examples/*: the theorems at concrete inputs.
--
-- How the code is read: a pointer is an Option, a map an association list, an error a value, and a
-- method that changes the NodeHealthCheck returns the changed one. Times and durations are integers
-- of nanoseconds; that Go's int64 may overflow is not modelled. Every call has one clock reading
-- `now` for all readings within it. Texts are compared and sliced as ASCII. An apiVersion is held
-- parsed. The apiVersion and the kind that a health check carries at run time are part of the environment. All loops run over lists by structural recursion, so there is no fuel. A nil pointer
-- that is followed, or a slice out of bounds, is an error that ends the method.
--
-- In a MachineHealthCheck, strconv.Atoi is written out for 64-bit integers, the products of
-- percentages are taken as exact, which float64 is below 2^53, and the conversion to int32 wraps
-- around. sort.Slice, which sorts
-- its conditions, leaves the order of conditions of one type open; the model keeps it, and the theorem about
-- them is for lists with one condition for each type. The poll of patchStatus runs over the list of answers that it gets until its time is over.
--
-- Not modelled: logs, events and metrics; how events are delivered and the reconcilers set up; the
-- informers of the feature gates; the service monitor and the console plugin that the operator
-- installs at its start; vendored and generated code.
pub mod Prelude
pub mod Api
pub mod MachineApi
pub mod Requeue
pub mod Conditions
pub mod Storm
pub mod Health
pub mod Threshold
pub mod Remediation
pub mod Status
pub mod Escalation
pub mod Cluster
pub mod NodeLease
pub mod Manager
pub mod Upgrade
pub mod Watches
pub mod Mapper
pub mod Capabilities
pub mod Aggregation
pub mod Templates
pub mod Remediate
pub mod Orphans
pub mod Mhc
pub mod NodeEvents
pub mod Webhook
pub mod Reconcile
pub mod Machines
pub mod FeatureGates
mod Examples
