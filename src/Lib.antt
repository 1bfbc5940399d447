-- ===== src/Lib.antt =====
-- Extended Deployment: the controllers that roll a deployment out over several regions.
--
-- The program watches ExtendedDeployments (api/v1beta1), checks them on admission (pkg/webhook), and
-- for each region keeps one new workload and the old ones (pkg/controllers/extendeddeployment). A
-- round of a rollout scales the old workloads down and the new one up, by a batch at a time or within
-- the limits of a rolling update.
--
-- Base holds the shared tests, lists and machine integers. An int32 is an integer that every operation
-- wraps around at 32 bits (Base/Int). A float64 that holds an int32 or a product of two is exact, and
-- its rounding is written out.
-- Api: the types of api/v1beta1/extendeddeployment_types.go.
-- Adapter: the workloads as the controller sees them, and their order by creation
-- (pkg/controllers/extendeddeployment/adapter/subset.go). The API server is an interface: a record
-- of calls on a state, with what they promise as a record of laws. Events and logs are left out.
-- Replicas: ParseRegionReplicas and round of pkg/controllers/extendeddeployment/controller_util.go, on
-- the bytes of a text; Replicas/Decimal has strconv.ParseInt for base 10 and 32 bits.
-- StepControl: calculateStepSize of pkg/controllers/extendeddeployment/subset_control.go.
-- Scaling: ScaleSubset, DeleteSubset, cleanupUnhealthyReplicas and regionSyncOnce of the same file. The
-- loop of ScaleSubset runs at most updateRetries times, which is the fuel of scale_loop. Scaling/Left says what
-- the server holds of the workloads after such calls, and Shrunk after the clean-up.
-- Rolling: pkg/controllers/extendeddeployment/rolling.go.
-- Grouping: groupSubset of the same file, checkIfTermReady and checkSaturated of controller.go, and the
-- annotations of pkg/utils/annotation.go that they read; the decoding of JSON and the comparison of a
-- workload's template with the current one are parameters.
-- Rollout: NewSubset, CreateSubset, UpdateSubsetAnnotations and ClearUnused of subset_control.go; its
-- DeleteFirst, Inplace and Manage have rolloutDeleteAllFirst, CheckInplaceUpdate and ManageSubsets, and
-- Saturated has cleanAfterSaturated of update.go. JSON, hashes, templates with their overrides, the
-- texts of numbers and the call that creates an object are parameters. The history limit is at least 0.
-- Strategy has UpdateSubsetStrategy, and ApplyOverridePolicies of pkg/utils/overridemanager/overridemanager.go.
-- Stopped, Batches, Ends and History have their proofs. The sort of the revisions is a parameter, since the test of two
-- workloads is no order where a revision cannot be read.
-- Reconcile: Reconcile of controller.go, with its steps as an interface; Reconcile/Guards has the proof.
-- Status: calculateStatus, SyncStatusOnly and UpdateProgressing of update.go; Status/Progress has the proof.
-- Revisions: revision.go and rollback.go of the same directory, with the history of revisions as an interface;
-- Revisions/Target and Rollback have the proof.
-- Confirm: checkUpgradeConfirm of pkg/controllers/extendeddeployment/controller.go.
-- DeployRegion: the resources of nodes and the cache of regions (pkg/controllers/deployregion/resource.go
-- and cache.go, the test of CheckRegionStatus in failure.go, and utils.go). A map is an association
-- list in the order of one iteration.
-- DeployRegion/Events and Sync: the handlers of syncContext.go, where the answers of the API server are
-- arguments and a panic is a failure; DeployRegion/Failure: the rest of failure.go. Links, Started,
-- Flags and Current have their proofs.
-- InplaceSet: manageReplicas and slowStartBatch of pkg/controllers/inplaceset/controller.go. The calls of a
-- batch run one after another, in the order in which they end. The number of batches is bounded by that
-- of the calls, since each batch has a call. Conditions has the conditions of its status, without
-- their times. PodState, PodConditions, Update and Refresh have inplace_update.go: what an update in place
-- records in a pod, its start and its end; Batch has the pods of a batch in batch.go, and Status
-- calculateStatus and updateInplaceSetStatus. RetryOnConflict runs a call at most four times, which is the
-- fuel of retry_on_conflict. Choice, Writes, Images, Tried and Reported have the proofs.
-- Reschedule: pkg/controllers/reschedule/reschedule.go. The map of regions is a function with the list
-- of its keys, and a write behind one of its pointers is a write to the map. The loop of reschedule runs
-- as often as there are replicas to place, which is the argument of its recursion.
-- Reschedule/Deployment and Controller: what deployment.go and controller.go of that directory do in one call
-- of reconcile, with the queries, JSON and the API server as an interface. Subsets has what the queries
-- do with the lists that the API server gives. Split, Flagged and Waiting have
-- the proofs.
-- Labels: pkg/utils/label_utils.go. Labels/Texts has the order of texts, Sorting that of insertions, and
-- Affinity the proof.
-- Webhook: compareReplicas of pkg/webhook/v1beta1/extendeddeployment_webhook.go.
-- Examples: a server that is a map, and each result at a concrete input.
pub mod Adapter
pub mod Api
pub mod Base
pub mod Confirm
pub mod DeployRegion
pub mod Examples
pub mod Grouping
pub mod InplaceSet
pub mod Labels
pub mod Reconcile
pub mod Replicas
pub mod Reschedule
pub mod Revisions
pub mod Rolling
pub mod Rollout
pub mod Scaling
pub mod Status
pub mod StepControl
pub mod Webhook
