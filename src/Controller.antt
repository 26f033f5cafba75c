-- ===== src/Controller.antt =====
-- pkg/controllers/idlingresource_controller.go: the reconcile loop.
pub mod State
pub mod Steps
pub mod Maintains
pub mod Finalizer
pub mod FinalizerLaws
pub mod WithIdler
pub mod CronStrategies
pub mod Reconcile
