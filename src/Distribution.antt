-- ===== src/Distribution.antt =====
-- internal/distribution: which instance owns which Email Profile. `Plan` is plan.go, and
-- `Reconcile` is the reconcile step of distributor.go.
pub mod Plan
