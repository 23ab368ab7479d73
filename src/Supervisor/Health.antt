-- ===== src/Supervisor/Health.antt =====
-- supervisor/health.py: the evidence about a bot, the state that is derived from it, and the store
-- of current states. Readings of the monotonic clock are whole numbers of a unit of the reader's
-- choice, so `now - t <= limit` is `now ≤ t + limit`. The store's lock makes each method atomic.
pub mod Reconcile
pub mod Store
pub mod Laws
pub mod Sequences
pub use Reconcile.{CanonicalState, DesiredState, Reason, HealthTiming, HealthEvidence}
unfoldable pub use Reconcile.{heartbeat_fresh, reconcile}
pub use Store.{HealthStore, HealthSnapshot}
unfoldable pub use Store.{set_evidence, accept_heartbeat, get, receive}
