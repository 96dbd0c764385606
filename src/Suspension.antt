-- ===== src/Suspension.antt =====
-- internal/svc/suspend.go: suspending and unsuspending accounts; internal/svc/quota.go.
pub mod Host
pub mod Enforce
pub mod Lift
pub mod Suspender
pub mod Quota
pub mod Masks
pub mod Restore
pub mod Roundtrip
pub mod Frames
