-- ===== src/Orchestration.antt =====
-- pkg/orchestration: the resources that ask for addresses, their groups, and the watch on Kubernetes.
pub mod Types
pub mod IpGroup
pub mod Kubernetes
mod Tests
