-- ===== src/Flow/Tests.antt =====
-- A ConfigMap with a new host, and the theorem of its way to the store at it.
use f5_ipam_ctlr.Prelude.{string_eq, true}
use f5_ipam_ctlr.Orchestration.Kubernetes.{Send, taken}

-- Both queues are empty, and the message is taken.
abbrev taken_now : Send
taken_now = record { quiet = true; fate = taken }
