-- ===== src/Flow.antt =====
-- agent/lib/nf_common.c: templates and data records of NetFlow v9 and IPFIX.
pub mod Templates
pub mod Records
pub mod Safety
pub mod Layout
pub mod Sequence
pub mod Local
pub mod Cache
pub mod Meaning
