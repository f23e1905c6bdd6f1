-- ===== src/Status.antt =====
-- src/status: the icon of the status answer.
pub mod Icon
