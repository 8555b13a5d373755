-- ===== src/Model.antt =====
-- internal/model: the data that the parts share.
pub mod Runtime
pub mod Email
