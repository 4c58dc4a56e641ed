-- ===== src/MessageId.antt =====
-- backend/internal/messageid: durable message identifiers, handed out from segments.
pub mod Generator
pub mod MysqlStore
pub mod Fleet
pub mod Progress
