-- ===== src/Notification.antt =====
-- notification/src/orxtra/notification: deliveries to principals and their live stream.
pub mod Backend
pub mod Stream
pub mod Live
