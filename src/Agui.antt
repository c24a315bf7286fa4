-- ===== src/Agui.antt =====
-- agui/src/orxtra/agui: the events of a run as those of the AG-UI protocol.
pub mod Events
pub mod Translator
