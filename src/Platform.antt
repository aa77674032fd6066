-- ===== src/Platform.antt =====
-- internal/platform: the settings of the hub. The change window is the child `Window`.
pub mod Window
