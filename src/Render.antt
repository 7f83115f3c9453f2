-- ===== src/Render.antt =====
-- internal/render: from a compiled template and a context to the text of a label.
pub mod Width
pub mod Engine
pub mod Helpers
