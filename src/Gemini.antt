-- ===== src/Gemini.antt =====
-- src/ocr/gemini.c and src/ocr/ocr_service.c: the client of the Gemini API and the OCR service.
pub mod Defs
pub mod Prompts
pub mod Markdown
pub mod Response
pub mod Post
pub mod Extract
pub mod Service
