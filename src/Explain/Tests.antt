-- ===== src/Explain/Tests.antt =====
-- Explanations at concrete inputs.
