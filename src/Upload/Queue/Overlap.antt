-- ===== src/Upload/Queue/Overlap.antt =====
-- Admissions that overlap in src/business/file/upload-queue.service.ts: `checkCapacity` and the creation of
-- the session are two awaited calls, and other requests run in between.
