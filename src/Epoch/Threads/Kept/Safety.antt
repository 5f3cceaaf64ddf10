-- ===== src/Epoch/Threads/Kept/Safety.antt =====
-- What src/EpochReclaimer.h deletes: nothing that a thread inside a guard may hold, if every thread
-- announces the epoch that is current then.
