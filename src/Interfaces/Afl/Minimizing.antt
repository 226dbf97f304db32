-- ===== src/Interfaces/Afl/Minimizing.antt =====
-- What afl-cmin is given, and when `run_afl_cmin` aborts.
