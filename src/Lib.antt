-- ===== src/Lib.antt =====
-- PMFuzz tests programs for persistent memory: it lets AFL++ make testcases, runs them on images of
-- the memory, injects failures to get crash sites, and goes on from these. This library models the
-- Python code in src/pmfuzz.
--
-- The parts. `pmfuzz-fuzz.py` calls `run_pmfuzz` of core/pmfuzz.py, a state machine that lists the
-- output directory (stages/state.py), runs stage 1 once, and then iterations of stage 2, each of
-- them ended by a deduplication (stages/stage1.py, stages/stage2.py, stages/dedup.py). All these
-- find the files of a testcase by its name (handlers/name_handler.py). Timers in files
-- (helper/ptimer.py) say when a stage or a testcase is done.
--
-- The files:
--   Base and its children: Boolean tests, lists, results with errors, integers, texts; Base/Answers has
--     calls that are made one after another until one fails
--   Str and its children: Python's `in`, `replace`, `split`, `int`, `str` and os.path on texts
--   Regex: regular expressions with a matcher by derivatives, and what `re.search` anchored by
--     `^` and `$` accepts
--   NameHandler: src/pmfuzz/handlers/name_handler.py. Grammar has the names as data, a first id and
--     then ids linked by dots or commas, and Patterns the regular expressions with the `is_…`
--     functions; Metadata has `get_metadata_files` and the extensions, Metadata/Apart
--     the files of two testcases, Stage `get_outdir_name` and
--     `get_stage_inf`, Lineage `get_lineage`, `ancestor_cnt`, `clean_tc_name` and
--     `get_testcase_parent`, Image `set_img_name`, `set_img_path` and `get_parent_img`
--   Helper/PTimer: src/pmfuzz/helper/ptimer.py. The `state` dict is `Countdown`, a timer object with
--     its file is `PTimer`, and `time.time()` is an argument, in whole ticks. A file is told by the dict
--     that it prints, which Python's `eval` reads back
--   Helper/Parallel: src/pmfuzz/helper/parallel.py. A process runs or has ended with a code; Bound has
--     the steps of a pool, in which processes end and `run` looks at the pool; Waiting is about `wait`,
--     whose fuel is the number of looks
--   Helper/Config: src/pmfuzz/helper/config.py, the substitution of paths, `check` and the look-ups,
--     over values as YAML has them; Keys is about `check` and Lookup about the look-ups
--   Helper/Shell: `exec_shell` and `translate_exit_code` of src/pmfuzz/helper/common.py over the ends
--     of a program, and `check_crash_site` of src/pmfuzz/stages/stage.py
--   Helper/Tar: `compress` and `decompress` of src/pmfuzz/helper/common.py, over what the archiver does
--   Helper/Ask: `ask_yn` of src/pmfuzz/helper/common.py, over the lines of the input
--   Interfaces/Afl: src/pmfuzz/interfaces/afl.py, the commands and what `run_afl` starts and writes; Laws is
--     about `run_afl`, Minimizing about `run_afl_cmin`
--   Interfaces/FailureInjection: src/pmfuzz/interfaces/failureinjection.py; Env has the environments of both
--   Stages/State: src/pmfuzz/stages/state.py. `sync` takes the listing as an argument
--   Stages/Dedup: src/pmfuzz/stages/dedup.py, its selection and lists of testcases and crash sites over
--     the listings of the stores, the crash sites that it drops, and the files that its engine compares
--   Stages/Folder: a directory as its files by name, with the copies of the stages
--   Stages/Update: `update_global` and `update_local` of src/pmfuzz/stages/dedup.py, which exchange
--     testcases with the global store; Sites has the places of a testcase's files, Files and Families
--     the steps of the loops, Global and Local the whole, Keeping the
--     files that stay
--   Stages/Corpus: `minimize_corpus_gbl` and `minimize_corpus_lcl` of src/pmfuzz/stages/dedup.py, over what
--     afl-cmin leaves; Families, Copies, Dropping and Shared have the steps, Global and Local the
--     whole, and NoReturn the calls of `update_global` that follow
--   Stages/Stage1: `collect_results` of src/pmfuzz/stages/stage1.py, with `gen_img` of
--     src/pmfuzz/helper/target.py; Cases has the cases of the queue, Collect the loop
--   Stages/Hashes: `add_cs_hash_lcl` and `clean_up_uncmpr_lcl` of the two stages
--   Stages/Stage2: `resume` and `get_run_count` of src/pmfuzz/stages/stage2.py, which stop and start
--     testcases and crash sites by their timers, each of which may fail; Slots is about their number. Ending has `completed` and
--     `kill_all`, Visits the effect of one `resume`, Liveness that of many; Terminating has
--     `_terminate_testcase` with what it collects, whose jobs are in Jobs, and the whole in Ended;
--     Running has `_run_testcase` and `_run_cs`, EndingCs `_terminate_cs`;
--     Collecting has `collect_results`
--   Stages/CrashImages: `process_new_crash_sites` of stage 2 and `compress_new_crash_sites` of stage 1; Processing
--     is about the first, Compressing, Keys and Stored about the second and the hashes that follow
--   Core/World: what the constructors of src/pmfuzz/stages/stage1.py, stage2.py and dedup.py make in
--     the output directory, `Stage2.clear`, and where `Dedup.run` aborts; the state is the listing
--     and the calls made so far, each of which may fail
--   Core/DedupEngine: src/pmfuzz/core/dedupengine.py, over a store of files by path; the digest is an
--     argument. Groups is about its map of hashes, Oldest about the file that it keeps, Deleting
--     and Store about the store, Members about the files of a group, WholeRun about `run`
--   Core/WhatsUp: the counts of paths of src/pmfuzz/core/whatsup.py, over the package for bit arrays;
--     Paths says what they count
--   Core/Machine: src/pmfuzz/core/pmfuzz.py, a function for each of its own. `begin` is `run_pmfuzz`
--     in front of its loop, `round` the body of the loop; Phases and Runs relate them to the machine
--     with three phases of Abstract, Tracing has what a failing call does, and Aborts the options that
--     stop it
--
-- A text is a list of character codes. `abort` is an error that ends the run, as with the handler of
-- SIGUSR1 that pmfuzz-fuzz.py installs. Python's exceptions are other errors. The loop of
-- `wait` alone has fuel: one look more than it takes the last process to end is enough. The loop of
-- `run_pmfuzz` runs for as many rounds as it is given answers of the clock and the fuzzers.
-- The pattern `\d` stands for the ASCII digits, and `int` reads ASCII.
--
-- Not modelled: the processes and their timing, the programs that are called (AFL++, tar, lcov, the
-- program under test, whose images, exit codes and crash sites are arguments), the minimisation of
-- single testcases, the parsing of the configuration, output and plots, and the command lines. A
-- directory goes by the names of its files; one whose path holds `.min` is left out, and so is a store
-- that is listed while another process writes to it. Entries of the output directory that no constructor
-- makes (`@crashsitehashes.db`, which starts with `@`) are left out. The listing of the state
-- machine is in the order of creation; the listing that `sync` takes is in any order.
pub mod Base
pub mod Str
pub mod Regex
pub mod NameHandler
pub mod Helper
pub mod Interfaces
pub mod Stages
pub mod Core
pub mod Tests
