-- ===== src/Tests/Parts.antt =====
-- The parts on their own.
use code_sandbox.Prelude.{
  In, Option, if◌then◌else◌, suc, ◌≤◌, pos, negsuc, ◌≤ℤ◌, ◌<ℤ◌, ◌≡◌, ◌≢◌, refl, ◌↔◌, ◌⊎◌, true,
  false, none, some, List, [], ◌∷◌, arith, Bytes, codes, bytes_eq, ok, take, length, ltb,
}
use code_sandbox.Host.{done, panicked, exited}
use code_sandbox.Registry.{
  get, new, validate, load_dir, load_failed, yaml_decode_failed, DirError, DirEntry,
}
use code_sandbox.Registry.Latest.{first_some, latest_named}
use code_sandbox.Registry.Outcome.{StopsAt, AllRegister, load_dir_ok, load_dir_stops}
use code_sandbox.Strings.{has_suffix}
use code_sandbox.Strings.Paths.{join_path}
use code_sandbox.Strings.Words.{fields}
use code_sandbox.Sandbox.{RunSpec, dashes, nsjail_args}
use code_sandbox.Sandbox.Buffer.{empty, write_all, offered}
use code_sandbox.Sandbox.Buffer.Laws.{write_all_limited, write_all_unlimited}
use code_sandbox.Sandbox.Args.{
  Setting, add_setting, value_options, flag_options, IsReader, settings, nsjail_args-split,
}
use code_sandbox.Sandbox.Verdict.{EndedBy, margin_start, result, result_flags}
use code_sandbox.Executor.Types.{accepted, TestResult, Response}
use code_sandbox.Executor.Checks.{allows, filter_flags, bound_overrides}
use code_sandbox.Executor.Checks.Laws.{AllIn, filter_flags_iff, TestsWithin, bound_overrides_iff}
use code_sandbox.Executor.Output.{
  output_exact, output_whitespace_only, output_mismatch, unix_lines, normalize_strict,
  compare_output,
}
use code_sandbox.Executor.Output.Classes.{compare_output_classes}
use code_sandbox.Executor.Stats.{Stats, StatsSnapshot, new_stats, observe, snapshot}
use code_sandbox.Executor.Stats.Window.{Holds, new_stats-Holds, observe-Holds}
use code_sandbox.Executor.Stats.Snapshots.{Describes, samples_of, snapshot-Describes}
use code_sandbox.Executor.Phases.{compare_result}
use code_sandbox.Executor.Phases.Statuses.{IsJudged, compare_result-Says}
use code_sandbox.Worker.Results.{response_to_map, response_to_map-panicked_iff}
use code_sandbox.Tests.Data.{
  prints_five, run_phase, files, broken_files, registry, two_and_three, request,
}

abbrev spec : RunSpec
spec = record {
  nsjail_path = codes "/usr/bin/nsjail";
  cwd = codes "/jobs/job-1";
  command = codes "/usr/bin/python3";
  args = codes "--" ∷ codes "-O" ∷ [];
  stdin = [];
  wall_time = pos 5_000_000_000;
  memory_kb = pos 65536;
  max_processes = pos 8;
  max_output = pos 50;
  uid = pos 1000;
  gid = pos 1000;
}

-- A reader of arguments: the first argument is an option that waits for its value.
read_from : Option Bytes → List Bytes → Option (List Setting × List Bytes)
read_from none [] = some ([], [])
read_from (some o) [] = none
read_from (some o) (v ∷ args) = add_setting (o, some v) (read_from none args)
read_from none (a ∷ args) =
    let rest = read_from (if allows value_options a then some a else none) args in
    if bytes_eq a dashes
    then some ([], args)
    else if allows value_options a
    then rest
    else add_setting (a, none) rest

read_from-flag :
    (o : Bytes) (args : List Bytes)
    → In o flag_options
    → read_from none (o ∷ args) ≡ add_setting (o, none) (read_from none args)
unfolding read_from allows bytes_eq
read_from-flag o args h = ground arith

read_from-valued :
    (o v : Bytes) (args : List Bytes)
    → In o value_options
    → read_from none (o ∷ v ∷ args) ≡ add_setting (o, some v) (read_from none args)
unfolding read_from allows bytes_eq
read_from-valued o v args h = ground arith

read_from-IsReader : IsReader (read_from none)
unfolding read_from bytes_eq
read_from-IsReader = record {
  ended = λ rest. refl;
  flag = read_from-flag;
  valued = read_from-valued;
}

nsjail_args-split_example :
    read_from none (nsjail_args spec) ≡ some (settings spec, spec.command ∷ spec.args)
nsjail_args-split_example = nsjail_args-split (read_from none) spec read_from-IsReader

result_flags_example :
    (((result spec prints_five (pos 7) (exited 137)).oom_killed ≡ true)
      ↔ (EndedBy 9 (exited 137) × (pos 7 <ℤ margin_start spec)))
    × (((result spec prints_five (pos 7) (exited 137)).timed_out ≡ true) ↔ (
        (prints_five.deadline_exceeded ≡ true)
        ⊎ (EndedBy 9 (exited 137) × (margin_start spec ≤ℤ pos 7))
        ⊎ EndedBy 24 (exited 137)))
result_flags_example = result_flags spec prints_five (pos 7) (exited 137)

abbrev two_writes : List Bytes
two_writes = codes "abc" ∷ codes "defgh" ∷ []

write_all_limited_example : write_all (empty (pos 5)) two_writes ≡ record {
  max = pos 5;
  buf = take 5 (offered two_writes);
  capped = ltb 5 (length (offered two_writes));
}
write_all_limited_example = write_all_limited 4 two_writes ((λ e. cc), ((λ e. cc), tt))

write_all_unlimited_example :
    write_all (empty (negsuc 0)) two_writes
    ≡ record { max = negsuc 0; buf = offered two_writes; capped = false }
write_all_unlimited_example = write_all_unlimited (negsuc 0) two_writes (omega arith)

filter_flags_iff_example :
    (filter_flags (codes "-O" ∷ []) run_phase.allowed_flags ≡ none)
    ↔ AllIn (codes "-O" ∷ []) run_phase.allowed_flags
filter_flags_iff_example = filter_flags_iff (codes "-O" ∷ []) run_phase.allowed_flags

bound_overrides_iff_example : (bound_overrides run_phase request ≡ none) ↔ (
    (request.time_limit_s ≤ℤ run_phase.time_limit_s)
    × (request.memory_kb ≤ℤ run_phase.memory_kb)
    × TestsWithin run_phase.time_limit_s run_phase.memory_kb request.test_cases)
bound_overrides_iff_example = bound_overrides_iff run_phase request

compare_output_classes_example :
    ((compare_output (codes "5 \n") (codes "5") ≡ output_exact)
      ↔ (normalize_strict (codes "5 \n") ≡ normalize_strict (codes "5")))
    × ((compare_output (codes "5 \n") (codes "5") ≡ output_whitespace_only) ↔ (
        (normalize_strict (codes "5 \n") ≢ normalize_strict (codes "5"))
        × (fields (unix_lines (codes "5 \n")) ≡ fields (unix_lines (codes "5")))))
    × ((compare_output (codes "5 \n") (codes "5") ≡ output_mismatch)
        ↔ (fields (unix_lines (codes "5 \n")) ≢ fields (unix_lines (codes "5"))))
compare_output_classes_example = compare_output_classes (codes "5 \n") (codes "5")

observe-Holds_example : (s : Stats) × (observe new_stats (pos 9) ≡ done s) × Holds (pos 9 ∷ []) s
observe-Holds_example = observe-Holds [] new_stats (pos 9) new_stats-Holds

abbrev sampled : Stats
sampled = record {
  total = pos 2;
  rejected = pos 0;
  in_flight = pos 0;
  ring = pos 9_000_000 ∷ pos 4_000_000 ∷ pos 0 ∷ [];
  ring_idx = 2;
  ring_sz = 2;
}

snapshot-Describes_example :
    (out : StatsSnapshot) × (snapshot sampled (pos 3) (pos 0) (pos 1) (pos 2) (pos 1) ≡ done out)
    × (out.samples ≡ 2)
    × Describes (samples_of sampled) out
snapshot-Describes_example =
    snapshot-Describes sampled (pos 3) (pos 0) (pos 1) (pos 2) (pos 1) (omega arith) (omega arith)

abbrev five : TestResult
five = record {
  status = accepted;
  stdout = codes "5\n";
  stderr = [];
  exit_code = pos 0;
  signal = [];
  duration_ms = pos 3;
  memory_kb = pos 900;
}

compare_result-Says_example :
    (five.status ≢ accepted → compare_result two_and_three five ≡ five)
    × (five.status ≡ accepted → IsJudged two_and_three five (compare_result two_and_three five))
compare_result-Says_example = compare_result-Says two_and_three five

abbrev answered : Response
answered = record { status = accepted; build = none; tests = five ∷ [] }

response_to_map-panicked_iff_example :
    (response_to_map (record request { test_cases = [] }) answered ≡ panicked)
    ↔ (suc 0 ≤ length answered.tests)
response_to_map-panicked_iff_example =
    response_to_map-panicked_iff (record request { test_cases = [] }) answered

loads : load_dir files new (codes "/langs") ≡ (registry, none)
unfolding load_dir has_suffix validate bytes_eq
loads = refl

load_dir_ok_example :
    (es : List DirEntry) × (files.read_dir (codes "/langs") ≡ ok es)
    × AllRegister files (codes "/langs") registry es
    × ((k : Bytes)
        → get registry k ≡ first_some (latest_named files (codes "/langs") k es) (get new k))
load_dir_ok_example = load_dir_ok files (codes "/langs") new registry loads

abbrev undecodable : DirError
undecodable = load_failed (codes "/langs/py.yaml") (yaml_decode_failed (codes "bad"))

abbrev yaml_entry : DirEntry
yaml_entry = record { entry_name = codes "py.yaml"; is_dir = false }

stops : load_dir broken_files new (codes "/langs") ≡ (new, some undecodable)
unfolding load_dir has_suffix join_path bytes_eq
stops = refl

load_dir_stops_example : StopsAt broken_files (codes "/langs") new (yaml_entry ∷ []) new undecodable
load_dir_stops_example =
    load_dir_stops broken_files (codes "/langs") new new (yaml_entry ∷ []) undecodable refl stops
