-- ===== src/Tests/Data.antt =====
-- A host, a configuration, and a registry loaded from one language file.
use code_sandbox.Prelude.{pos, false, none, some, [], ◌∷◌, Bytes, codes, ok, err, Result, length}
use code_sandbox.Host.{Host, CmdOutcome}
use code_sandbox.Config.{Config}
use code_sandbox.Registry.{Phase, Language, Registry, Files, new, load_dir}
use code_sandbox.Executor.Types.{TestCase, Request}
use code_sandbox.Worker.Jobs.{Job, submit_kind}
use code_sandbox.Worker.Handling.{Message}

-- Each command prints five and a line end, and exits with 0.
abbrev pub prints_five : CmdOutcome
prints_five = record {
  stdout_writes = codes "5\n" ∷ [];
  stderr_writes = [];
  error = none;
  max_rss = some (pos 1200);
  deadline_exceeded = false;
}

-- No call fails, and the clock goes on by a second with each event.
abbrev pub host : Host
host = record {
  now = λ tr. length tr;
  new_uuid = λ tr. codes "1234";
  mkdir_all = λ tr dir. none;
  write_file = λ tr path content. none;
  chown = λ tr path uid gid. none;
  exec = λ tr process. prints_five;
}

abbrev pub cfg : Config
cfg = record {
  http_addr = codes ":8080";
  nsjail_path = codes "/usr/bin/nsjail";
  languages_dir = codes "/langs";
  job_root = codes "/jobs";
  max_concurrency = pos 2;
  queue_depth = pos 1;
  request_timeout = pos 60;
  max_source_bytes = pos 100;
  max_output_bytes = pos 50;
  max_test_cases = pos 4;
  jail_uid = pos 1000;
  jail_gid = pos 1000;
  sqs_queue_url = [];
  redis_addr = [];
  redis_password = [];
  redis_tls = false;
  sqs_workers = pos 1;
}

abbrev pub run_phase : Phase
run_phase = record {
  command = codes "/usr/bin/python3";
  args = codes "{{source}}" ∷ [];
  allowed_flags = codes "-O" ∷ codes "-B" ∷ [];
  time_limit_s = pos 5;
  memory_kb = pos 65536;
  max_processes = pos 8;
}

abbrev pub python : Language
python = record {
  name = codes "py";
  version = codes "3";
  source_file = codes "main.py";
  artifact = [];
  build = none;
  run = some run_phase;
}

-- One language file; its bytes stand for what the decoder makes of them.
abbrev pub files : Files
files = record {
  read_dir = λ dir. ok (record { entry_name = codes "py.yaml"; is_dir = false } ∷ []);
  read_file = λ path. ok (codes "name: py");
  decode_yaml = λ raw. ok python;
}

-- A file that cannot be decoded.
abbrev pub broken_files : Files
broken_files = record {
  read_dir = λ dir. ok (record { entry_name = codes "py.yaml"; is_dir = false } ∷ []);
  read_file = λ path. ok (codes "name: py");
  decode_yaml = λ raw. err (codes "bad");
}

abbrev pub registry : Registry
registry = (load_dir files new (codes "/langs")).0

abbrev pub two_and_three : TestCase
two_and_three = record {
  input = codes "2 3";
  expected_output = codes "5";
  time_limit_s = pos 1;
  memory_kb = pos 0;
}

abbrev pub request : Request
request = record {
  language = codes "py";
  source = codes "print";
  build_flags = [];
  run_flags = codes "-O" ∷ [];
  test_cases = two_and_three ∷ [];
  time_limit_s = pos 2;
  memory_kb = pos 1024;
}

abbrev pub job : Job
job = record {
  job_id = codes "7";
  kind = submit_kind;
  source_code = codes "print";
  language = codes "py";
  stdin = [];
  test_cases = (codes "2 3", codes "5") ∷ [];
  time_limit_seconds = none;
  memory_limit_kb = none;
  user_id = codes "u";
  queued_at = pos 0;
}

abbrev pub message : Message
message = record { body = some (codes "7"); receipt_handle = some (codes "h") }

-- Stands for json.Unmarshal.
abbrev pub decode_job : Bytes → Result Bytes Job
decode_job body = ok job
