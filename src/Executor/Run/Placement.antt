-- ===== src/Executor/Run/Placement.antt =====
-- Where Run writes the source file.
use code_sandbox.Prelude.{◌≡◌, ◌≢◌, [], ◌++◌, Bytes, codes}
use code_sandbox.Strings.Paths.{join_path}
use code_sandbox.Strings.Paths.Cleaned.{NoSlash}
use code_sandbox.Strings.Paths.Beneath.{Placed, join_path-Placed}
use code_sandbox.Host.{done}
use code_sandbox.Config.{Config}
use code_sandbox.Registry.{Language, Registry}
use code_sandbox.Executor.Types.{Request}
use code_sandbox.Executor.Checks.Names.{safe_name-NoSlash, safe_name-ne-nil}
use code_sandbox.Executor.Run.{check, job_dir_of}
use code_sandbox.Executor.Run.Acceptance.{check_iff}
use code_sandbox.Prelude.{ok}

job_name : (id : Bytes) → NoSlash id → NoSlash (codes "job-" ++ id)
job_name id h = ((λ e. cc e), ((λ e. cc e), ((λ e. cc e), ((λ e. cc e), h))))

-- The source file of an accepted request is written directly in the directory of the job, except that
-- a language whose source file is "." or ".." passes the checks too, and then the path is that of the
-- directory itself, or of the job root. The root is not empty, and the id has no slash.
pub check-Placed :
    (cfg : Config) (reg : Registry) (lang : Language) (req : Request) (id : Bytes)
    → check cfg reg req ≡ done (ok lang)
    → cfg.job_root ≢ []
    → NoSlash id
    → Placed cfg.job_root
        (job_dir_of cfg id)
        lang.source_file
        (join_path (job_dir_of cfg id) lang.source_file)
check-Placed cfg reg lang req id h rooted plain =
    let (found, a) = (check_iff cfg reg lang req).0 h in
    join_path-Placed cfg.job_root (codes "job-" ++ id) rooted (job_name id plain)
      ((λ e. cc e), (λ e. cc e), (λ e. cc e)) lang.source_file
      (safe_name-NoSlash lang.source_file a.names_safe.0)
      (safe_name-ne-nil lang.source_file a.names_safe.0)
