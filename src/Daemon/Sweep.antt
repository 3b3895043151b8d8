-- ===== src/Daemon/Sweep.antt =====
-- sweepStaleJobs of cmd/goboxd/main.go: at the start, job directories that are left from an instance
-- that crashed are removed. Times are nanoseconds; the file system's answers are a parameter.
pub mod Stale
use code_sandbox.Prelude.{
  ℕ, ◌+◌, ◌≡◌, refl, Bool, true, false, Option, none, some, List, [], ◌∷◌, if◌then◌else◌, ℤ, pos,
  ◌-ℤ◌, ltb_ℤ, Bytes, codes, Result, ok, err,
}
use code_sandbox.Strings.{has_prefix}
use code_sandbox.Strings.Paths.{join_path}

-- An os.DirEntry with the modification time that its Info gives, if it gives any.
pub record JobEntry : Type 0 where
  pub name : Bytes
  pub mod_time : Option ℤ

-- The answers of os.ReadDir, time.Now and os.RemoveAll, the last one an error or none.
pub record Disk : Type 0 where
  pub read_dir : Bytes → Result Bytes (List JobEntry)
  pub now : ℤ
  pub remove_all : Bytes → Option Bytes

-- The paths given to os.RemoveAll, in order, and the count that is logged.
pub record Swept : Type 0 where
  pub removals : List Bytes
  pub removed : ℕ

-- info.ModTime().Before(cutoff); without an Info the entry is passed over
unfoldable pub before_cutoff : ℤ → Option ℤ → Bool
before_cutoff cutoff none = false
before_cutoff cutoff (some t) = ltb_ℤ t cutoff

-- The two `continue`s and the comparison of the loop.
unfoldable pub is_stale : ℤ → JobEntry → Bool
unfolding before_cutoff
is_stale cutoff e =
    if has_prefix e.name (codes "job-") then before_cutoff cutoff e.mod_time else false

-- removed++, if there was no error
unfoldable pub count_removal : Option Bytes → ℕ → ℕ
count_removal none n = n + 1
count_removal (some e) n = n

module _ (disk : Disk) (root : Bytes) where
  unfoldable pub sweep_entry : ℤ → JobEntry → Swept → Swept
  unfolding is_stale count_removal
  sweep_entry cutoff e rest =
      if is_stale cutoff e
      then (let path = join_path root e.name in
          record {
            removals = path ∷ rest.removals;
            removed = count_removal (disk.remove_all path) rest.removed;
          })
      else rest

  unfoldable pub sweep_entries : ℤ → List JobEntry → Swept
  unfolding sweep_entry
  sweep_entries cutoff [] = record { removals = []; removed = 0 }
  sweep_entries cutoff (e ∷ es) = sweep_entry cutoff e (sweep_entries cutoff es)

  -- sweepStaleJobs; a root that cannot be read is left alone
  unfoldable pub sweep_stale_jobs : ℤ → Swept
  unfolding sweep_entries
  sweep_stale_jobs max_age = elim (disk.read_dir root) [
    | err e ↦ record { removals = []; removed = 0 }
    | ok entries ↦ sweep_entries (disk.now -ℤ max_age) entries
  ]
