-- ===== src/AgentMgr/Files.antt =====
-- `src/agentmgr/agent_file_manager.go`. The functions of `os` and `path/filepath` are a record of
-- actions; those of `bosh-cpi-go` on an environment `E` are arguments.
pub mod RoundTrip
use bosh_lxd_cpi_release.Base.{String, Bool, List, [], ◌∷◌, inl, inr, ◌==◌, ◌<>◌, if◌then◌else◌}
use bosh_lxd_cpi_release.Base.Text.{has_prefix, split}
use bosh_lxd_cpi_release.Base.Go.{Error, Result, M, Done, pure, fail, lift, attempt, ◌>>=◌, ◌>>◌}
use bosh_lxd_cpi_release.Config.{AgentManagerConfig}

-- `create_temp` returns the name of a new open file, and `close` closes that file.
pub record Files (W : Type 0) : Type 0 where
  pub create_temp : String → M W String
  pub close : String → M W Done
  pub remove : String → M W Done
  pub is_not_exist : Error → Bool
  pub read_file : String → M W String
  pub write_file : String → String → M W Done
  pub join : String → String → String
  pub dir : String → String

-- A file system of `go-diskfs`; `R` is an open file of it.
pub record ImageFiles (W R : Type 0) : Type 0 where
  pub mkdir : String → M W Done
  pub open_file : String → M W R
  pub write : R → String → M W Done
  pub close : R → M W Done

-- The directories that `mkdirAll` makes, from `dir` on.
unfoldable pub directories : String → List String → List String
directories dir [] = []
directories dir (path ∷ paths) =
    let next = (if dir == "" then dir else dir <> "/") <> path in next ∷ directories next paths

abbrev absolute : String → String
absolute path = if has_prefix path "/" then path else "/" <> path

module _ {W R : Type 0} (fs : ImageFiles W R) where
  unfoldable pub mkdir_each : List String → M W Done
  mkdir_each [] = pure tt
  mkdir_each (dir ∷ dirs) = let rest = mkdir_each dirs in fs.mkdir dir >> rest

  unfoldable pub mkdir_all : String → M W Done
  unfolding mkdir_each directories split
  mkdir_all full_path = mkdir_each (directories "" (split b'/' full_path))

  unfoldable pub write_new_file : String → String → M W Done
  write_new_file path contents = do rw ← fs.open_file path; fs.write rw contents; fs.close rw

  unfoldable pub write_file : String → String → M W Done
  unfolding has_prefix write_new_file
  write_file path contents = if path == "" then pure tt else write_new_file (absolute path) contents

-- `agentFileManager`
module _ {W : Type 0} (files : Files W) (config : AgentManagerConfig) where
  unfoldable pub temp_file_name : String → M W String
  temp_file_name ext = do
    name ← files.create_temp ("config-*." <> ext)
    files.close name
    files.remove name
    pure name

  unfoldable pub agent_file_name : String → String
  agent_file_name vm_cid = files.join config.file_store_path vm_cid <> ".json"

  -- `Read`
  unfoldable pub read_agent_env : {E : Type 0} → (String → Result E) → String → M W E
  unfolding agent_file_name
  read_agent_env from_bytes vm_cid = do
    bytes ← files.read_file (agent_file_name vm_cid)
    lift (from_bytes bytes)

  -- `Delete`
  unfoldable pub delete_agent_env : String → M W Done
  unfolding agent_file_name
  delete_agent_env vm_cid = do
    removed ← attempt (files.remove (agent_file_name vm_cid))
    elim removed [ inl e ↦ if files.is_not_exist e then pure tt else fail e | inr _ ↦ pure tt ]

  unfoldable pub write_agent_env : {E : Type 0} → (E → Result String) → String → E → M W String
  unfolding agent_file_name
  write_agent_env as_bytes vm_cid agent_env = do
    bytes ← lift (as_bytes agent_env)
    files.write_file (agent_file_name vm_cid) bytes
    pure bytes
