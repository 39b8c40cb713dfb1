-- ===== src/AgentMgr/Files/RoundTrip.antt =====
-- The file in which `src/agentmgr/agent_file_manager.go` keeps the settings of a VM.
use bosh_lxd_cpi_release.Base.{String, ◌≡◌, refl, arith}
use bosh_lxd_cpi_release.Base.Go.{Result, ok, err, panic, lift, pure, ◌>>=◌, ◌>>◌}
use bosh_lxd_cpi_release.Config.{AgentManagerConfig}
use bosh_lxd_cpi_release.AgentMgr.Files.{Files, agent_file_name, read_agent_env, write_agent_env}

-- A file that was written reads as what was written.
abbrev pub ReadsBack : {W : Type 0} → Files W → Type 0
ReadsBack {W} files =
    (name contents : String) (w w' : W)
    → files.write_file name contents w ≡ (ok tt, w')
    → (files.read_file name w').0 ≡ ok contents

-- On a file system that reads back what was written, settings that were written for a VM are read
-- back for it, if the decoder takes what the encoder makes of them.
pub read_agent_env-write_agent_env :
    {W E : Type 0} (files : Files W) (config : AgentManagerConfig) (as_bytes : E → Result String)
    (from_bytes : String → Result E) (vm_cid buf : String) (env : E) (w w' : W)
    → ReadsBack files
    → ((bytes : String) → as_bytes env ≡ ok bytes → from_bytes bytes ≡ ok env)
    → write_agent_env files config as_bytes vm_cid env w ≡ (ok buf, w')
    → (as_bytes env ≡ ok buf) × ((read_agent_env files config from_bytes vm_cid w').0 ≡ ok env)
unfolding read_agent_env write_agent_env
read_agent_env-write_agent_env files config as_bytes from_bytes vm_cid buf env w w' reads decodes
      h =
    go (as_bytes env) refl h
  where
    go :
        (r : Result String)
        → as_bytes env ≡ r
        → (lift r >>= λ bytes.
              files.write_file (agent_file_name files config vm_cid) bytes >> pure bytes)
            w
          ≡ (ok buf, w')
        → (as_bytes env ≡ ok buf) × ((read_agent_env files config from_bytes vm_cid w').0 ≡ ok env)
    go (ok b) e k = ground (arith, decodes b e, reads (agent_file_name files config vm_cid) b w w')
    go (err x) e k = cc
    go panic e k = cc
