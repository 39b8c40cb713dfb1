-- ===== src/Tests/CmdRuns.antt =====
-- The programs and the store of settings.
use bosh_lxd_cpi_release.Base.{
  eq_iff, ℕ, ◌+◌, String, true, false, ◌≡◌, refl, [], ◌∷◌, ◌<>◌, arith, some, List, inr,
}
use bosh_lxd_cpi_release.Cmd.Cleanup.Whole.{Cleans, clean-dry, run_cleanup-orphans}
use bosh_lxd_cpi_release.AgentMgr.Factory.Settings.{fill_of, write-Writes}
use bosh_lxd_cpi_release.AgentMgr.Image.Written.{Writes}
use bosh_lxd_cpi_release.AgentMgr.Image.Steps.{Traced, start, traced_files, traced_images}
use bosh_lxd_cpi_release.AgentMgr.Factory.{cdrom_manager, new_agent_manager}
use bosh_lxd_cpi_release.AgentMgr.Image.{DiskImages, Encoding, write_cdrom}
use bosh_lxd_cpi_release.Cpi.State.{AgentManager}
use bosh_lxd_cpi_release.Base.Dict.{Dict, get, insert, lookup-insert}
use bosh_lxd_cpi_release.Base.Go.{error, Result, ok, err, Done}
use bosh_lxd_cpi_release.Config.{Config, default_config, AgentManagerConfig}
use bosh_lxd_cpi_release.Cpi.Requests.{Logged, begin, logged, Request}
use bosh_lxd_cpi_release.Cmd.Cleanup.{Tally, no_volumes, clean, run_cleanup}
use bosh_lxd_cpi_release.Cmd.Cleanup.Unused.{DeletesUnused}
use bosh_lxd_cpi_release.Throttle.Client.{ThrottleClient, response}
use bosh_lxd_cpi_release.Cmd.Run.{Calls, run_cpi}
use bosh_lxd_cpi_release.Cmd.Run.Turns.{run_cpi-served}
use bosh_lxd_cpi_release.AgentMgr.Files.{Files, read_agent_env, write_agent_env}
use bosh_lxd_cpi_release.AgentMgr.Files.RoundTrip.{ReadsBack, read_agent_env-write_agent_env}
use bosh_lxd_cpi_release.Tests.Fixtures.{Log, did, all_well, adapter_of}

abbrev volumes : Dict ℕ
volumes = ("vol-c-1", 0) ∷ ("vol-c-2", 1) ∷ ("vol-p-1", 0) ∷ ("vol-c-3", 0) ∷ []

abbrev usage : Dict ℕ
usage = ("vol-c-1", 0) ∷ ("vol-c-2", 1) ∷ ("vol-p-1", 0) ∷ []

run_cleanup-orphans_example :
    (t : Tally) × (s' : Logged Log) × (run_cleanup
        (λ c s. (ok (logged (adapter_of all_well)), s))
        (λ s. (ok default_config, s))
        false
        (begin [])
      ≡ (ok (0, t), s'))
    × Cleans (adapter_of all_well) "default" usage no_volumes (begin []) t s'
run_cleanup-orphans_example =
    run_cleanup-orphans (adapter_of all_well) default_config usage
      (λ c s. (ok (logged (adapter_of all_well)), s)) (λ s. (ok default_config, s)) (begin [])
      (begin []) (begin []) ("usage" ∷ []) refl refl refl (λ name w e. cc) (λ w e. cc)

clean-dry_example :
    (rs : List Request) × (unused : ℕ) × DeletesUnused "pool" volumes rs unused
    × (clean (adapter_of all_well) "pool" true no_volumes volumes []
        ≡ (ok (record no_volumes { processed = 0 + unused }), []))
clean-dry_example = clean-dry (adapter_of all_well) "pool" no_volumes volumes []

abbrev throttled_config : Config
throttled_config = record default_config {
  throttle_config = record { enabled = true; path = "/tmp/t.sock"; limit = 4; hold = "2m" };
}

abbrev logging_client : ThrottleClient Log
logging_client = record {
  post = λ url kind body. did ("post " <> url) (ok (response 201 (inr "t1")));
  send_delete = λ url. did ("delete " <> url) (ok (response 204 (inr "")));
}

abbrev failing_calls : Calls Log
failing_calls = record {
  serve_once = λ f. did "serve" (err (error "broken pipe"));
  new_client = λ c. did ("dial " <> c.path) (ok logging_client);
  lock_and_wait = λ c. did "lock" (ok "t1");
  join_path = λ root name. ok (root <> "/" <> name);
}

run_cpi-served_example :
    run_cpi failing_calls (did "config" (ok throttled_config)) []
    ≡ (ok 1, "serve" ∷ "lock" ∷ "dial /tmp/t.sock" ∷ "config" ∷ [])
run_cpi-served_example =
    run_cpi-served failing_calls (did "config" (ok throttled_config)) refl refl refl refl
      (err (error "broken pipe")) refl

-- A file system whose files are a dictionary.
abbrev dict_files : Files (Dict String)
dict_files = record {
  create_temp = λ p w. (ok p, w);
  close = λ n w. (ok tt, w);
  remove = λ n w. (ok tt, w);
  is_not_exist = λ e. true;
  read_file = λ n w. (ok (get n w), w);
  write_file = λ n s w. (ok tt, insert n s w);
  join = λ a b. a <> "/" <> b;
  dir = λ a. a;
}

dict_files-ReadsBack : ReadsBack dict_files
unfolding get
dict_files-ReadsBack name contents w w' h =
    ground (arith, lookup-insert name name contents w, eq_iff name name)

abbrev env_bytes : Result String
env_bytes = ok "env"

read_agent_env-write_agent_env_example :
    (env_bytes ≡ ok "env")
    × ((read_agent_env dict_files default_config.agent_config
          (λ s. ok s)
          "vm-1"
          (("/vm-1.json", "env") ∷ [])).0
        ≡ ok "env")
unfolding write_agent_env insert
read_agent_env-write_agent_env_example =
    read_agent_env-write_agent_env dict_files default_config.agent_config (λ s. ok s) (λ s. ok s)
      "vm-1" "env" "env" [] (("/vm-1.json", "env") ∷ []) dict_files-ReadsBack (λ b e. cc) refl

-- A maker of images whose files are those of the dictionary.
abbrev dict_images : DiskImages (Dict String) Done String
dict_images = record {
  create = λ n size w. (ok tt, w);
  with_logical_blocksize = λ size i. i;
  partition = λ i table w. (ok tt, w);
  create_filesystem = λ i spec w. (
    ok (record {
      image_files = record {
        mkdir = λ p v. (ok tt, v);
        open_file = λ p v. (ok p, v);
        write = λ p contents v. (ok tt, insert p contents v);
        close = λ p v. (ok tt, v);
      };
      finalize = some (λ rock_ridge label v. (ok tt, v));
    }),
    w,
  );
}

abbrev text_encoding : Encoding String
text_encoding = record { metadata_json = ok "{}"; as_bytes = λ s. ok s }

abbrev cdrom_config : AgentManagerConfig
cdrom_config = record {
  source_type = "CDROM";
  label = "config-2";
  metadata_path = "meta-data";
  userdata_path = "/user-data";
  file_store_path = "store";
}

abbrev cdrom_of_dict : AgentManager (Traced (Dict String)) String
cdrom_of_dict =
    cdrom_manager (traced_files dict_files) (traced_images dict_images) text_encoding (λ s. ok s)
      cdrom_config

write-Writes_example :
    Writes dict_files cdrom_config dict_images text_encoding
      (fill_of dict_files cdrom_config dict_images text_encoding (λ s. ok s))
      "vm-1"
      "env"
      (cdrom_of_dict.write "vm-1" "env" (start [])).1
unfolding write_cdrom new_agent_manager get insert
write-Writes_example =
    write-Writes dict_files cdrom_config dict_images text_encoding (λ s. ok s) cdrom_of_dict "vm-1"
      "env" [] (cdrom_of_dict.write "vm-1" "env" (start [])).1 "" refl refl
