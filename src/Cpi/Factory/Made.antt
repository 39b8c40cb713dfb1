-- ===== src/Cpi/Factory/Made.antt =====
-- The CPI that `CPIFactory.New` (`src/cpi/factory.go`) gives.
use bosh_lxd_cpi_release.Base.{
  ℕ, String, ◌≡◌, ap, ◌⊎◌, inl, inr, ◌==◌, Bool-cases, if◌then◌else◌, arith, eq_iff,
}
use bosh_lxd_cpi_release.Base.Go.{Result, ok, M, bind-ok, Result-cases, ◌>>=◌, pure}
use bosh_lxd_cpi_release.Config.{Config, AdapterConfig, AgentManagerConfig}
use bosh_lxd_cpi_release.Adapter.Interface.{ApiAdapter}
use bosh_lxd_cpi_release.Adapter.Factory.{
  Connector, ConnectionArgs, new_adapter, new_lxd_adapter, new_incus_adapter,
}
use bosh_lxd_cpi_release.Adapter.Lxd.{lxd_adapter}
use bosh_lxd_cpi_release.Adapter.Lxd.Client.{LxdClient}
use bosh_lxd_cpi_release.Adapter.Incus.{incus_adapter}
use bosh_lxd_cpi_release.Adapter.Incus.Client.{IncusClient}
use bosh_lxd_cpi_release.Cpi.State.{Cpi, AgentManager, FileLock, Library, new_cpi}
use bosh_lxd_cpi_release.Cpi.Factory.{CpiFactory, new_from_factory}

made-ok :
    {W E : Type 0} (new_agent_manager : AgentManagerConfig → Result (AgentManager W E))
    (parse_duration : String → Result ℕ) (new_lock : String → FileLock W) (uuid_gen : M W String)
    (library : Library E) (adapter : ApiAdapter W) (config : Config) (w w' : W) (c : Cpi W E)
    → new_cpi new_agent_manager parse_duration new_lock uuid_gen library adapter config w
      ≡ (ok c, w')
    → ((c.adapter ≡ adapter) × (w' ≡ w))
      × (new_agent_manager config.agent_config ≡ ok c.agent_mgr)
      × (parse_duration config.server.create_vm_lock.timeout ≡ ok c.create_vm_lock_timeout)
unfolding new_cpi
made-ok new_agent_manager parse_duration new_lock uuid_gen library adapter config w w' c h =
    elim (Result-cases (new_agent_manager config.agent_config)) [
      | inl (am, e) ↦ elim (Result-cases (parse_duration config.server.create_vm_lock.timeout)) [
        | inl (t, k) ↦ ground arith
        | inr (inl (x, k)) ↦ ground arith
        | inr (inr k) ↦ ground arith
      ]
      | inr (inl (x, e)) ↦ ground arith
      | inr (inr e) ↦ ground arith
    ]

module _ {W : Type 0} (lxd : Connector W (LxdClient W)) (incus : Connector W (IncusClient W)) where
  abbrev args_of : AdapterConfig → ConnectionArgs
  args_of config = record {
    tls_client_cert = config.tls_client_cert;
    tls_client_key = config.tls_client_key;
    insecure_skip_verify = config.insecure_skip_verify;
  }

  -- A client of a library for a project and a target, where they are named.
  abbrev narrowed : {C : Type 0} → Connector W C → AdapterConfig → C → C
  narrowed k config client =
      let client' = if config.project == "" then client else k.use_project config.project client in
      if config.target == "" then client' else k.use_target config.target client'

  -- That an adapter is the one that the configuration names, over a client that was connected with
  -- its URL and its credentials.
  abbrev pub IsNamedBy : AdapterConfig → W → ApiAdapter W → W → Type 0
  IsNamedBy config w adapter w' =
      ((config.adapter_type ≡ "lxd")
        × (client : LxdClient W) × (lxd.connect config.url (args_of config) w ≡ (ok client, w'))
        × (adapter ≡ lxd_adapter (narrowed lxd config client)))
      ⊎ ((config.adapter_type ≡ "incus")
          × (client : IncusClient W) × (incus.connect config.url (args_of config) w
              ≡ (ok client, w'))
          × (adapter ≡ incus_adapter (narrowed incus config client)))

  connected-ok :
      {C : Type 0} (k : Connector W C) (make : C → ApiAdapter W) (config : AdapterConfig) (w w' : W)
      (adapter : ApiAdapter W)
      → (k.connect config.url (args_of config) >>= λ c. pure (make (narrowed k config c))) w
        ≡ (ok adapter, w')
      → (client : C) × (k.connect config.url (args_of config) w ≡ (ok client, w'))
        × (adapter ≡ make (narrowed k config client))
  connected-ok k make config w w' adapter h =
      let (client, v, e, h') =
        bind-ok (k.connect config.url (args_of config)) (λ c. pure (make (narrowed k config c))) w
          h in
      (client, rw (ap (λ p. p.1) h') at e, cc)

  IsNamedBy-same :
      (config : AdapterConfig) (w : W) (a a' : ApiAdapter W) (v v' : W)
      → a ≡ a'
      → v ≡ v'
      → IsNamedBy config w a' v'
      → IsNamedBy config w a v
  IsNamedBy-same config w a a' v v' same same' h = rw (same, same') h

  new_adapter-IsNamedBy :
      (config : AdapterConfig) (w w' : W) (adapter : ApiAdapter W)
      → new_adapter lxd incus config w ≡ (ok adapter, w')
      → IsNamedBy config w adapter w'
  unfolding new_adapter new_lxd_adapter new_incus_adapter
  new_adapter-IsNamedBy config w w' adapter h = elim (Bool-cases (config.adapter_type == "lxd")) [
    | inl is_lxd ↦
        let (client, connected, made) =
          connected-ok lxd lxd_adapter config w w' adapter (rw is_lxd at h) in
        inl (ground (arith, eq_iff config.adapter_type "lxd"), client, connected, made)
    | inr no_lxd ↦ elim (Bool-cases (config.adapter_type == "incus")) [
      | inl is_incus ↦
          let (client, connected, made) =
            connected-ok incus incus_adapter config w w' adapter (rw (no_lxd, is_incus) at h) in
          inr (ground (arith, eq_iff config.adapter_type "incus"), client, connected, made)
      | inr no_incus ↦ ground arith
    ]
  ]

  -- A CPI that New gives without an error stands on the adapter that the configuration names, over
  -- a client that was connected with its URL and its credentials and narrowed to its project and
  -- target; the connection is all that was done outside; the CPI has the agent manager and the
  -- timeout of the lock that the configuration's texts are read as.
  pub new_from_factory-IsNamedBy :
      {E : Type 0} (new_agent_manager : AgentManagerConfig → Result (AgentManager W E))
      (parse_duration : String → Result ℕ) (new_lock : String → FileLock W) (uuid_gen : M W String)
      (library : Library E) (f : CpiFactory) (w w' : W) (c : Cpi W E)
      → new_from_factory lxd incus new_agent_manager parse_duration new_lock uuid_gen library f w
        ≡ (ok c, w')
      → IsNamedBy f.config.server w c.adapter w'
        × (new_agent_manager f.config.agent_config ≡ ok c.agent_mgr)
        × (parse_duration f.config.server.create_vm_lock.timeout ≡ ok c.create_vm_lock_timeout)
  unfolding new_from_factory new_cpi
  new_from_factory-IsNamedBy new_agent_manager parse_duration new_lock uuid_gen library f w w' c h =
      let (adapter, v, e, h') =
        bind-ok (new_adapter lxd incus f.config.server)
          (λ adapter.
            new_cpi new_agent_manager parse_duration new_lock uuid_gen library adapter f.config)
          w h in
      let (same, am, timeout) =
        made-ok new_agent_manager parse_duration new_lock uuid_gen library adapter f.config v w' c
          h' in
      (
        IsNamedBy-same f.config.server w c.adapter adapter w' v same.0 same.1
            (new_adapter-IsNamedBy f.config.server w v adapter e),
        am,
        timeout,
      )
