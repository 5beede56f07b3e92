-- ===== src/Config/Tests.antt =====
-- The theorems on validation (src/config/mod.rs) at a configuration of one scenario.
use scg_seshat.Prelude.{arith, ℕ, ◌≡◌, ◌↔◌, true, false, none, some, [], ◌∷◌}
use scg_seshat.Prelude.Samples.{whole}
use Prim.Native.String.{String}
use scg_seshat.Config.Schema.{
  OutlierRemoval, MetricsBackend, Mode, Interface, Pattern, ProtocolType, TlsVersion,
  ProtectionMode, AppProtocol, TopologyMode, GatewayChain, AddressFamily, Sender, Protocol,
  OptimizationFlags, Scenario, Config,
}
use scg_seshat.Config.Report.{scenario_ok, ok}
use scg_seshat.Config.Address.{is_blank, is_host_port}
use scg_seshat.Config.Suite.{validate_scenario, validate}
use scg_seshat.Config.Estimate.{estimate_total_secs}
use scg_seshat.Config.Estimate.Exact.{total_secs, estimate_total_secs-exact}
use scg_seshat.Config.Rules.{IsHostPort, ScenarioIsValid}
use scg_seshat.Config.Rules.HostPort.{is_host_port_iff}
use scg_seshat.Config.Rules.Whole.{validate_scenario-ok_iff}
use scg_seshat.Config.Rules.Names.{ConfigIsValid, validate-ok_iff}

abbrev udp_sender : Sender ℕ
udp_sender = record {
  interface = Interface.udp;
  target_addr = "gateway:9000";
  pattern = Pattern.periodic;
  rate_limit_mbps = none;
  interval_us = some 100;
  burst_count = none;
  burst_pause_us = none;
  ramp_start_mbps = none;
  ramp_step_mbps = none;
  ramp_step_interval_secs = none;
}

abbrev dtls : Protocol
dtls = record {
  kind = ProtocolType.dtls;
  version = TlsVersion.v1_2;
  kernel = false;
  mutual_auth = false;
  cipher_suite = none;
  cert_key_type = none;
  kex_group = none;
  protection_mode = ProtectionMode.full;
  app_protocol = AppProtocol.none;
  profile = none;
  psk_identity = none;
  psk_hex = none;
  resumption = false;
  certificates = record {
    server_cert = none;
    server_key = none;
    client_cert = none;
    client_key = none;
    ca_cert = none;
    server_name = none;
  };
  security_provider = none;
  provider_params = [];
}

abbrev flags : OptimizationFlags
flags = record {
  zero_copy = false;
  spin_wait = false;
  spin_wait_us = none;
  sock_buf_size = none;
  pipe_size = none;
  relay_buf_size = none;
  notsent_lowat = none;
  busy_poll_us = none;
  bdp_adaptive = false;
  bdp_queue_budget_us = none;
  simulated_delay_ms = none;
  buffer_slots = none;
  buffer_slot_size = none;
  shm_ring_capacity = none;
  shm_ring_kind = none;
  shm_segment_size = none;
  shm_num_segments = none;
  shm_g2c_notify = none;
  perf_profile = some "latency";
}

abbrev scenario : Scenario ℕ
scenario = record {
  name = "udp_dtls";
  category = some "latency";
  mode = Mode.throughput;
  enabled = true;
  disabled_reason = none;
  message_size_bytes = some 64;
  connections = 1;
  sender = some udp_sender;
  protocol = dtls;
  topology = record {
    mode = TopologyMode.loopback;
    auto_setup = false;
    left_namespace = "scg_left";
    right_namespace = "scg_right";
    left_ip = "10.0.0.1";
    right_ip = "10.0.0.2";
    subnet_mask = 24;
    mtu = 1500;
  };
  address_family = AddressFamily.ipv4;
  gateway = record { enabled = true; chain = GatewayChain.scg_direct };
  network_impairment = none;
  streams = [];
  reload_event = none;
  optimization_flags = flags;
  runs = none;
  duration_secs = none;
  warmup_secs = none;
  cooldown_secs = none;
  saturation = none;
  requirements = record {
    openssl = false;
    ktls = false;
    dtls10 = false;
    cap_net_admin = false;
    perf = false;
    ebpf = false;
  };
  comparison = none;
  description = none;
}

abbrev config : Config ℕ
config = record {
  schema = none;
  suite = record { name = "suite"; description = ""; author = ""; version = "1" };
  defaults = record {
    runs = 3;
    duration_secs = 10;
    warmup_secs = 2;
    cooldown_secs = 1;
    cpu_affinity_sender = [];
    cpu_affinity_receiver = [];
    cpu_affinity_gateway = [];
    auto_affinity = true;
    loss_threshold_pct = 1;
    scg_process_name = "scg";
    collect_system_metrics = true;
    outlier_removal = OutlierRemoval.none;
    confidence_level = 1;
    metrics_backend = MetricsBackend.procfs;
    metrics_sample_rate_hz = 10;
  };
  scenarios = scenario ∷ [];
}

-- The parser of socket addresses is replaced by the test for a host and a port.
parses-IsHostPort : (addr : String) → is_host_port addr ≡ true → IsHostPort addr
parses-IsHostPort addr h = (is_host_port_iff addr).0 h

validate_scenario_example :
    (scenario_ok (validate_scenario whole is_host_port scenario) ≡ true)
    ↔ ((is_blank "udp_dtls" ≡ false) × (true ≡ true → ScenarioIsValid whole scenario))
validate_scenario_example = validate_scenario-ok_iff whole is_host_port parses-IsHostPort scenario

validate_example : (ok (validate whole is_host_port config) ≡ true) ↔ ConfigIsValid whole config
validate_example = validate-ok_iff whole is_host_port parses-IsHostPort config

estimate_example : estimate_total_secs config ≡ total_secs config.defaults config.scenarios
estimate_example = estimate_total_secs-exact config (omega arith)
