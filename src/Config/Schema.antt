-- ===== src/Config/Schema.antt =====
-- The configuration's data model (src/config/schema.rs, src/net.rs). Every record has the source's
-- fields; `F` is the type of `f64`, and a path is its text.
use scg_seshat.Prelude.{ℕ, Bool, Option, List}
use Prim.Native.String.{String}

pub data OutlierRemoval : Type 0 where
  none iqr percentile : OutlierRemoval

pub data MetricsBackend : Type 0 where
  procfs perf ebpf none : MetricsBackend

pub data Mode : Type 0 where
  throughput pingpong connrate : Mode

pub data Interface : Type 0 where
  tcp udp unix shm tproxy : Interface

pub data Pattern : Type 0 where
  sustained periodic burst ramp : Pattern

pub data ProtocolType : Type 0 where
  none tls dtls wireguard ipsec custom : ProtocolType

pub data TlsVersion : Type 0 where
  v1_0 v1_2 v1_3 : TlsVersion

pub data ProtectionMode : Type 0 where
  full integrity_only routing_only : ProtectionMode

pub data AppProtocol : Type 0 where
  none ale raw : AppProtocol

pub data TopologyMode : Type 0 where
  loopback veth netns physical remote : TopologyMode

pub data GatewayChain : Type 0 where
  scg_direct scg_scg : GatewayChain

pub data StreamRole : Type 0 where
  safety bulk monitoring : StreamRole

pub data ReloadAction : Type 0 where
  update_tls_profile add_connection remove_connection rotate_cert invalid_config : ReloadAction

pub data AddressFamily : Type 0 where
  ipv4 ipv6 : AddressFamily

pub record Suite : Type 0 where
  pub name : String
  pub description : String
  pub author : String
  pub version : String

pub record Defaults (F : Type 0) : Type 0 where
  pub runs : ℕ
  pub duration_secs : ℕ
  pub warmup_secs : ℕ
  pub cooldown_secs : ℕ
  pub cpu_affinity_sender : List ℕ
  pub cpu_affinity_receiver : List ℕ
  pub cpu_affinity_gateway : List ℕ
  pub auto_affinity : Bool
  pub loss_threshold_pct : F
  pub scg_process_name : String
  pub collect_system_metrics : Bool
  pub outlier_removal : OutlierRemoval
  pub confidence_level : F
  pub metrics_backend : MetricsBackend
  pub metrics_sample_rate_hz : ℕ

pub record Requirements : Type 0 where
  pub openssl : Bool
  pub ktls : Bool
  pub dtls10 : Bool
  pub cap_net_admin : Bool
  pub perf : Bool
  pub ebpf : Bool

pub record Comparison (F : Type 0) : Type 0 where
  pub group : String
  pub reference : String
  pub gateway_reference : Option String
  pub calibration_group : Option String
  pub calibration_fraction : Option F

pub record Sender (F : Type 0) : Type 0 where
  pub interface : Interface
  pub target_addr : String
  pub pattern : Pattern
  pub rate_limit_mbps : Option F
  pub interval_us : Option ℕ
  pub burst_count : Option ℕ
  pub burst_pause_us : Option ℕ
  pub ramp_start_mbps : Option F
  pub ramp_step_mbps : Option F
  pub ramp_step_interval_secs : Option ℕ

pub record Saturation (F : Type 0) : Type 0 where
  pub start_mbps : F
  pub step_mbps : F
  pub max_mbps : F

pub record CertificateSelection : Type 0 where
  pub server_cert : Option String
  pub server_key : Option String
  pub client_cert : Option String
  pub client_key : Option String
  pub ca_cert : Option String
  pub server_name : Option String

pub data ProviderParam : Type 0 where
  bool : Bool → ProviderParam
  -- an `i64` by its bit pattern
  int : ℕ → ProviderParam
  str : String → ProviderParam

pub record Protocol : Type 0 where
  pub kind : ProtocolType
  pub version : TlsVersion
  pub kernel : Bool
  pub mutual_auth : Bool
  pub cipher_suite : Option String
  pub cert_key_type : Option String
  pub kex_group : Option String
  pub protection_mode : ProtectionMode
  pub app_protocol : AppProtocol
  pub profile : Option String
  pub psk_identity : Option String
  pub psk_hex : Option String
  pub resumption : Bool
  pub certificates : CertificateSelection
  pub security_provider : Option String
  -- a sorted map, as its entries
  pub provider_params : List (String × ProviderParam)

pub record Topology : Type 0 where
  pub mode : TopologyMode
  pub auto_setup : Bool
  pub left_namespace : String
  pub right_namespace : String
  pub left_ip : String
  pub right_ip : String
  pub subnet_mask : ℕ
  pub mtu : ℕ

pub record Gateway : Type 0 where
  pub enabled : Bool
  pub chain : GatewayChain

pub record NetworkImpairment (F : Type 0) : Type 0 where
  pub enabled : Bool
  pub apply_to : String
  pub latency_ms : F
  pub jitter_ms : F
  pub loss_percent : F
  pub bandwidth_limit_mbps : ℕ
  pub reorder_percent : F
  pub duplicate_percent : F

pub record Priority : Type 0 where
  pub dscp_tag : String
  pub traffic_class : String
  pub expected_dscp : Option String

pub record Stream : Type 0 where
  pub role : StreamRole
  pub interface : Interface
  pub target_addr : String
  pub connections : ℕ
  pub message_size_bytes : ℕ
  pub pattern : Pattern
  pub interval_us : Option ℕ
  pub protocol : Protocol
  pub priority : Priority

pub record ReloadEvent : Type 0 where
  pub trigger_at_secs : ℕ
  pub grpc_addr : Option String
  pub action : ReloadAction
  pub payload_file : Option String
  pub expect_zero_drops : Bool
  pub measure_window_before_secs : ℕ
  pub measure_window_after_secs : ℕ

pub record OptimizationFlags : Type 0 where
  pub zero_copy : Bool
  pub spin_wait : Bool
  pub spin_wait_us : Option ℕ
  pub sock_buf_size : Option ℕ
  pub pipe_size : Option ℕ
  pub relay_buf_size : Option ℕ
  pub notsent_lowat : Option ℕ
  pub busy_poll_us : Option ℕ
  pub bdp_adaptive : Bool
  pub bdp_queue_budget_us : Option ℕ
  pub simulated_delay_ms : Option ℕ
  pub buffer_slots : Option ℕ
  pub buffer_slot_size : Option ℕ
  pub shm_ring_capacity : Option ℕ
  pub shm_ring_kind : Option String
  pub shm_segment_size : Option ℕ
  pub shm_num_segments : Option ℕ
  pub shm_g2c_notify : Option String
  pub perf_profile : Option String

pub record Scenario (F : Type 0) : Type 0 where
  pub name : String
  pub category : Option String
  pub mode : Mode
  pub enabled : Bool
  pub disabled_reason : Option String
  pub message_size_bytes : Option ℕ
  pub connections : ℕ
  pub sender : Option (Sender F)
  pub protocol : Protocol
  pub topology : Topology
  pub address_family : AddressFamily
  pub gateway : Gateway
  pub network_impairment : Option (NetworkImpairment F)
  pub streams : List Stream
  pub reload_event : Option ReloadEvent
  pub optimization_flags : OptimizationFlags
  pub runs : Option ℕ
  pub duration_secs : Option ℕ
  pub warmup_secs : Option ℕ
  pub cooldown_secs : Option ℕ
  pub saturation : Option (Saturation F)
  pub requirements : Requirements
  pub comparison : Option (Comparison F)
  pub description : Option String

pub record Config (F : Type 0) : Type 0 where
  pub schema : Option String
  pub suite : Suite
  pub defaults : Defaults F
  pub scenarios : List (Scenario F)
