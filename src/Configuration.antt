-- ===== src/Configuration.antt =====
-- SocketConfiguration.c: the socket options. Each setter makes one checked call.
use sctp_sandbox_c.Base.{ℕ, ◌*◌, true, ◌∷◌, [], ℤ, ◌==◌, ltb, if◌then◌else◌}
use sctp_sandbox_c.Errors.{Check}
use sctp_sandbox_c.Protocol.{af_inet}
use sctp_sandbox_c.Os.{Env, Call, SockOpt, M, pure, ◌>>=◌, ◌>>◌, checked}

abbrev on : ℕ
on = 1

abbrev pub all_associations : ℕ
all_associations = 0

module _ (env : Env) (fd : ℤ) where
  unfoldable pub setsockopt : SockOpt → M (Unit {0})
  setsockopt o = do checked env Check.setsockopt (Call.setsockopt fd o); pure tt

  unfoldable pub configure_no_delay : M (Unit {0})
  configure_no_delay = setsockopt (SockOpt.sctp_nodelay on)

  unfoldable pub configure_reuse_addr : M (Unit {0})
  configure_reuse_addr = setsockopt (SockOpt.so_reuseaddr on)

  -- The flags of `sctp_event_subscribe` in the order of its fields: data io, association, address,
  -- send failure, peer error, shutdown, partial delivery, adaptation layer.
  unfoldable pub configure_receiving_events : M (Unit {0})
  configure_receiving_events = setsockopt (SockOpt.sctp_events (1 ∷ 1 ∷ 1 ∷ 1 ∷ 1 ∷ 1 ∷ 1 ∷ 1 ∷ []))

  unfoldable pub configure_init_params : (init_max_attempts init_max_timeout : ℕ) → M (Unit {0})
  configure_init_params attempts timeout = setsockopt (SockOpt.sctp_initmsg attempts timeout)

  unfoldable pub configure_rto : (initial min max assoc : ℕ) → M (Unit {0})
  configure_rto initial min max assoc = setsockopt (SockOpt.sctp_rtoinfo assoc initial min max)

  unfoldable pub configure_sack : (freq delay assoc : ℕ) → M (Unit {0})
  configure_sack freq delay assoc = setsockopt (SockOpt.sctp_delayed_sack assoc freq delay)

  unfoldable pub configure_max_retrans : (max_retrans assoc : ℕ) → M (Unit {0})
  configure_max_retrans max_retrans assoc = setsockopt (SockOpt.sctp_associnfo assoc max_retrans)

  unfoldable pub configure_dscp : (dscp family : ℕ) → M (Unit {0})
  configure_dscp dscp family =
      let tos = dscp * 4 in
      setsockopt (if family == af_inet then SockOpt.ip_tos tos else SockOpt.ipv6_tclass tos)

  unfoldable pub configure_ipv4_address_mapping : M (Unit {0})
  configure_ipv4_address_mapping = setsockopt (SockOpt.sctp_i_want_mapped_v4_addr on)

  unfoldable pub configure_ttl : ℕ → M (Unit {0})
  configure_ttl ttl = setsockopt (SockOpt.ip_ttl ttl)

  unfoldable pub configure_peer_address_params :
      (hb_interval path_max_retrans path_mtu family assoc : ℕ) → M (Unit {0})
  configure_peer_address_params hb_interval path_max_retrans path_mtu family assoc = setsockopt (
      SockOpt.sctp_peer_addr_params family assoc hb_interval path_max_retrans path_mtu true
        (ltb 0 hb_interval))

  unfoldable pub configure_max_seg : (max_seg assoc : ℕ) → M (Unit {0})
  configure_max_seg max_seg assoc = setsockopt (SockOpt.sctp_maxseg assoc max_seg)

  -- The flags that F_GETFL returned are set again, with O_NONBLOCK added.
  unfoldable pub configure_non_blocking_mode : M (Unit {0})
  configure_non_blocking_mode = do
    r ← checked env Check.fcntl (Call.fcntl_getfl fd)
    checked env Check.fcntl (Call.fcntl_setfl fd r.result true)
    pure tt

  unfoldable pub configure_keep_alive : (time interval probes : ℕ) → M (Unit {0})
  configure_keep_alive time interval probes = do
    setsockopt (SockOpt.tcp_keepidle time)
    setsockopt (SockOpt.tcp_keepintvl interval)
    setsockopt (SockOpt.tcp_keepcnt probes)
    setsockopt (SockOpt.so_keepalive on)

  unfoldable pub configure_pass_cred : M (Unit {0})
  configure_pass_cred = setsockopt (SockOpt.so_passcred on)
