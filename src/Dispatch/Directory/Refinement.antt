-- ===== src/Dispatch/Directory/Refinement.antt =====
-- SocketUdp.c: runs of a UDP socket, event by event, beside those of its directory.
use sctp_sandbox_c.Base.{ℕ, ◌<◌, ◌≡◌, refl, true, List, [], ◌∷◌, some, pos, Bool-cases, inl, inr}
use sctp_sandbox_c.Errors.{Check, failed}
use sctp_sandbox_c.Protocol.{NetworkProtocol, is_udp, udp, udp_lite}
use sctp_sandbox_c.Os.{Env, IpSocket, Call, Sockaddr, History, Reply, ok, invoke}
use sctp_sandbox_c.Os.Laws.{IsLawful, check_then, checked_passes}
use sctp_sandbox_c.IpSocket.{IpSockets, ip_socket_to_sockaddr_storage}
use sctp_sandbox_c.Peers.{Socket, schedule_reestablishment, c_string, quit_msg}
use sctp_sandbox_c.Peers.Agrees.{Agrees-then}
use sctp_sandbox_c.Peers.Message.{terminate_message-c_string}
use sctp_sandbox_c.Udp.{
  handle_comm_lost_udp, handle_graceful_shutdown_udp, delivered_udp, send_socket_udp_to_remote,
  keep_alive_msg, keep_alive_ack_msg, connect_socket_udp, connect_each_udp,
}
use sctp_sandbox_c.Dispatch.{reestablish, connect_socket, connect_by_protocol}
use sctp_sandbox_c.Dispatch.Directory.{
  Directory, Event, datagram, connection, loss, meet, serve, serve_each, react, react_each,
}
use sctp_sandbox_c.Dispatch.Directory.Represents.{Represents}
use sctp_sandbox_c.Dispatch.Directory.Simulates.{
  SendsPass, IsUsable, AreUsable, Simulates, comm_up-Represents, drop-Simulates, refresh-Represents,
}

module _ (env : Env) where
  module _ (L : IsLawful env) where
    -- The text of a message does not count.
    buffered-Represents :
        (s : Socket) (d : Directory) (buffer : List ℕ)
        → Represents env s d
        → Represents env (record s { msg_buffer = buffer }) d
    buffered-Represents s d buffer rep = record {
      valid = record { table = rep.valid.table; count = rep.valid.count };
      datagrams = rep.datagrams;
      taken = rep.taken;
      entries = rep.entries;
    }

    connect-datagrams :
        (p : NetworkProtocol) (s : Socket) (remotes : IpSockets)
        → is_udp p ≡ true
        → connect_by_protocol env p s remotes ≡ connect_socket_udp env s remotes
    unfolding connect_by_protocol is_udp
    connect-datagrams udp s remotes e = refl
    connect-datagrams udp_lite s remotes e = refl
    connect-datagrams p s remotes e = cc

    connection-Represents :
        (s : Socket) (d : Directory) (r : IpSocket) (h : History)
        → Represents env s d
        → 0 < r.port
        → Simulates env (reestablish env s r h) (some (meet env d r))
    unfolding reestablish connect_socket connect_socket_udp connect_each_udp
    connection-Represents s d r h rep usable =
        let (t, h', e, rep') = comm_up-Represents env L s d r h rep usable in
        rw
          (connect-datagrams s.protocol s (record { sockets = r ∷ []; count = 1 }) rep.datagrams, e)
          rep'

    translated :
        (r : IpSocket) (h : History)
        → (env.pton r.family r.addr).0 ≡ pos 1
        → (a : Sockaddr) × (ip_socket_to_sockaddr_storage env r h ≡ ok a h)
    unfolding ip_socket_to_sockaddr_storage failed
    translated r h reads =
        (_, check_then env L Check.inetpton (env.pton r.family r.addr).0 0 _ h (rw reads refl))

    module _ (sends : SendsPass env) where
      acknowledged :
          (s : Socket) (msg : List ℕ) (r : IpSocket) (h : History)
          → (env.pton r.family r.addr).0 ≡ pos 1
          → (h' : History) × (send_socket_udp_to_remote env s msg r h ≡ ok tt h')
      unfolding send_socket_udp_to_remote failed
      acknowledged s msg r h reads =
          let (a, e) = translated r h reads in
          (
            Call.sendto s.fd msg a ∷ h,
            rw (e, checked_passes env L Check.send (Call.sendto s.fd msg a) h (sends s.fd msg a h))
                refl,
          )

      delivered-Simulates :
          (s : Socket) (d : Directory) (r : Reply) (sender : IpSocket) (h : History)
          → Represents env s d
          → IsUsable env (datagram r sender)
          → c_string s.msg_buffer ≡ r.bytes
          → Simulates env (delivered_udp env s sender h) (serve env d (datagram r sender))
      unfolding delivered_udp handle_graceful_shutdown_udp
      delivered-Simulates s d r sender h rep (full, short, text, usable, reads) same =
          elim (Bool-cases (env.equals r.bytes quit_msg)) [
            | inl quits ↦ rw (same, quits) (drop-Simulates env L s d sender h rep usable)
            | inr other ↦ elim (Bool-cases (env.equals r.bytes keep_alive_msg)) [
              | inl asks ↦
                  let (h₁, sent) = acknowledged s keep_alive_ack_msg sender h reads in
                  let (t, h', e, rep') = refresh-Represents env L s d sender h₁ rep usable in
                  rw (same, other, asks, sent, e) rep'
              | inr plain ↦
                  let (t, h', e, rep') = refresh-Represents env L s d sender h rep usable in
                  rw (same, other, plain, e) rep'
            ]
          ]

      react-Simulates :
          (s : Socket) (d : Directory) (e : Event) (h : History)
          → Represents env s d
          → IsUsable env e
          → Simulates env (react env s e h) (serve env d e)
      unfolding handle_comm_lost_udp schedule_reestablishment invoke
      react-Simulates s d (datagram r sender) h rep u =
          let (buffer, e, same) = terminate_message-c_string s r h u.0 u.1 u.2 in
          rw e (
            delivered-Simulates (record s { msg_buffer = buffer }) d r sender h
              (buffered-Represents s d buffer rep) u same)
      react-Simulates s d (connection remote) h rep u = connection-Represents s d remote h rep u
      react-Simulates s d (loss remote) h rep u = drop-Simulates env L s d remote _ rep u

      -- A UDP socket refines a bag of remotes: over any datagrams of nonzero bytes that fit the
      -- buffer, new connections and losses, of remotes that have a port, where every send passes
      -- and inet_pton reads the senders, a socket that represents a bag returns exactly where the
      -- bag meets no error, and then represents the bag after these events; where the bag is to
      -- give up a remote that it has not, the socket goes through a NULL pointer.
      pub react_each-Simulates :
          (events : List Event) (s : Socket) (d : Directory) (h : History)
          → Represents env s d
          → AreUsable env events
          → Simulates env (react_each env s events h) (serve_each env d events)
      unfolding react_each serve_each
      react_each-Simulates [] s d h rep u = rep
      react_each-Simulates (e ∷ events) s d h rep (u, us) =
          Agrees-then (λ t h' d'. Represents env t d') (react env s e h) (serve env d e)
            (λ t. react_each env t events) (λ d'. serve_each env d' events)
            (react-Simulates s d e h rep u)
            λ t d' h' rep'. react_each-Simulates events t d' h' rep' us
