-- ===== src/Main.antt =====
-- main.c: which tasks the program starts, and with which parameters.
pub mod Startup
use sctp_sandbox_c.Base.{
  ℕ, ◌+◌, ◌*◌, ◌%◌, Bool, not, ◌||◌, ◌==◌, List, [], ◌∷◌, set, get_elem?, Option, none, some, map,
  if◌then◌else◌,
}
use sctp_sandbox_c.Protocol.{is_unix}
use sctp_sandbox_c.Os.{Env, Call, IpSocket, M, pure, ◌>>=◌, ◌>>◌, invoke}
use sctp_sandbox_c.Forked.Setup.{sigterm}
use sctp_sandbox_c.IpSocket.{IpSockets, no_ip_socket, create_ip_socket}
use sctp_sandbox_c.Arguments.{NetworkConfiguration, create_network_configuration}
use sctp_sandbox_c.Network.{NetworkTaskParams}

-- "127.0.0.1"
abbrev pub localhost : List ℕ
localhost = b'1' ∷ b'2' ∷ b'7' ∷ b'.' ∷ b'0' ∷ b'.' ∷ b'0' ∷ b'.' ∷ b'1' ∷ []

abbrev pub s1_port : ℕ
s1_port = 36412

abbrev pub x2_port : ℕ
x2_port = 36422

abbrev pub sigsegv : ℕ
sigsegv = 11

-- The array with its first entry assigned, and the count set.
abbrev pub one_socket : IpSockets → IpSocket → IpSockets
one_socket s x = record { sockets = set s.sockets 0 x; count = 1 }

-- The first two entries.
abbrev pub two_sockets : IpSockets → IpSocket → IpSocket → IpSockets
two_sockets s x y = record { sockets = set (set s.sockets 0 x) 1 y; count = 2 }

-- A call of `startTask`: the function, with its parameters.
pub data AsyncTask : Type 0 where
  io : AsyncTask
  network : NetworkTaskParams → AsyncTask

unfoldable pub mme_params : NetworkConfiguration → IpSocket → NetworkTaskParams
mme_params config local = record {
  config = record config {
    locals = one_socket config.locals local;
    remotes = record (config.remotes) { count = 0 };
  };
  name = b'M' ∷ b'M' ∷ b'E' ∷ [];
  delay = (0, 0);
  lifetime = (0, 0);
}

unfoldable pub enb1_params : NetworkConfiguration → (mme local : IpSocket) → NetworkTaskParams
enb1_params config mme local = record {
  config = record config {
    locals = one_socket config.locals local;
    remotes = one_socket config.remotes mme;
  };
  name = b'e' ∷ b'N' ∷ b'B' ∷ b'1' ∷ [];
  delay = (0, 100 * 1000 * 1000);
  lifetime = (0, 0);
}

-- Its second remote is the MME's address at a port that is 17 higher.
unfoldable pub enb2_params : NetworkConfiguration → (mme local : IpSocket) → NetworkTaskParams
enb2_params config mme local = record {
  config = record config {
    locals = one_socket config.locals local;
    remotes = two_sockets config.remotes mme (record mme { port = (mme.port + 17) % 65536 });
  };
  name = b'e' ∷ b'N' ∷ b'B' ∷ b'2' ∷ [];
  delay = (0, 200 * 1000 * 1000);
  lifetime = (13, 0);
}

module _ (env : Env) where
  unfoldable pub run_predefined_config : NetworkConfiguration → M (List NetworkTaskParams)
  unfolding mme_params enb1_params enb2_params create_ip_socket
  run_predefined_config config = do
    mme ← create_ip_socket env localhost s1_port
    enb1 ← create_ip_socket env localhost x2_port
    enb2 ← create_ip_socket env localhost (x2_port + 1)
    pure (mme_params config mme ∷ enb1_params config mme enb1 ∷ enb2_params config mme enb2 ∷ [])

  -- The parameters of the tasks that are started, in order.
  unfoldable pub run_network : NetworkConfiguration → M (List NetworkTaskParams)
  unfolding run_predefined_config
  run_network config =
      if not (config.locals.count == 0) || is_unix config.protocol
      then pure (
          record {
            config = config;
            name = b'n' ∷ b'e' ∷ b't' ∷ b'w' ∷ b'o' ∷ b'r' ∷ b'k' ∷ [];
            delay = (0, 0);
            lifetime = (0, 0);
          }
          ∷ [])
      else run_predefined_config config

  -- The handlers of two signals are installed; then the tasks that are started, in order, from the
  -- arguments of the process.
  unfoldable pub main_program : List (List ℕ) → M (List AsyncTask)
  unfolding create_network_configuration run_network
  main_program argv = do
    invoke env (Call.sigaction sigterm)
    invoke env (Call.sigaction sigsegv)
    config ← create_network_configuration env argv
    started ← run_network config
    pure (io ∷ map network started)
