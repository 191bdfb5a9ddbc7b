-- ===== src/Main/Startup.antt =====
-- main.c: from the arguments to the tasks.
use sctp_sandbox_c.Base.{
  ℕ, ◌≤◌, ◌<◌, ◌≡◌, refl, ap, false, ◌==◌, List, [], ◌∷◌, ◌++◌, map, length, arith, Bool-cases, inl,
  inr,
}
use sctp_sandbox_c.Os.{Env, Call, IpSocket, History, ok, invoke}
use sctp_sandbox_c.Os.Laws.{IsLawful}
use sctp_sandbox_c.IpSocket.{IpSockets, listed}
use sctp_sandbox_c.Network.{NetworkTaskParams}
use sctp_sandbox_c.Arguments.{NetworkConfiguration, max_ip_socket_count}
use sctp_sandbox_c.Arguments.Addresses.{
  flat, AreAddresses, socket_of, create_network_configuration_lem,
}
use sctp_sandbox_c.Main.{io, network, sigsegv, run_network, main_program}
use sctp_sandbox_c.Forked.Setup.{sigterm}

-- The parameters of the only network task.
abbrev pub only_params : NetworkConfiguration → NetworkTaskParams
only_params config = record {
  config = config;
  name = b'n' ∷ b'e' ∷ b't' ∷ b'w' ∷ b'o' ∷ b'r' ∷ b'k' ∷ [];
  delay = (0, 0);
  lifetime = (0, 0);
}

listed-count :
    (s : IpSockets) (x : IpSocket) (xs : List IpSocket) → listed s ≡ x ∷ xs → (s.count == 0) ≡ false
listed-count s x xs e = elim (Bool-cases (s.count == 0)) [
  | inl none_used ↦
      let zero_used : s.count ≡ 0 = ground arith in
      let empty : [] ≡ x ∷ xs = rw zero_used at e in absurd (omega (arith, ap length empty))
  | inr used ↦ used
]

module _ (env : Env) (L : IsLawful env) where
  run_network-given :
      (c : NetworkConfiguration) (h : History)
      → (c.locals.count == 0) ≡ false
      → run_network env c h ≡ ok (only_params c ∷ []) h
  unfolding run_network
  run_network-given c h used = rw used refl

  -- Arguments that give one to four local addresses with their ports, then -r, then up to four
  -- remote ones, make the program install its two signal handlers, start the input task and then
  -- one network task, whose configuration lists these locals and these remotes, in order. No
  -- address starts like an option, each is shorter than 46 bytes in memory of which 46 bytes can be
  -- read, and an int holds each port.
  pub main_program-started :
      (name : List ℕ) (local : List ℕ × List ℕ) (locals remotes : List (List ℕ × List ℕ))
      (h : History)
      → AreAddresses env (local ∷ locals)
      → AreAddresses env remotes
      → length locals < max_ip_socket_count
      → length remotes ≤ max_ip_socket_count
      → (c : NetworkConfiguration) × (main_program env
            (name ∷ (flat (local ∷ locals) ++ (b'-' ∷ b'r' ∷ []) ∷ flat remotes))
            h
          ≡ ok
              (io ∷ network (only_params c) ∷ [])
              (Call.sigaction sigsegv ∷ Call.sigaction sigterm ∷ h))
        × (listed c.locals ≡ map (socket_of env) (local ∷ locals))
        × (listed c.remotes ≡ map (socket_of env) remotes)
  unfolding main_program invoke
  main_program-started name local locals remotes h al ar fl fr =
      let (c, read, own, others) =
        create_network_configuration_lem env L name (local ∷ locals) remotes
          (Call.sigaction sigsegv ∷ Call.sigaction sigterm ∷ h) al ar (omega arith) fr in
      (
        c,
        rw
            (
              read,
              run_network-given c (Call.sigaction sigsegv ∷ Call.sigaction sigterm ∷ h)
                  (listed-count c.locals _ _ own),
            )
            refl,
        own,
        others,
      )
