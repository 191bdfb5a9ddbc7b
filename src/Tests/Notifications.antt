-- ===== src/Tests/Notifications.antt =====
-- Messages to an SCTP socket that has met nobody, on a machine that peels associations off.
use sctp_sandbox_c.Base.{ℕ, ◌≡◌, refl, List, [], ◌∷◌, pos, arith}
use sctp_sandbox_c.Protocol.{sctp, is_udp}
use sctp_sandbox_c.Os.{
  Env, Call, Reply, Notification, History, ok, assoc_change, comm_up, comm_lost, shutdown_comp,
  cant_str_assoc,
}
use sctp_sandbox_c.Os.Laws.{IsLawful}
use sctp_sandbox_c.Bind.Packed.{stored, packed}
use sctp_sandbox_c.Peers.{Socket, no_peer}
use sctp_sandbox_c.Peers.Matching.{matching}
use sctp_sandbox_c.Sctp.{msg_notification}
use sctp_sandbox_c.Sctp.Associations.{Associations, Message, serve_each, react_each}
use sctp_sandbox_c.Sctp.Associations.Represents.{Represents}
use sctp_sandbox_c.Sctp.Associations.Refinement.{
  Simulates, IsNumbered, PeelsOff, IsUsable, AreUsable, react_messages-Simulates,
}
use sctp_sandbox_c.Sctp.Associations.Full.{come_up, IsIgnored, full_table_ended}
use sctp_sandbox_c.Tests.{
  answering, answering-IsLawful, host, host_translated, replies, answer, joined, no_peers,
}

abbrev peeled : Call → Reply
peeled (Call.sctp_peeloff fd a) = record answer { result = pos 9 }
peeled c = replies c

abbrev peeling : Env
peeling = answering (λ c h. peeled c) (λ a b. pos 0)

peeling-IsLawful : IsLawful peeling
peeling-IsLawful = answering-IsLawful _ _

peeling-PeelsOff : PeelsOff peeling peeling-IsLawful
unfolding packed
peeling-PeelsOff = record {
  peels = λ fd a h. (9, refl);
  status = λ fd h. refl;
  params = λ fd h. refl;
  addresses = λ fd h. ([], tt, refl, refl);
}

abbrev notice : Notification → Message
notice n = record {
  received = record answer {
    result = pos 20;
    from = stored host host.addr;
    msg_flags = msg_notification;
    notification = n;
  };
  sender = host;
}

-- Two associations come up, one is lost, a third cannot be set up, and the second is shut down.
abbrev notices : List Message
notices =
    notice (assoc_change comm_up 4)
    ∷ notice (assoc_change comm_up 5)
    ∷ notice (assoc_change comm_lost 4)
    ∷ notice (assoc_change cant_str_assoc 6)
    ∷ notice (assoc_change shutdown_comp 5)
    ∷ []

notice-IsUsable : (n : Notification) → IsNumbered n → IsUsable peeling peeling-IsLawful (notice n)
notice-IsUsable n numbered = ((20, refl, omega arith), (host_translated _ _ _, refl), numbered)

notices-AreUsable : AreUsable peeling peeling-IsLawful notices
notices-AreUsable = (
  notice-IsUsable (assoc_change comm_up 4) (omega arith),
  (
    notice-IsUsable (assoc_change comm_up 5) (omega arith),
    (
      notice-IsUsable (assoc_change comm_lost 4) (omega arith),
      (
        notice-IsUsable (assoc_change cant_str_assoc 6) (omega arith),
        (notice-IsUsable (assoc_change shutdown_comp 5) (omega arith), tt),
      ),
    ),
  ),
)

abbrev unmet : Socket
unmet = record (joined sctp) { peers = no_peer ∷ no_peers; peer_count = 0 }

abbrev none_yet : Associations
none_yet = record { entries = λ a. 0; taken = 0; retries = [] }

unmet-Represents : Represents unmet [] none_yet
unfolding is_udp matching
unmet-Represents = record {
  valid = record { table = refl; count = omega arith };
  connected = refl;
  taken = refl;
  entries = λ a l. refl;
  retries = refl;
}

react_messages-Simulates_example :
    Simulates (react_each peeling unmet notices []) (serve_each none_yet notices)
react_messages-Simulates_example =
    react_messages-Simulates peeling peeling-IsLawful peeling-PeelsOff notices unmet none_yet []
      unmet-Represents notices-AreUsable

-- As many as the table has entries.
abbrev ten : List ℕ
ten = 11 ∷ 12 ∷ 13 ∷ 14 ∷ 15 ∷ 16 ∷ 17 ∷ 18 ∷ 19 ∷ 20 ∷ []

full_table_ended_example :
    (t : Socket) × (h : History) × (come_up peeling unmet host ten [] ≡ ok t h)
    × IsIgnored peeling t host 7 h
full_table_ended_example =
    full_table_ended peeling peeling-IsLawful peeling-PeelsOff ten unmet none_yet host 7 []
      unmet-Represents (omega arith) refl
      (
        λ e. omega arith,
        (
          λ e. omega arith,
          (
            λ e. omega arith,
            (
              λ e. omega arith,
              (
                λ e. omega arith,
                (
                  λ e. omega arith,
                  (
                    λ e. omega arith,
                    (λ e. omega arith, (λ e. omega arith, (λ e. omega arith, tt))),
                  ),
                ),
              ),
            ),
          ),
        ),
      )
      (omega arith)
