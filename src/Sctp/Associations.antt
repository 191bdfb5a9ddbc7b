-- ===== src/Sctp/Associations.antt =====
-- SocketSctp.c, as its callers see it: a bag of associations, in which each has a number of entries,
-- the number of entries that were ever taken, and the remotes to which a new connection is to be made,
-- the latest first. What happens to it is a message: a notification, or data.
pub mod Represents
pub mod Refinement
pub mod Full
use sctp_sandbox_c.Base.{
  ℕ, ◌+◌, ◌-◌, Bool, List, [], ◌∷◌, Option, none, some, ltb, ◌==◌, if◌then◌else◌,
}
use sctp_sandbox_c.Os.{
  Env, IpSocket, Notification, assoc_change, comm_up, comm_lost, shutdown_comp, cant_str_assoc,
  Reply, M, pure, ◌>>=◌,
}
use sctp_sandbox_c.Peers.{Socket, peers_max_count, terminate_message}
use sctp_sandbox_c.Sctp.{is_notification, delivered_sctp}

pub record Associations : Type 0 where
  pub entries : ℕ → ℕ
  pub taken : ℕ
  pub retries : List IpSocket

-- What was received, and from whom.
pub record Message : Type 0 where
  pub received : Reply
  pub sender : IpSocket

abbrev pub changed_at : (ℕ → ℕ) → ℕ → ℕ → ℕ → ℕ
changed_at f a n b = if a == b then n else f b

-- An association that comes up takes an entry, if there is one.
abbrev pub establish : Associations → ℕ → Associations
establish d a =
    if ltb d.taken peers_max_count
    then record d { entries = changed_at d.entries a (d.entries a + 1); taken = d.taken + 1 }
    else d

-- An association that ends gives up one entry; one that has none is an error.
abbrev pub end_one : Associations → ℕ → Option Associations
end_one d a =
    if ltb 0 (d.entries a)
    then some (record d { entries = changed_at d.entries a (d.entries a - 1) })
    else none

abbrev pub retry : Associations → IpSocket → Associations
retry d remote = record d { retries = remote ∷ d.retries }

abbrev pub notified : Associations → IpSocket → Notification → Option Associations
notified d from (assoc_change comm_up a) = some (establish d a)
notified d from (assoc_change cant_str_assoc a) = some (retry d from)
notified d from (assoc_change shutdown_comp a) = end_one d a
notified d from (assoc_change comm_lost a) = elim (end_one d a) [
  | none ↦ none
  | some d' ↦ some (retry d' from)
]
notified d from n = some d

-- Data changes nothing.
abbrev pub serve : Associations → Message → Option Associations
serve d m =
    if is_notification m.received.msg_flags
    then notified d m.sender m.received.notification
    else some d

-- The associations after some messages; the first error ends it.
unfoldable pub serve_each : Associations → List Message → Option Associations
serve_each d [] = some d
serve_each d (m ∷ messages) = elim (serve d m) [ none ↦ none | some d' ↦ serve_each d' messages ]

module _ (env : Env) where
  -- The same message at a socket: what handleMessageSctp does once sctp_recvmsg has answered.
  abbrev pub react : Socket → Message → M Socket
  react s m = terminate_message s m.received >>= λ t. delivered_sctp env t m.received

  unfoldable pub react_each : Socket → List Message → M Socket
  react_each s [] = pure s
  react_each s (m ∷ messages) =
      let more = λ (t : Socket). react_each t messages in react s m >>= more
