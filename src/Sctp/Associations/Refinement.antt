-- ===== src/Sctp/Associations/Refinement.antt =====
-- SocketSctp.c: runs of an SCTP socket, message by message, beside those of its associations.
use sctp_sandbox_c.Base.{
  ℕ, ◌<◌, ◌≡◌, refl, true, false, List, [], ◌∷◌, Option, some, ℤ, pos, ltb, leb, length,
  get_elem?_below, Bool-cases, inl, inr, arith,
}
use sctp_sandbox_c.Errors.{Check, failed}
use sctp_sandbox_c.Os.{
  Env, IpSocket, Call, History, Notification, assoc_change, comm_up, comm_lost, shutdown_comp,
  cant_str_assoc, AssocState, Outcome, ok, invoke, ◌>>◌,
}
use sctp_sandbox_c.Os.Laws.{IsLawful, check_passes, checked_passes}
use sctp_sandbox_c.Bind.{log_paddrs}
use sctp_sandbox_c.Bind.Packed.{
  Translates, AllTranslate, stored, packed, log_each-packed, sender_lem,
}
use sctp_sandbox_c.Peers.{
  Socket, peers_max_count, msg_buffer_size, find_peer_by_assoc_id, schedule_reestablishment,
}
use sctp_sandbox_c.Peers.Agrees.{Agrees, Agrees-then}
use sctp_sandbox_c.Peers.Message.{terminate_message-fits}
use sctp_sandbox_c.Peers.Retries.{closed-retried}
use sctp_sandbox_c.Peers.Matching.{by_entry}
use sctp_sandbox_c.Peers.Remove.{add_peer_lem, remove_peer_lem, remove_peer_null}
use sctp_sandbox_c.Sctp.{
  is_notification, log_peer_info, peel_off, peeled_peer, remove_assoc, handle_notification,
  delivered_sctp,
}
use sctp_sandbox_c.Sctp.Associations.{
  Associations, Message, establish, end_one, retry, notified, serve, serve_each, react, react_each,
}
use sctp_sandbox_c.Sctp.Associations.Represents.{
  Represents, has_assoc, later-Represents, retry-Represents, buffered-Represents, peeled-Represents,
  ended-Represents,
}

abbrev pub Simulates : Outcome Socket → Option Associations → Type 0
Simulates = Agrees Represents

-- An association that comes up, is lost or is shut down has a number other than 0.
abbrev pub IsNumbered : Notification → Type 0
IsNumbered (assoc_change state a) = 0 < a
IsNumbered n = Unit {0}

module _ (env : Env) (L : IsLawful env) where
  -- Associations are peeled off, their state can be read, and the addresses of their peers are
  -- addresses that inet_pton and inet_ntop translate.
  pub record PeelsOff : Type 0 where
    pub peels :
        (fd : ℤ) (a : ℕ) (h : History)
        → (n : ℕ) × ((env.reply (Call.sctp_peeloff fd a) h).result ≡ pos n)
    pub status : (fd : ℤ) (h : History) → (env.reply (Call.sctp_status fd) h).result ≡ pos 0
    pub params : (fd : ℤ) (h : History) → (env.reply (Call.sctp_paddr_params fd) h).result ≡ pos 0
    pub addresses :
        (fd : ℤ) (h : History)
        → (sockets : List IpSocket) × (ts : AllTranslate env L sockets) × ((env.reply
              (Call.sctp_getpaddrs fd)
              h).result
            ≡ pos (length sockets))
          × ((env.reply (Call.sctp_getpaddrs fd) h).addresses ≡ packed env L sockets ts)

  -- A message that leaves room for its end, from an address that inet_pton and inet_ntop translate.
  abbrev pub IsUsable : Message → Type 0
  IsUsable m =
      ((n : ℕ) × (m.received.result ≡ pos n) × (n < msg_buffer_size))
      × ((t : Translates env L m.sender) × (m.received.from ≡ stored m.sender t.ip))
      × IsNumbered m.received.notification

  abbrev pub AreUsable : List Message → Type 0
  AreUsable [] = Unit {0}
  AreUsable (m ∷ messages) = IsUsable m × AreUsable messages

  ends-Simulates :
      (s : Socket) (d : Associations) (a : ℕ) (h : History)
      → Represents s h d
      → 0 < a
      → Simulates (remove_assoc env s a h) (end_one d a)
  unfolding remove_assoc find_peer_by_assoc_id
  ends-Simulates s d a h rep positive = elim (by_entry (has_assoc a) s) [
    | inl (unknown, nothing) ↦
        let zero_entries : ltb 0 (d.entries a) ≡ false = ground (arith, rep.entries a positive) in
        rw (unknown, zero_entries, remove_peer_null env s h) refl
    | inr (i, p, known, below, there, own, matched) ↦
        let entry : ltb 0 (d.entries a) ≡ true = ground (arith, rep.entries a positive) in
        rw (known, entry, remove_peer_lem env s i p h rep.connected there)
          (later-Represents _ h _ _ (closed-retried p.fd h)
            (ended-Represents s h d a i p rep positive below there own))
  ]

  module _ (peels : PeelsOff) where
    log_peer_info_lem :
        (fd : ℤ) (h : History)
        → log_peer_info env fd h
          ≡ ok tt (Call.sctp_getpaddrs fd ∷ Call.sctp_paddr_params fd ∷ Call.sctp_status fd ∷ h)
    unfolding log_peer_info log_paddrs failed
    log_peer_info_lem fd h =
        let h₁ : History = Call.sctp_status fd ∷ h in
        let h₂ : History = Call.sctp_paddr_params fd ∷ h₁ in
        let (sockets, ts, count, bytes) = peels.addresses fd h₂ in
        rw
          (
            checked_passes env L Check.optinfo (Call.sctp_status fd) h
                (rw (peels.status fd h) refl),
            checked_passes env L Check.optinfo (Call.sctp_paddr_params fd) h₁
                (rw (peels.params fd h₁) refl),
            checked_passes env L Check.getaddrs (Call.sctp_getpaddrs fd) h₂ (rw count refl),
            count,
            bytes,
            log_each-packed env L sockets _ ts,
          )
          refl

    pub comm_up-Simulates :
        (s : Socket) (d : Associations) (a : ℕ) (h : History)
        → Represents s h d
        → Simulates (peel_off env s a h) (some (establish d a))
    unfolding peel_off invoke failed
    comm_up-Simulates s d a h rep = elim (Bool-cases (leb peers_max_count s.peer_count)) [
      | inl full ↦ let same : establish d a ≡ d = ground (arith, rep.taken) in rw (full, same) rep
      | inr free ↦
          let room : s.peer_count < peers_max_count = ground arith in
          let (p, there) = get_elem?_below s.peers s.peer_count (omega (arith, rep.valid.table)) in
          let (n, peeled) = peels.peels s.fd a h in
          let passes : failed Check.peeloff (env.reply (Call.sctp_peeloff s.fd a) h).result
                (env.reply (Call.sctp_peeloff s.fd a) h).errno
              ≡ false =
            rw peeled refl in
          rw
            (
              free,
              check_passes env L Check.peeloff _ _ (Call.sctp_peeloff s.fd a ∷ h) passes,
              log_peer_info_lem _ (Call.sctp_peeloff s.fd a ∷ h),
              add_peer_lem s p (peeled_peer a _) _ there,
            )
            (peeled-Represents s _ d a _ (later-Represents s h _ d refl rep) refl room)
    ]

    retry-Simulates :
        (s : Socket) (d : Associations) (remote : IpSocket) (h : History)
        → Represents s h d
        → Simulates
            ((schedule_reestablishment env remote >> λ h'. ok s h') h)
            (some (retry d remote))
    unfolding schedule_reestablishment invoke
    retry-Simulates s d remote h rep = retry-Represents s h d remote rep

    assoc_change-Simulates :
        (state : AssocState) (s : Socket) (d : Associations) (from : IpSocket) (a : ℕ) (h : History)
        → Represents s h d
        → 0 < a
        → Simulates
            (handle_notification env s from (assoc_change state a) h)
            (notified d from (assoc_change state a))
    unfolding handle_notification
    assoc_change-Simulates comm_up s d from a h rep positive = comm_up-Simulates s d a h rep
    assoc_change-Simulates cant_str_assoc s d from a h rep positive = retry-Simulates s d from h rep
    assoc_change-Simulates shutdown_comp s d from a h rep positive =
        ends-Simulates s d a h rep positive
    assoc_change-Simulates comm_lost s d from a h rep positive =
        Agrees-then Represents (remove_assoc env s a h) (end_one d a) _ _
          (ends-Simulates s d a h rep positive) λ t d' h' rep'. retry-Simulates t d' from h' rep'
    assoc_change-Simulates _ s d from a h rep positive = rep

    notified-Simulates :
        (n : Notification) (s : Socket) (d : Associations) (from : IpSocket) (h : History)
        → Represents s h d
        → IsNumbered n
        → Simulates (handle_notification env s from n h) (notified d from n)
    unfolding handle_notification
    notified-Simulates (assoc_change state a) s d from h rep positive =
        assoc_change-Simulates state s d from a h rep positive
    notified-Simulates _ s d from h rep u = rep

    delivered-Simulates :
        (s : Socket) (d : Associations) (m : Message) (h : History)
        → Represents s h d
        → IsUsable m
        → Simulates (delivered_sctp env s m.received h) (serve d m)
    unfolding delivered_sctp
    delivered-Simulates s d m h rep (fits, (t, from), numbered) =
        elim (Bool-cases (is_notification m.received.msg_flags)) [
          | inl e ↦
              rw (e, from, sender_lem env L m.sender h t)
                (notified-Simulates m.received.notification s d m.sender h rep numbered)
          | inr e ↦ rw e rep
        ]

    react-Simulates :
        (s : Socket) (d : Associations) (m : Message) (h : History)
        → Represents s h d
        → IsUsable m
        → Simulates (react env s m h) (serve d m)
    react-Simulates s d m h rep u =
        let (n, size, short) = u.0 in
        rw (terminate_message-fits s m.received n h size short)
          (delivered-Simulates _ d m h (buffered-Represents s h d _ rep) u)

    -- An SCTP socket refines a bag of associations: over any notifications and data that leave room
    -- for their end, from addresses that inet_pton and inet_ntop translate, where associations are
    -- peeled off and their state can be read, a socket that represents a bag returns exactly where
    -- the bag meets no error, and then represents the bag after these messages, with the remotes to
    -- which a new connection was scheduled; where an association ends that the bag has not, the
    -- socket goes through a NULL pointer. Associations that change have a number other than 0.
    pub react_messages-Simulates :
        (messages : List Message) (s : Socket) (d : Associations) (h : History)
        → Represents s h d
        → AreUsable messages
        → Simulates (react_each env s messages h) (serve_each d messages)
    unfolding react_each serve_each
    react_messages-Simulates [] s d h rep u = rep
    react_messages-Simulates (m ∷ messages) s d h rep (u, us) =
        Agrees-then Represents (react env s m h) (serve d m) (λ t. react_each env t messages)
          (λ d'. serve_each d' messages) (react-Simulates s d m h rep u)
          λ t d' h' rep'. react_messages-Simulates messages t d' h' rep' us
