-- ===== src/Dispatch/Stream.antt =====
-- Socket.c: a round of receiving on a stream protocol. select reports descriptors of the set only, each
-- once; so every message is handled for a descriptor whose entry is still in the table.
use sctp_sandbox_c.Base.{
  ℕ, zero, suc, ◌+◌, ◌<◌, ◌≡◌, ◌≢◌, refl, sym, ◌∙◌, Bool, true, false, List, [], ◌∷◌, some, ℤ, pos,
  negsuc, is_nonzero, ltb, get_elem?, take, ◌⊎◌, inl, inr, if◌then◌else◌, arith,
}
use sctp_sandbox_c.Protocol.{NetworkProtocol, tcp, dccp, is_udp}
use sctp_sandbox_c.Os.{Env, Call, History, Fault, fault, pure}
use sctp_sandbox_c.Os.Ensures.{
  Ensures, Any, Ensures-pure, Ensures-fails, Ensures-bind, Ensures-if, checked-RepliesTo,
}
use sctp_sandbox_c.FdSet.{FdSet, fd_setsize, set_fd, select_loop, select_impl, select_fd_set}
use sctp_sandbox_c.FdSet.Select.{Ascends, AllReady, select_loop-Ascends}
use sctp_sandbox_c.Peers.{Peer, Socket}
use sctp_sandbox_c.Peers.Present.{NotNull, Present, Kept, Ensures-never}
use sctp_sandbox_c.Tcp.Kept.{Known, handle_message_tcp-Kept}
use sctp_sandbox_c.Dccp.Kept.{handle_message_dccp-Kept}
use sctp_sandbox_c.Dispatch.{
  set_each, gather_fds, select_fds, handle_by_protocol, handle_message, handle_each, receive_rest,
  receive_socket,
}

abbrev pub Within : ℕ → List ℕ → Type 0
Within n [] = ⊥
Within n (fd ∷ fds) = (n ≡ fd) ⊎ Within n fds

-- After select the set holds descriptors that were in it, and no other.
abbrev pub SelectNarrows : Env → Type 0
SelectNarrows env =
    (fds : List ℕ) (nfds timeout n : ℕ) (h : History)
    → (env.reply (Call.select fds nfds timeout) h).is_set n ≡ true
    → Within n fds

abbrev pub IsStream : NetworkProtocol → Type 0
IsStream p = (p ≡ tcp) ⊎ (p ≡ dccp)

abbrev pub AllKnown : Socket → List ℕ → Type 0
AllKnown s [] = Unit {0}
AllKnown s (fd ∷ fds) = Known s (pos fd) × AllKnown s fds

Within-Known : (s : Socket) (n : ℕ) (fds : List ℕ) → AllKnown s fds → Within n fds → Known s (pos n)
Within-Known s n [] k w = elim w [ ]
Within-Known s n (fd ∷ fds) k (inl e) = rw e k.0
Within-Known s n (fd ∷ fds) k (inr w) = Within-Known s n fds k.1 w

abbrev AllPresent : Socket → List Peer → Type 0
AllPresent s [] = Unit {0}
AllPresent s (p ∷ peers) = Present s p.fd × AllPresent s peers

-- The entries that the loop over the table visits.
take-AllPresent :
    (s : Socket) (count : ℕ) (peers : List Peer)
    → ((j : ℕ) (p : Peer) → j < count → get_elem? peers j ≡ some p → Present s p.fd)
    → AllPresent s (take count peers)
take-AllPresent s zero peers k = tt
take-AllPresent s (suc count) [] k = tt
take-AllPresent s (suc count) (p ∷ peers) k =
    (k 0 p (omega arith) refl, take-AllPresent s count peers λ j q h e. k (suc j) q (omega arith) e)

set_fd-Known :
    (s : Socket) (f : FdSet) (fd : ℤ)
    → Known s fd
    → AllKnown s f.fds
    → Ensures NotNull (λ g. AllKnown s g.fds) (set_fd f fd)
unfolding set_fd
set_fd-Known s f (pos fd) k all =
    Ensures-if (ltb fd fd_setsize) _ _ (λ _. Ensures-pure _ (k, all))
      λ _. Ensures-fails Fault.fd_range (λ e. cc)
set_fd-Known s f (negsuc n) k all = Ensures-fails Fault.fd_range (λ e. cc)

set_each-Known :
    (s : Socket) (f : FdSet) (peers : List Peer)
    → AllPresent s peers
    → AllKnown s f.fds
    → Ensures NotNull (λ g. AllKnown s g.fds) (set_each f peers)
unfolding set_each
set_each-Known s f [] present all = Ensures-pure f all
set_each-Known s f (p ∷ peers) present all =
    Ensures-if (is_nonzero p.fd) _ _
      (λ _.
        Ensures-bind _ _ (set_fd-Known s f p.fd (inr present.0) all)
          λ g all'. set_each-Known s g peers present.1 all')
      λ _. set_each-Known s f peers present.1 all

gather_fds-Known : (s : Socket) → Ensures NotNull (λ g. AllKnown s g.fds) (gather_fds s)
unfolding gather_fds
gather_fds-Known s = Ensures-bind _ _ (set_fd-Known s _ s.fd (inl refl) tt) λ f all.
    Ensures-if (is_udp s.protocol) _ _ (λ _. Ensures-pure f all)
      λ _.
        set_each-Known s f (take s.peer_count s.peers)
          (take-AllPresent s s.peer_count s.peers λ j p below there. (j, p, below, there, refl)) all

AllReady-AllKnown :
    (s : Socket) (is_set : ℕ → Bool) (hi : ℕ) (fds : List ℕ)
    → ((n : ℕ) → is_set n ≡ true → Known s (pos n))
    → AllReady is_set hi fds
    → AllKnown s fds
AllReady-AllKnown s is_set hi [] k a = tt
AllReady-AllKnown s is_set hi (fd ∷ fds) k a = (k fd a.0, AllReady-AllKnown s is_set hi fds k a.2)

-- Descriptors that come later in the list are other descriptors.
pub AllKnown-Kept :
    (s t : Socket) (fd lo : ℕ) (fds : List ℕ)
    → fd < lo
    → Ascends lo fds
    → Kept (pos fd) s t
    → AllKnown s fds
    → AllKnown t fds
AllKnown-Kept s t fd lo [] h a k all = tt
AllKnown-Kept s t fd lo (x ∷ fds) h a k (inl own, all) =
    (inl (own ∙ sym k.same_fd), AllKnown-Kept s t fd (x + 1) fds (omega arith) a.1 k all)
AllKnown-Kept s t fd lo (x ∷ fds) h a k (inr present, all) = (
  inr (k.retained (pos x) (λ e. ground arith) present),
  AllKnown-Kept s t fd (x + 1) fds (omega arith) a.1 k all,
)

module _ (env : Env) where
  pub handle_stream-Kept :
      (p : NetworkProtocol) (s : Socket) (fd : ℤ)
      → IsStream p
      → Known s fd
      → Ensures NotNull (Kept fd s) (handle_by_protocol env p s fd)
  unfolding handle_by_protocol
  handle_stream-Kept p s fd (inl e) k =
      rw (e, handle_by_protocol) (handle_message_tcp-Kept env s fd k)
  handle_stream-Kept p s fd (inr e) k =
      rw (e, handle_by_protocol) (handle_message_dccp-Kept env s fd k)

  handle_each-Stream :
      (s : Socket) (lo : ℕ) (fds : List ℕ)
      → IsStream s.protocol
      → Ascends lo fds
      → AllKnown s fds
      → Ensures NotNull (λ t. IsStream t.protocol) (handle_each env s fds)
  unfolding handle_each handle_message
  handle_each-Stream s lo [] stream a all = Ensures-pure s stream
  handle_each-Stream s lo (fd ∷ fds) stream a (known, all) =
      Ensures-bind _ _ (handle_stream-Kept s.protocol s (pos fd) stream known) λ t k.
        handle_each-Stream t (fd + 1) fds (rw k.same_protocol stream) a.1
          (AllKnown-Kept s t fd (fd + 1) fds (omega arith) a.1 k all)

  pub receive_rest-Stream :
      (p : NetworkProtocol) (s : Socket) → IsStream p → receive_rest env p s ≡ pure s
  unfolding receive_rest
  receive_rest-Stream p s (inl e) = rw (e, receive_rest) refl
  receive_rest-Stream p s (inr e) = rw (e, receive_rest) refl

  module _ (narrows : SelectNarrows env) where
    abbrev pub Selects : Socket → Socket → Type 0
    Selects s t =
        IsStream t.protocol × Ascends 0 t.fd_set.selected_fds × AllKnown t t.fd_set.selected_fds

    pub select_fds-Known :
        (s : Socket) → IsStream s.protocol → Ensures NotNull (Selects s) (select_fds env s)
    unfolding select_fds select_fd_set select_impl
    select_fds-Known s stream = Ensures-bind _ _ (gather_fds-Known s) λ f all.
        Ensures-bind _ _ (selected f all) λ g ready. Ensures-pure _ (stream, ready.0, ready.1)
      where
        chosen :
            (f : FdSet) (is_set : ℕ → Bool) (any : Bool)
            → ((n : ℕ) → is_set n ≡ true → Known s (pos n))
            → Ascends 0 (if any then select_loop is_set f.fd_max 0 [] else [])
              × AllKnown s (if any then select_loop is_set f.fd_max 0 [] else [])
        chosen f is_set true k =
            let (rising, ready) = select_loop-Ascends is_set f.fd_max in
            (rising, AllReady-AllKnown s is_set f.fd_max _ k ready)
        chosen f is_set false k = (tt, tt)

        selected :
            (f : FdSet)
            → AllKnown s f.fds
            → Ensures NotNull
                (λ g. Ascends 0 g.selected_fds × AllKnown s g.selected_fds)
                (select_fd_set env f 10)
        selected f all = Ensures-bind _ _ (checked-RepliesTo env _ _) λ r (h, e). Ensures-pure _ (
            chosen f r.is_set (is_nonzero r.result)
              λ n is. Within-Known s n f.fds all (narrows f.fds _ _ n h (rw e at is)))

    -- On TCP and DCCP a round of receiving never goes through a NULL pointer to a peer, whatever
    -- the messages and the results of the calls, as long as select reports only descriptors that it
    -- was asked for.
    pub receive_socket-Stream :
        (s : Socket) (h : History)
        → IsStream s.protocol
        → receive_socket env s h ≢ fault Fault.null_peer
    unfolding receive_socket
    receive_socket-Stream s h stream =
        Ensures-never {P = Any} _
          (Ensures-bind _ _ (select_fds-Known s stream) λ t ready.
            Ensures-bind _ _ (handle_each-Stream t 0 t.fd_set.selected_fds ready.0 ready.1 ready.2)
              λ u stream'. rw (receive_rest-Stream u.protocol u stream') (Ensures-pure u tt))
          h
