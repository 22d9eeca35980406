-- ===== src/Mei/Connection.antt =====
-- A session between two systems: an application of one connects to the other.
use net_port.Common.{ℕ, ◌^◌, ◌<◌, ◌≡◌, ◌∙◌, refl, sym, ap, subst, Bool, [], ◌∷◌, none, some, All}
use net_port.Address.{NetworkAddress}
use net_port.Packet.{Packet, rewind}
use net_port.Udp.{Host, Wire, Datagram}
use net_port.System.{Log}
use net_port.Arc4.{Source}
use net_port.Arc4.Permutation.{IsSound}
use net_port.Transfer.{Transfer, handle_recv, received, drop_requests}
use net_port.Transfer.Retry.{IsKept}
use net_port.Transfer.Opening.{Handshake, asking_header, answering_header, connect-Handshake}
use net_port.Mei.{
  Mei, Outcome, set_transfer, find_mim, find_pas, draw, new_socket, new_session, process_packet,
  connect_new,
}
use net_port.Mei.Lookup.{find_mim-insert_mim}
use net_port.Mei.Sessions.{eq_self}
use net_port.Mei.Validity.{IsValid}
use net_port.Mei.Runs.{new_socket-empty, entered}
use net_port.Mei.Repeat.{process_packet-request, new_session-found}
use net_port.Mei.Opening.{
  dispatch-runs, receive_request-new, process_packet-known, new_session-drawn, client, after_draw,
  connect_new-runs, client-IsCounter,
}

-- The two ends: `c` connects to `s`.
module _ (hc hs : Host) (cs ss : ℕ → Source) (cr sr : Transfer) (ca sa : NetworkAddress) (c s : Mei)
    (lc ls : Log) (wc ws : Wire) where
  -- The session number that the client draws.
  abbrev pub session_number : ℕ
  session_number = (client hc cs cr sa c).lsess

  -- The three steps, what they send, and what each end knows behind them.
  pub record Connected : Type 0 where
    pub asked : Outcome
    pub connects : connect_new hc cs cr sa c lc wc ≡ some asked
    pub request : Datagram
    pub request_taken : Bool
    pub sends_request :
        asked.wire
        ≡ record { handle = c.udpsck.handle; to = sa; payload = request; accepted = request_taken }
          ∷ wc
    pub answered : Outcome
    pub handles_request : process_packet hs ss sr ca (received request) s ls ws ≡ some answered
    pub reply : Datagram
    pub reply_taken : Bool
    pub sends_reply :
        answered.wire
        ≡ record { handle = s.udpsck.handle; to = ca; payload = reply; accepted = reply_taken } ∷ ws
    pub found : find_pas (ca, session_number) answered.mei.pas ≡ some s.next
    pub opened : Outcome
    pub handles_reply :
        process_packet hc cs cr sa (received reply) asked.mei asked.log asked.wire ≡ some opened
    pub client_knows : (opened.mei.transfers c.next).rsess ≡ (answered.mei.transfers s.next).lsess
    pub server_knows : (answered.mei.transfers s.next).rsess ≡ (opened.mei.transfers c.next).lsess
    pub settled : (opened.mei.transfers c.next).rt ≡ []
    pub quiet : opened.wire ≡ asked.wire

  abbrev server : Mei
  server = (new_session hs ss sr ca session_number s).1

  abbrev Ends : Type 0
  Ends =
      Handshake hc hs (after_draw hc cs cr c).udpsck server.udpsck (client hc cs cr sa c)
        (server.transfers s.next) wc ws

  Ends-meet : IsValid c → IsValid s → IsSound c.rng → IsSound s.rng → Ends
  unfolding new_session new_socket draw
  Ends-meet vc vs rc rs =
      let (counts, small) = client-IsCounter hc cs cr sa c rc in
      let (counts', small', known, linked, _, _) =
        new_session-drawn hs ss sr ca session_number s rs in
      let empty = new_socket-empty hc cs cr c in
      connect-Handshake hc hs (after_draw hc cs cr c).udpsck server.udpsck (client hc cs cr sa c)
        (server.transfers s.next) wc ws vc.usable vs.usable refl linked counts counts' small small'
        (subst (λ n. n < 2 ^ 32) (sym known) small) (subst (All IsKept) (sym empty) tt)

  abbrev asked_end : Ends → Outcome
  asked_end h = record {
    mei = entered hc cs cr c.next session_number h.asked.transfer (after_draw hc cs cr c);
    log = lc;
    wire = h.asked.wire;
  }

  client-asks : (h : Ends) → connect_new hc cs cr sa c lc wc ≡ some (asked_end h)
  unfolding new_socket
  client-asks h = connect_new-runs hc cs cr sa c lc wc h.asked h.connects

  abbrev answered_end : Ends → Outcome
  answered_end h = record {
    mei = set_transfer s.next h.answered.transfer server;
    log = ls;
    wire = h.answered.wire;
  }

  server-answers :
      (h : Ends)
      → IsSound s.rng
      → find_pas (ca, session_number) s.pas ≡ none
      → process_packet hs ss sr ca (received h.request) s ls ws ≡ some (answered_end h)
  unfolding new_session new_socket
  server-answers h rs new =
      let (read, header, back) = h.request_read in
      let ph = asking_header (client hc cs cr sa c) in
      let (_, _, _, _, _, living) = new_session-drawn hs ss sr ca session_number s rs in
      process_packet-request hs ss sr ca ph (received h.request) read s ls ws header refl
      ∙ receive_request-new hs ss sr ca ph (rewind read) s ls ws new
      ∙ dispatch-runs hs ss sr s.next (rewind read) server ls ws h.answered living (
          ap (λ (p : Packet). handle_recv hs server.udpsck (server.transfers s.next) p ws) back
          ∙ h.handles_request)

  abbrev opened_end : Ends → Outcome
  opened_end h = record {
    mei = set_transfer c.next h.opened.transfer (asked_end h).mei;
    log = lc;
    wire = h.opened.wire;
  }

  client-opens :
      (h : Ends)
      → IsSound s.rng
      → find_mim session_number c.mim ≡ none
      → process_packet hc cs cr sa (received h.reply) (asked_end h).mei lc h.asked.wire
        ≡ some (opened_end h)
  unfolding new_session new_socket draw
  client-opens h rs new =
      let (read, header, back) = h.reply_read in
      let m = (asked_end h).mei in
      let ph = answering_header (client hc cs cr sa c) (server.transfers s.next) in
      let (_, _, known, _, _, _) = new_session-drawn hs ss sr ca session_number s rs in
      let mine : m.transfers c.next ≡ h.asked.transfer = rw (eq_self c.next) refl in
      process_packet-known hc cs cr sa ph (received h.reply) read m lc h.asked.wire c.next header
        refl
        (ap (λ (k : ℕ). find_mim k m.mim) known
          ∙ find_mim-insert_mim session_number c.next c.mim new)
      ∙ dispatch-runs hc cs cr c.next (rewind read) m lc h.asked.wire h.opened
          (rw (eq_self c.next) refl)
          (ap (λ (p : Packet). handle_recv hc m.udpsck (m.transfers c.next) p h.asked.wire) back
            ∙ ap (λ (t : Transfer). handle_recv hc m.udpsck t (received h.reply) h.asked.wire) mine
            ∙ h.handles_reply)

  -- No request is left where the list was empty.
  nothing-left : (h : Ends) → h.opened.transfer.rt ≡ []
  unfolding drop_requests new_socket draw
  nothing-left h =
      let start : drop_requests [] ≡ some h.opened.transfer.rt =
        subst (λ rs. drop_requests rs ≡ some h.opened.transfer.rt) (new_socket-empty hc cs cr c)
          h.settled in
      cc

  -- Two valid systems with sound random numbers: an application of the client connects a new socket
  -- to the server, the request reaches the server from the address `ca`, and the reply the client.
  -- If no session of the client has the number that it draws, and the server has none for that
  -- number and that address, then all three steps return, the request and the reply are sent once,
  -- the server enters the new session under its peer, each end knows the number of the other, and
  -- the client has no message left to send again.
  pub connect_new-Connected :
      IsValid c
      → IsValid s
      → IsSound c.rng
      → IsSound s.rng
      → find_mim session_number c.mim ≡ none
      → find_pas (ca, session_number) s.pas ≡ none
      → Connected
  unfolding new_session new_socket draw
  connect_new-Connected vc vs rc rs mine theirs =
      let h = Ends-meet vc vs rc rs in
      let (_, _, known, _, remote, _) = new_session-drawn hs ss sr ca session_number s rs in
      let at_client : (opened_end h).mei.transfers c.next ≡ h.opened.transfer =
        rw (eq_self c.next) refl in
      let at_server : (answered_end h).mei.transfers s.next ≡ h.answered.transfer =
        rw (eq_self s.next) refl in
      record {
        asked = asked_end h;
        connects = client-asks h;
        request = h.request;
        request_taken = h.request_taken;
        sends_request = h.sends_request;
        answered = answered_end h;
        handles_request = server-answers h rs theirs;
        reply = h.reply;
        reply_taken = h.reply_taken;
        sends_reply =
            h.sends_reply
            ∙ ap
                (λ (a : NetworkAddress).
                  record {
                    handle = s.udpsck.handle;
                    to = a;
                    payload = h.reply;
                    accepted = h.reply_taken;
                  }
                  ∷ ws)
                remote;
        found = new_session-found hs ss sr ca session_number s theirs;
        opened = opened_end h;
        handles_reply = client-opens h rs mine;
        client_knows =
            ap (λ (t : Transfer). t.rsess) at_client
            ∙ h.session
            ∙ sym (ap (λ (t : Transfer). t.lsess) (at_server ∙ h.server));
        server_knows =
            ap (λ (t : Transfer). t.rsess) (at_server ∙ h.server)
            ∙ known
            ∙ sym (ap (λ (t : Transfer). t.lsess) at_client ∙ h.number);
        settled = ap (λ (t : Transfer). t.rt) at_client ∙ nothing-left h;
        quiet = h.quiet;
      }
