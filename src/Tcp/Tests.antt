-- ===== src/Tcp/Tests.antt =====
-- Runs of connections, and their theorems at such runs.
use net_port.Tcp.Release.{destroy-perform_all}
use net_port.Socket.{destroy, socket_of, close}
use net_port.Tcp.{
  ensure, connected, connect_open, Tcp, new_tcp, connect, send, recv, select, is_connected,
}
use net_port.Address.{undefined_address}
use net_port.Common.{ℕ, ◌≡◌, refl, arith, true, false, List, [], ◌∷◌}
use net_port.System.{System, Call, minus_one, open_socket, send_bytes, poll_sets}
use net_port.Tcp.Life.{
  Operation, do_connect, do_send, do_init, perform_all, IsAlive, perform_all-IsAlive,
}
use net_port.Tcp.Answers.{EndsConnected, EndsInClose, connect-true, send-failed}

-- A system that opens handle 5, takes every call and fails to send.
abbrev answers : Call → ℕ
answers (open_socket _ _ _) = 5
answers (send_bytes _ _) = minus_one
answers (poll_sets _ _ _ _ _ _) = 1
answers _ = 0

abbrev host : System
host = record {
  answer = λ _. answers;
  would_block = λ _. false;
  readable = λ _ _. true;
  writable = λ _ _. false;
  failed = λ _ _. false;
  peer = λ _. undefined_address;
  arrived = λ _. [];
}

abbrev calls : List Operation
calls = do_connect undefined_address ∷ do_send (1 ∷ []) ∷ do_init 2 ∷ []

perform_all-IsAlive_example : IsAlive (perform_all host calls (new_tcp, []))
perform_all-IsAlive_example =
    perform_all-IsAlive host calls (new_tcp, [])
      (record { balanced = refl; has_address = λ e. ground arith })

abbrev open_tcp : Tcp
open_tcp = record new_tcp { socket = socket_of 5; state = connected; bound = true }

connect-true_example :
    (is_connected ((connect host undefined_address open_tcp []).1) ≡ true)
    × ((connect host undefined_address open_tcp []).1.raddr ≡ undefined_address)
    × EndsConnected undefined_address
        ((connect host undefined_address open_tcp []).1.socket.handle)
        ((connect host undefined_address open_tcp []).2)
connect-true_example =
    connect-true host undefined_address open_tcp [] (unfold connect connect_open ensure in refl)

send-failed_example :
    let (n, c₁, log₁) = send host (1 ∷ []) open_tcp [] in
    EndsInClose 5 (1 ∷ []) n [] log₁
    × (c₁.socket.handle ≡ minus_one)
    × (send host (2 ∷ []) c₁ log₁ ≡ (minus_one, c₁, log₁))
    × (recv host 10 c₁ log₁ ≡ (minus_one, c₁, log₁))
send-failed_example =
    send-failed host (1 ∷ []) (2 ∷ []) 10 open_tcp [] refl (unfold send close in refl)

-- The bits of conditions that were not asked for are set.
select_unasked : (select host true false false 0 0 open_tcp []).0 ≡ 7
unfolding select
select_unasked = refl

destroy-perform_all_example :
    let (d, after) = perform_all host calls (new_tcp, []) in
    destroy host d.socket after ≡ (d.socket, after)
destroy-perform_all_example = destroy-perform_all host calls new_tcp [] refl
