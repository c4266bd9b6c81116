-- ===== src/Tests/Sockets.antt =====
-- A socket over TLS and a plain one: a send before the connection, a handshake that would block, one
-- that succeeds, and a receive. The world counts the calls that it has seen.
use rustot.Prelude.{ℕ, ◌+◌, ◌==◌, if◌then◌else◌, ok, err, List, [], ◌∷◌, ◌≡◌, false}
use rustot.Examples.Network.{
  HandshakeError, Stream, Transport, Network, new_tls, tls_stack, plain_stack,
}
use rustot.Examples.Network.Calls.{Call, run, any_made, AllRefused, run-connected}

abbrev counting : Stream ℕ ℕ
counting = record { read = λ s n w. (ok (s ∷ []), w + 1); write = λ s bytes w. (ok 1, w + 1) }

abbrev transport : Transport ℕ ℕ ℕ ℕ
transport = record {
  tcp = counting;
  tls = counting;
  tcp_connect = λ remote w. (ok 7, w + 1);
  set_nonblocking = λ s w. (ok tt, w + 1);
  handshake =
      λ c name s w. if w == 1 then (err HandshakeError.would_block, w + 1) else (ok s, w + 1);
  get_mut = λ s. s;
}

abbrev secured : Network ℕ
secured = new_tls 0 []

abbrev calls : List Call
calls =
    Call.send_call (1 ∷ []) ∷ Call.connect_call [] ∷ Call.connect_call [] ∷ Call.receive_call 4 ∷ []

run-connected_example :
    let tls = run (tls_stack transport secured) calls ((tls_stack transport secured).socket, 0) in
    let plain = run (plain_stack transport) calls ((plain_stack transport).socket, 0) in
    ((tls_stack transport secured).is_connected tls.1.0 ≡ any_made tls.0)
    × ((tls_stack transport secured).is_connected tls.1.0 ≡ false → AllRefused tls.0)
    × ((plain_stack transport).is_connected plain.1.0 ≡ any_made plain.0)
    × ((plain_stack transport).is_connected plain.1.0 ≡ false → AllRefused plain.0)
run-connected_example = run-connected transport secured calls 0
