-- ===== src/Examples/Network.antt =====
-- examples/common/network.rs: the sockets of the examples, plain and over TLS, and their names.
pub mod Calls
use rustot.Prelude.{
  ℕ, Bool, true, false, Option, none, some, List, [], ◌∷◌, Outcome, ok, err, panic, map_err, Str,
}
use rustot.Prelude.Stateful.{Exec, continue, ◌>>=◌, ◌>>◌, pure, fail, lift}
use rustot.Deps.{Deps}
use rustot.Ota.Encoding.{string_from}

-- `std::io::ErrorKind`, as far as the code looks at it.
pub data ErrorKind : Type 0 where
  not_connected would_block timed_out other : ErrorKind
  another : ℕ → ErrorKind

-- `nb::Error<std::io::Error>`
pub data NbError : Type 0 where
  would_block : NbError
  other : ErrorKind → NbError

unfoldable pub to_nb : ErrorKind → NbError
to_nb ErrorKind.would_block = NbError.would_block
to_nb ErrorKind.timed_out = NbError.would_block
to_nb e = NbError.other e

-- `native_tls::HandshakeError`
pub data HandshakeError : Type 0 where
  failure would_block : HandshakeError

unfoldable pub from_handshake : HandshakeError → NbError
from_handshake HandshakeError.failure = NbError.other ErrorKind.other
from_handshake HandshakeError.would_block = NbError.would_block

-- `Read` and `Write` of a stream. A read gives the bytes that it puts into a buffer of some length.
pub record Stream (W S : Type 0) : Type 0 where
  pub read : S → ℕ → Exec W ErrorKind (List ℕ)
  pub write : S → List ℕ → Exec W ErrorKind ℕ

-- `std::net::TcpStream` and `native_tls`.
pub record Transport (W Tcp Tls Connector : Type 0) : Type 0 where
  pub tcp : Stream W Tcp
  pub tls : Stream W Tls
  pub tcp_connect : Str → Exec W ErrorKind Tcp
  pub set_nonblocking : Tcp → Exec W ErrorKind (Unit {0})
  pub handshake : Connector → Str → Tcp → Exec W HandshakeError Tls
  pub get_mut : Tls → Tcp

pub record Network (Connector : Type 0) : Type 0 where
  pub tls_connector : Option (Connector × Str)

unfoldable pub new_tls : {C : Type 0} → C → Str → Network C
new_tls connector hostname = record { tls_connector = some (connector, hostname) }

unfoldable pub new : {C : Type 0} → Network C
new = record { tls_connector = none }

pub record TcpSocket (S : Type 0) : Type 0 where
  pub stream : Option S

-- `TcpSocket::new`, which `socket` returns.
unfoldable pub socket : {S : Type 0} → TcpSocket S
socket = record { stream = none }

unfoldable pub get_running : {S : Type 0} → TcpSocket S → Outcome ErrorKind S
get_running s = elim s.stream [ none ↦ err ErrorKind.not_connected | some stream ↦ ok stream ]

unfoldable pub is_connected : {S : Type 0} → TcpSocket S → Bool
is_connected s = elim s.stream [ none ↦ false | some stream ↦ true ]

-- `?` on an error of another type.
abbrev on_io : {W E A : Type 0} → (E → NbError) → Exec W E A → Exec W NbError A
on_io f m w = let r = m w in (map_err f r.0, r.1)

-- A call that gets a socket.
abbrev pub OnSocket : Type 0 → Type 0 → Type 0 → Type 0
OnSocket W S A = Exec (TcpSocket S × W) NbError A

module _ {W S : Type 0} where
  abbrev in_world : {A : Type 0} → Exec W NbError A → OnSocket W S A
  in_world m s = let r = m s.1 in (r.0, (s.0, r.1))

  abbrev running : OnSocket W S S
  running s = (map_err NbError.other (get_running s.0), s)

  unfoldable pub receive : Stream W S → ℕ → OnSocket W S (List ℕ)
  unfolding get_running to_nb
  receive io len = do stream ← running; in_world (on_io to_nb (io.read stream len))

  unfoldable pub send : Stream W S → List ℕ → OnSocket W S ℕ
  unfolding get_running to_nb
  send io bytes = do stream ← running; in_world (on_io to_nb (io.write stream bytes))

  -- `network.stream.replace(stream)`. That a stream which was there before is closed, no call looks at.
  abbrev pub replace : Exec W NbError S → OnSocket W S (Unit {0})
  replace opens s =
      let r = opens s.1 in
      elim r.0 [
        | ok stream ↦ (ok tt, (record { stream = some stream }, r.1))
        | err e ↦ (err e, (s.0, r.1))
        | panic ↦ (panic, (s.0, r.1))
      ]

module _ {W Tcp Tls Connector : Type 0} (t : Transport W Tcp Tls Connector) where
  connector_of : Option (Connector × Str) → Exec W NbError (Connector × Str)
  connector_of none = lift panic
  connector_of (some c) = pure c

  pub open_tls : Network Connector → Str → Exec W NbError Tls
  unfolding connector_of from_handshake
  open_tls network remote = do
    soc ← on_io NbError.other (t.tcp_connect remote)
    c ← connector_of network.tls_connector
    stream ← on_io from_handshake (t.handshake c.0 c.1 soc)
    on_io NbError.other (t.set_nonblocking (t.get_mut stream))
    pure stream

  -- `connect` over TLS.
  unfoldable pub connect_tls : Network Connector → Str → OnSocket W Tls (Unit {0})
  unfolding open_tls
  connect_tls network remote = replace (open_tls network remote)

  pub open_tcp : Str → Exec W NbError Tcp
  open_tcp remote = do
    soc ← on_io NbError.other (t.tcp_connect remote)
    on_io NbError.other (t.set_nonblocking soc)
    pure soc

  -- `connect` without TLS.
  unfoldable pub connect : Str → OnSocket W Tcp (Unit {0})
  unfolding open_tcp
  connect remote = replace (open_tcp remote)

-- `embedded_nal::TcpClientStack`, a trait of another crate.
pub record TcpClientStack (W S : Type 0) : Type 0 where
  pub socket : TcpSocket S
  pub receive : ℕ → OnSocket W S (List ℕ)
  pub send : List ℕ → OnSocket W S ℕ
  pub is_connected : TcpSocket S → Bool
  pub connect : Str → OnSocket W S (Unit {0})
  pub close : TcpSocket S → Exec W NbError (Unit {0})

abbrev pub stack_of :
    {W S : Type 0} → Stream W S → (Str → OnSocket W S (Unit {0})) → TcpClientStack W S
stack_of io conn = record {
  socket = socket;
  receive = receive io;
  send = send io;
  is_connected = is_connected;
  connect = conn;
  close = λ s. pure tt;
}

module _ {W Tcp Tls Connector : Type 0} (t : Transport W Tcp Tls Connector) where
  unfoldable pub tls_stack : Network Connector → TcpClientStack W Tls
  unfolding connect_tls
  tls_stack network = stack_of t.tls (connect_tls t network)

  unfoldable pub plain_stack : TcpClientStack W Tcp
  unfolding connect
  plain_stack = stack_of t.tcp (connect t)
