-- ===== src/Examples/Network/Calls.antt =====
-- examples/common/network.rs: what a socket answers along any sequence of calls.
use rustot.Prelude.{
  ℕ, ◌≡◌, ◌≢◌, refl, sym, ◌∙◌, Bool, true, false, ◌||◌, List, [], ◌∷◌, Outcome, ok, err, arith, Str,
  ap,
}
use rustot.Prelude.Stateful.{Exec}
use rustot.Examples.Network.{
  ErrorKind, NbError, Stream, Transport, Network, TcpSocket, TcpClientStack, stack_of, socket,
  receive, send, is_connected, replace, open_tls, open_tcp, connect, connect_tls, tls_stack,
  plain_stack,
}

pub data Call : Type 0 where
  receive_call : ℕ → Call
  send_call : List ℕ → Call
  connect_call : Str → Call

pub data Reply : Type 0 where
  read : Outcome NbError (List ℕ) → Reply
  written : Outcome NbError ℕ → Reply
  connected : Outcome NbError (Unit {0}) → Reply

module _ {W S : Type 0} (stack : TcpClientStack W S) where
  unfoldable pub perform : Call → TcpSocket S × W → Reply × (TcpSocket S × W)
  perform (receive_call n) s = let r = stack.receive n s in (read r.0, r.1)
  perform (send_call bytes) s = let r = stack.send bytes s in (written r.0, r.1)
  perform (connect_call remote) s = let r = stack.connect remote s in (connected r.0, r.1)

  unfoldable pub run : List Call → TcpSocket S × W → List Reply × (TcpSocket S × W)
  unfolding perform
  run [] s = ([], s)
  run (c ∷ cs) s = let r = perform c s in let rest = run cs r.1 in (r.0 ∷ rest.0, rest.1)

-- Whether a reply is that of a connection that was made.
abbrev pub made : Reply → Bool
made (connected (ok a)) = true
made _ = false

abbrev pub any_made : List Reply → Bool
any_made [] = false
any_made (r ∷ rs) = made r || any_made rs

-- The reply of a socket that is not connected.
abbrev pub Refused : Reply → Type 0
Refused (read r) = r ≡ err (NbError.other ErrorKind.not_connected)
Refused (written r) = r ≡ err (NbError.other ErrorKind.not_connected)
Refused (connected r) = r ≢ ok tt

abbrev pub AllRefused : List Reply → Type 0
AllRefused [] = Unit
AllRefused (r ∷ rs) = Refused r × AllRefused rs

or_false : (a : Bool) → a ≡ (a || false)
or_false true = refl
or_false false = refl

or_assoc : (a b c : Bool) → ((a || b) || c) ≡ (a || (b || c))
or_assoc true b c = refl
or_assoc false b c = refl

left_false : (a b : Bool) → (a || b) ≡ false → a ≡ false
left_false true b h = ground arith
left_false false b h = refl

module _ {W S : Type 0} (io : Stream W S) (opens : Str → Exec W NbError S) where
  abbrev stack : TcpClientStack W S
  stack = stack_of io (λ remote. replace (opens remote))

  perform_lem :
      (c : Call) (s : TcpSocket S × W)
      → let r = perform stack c s in
        (is_connected r.1.0 ≡ (is_connected s.0 || made r.0))
        × (is_connected r.1.0 ≡ false → Refused r.0)
  unfolding perform is_connected receive send
  perform_lem (receive_call n) s = ground arith
  perform_lem (send_call bytes) s = ground arith
  perform_lem (connect_call remote) s = ground arith

  run_lem :
      (cs : List Call) (s : TcpSocket S × W)
      → let r = run stack cs s in
        (is_connected r.1.0 ≡ (is_connected s.0 || any_made r.0))
        × (is_connected r.1.0 ≡ false → AllRefused r.0)
  unfolding run
  run_lem [] s = (or_false (is_connected s.0), λ e. tt)
  run_lem (c ∷ cs) s =
      let r = perform stack c s in
      let one = perform_lem c s in
      let rest = run_lem cs r.1 in
      let all = any_made (run stack cs r.1).0 in
      (
        rest.0 ∙ ap (λ b. b || all) one.0 ∙ or_assoc (is_connected s.0) (made r.0) all,
        λ e. (one.1 (left_false _ _ (sym rest.0 ∙ e)), rest.1 e),
      )

module _ {W Tcp Tls Connector : Type 0} (t : Transport W Tcp Tls Connector) where
  -- Along any sequence of calls on a new socket, over TLS with any connector as well as without, the
  -- socket is connected at the end exactly if some call to connect succeeded, whatever failed before or
  -- after it. As long as it is not, each call to receive or to send was refused as not connected.
  pub run-connected :
      (network : Network Connector) (cs : List Call) (w : W)
      → let tls = run (tls_stack t network) cs ((tls_stack t network).socket, w) in
        let plain = run (plain_stack t) cs ((plain_stack t).socket, w) in
        ((tls_stack t network).is_connected tls.1.0 ≡ any_made tls.0)
        × ((tls_stack t network).is_connected tls.1.0 ≡ false → AllRefused tls.0)
        × ((plain_stack t).is_connected plain.1.0 ≡ any_made plain.0)
        × ((plain_stack t).is_connected plain.1.0 ≡ false → AllRefused plain.0)
  unfolding tls_stack plain_stack connect_tls connect socket is_connected
  run-connected network cs w =
      let tls = run_lem t.tls (open_tls t network) cs (socket, w) in
      let plain = run_lem t.tcp (open_tcp t) cs (socket, w) in (tls.0, tls.1, plain.0, plain.1)
