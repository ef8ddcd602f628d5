-- ===== src/Wfgan/Turns/Answers.antt =====
-- The server answers what the client asks for, in its order.
use wfdef.Prelude.{ℕ, ◌≡◌, refl, sym, ap, ◌∙◌, List, [], ◌∷◌, ◌++◌, append-nil, append_assoc}
use wfdef.Defconn.Packet.{PacketInfo}
use wfdef.Wfgan.{Sender}
use wfdef.Wfgan.Turns.{
  Tolerance, Client, Server, System, client_asks, answer, with_signals, Step, Steps,
  client_reads_data, client_has_tick, client_counts, client_turns, server_reads, server_detects,
  server_answers, arrives, done, after,
}
use wfdef.Wfgan.Turns.Asks.{
  asked, positive, positive-append, asked-append, Quiet, client_reads-Quiet, client_ticks-Quiet,
  asked-client_round,
}
use wfdef.Wfgan.Turns.Takes.{signals_of, detect-signals, take_packet-signals}

module _ {P : Type 0} where
  -- Of the response sizes that were asked for: those answered, those that wait in the server's channel
  -- and those on the way.
  abbrev pub Owed : List ℕ → List ℕ → System P → Type 0
  Owed xs ys s =
      positive ys ++ (positive (signals_of s.server) ++ positive (asked s.client.sender.send_chan))
      ≡ positive xs

  Owed-asks :
      (xs ys zs : List ℕ) (s : System P) (c : Client)
      → asked c.sender.send_chan ≡ asked s.client.sender.send_chan ++ zs
      → Owed xs ys s
      → Owed (xs ++ zs) ys (record s { client = c })
  Owed-asks xs ys zs s c eq h =
      let waiting = positive (signals_of s.server) in
      let coming = positive (asked s.client.sender.send_chan) in
      ap (λ r. positive ys ++ (waiting ++ r))
        (ap positive eq ∙ positive-append (asked s.client.sender.send_chan) zs)
      ∙ ap (λ r. positive ys ++ r) (sym (append_assoc waiting coming (positive zs)))
      ∙ sym (append_assoc (positive ys) (waiting ++ coming) (positive zs))
      ∙ ap (λ r. r ++ positive zs) h
      ∙ sym (positive-append xs zs)

  Owed-Quiet :
      (xs ys : List ℕ) (s : System P) (c : Client)
      → Quiet s.client c
      → Owed xs ys s
      → Owed (xs ++ []) ys (record s { client = c })
  Owed-Quiet xs ys s c quiet h =
      Owed-asks xs ys [] s c (quiet ∙ sym (append-nil (asked s.client.sender.send_chan))) h

  Owed-server :
      (xs ys : List ℕ) (s : System P) (server : Server P)
      → positive (signals_of server) ≡ positive (signals_of s.server)
      → Owed xs ys s
      → Owed (xs ++ []) (ys ++ []) (record s { server = server })
  Owed-server xs ys s server same h = rw (append-nil xs, append-nil ys, same) h

  Owed-answers :
      (xs ys : List ℕ) (s : System P) (sender : Sender) (n : ℕ) (rest : List ℕ)
      → signals_of s.server ≡ n ∷ rest
      → Owed xs ys s
      → Owed
          (xs ++ [])
          (ys ++ (n ∷ []))
          (record s { server = record (with_signals s.server rest) { sender = sender } })
  Owed-answers xs ys s sender n rest has h =
      let coming = positive (asked s.client.sender.send_chan) in
      ap (λ r. r ++ (positive rest ++ coming)) (positive-append ys (n ∷ []))
      ∙ append_assoc (positive ys) (positive (n ∷ [])) (positive rest ++ coming)
      ∙ ap (λ r. positive ys ++ r)
          (sym (append_assoc (positive (n ∷ [])) (positive rest) coming)
            ∙ ap (λ r. r ++ coming) (sym (positive-append (n ∷ []) rest) ∙ ap positive (sym has)))
      ∙ h
      ∙ ap positive (sym (append-nil xs))

  Owed-arrives :
      (xs ys : List ℕ) (s : System P) (server : Server P) (p : PacketInfo) (rest : List PacketInfo)
      → s.client.sender.send_chan ≡ p ∷ rest
      → signals_of server ≡ signals_of s.server ++ asked (p ∷ [])
      → Owed xs ys s
      → Owed (xs ++ []) (ys ++ []) (record {
        client = record s.client { sender = record s.client.sender { send_chan = rest } };
        server = server;
      })
  Owed-arrives xs ys s server p rest has taken h =
      ap (λ r. positive r ++ (positive (signals_of server) ++ positive (asked rest)))
        (append-nil ys)
      ∙ ap (λ r. positive ys ++ r)
          (ap (λ r. positive r ++ positive (asked rest)) taken
            ∙ ap (λ r. r ++ positive (asked rest))
                (positive-append (signals_of s.server) (asked (p ∷ [])))
            ∙ append_assoc (positive (signals_of s.server)) (positive (asked (p ∷ [])))
                (positive (asked rest))
            ∙ ap (λ r. positive (signals_of s.server) ++ r)
                (sym (positive-append (asked (p ∷ [])) (asked rest))
                  ∙ ap positive (sym (asked-append (p ∷ []) rest) ∙ ap asked (sym has))))
      ∙ h
      ∙ ap positive (sym (append-nil xs))

module _ {P : Type 0} (beta : ℕ → P) (tol : Tolerance) where
  Step-Owed :
      {s : System P} {xs' ys' : List ℕ} {s' : System P} (xs ys : List ℕ)
      → Step beta tol s xs' ys' s'
      → Owed xs ys s
      → Owed (xs ++ xs') (ys ++ ys') s'
  Step-Owed {s} {s'} xs ys (client_reads_data bs) h =
      rw (append-nil ys) (Owed-Quiet xs ys s s'.client (client_reads-Quiet s.client bs) h)
  Step-Owed {s} {s'} xs ys client_has_tick h =
      rw (append-nil ys) (Owed-Quiet xs ys s s'.client (client_ticks-Quiet s.client) h)
  Step-Owed {s} {s'} xs ys client_counts h =
      rw (append-nil ys) (Owed-Quiet xs ys s s'.client refl h)
  Step-Owed {s} {s'} xs ys (client_turns tuple) h = rw (append-nil ys) (
      Owed-asks xs ys (client_asks tol s.client tuple) s s'.client
        (asked-client_round tol s.client tuple) h)
  Step-Owed {s} {s'} xs ys (server_reads bs) h = Owed-server xs ys s s'.server refl h
  Step-Owed {s} {s'} xs ys server_detects h =
      Owed-server xs ys s s'.server (detect-signals s.server) h
  Step-Owed {s} {s'} xs ys (server_answers n rest skip has) h =
      Owed-answers xs ys s (answer tol s.server.sender n skip) n rest has h
  Step-Owed {s} {s'} xs ys (arrives {server = server} p rest has taken) h =
      Owed-arrives xs ys s server p rest has (take_packet-signals beta s.server server p taken) h

  -- In every run from a client that has sent nothing and a server that waits to send nothing: the
  -- signals that the server has taken from its channel, those in the channel, and the sizes in the
  -- finish packets on the way are, without the zeros, all the response sizes that the client drew, in its order.
  pub Steps-Owed :
      {s s' : System P} {xs ys : List ℕ}
      → s.server.link.extra.can_send_chan ≡ []
      → s.client.sender.send_chan ≡ []
      → Steps beta tol s xs ys s'
      → Owed xs ys s'
  Steps-Owed {s} no_signals no_packets done = rw (no_signals, no_packets) refl
  Steps-Owed no_signals no_packets (after {xs = xs} {ys = ys} steps step) =
      Step-Owed xs ys step (Steps-Owed no_signals no_packets steps)
