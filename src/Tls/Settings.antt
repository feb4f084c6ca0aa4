-- ===== src/Tls/Settings.antt =====
-- What the connections of the TLS server are encrypted with, and that nobody is greeted.
use cpp_network_homework.Prelude.{
  ℕ, suc, ◌-◌, ◌≡◌, refl, sym, ap, ◌∙◌, inl, inr, Bool, true, false, ◌&&◌, Option, List, [], ◌∷◌,
  ◌++◌, append-nil, append_assoc, arith, ltb, if◌then◌else◌, Bool-cases, length, take,
  length-append, take_all, Bytes, codes, equal,
}
use cpp_network_homework.Qt.Server.{Qt, Server}
use cpp_network_homework.Tls.{
  tls_v1_2, SslSocket, SslServer, incoming_connection, set_ssl_local_certificate,
  set_ssl_private_key, configured, contains, welcome, Window, construct, max_pending, greet,
  connection, connections,
}

-- The sockets of some connections to a server that is set up from these files.
abbrev pub sockets_of : (Bytes → Option Bytes) → List ℕ → List SslSocket
sockets_of file [] = []
sockets_of file (d ∷ ds) =
    record {
      descriptor = d;
      local_certificate = file (codes "sslserver.pem");
      private_key = file (codes "sslserver.key");
      protocol = tls_v1_2;
      connected = true;
    }
    ∷ sockets_of file ds

-- The settings of the files, with `none` where one does not open.
abbrev IsConfigured : (Bytes → Option Bytes) → SslServer → Type 0
IsConfigured file s =
    (s.ssl_local_certificate ≡ file (codes "sslserver.pem"))
    × (s.ssl_private_key ≡ file (codes "sslserver.key"))
    × (s.ssl_protocol ≡ tls_v1_2)

configured-IsConfigured :
    (file : Bytes → Option Bytes)
    → IsConfigured file (configured file) × ((configured file).pending ≡ [])
unfolding configured set_ssl_local_certificate set_ssl_private_key
configured-IsConfigured file = ground arith

-- The socket that a connection gets.
abbrev new_socket : ℕ → SslServer → SslSocket
new_socket d s = record {
  descriptor = d;
  local_certificate = s.ssl_local_certificate;
  private_key = s.ssl_private_key;
  protocol = s.ssl_protocol;
  connected = true;
}

module _ {K : Type 0} (qt : Qt K) where
  connections_refused :
      (ds : List ℕ) (w : Window K)
      → (w.listening && ltb (length w.ssl.pending) max_pending) ≡ false
      → connections qt ds w ≡ w
  unfolding connections connection
  connections_refused [] w h = refl
  connections_refused (d ∷ ds) w h = ap (connections qt ds) (rw h refl) ∙ connections_refused ds w h

  connection_deaf :
      (d : ℕ) (w : Window K)
      → (w.listening && ltb (length w.ssl.pending) max_pending) ≡ true
      → w.greets ≡ false
      → connection qt d w ≡ record w { ssl = incoming_connection d w.ssl }
  unfolding connection greet
  connection_deaf d w l h = rw (l, h) refl

  connections_pending :
      (file : Bytes → Option Bytes) (ds : List ℕ) (w : Window K)
      → w.listening ≡ true
      → w.greets ≡ false
      → IsConfigured file w.ssl
      → ((connections qt ds w).ssl.pending
          ≡ w.ssl.pending ++ sockets_of file (take (max_pending - length w.ssl.pending) ds))
        × ((connections qt ds w).server ≡ w.server)
        × ((connections qt ds w).reads ≡ w.reads)
  unfolding connections incoming_connection
  connections_pending file [] w l g h =
      let n = take_all {A = ℕ} (max_pending - length w.ssl.pending) [] (omega arith) in
      (
        sym (append-nil w.ssl.pending) ∙ ap (λ x. w.ssl.pending ++ sockets_of file x) (sym n),
        refl,
        refl,
      )
  connections_pending file (d ∷ ds) w l g (c, k, p) =
      elim (Bool-cases (ltb (length w.ssl.pending) max_pending)) [
        | inl room ↦
            let v = record w { ssl = incoming_connection d w.ssl } in
            let deaf = ap (connections qt ds) (connection_deaf d w (rw l room) g) in
            let ih = connections_pending file ds v l g (c, k, p) in
            let size = length-append w.ssl.pending (new_socket d w.ssl ∷ []) in
            let less : max_pending - length w.ssl.pending
                ≡ suc (max_pending - length v.ssl.pending) =
              ground (arith, size) in
            (
              ap (λ x. x.ssl.pending) deaf
                  ∙ (ih.0
                      ∙ append_assoc w.ssl.pending (new_socket d w.ssl ∷ []) _
                      ∙ ap
                          (λ x.
                            w.ssl.pending
                            ++ (x ∷ sockets_of file (take (max_pending - length v.ssl.pending) ds)))
                          (λ i. record {
                            descriptor = d;
                            local_certificate = c i;
                            private_key = k i;
                            protocol = p i;
                            connected = true;
                          })
                      ∙ ap (λ n. w.ssl.pending ++ sockets_of file (take n (d ∷ ds))) (sym less)),
              ap (λ x. x.server) deaf ∙ ih.1,
              ap (λ x. x.reads) deaf ∙ ih.2,
            )
        | inr full ↦
            let same = connections_refused (d ∷ ds) w (rw l full) in
            let none_left : max_pending - length w.ssl.pending ≡ 0 = ground arith in
            (
              ap (λ x. x.ssl.pending) same
                  ∙ sym (append-nil w.ssl.pending)
                  ∙ ap (λ n. w.ssl.pending ++ sockets_of file (take n (d ∷ ds))) (sym none_left),
              ap (λ x. x.server) same,
              ap (λ x. x.reads) same,
            )
      ]

  -- If the server listens, the first 30 connections are encrypted with the certificate and the key of
  -- the two files, as far as they opened, and with the protocol of the constructor; but all of them
  -- stay pending, so that no more are accepted, none is greeted or heard, and nothing is shown but the
  -- lines of the constructor: `connect` names a slot that the class does not declare, unless its base
  -- class does. If it does not listen, there are no connections, and nothing is shown.
  pub construct-connections :
      (listens : Bool) (file : Bytes → Option Bytes) (inherited : List Bytes) (server : Server K)
      (ds : List ℕ)
      → contains inherited (codes "slotNewConnection()") ≡ false
      → let w = connections qt ds (construct listens file inherited server) in
        (w.ssl.pending ≡ (if listens then sockets_of file (take max_pending ds) else []))
        × (w.server
            ≡ (if listens then record server { shown = server.shown ++ welcome } else server))
        × (w.reads ≡ false)
  unfolding construct contains equal
  construct-connections true file inherited server ds h =
      let c = configured-IsConfigured file in
      let w = connections_pending file ds (construct true file inherited server) refl h c.0 in
      (w.0 ∙ ap (λ l. l ++ sockets_of file (take (max_pending - length l) ds)) c.1, w.1, w.2)
  construct-connections false file inherited server ds h =
      let e = connections_refused ds (construct false file inherited server) refl in
      (
        ap (λ w. w.ssl.pending) e ∙ (configured-IsConfigured file).1,
        ap (λ w. w.server) e,
        ap (λ w. w.reads) e,
      )
