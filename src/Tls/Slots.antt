-- ===== src/Tls/Slots.antt =====
-- The slots of the TLS server beside those of the plain one.
use cpp_network_homework.Prelude.{
  ◌≡◌, refl, inl, inr, ◌&&◌, ◌++◌, if◌then◌else◌, Bool-cases, codes, equal,
}
use cpp_network_homework.Text.Stream.{is_empty}
use cpp_network_homework.Qt.Stream.{Text}
use cpp_network_homework.Qt.Server.{
  Request, Qt, Server, send_to_file, show, reply, do_exit, with_file, do_get, on_message,
}
use cpp_network_homework.Tls.{do_get_any, on_tls_message}

module _ {K : Type 0} (qt : Qt K) where
  do_get_any-do_get :
      (c : Request) (s : Server K)
      → do_get_any qt c s ≡ (
          if equal c.command (codes "get") && is_empty c.filename
          then reply qt c.command (do_get qt c s)
          else do_get qt c s)
  unfolding do_get_any do_get send_to_file with_file
  do_get_any-do_get c s = elim (Bool-cases (equal c.command (codes "get"))) [
    | inl g ↦ elim (Bool-cases (is_empty c.filename)) [
      | inl e ↦ rw (g, e) refl
      | inr e ↦ rw (g, e) refl
    ]
    | inr g ↦ rw g refl
  ]

  -- The TLS server does with a message what the plain one does, but for a `get` without the name of
  -- a file, which it also answers with the word `get`.
  pub on_tls_message-on_message :
      (str : Text) (s : Server K)
      → on_tls_message qt str s ≡ (
          if equal (qt.parse str).command (codes "get") && is_empty (qt.parse str).filename
          then reply qt (qt.parse str).command (on_message qt str s)
          else on_message qt str s)
  unfolding on_tls_message on_message
  on_tls_message-on_message str s =
      let c = qt.parse str in
      let told = show qt (codes "Client has sent - " ++ str) s in
      do_get_any-do_get c
        (do_exit qt c (reply qt (codes "Server Response: Received \"" ++ (str ++ codes "\"")) told))
