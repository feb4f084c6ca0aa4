-- ===== src/Tests/Windows.antt =====
-- The Qt programs at concrete inputs.
use cpp_network_homework.Prelude.{
  ℕ, zero, suc, ◌+◌, ◌*◌, ◌%◌, ◌^◌, ◌<◌, ◌≡◌, refl, sym, ap, true, false, some, some-injective,
  List, [], ◌∷◌, ◌++◌, append-nil, arith, length, take, drop, replicate, All, length-append,
  take-append-drop, get_elem?, Bytes, codes, equal, concat,
}
use cpp_network_homework.Qt.Stream.{Text, IsQString}
use cpp_network_homework.Qt.Stream.Wire.{wire, wire-IsQt}
use cpp_network_homework.Qt.Frame.{frame, frames, IsShort, body_size, frame_lem}
use cpp_network_homework.Qt.Reader.{Reader, feed, feed_open}
use cpp_network_homework.Qt.Server.Replies.{IsWhole, echo_of, reply_to, replies_to, leaves_server}
use cpp_network_homework.Qt.Server.Window.{Peer, Window, welcome, construct, arrives, run}
use cpp_network_homework.Qt.Server.Window.Turns.{Turn, joins, talks, departs, IsTurn, events_of}
use cpp_network_homework.Qt.Server.Window.Clients.{joined-answered}
use cpp_network_homework.Qt.Server.Window.Stale.{starts_message, stale_size}
use cpp_network_homework.Qt.Server.Block.{part_of}
use cpp_network_homework.Qt.Server.{
  Qt, Server, read_from, fict_of, path_of, start_at, amount, react,
}
use cpp_network_homework.Text.Stream.{is_empty}
use cpp_network_homework.Qt.Talk.{talk_lines, IsTalk, talk_shows}
use cpp_network_homework.Qt.Conversation.{Asks, asked_path, asked_part, get_conversation}
use cpp_network_homework.Qt.Client.File.{stored, get_too_early}
use cpp_network_homework.Qt.Client.{Local, Client, slot_ready_read}
use cpp_network_homework.Qt.Server
use cpp_network_homework.Qt.Client

abbrev hello : Text
hello = codes "hello"

hello-IsShort : IsShort hello
hello-IsShort = ground arith

-- Two messages in three pieces.
abbrev two_messages : List Text
two_messages = hello ∷ codes "exit" ∷ []

abbrev three_pieces : List Bytes
three_pieces =
    let b = frames wire two_messages in take 5 b ∷ take 20 (drop 5 b) ∷ drop 20 (drop 5 b) ∷ []

three_pieces_whole : concat three_pieces ≡ frames wire two_messages
three_pieces_whole =
    let b = frames wire two_messages in
    rw (append-nil (drop 20 (drop 5 b)), take-append-drop 20 (drop 5 b)) (take-append-drop 5 b)

exit_IsShort : IsShort (codes "exit")
exit_IsShort = ground arith

-- A server that has one file, on a socket that keeps what it is given.
abbrev desk : Qt Bytes
desk = record {
  stream = wire;
  write = λ k b. (k ++ b, some (length b));
  parse = λ t. record { command = t; filename = codes "a"; fiction = []; size_fict = 0 };
  files = record {
    current = codes "/srv";
    exists = λ p. true;
    file_size = λ p. 3;
    opened = λ p. some (codes "xyz");
  };
}

desk-IsWhole : IsWhole desk (λ k. k)
desk-IsWhole = record { takes = λ k b. refl; adds = λ k b. refl }

abbrev desk_start : Server Bytes
desk_start = record { socket = []; shown = []; closed = false; hung = false }

-- Two messages of clients that stay, in two pieces.
abbrev two_greetings : List Text
two_greetings = hello ∷ hello ∷ []

abbrev two_pieces : List Bytes
two_pieces = let b = frames wire two_greetings in take 5 b ∷ drop 5 b ∷ []

two_pieces_whole : concat two_pieces ≡ frames wire two_greetings
two_pieces_whole =
    let b = frames wire two_greetings in rw (append-nil (drop 5 b)) (take-append-drop 5 b)

hello_stays : leaves_server desk hello ≡ false
unfolding equal
hello_stays = refl

-- A client that talks and is disconnected, and one that comes behind it.
abbrev earlier_turns : List (Turn Bytes)
earlier_turns = joins [] ∷ talks 0 two_greetings two_pieces ∷ departs 0 ∷ []

abbrev later_turns : List (Turn Bytes)
later_turns = talks 1 two_greetings two_pieces ∷ joins [] ∷ []

abbrev desk_window : Window Bytes
desk_window =
    run desk (events_of (earlier_turns ++ (joins [] ∷ later_turns))) (construct Bytes true)

two_greetings-IsTurn : IsTurn desk (talks 1 two_greetings two_pieces)
two_greetings-IsTurn =
    ((hello-IsShort, (hello-IsShort, tt)), (hello_stays, (hello_stays, tt)), two_pieces_whole)

joined-answered_example :
    (p : Peer Bytes) × (get_elem? desk_window.peers 1 ≡ some p)
    × (p.socket
        ≡ [] ++ (frame wire (codes "Server Response: Connected!") ++ replies_to desk two_greetings))
    × (p.arrived ≡ [])
joined-answered_example =
    joined-answered desk (λ k. k) desk-IsWhole wire-IsQt earlier_turns later_turns []
      (tt, (two_greetings-IsTurn, (tt, tt))) (two_greetings-IsTurn, (tt, tt))

abbrev home : Local
home = record {
  stream = wire;
  section_last = λ p. codes "a";
  current = codes "/home";
  opens = λ p. true;
}

abbrev home_start : Client
home_start = record { block_size = 0; shown = []; closed = false; files = [] }

two_messages-IsTalk : All (IsTalk desk) two_messages
unfolding equal is_empty
two_messages-IsTalk =
    ((hello-IsShort, ground arith, refl), ((exit_IsShort, ground arith, refl), tt))

talk_shows_example :
    (let server : Reader (Server Bytes) = record {
      next_block_size = 0;
      arrived = [];
      state = desk_start;
    } in
      let client : Reader Client = record {
        next_block_size = 0;
        arrived = [];
        state = home_start;
      } in
      let heard = feed_open wire (Server.react desk) (λ x. x.closed) server three_pieces in
      let shows =
        feed_open wire
          (Client.react home)
          (λ x. x.closed)
          client
          (replies_to desk two_messages ∷ []) in
      (heard.state.socket ≡ [] ++ replies_to desk two_messages)
      × (heard.arrived ≡ [])
      × (shows.state.shown ≡ [] ++ talk_lines desk two_messages)
      × (shows.arrived ≡ []))
talk_shows_example =
    talk_shows desk (λ k. k) home two_messages three_pieces (replies_to desk two_messages ∷ [])
      desk_start home_start desk-IsWhole wire-IsQt refl two_messages-IsTalk (hello_stays, tt) refl
      refl three_pieces_whole (append-nil (replies_to desk two_messages))

path_IsQString : IsQString (codes "/srv/a")
path_IsQString = ground arith

path_small : 4 + 2 * length (codes "/srv/a") + length (part_of desk (codes "/srv/a") 0 0) < 2 ^ 31
path_small = unfold read_from start_at amount in omega arith

get-Asks : Asks desk (codes "get")
unfolding is_empty path_of Server.fict_of equal
get-Asks = record {
  short = ground arith;
  echo_short = ground arith;
  command = refl;
  named = refl;
  there = refl;
  path_holds = path_IsQString;
  small = path_small;
}

get_conversation_example :
    (let server : Reader (Server Bytes) = record {
      next_block_size = 0;
      arrived = [];
      state = desk_start;
    } in
      let client : Reader Client = record {
        next_block_size = 0;
        arrived = [];
        state = home_start;
      } in
      ((feed wire (Server.react desk) server (frame wire (codes "get") ∷ [])).state.socket
        ≡ [] ++ reply_to desk (codes "get"))
      × (slot_ready_read home client (reply_to desk (codes "get")) ≡ record {
        next_block_size = 0;
        arrived = [];
        state =
            stored home
              (asked_path desk (codes "get"))
              (asked_part desk (codes "get"))
              (record home_start { shown = [] ++ (echo_of (codes "get") ∷ []) });
      }))
get_conversation_example =
    get_conversation desk (λ k. k) home (codes "get") (frame wire (codes "get") ∷ []) desk_start
      home_start desk-IsWhole wire-IsQt refl get-Asks (append-nil (frame wire (codes "get"))) refl
      refl

-- The size of a message of forty characters on one socket, and `hello` on the other.
abbrev long_text : Text
long_text = replicate 40 b'x'

long_text-IsShort : IsShort long_text
long_text-IsShort = ground arith

hello_is_shorter : length (frame wire hello) < body_size long_text
hello_is_shorter = omega (
  arith,
  ap length (frame_lem wire wire-IsQt hello hello-IsShort.0),
  length-append (wire.put_uint16 (body_size hello % 2 ^ 16)) (wire.put_string hello),
  wire-IsQt.length-put_uint16 (body_size hello % 2 ^ 16),
  wire-IsQt.length-put_string hello hello-IsShort.0,
)

abbrev new_peer : Peer Bytes
new_peer = record { socket = []; arrived = []; connected = true }

-- A window with two clients that have sent nothing.
abbrev two_clients : Window Bytes
two_clients = record (construct Bytes true) { peers = new_peer ∷ new_peer ∷ [] }

two_clients-IsIdle :
    (i : ℕ) (p : Peer Bytes) → get_elem? two_clients.peers i ≡ some p → p.arrived ≡ []
two_clients-IsIdle zero p g = ap (λ x. x.arrived) (sym (some-injective new_peer p g))
two_clients-IsIdle (suc zero) p g = ap (λ x. x.arrived) (sym (some-injective new_peer p g))
two_clients-IsIdle (suc (suc i)) p g = absurd (cc g)

stale_size_example :
    (let v =
        run desk
          (starts_message desk 0 long_text true ++ (arrives 1 (frame wire hello) ∷ []))
          two_clients in
      (v.next_block_size ≡ body_size long_text)
      × (get_elem? v.peers 1 ≡ some (record new_peer { arrived = frame wire hello }))
      × (v.shown ≡ welcome))
unfolding construct
stale_size_example =
    stale_size desk wire-IsQt two_clients (refl, two_clients-IsIdle, refl) 0 1 new_peer new_peer
      refl refl refl refl refl long_text hello true long_text-IsShort hello_is_shorter

get_too_early_example :
    slot_ready_read home
      (record { next_block_size = 0; arrived = []; state = home_start })
      (frame wire (codes "get"))
    ≡ record {
      next_block_size = 0;
      arrived = [];
      state = record home_start {
        shown = ([] ++ (codes "get" ∷ [])) ++ (codes "File can't write" ∷ []);
      };
    }
get_too_early_example = get_too_early home home_start wire-IsQt refl
