-- ===== src/FileServer/Request.antt =====
-- `class Client` of hw4/tcp_server/main.cpp: which file a request names, and sending it. The file
-- system is a parameter; `none` is `std::nullopt`.
pub mod Sending
use cpp_network_homework.Prelude.{
  ℕ, ◌+◌, Bool, true, false, not, ◌&&◌, Option, none, some, List, [], ◌∷◌, ◌++◌, ◌==◌,
  if◌then◌else◌, length, drop, Bytes, npos,
}
use cpp_network_homework.Text.Stream.{is_empty}
use cpp_network_homework.Send.{Reply, Outcome, returned, waiting}
use cpp_network_homework.FileServer.Transceiver.{Transceiver, send_file}

-- `fs::current_path`, `fs::weakly_canonical`, `fs::exists`, `fs::is_regular_file`, and the bytes of
-- a file, `none` if it does not open. `separ` is the separator that the code puts between paths.
pub record FileSystem : Type 0 where
  pub current_path : Bytes
  pub separ : ℕ
  pub weakly_canonical : Bytes → Bytes
  pub exists : Bytes → Bool
  pub is_regular_file : Bytes → Bool
  pub contents : Bytes → Option Bytes

unfoldable pub starts_with : Bytes → Bytes → Bool
starts_with s [] = true
starts_with [] (c ∷ cs) = false
starts_with (d ∷ s) (c ∷ cs) = d == c && starts_with s cs

-- `std::wstring::find`: the first index at which `part` stands, or `npos`.
unfoldable pub find_from : ℕ → Bytes → Bytes → ℕ
find_from i part [] = if starts_with [] part then i else npos
find_from i part (c ∷ cs) =
    let more = find_from (i + 1) part cs in if starts_with (c ∷ cs) part then i else more

unfoldable pub find : Bytes → Bytes → ℕ
find s part = find_from 0 part s

-- `Client::process`, up to what it prints: it returns true if the request names a path, whether or
-- not the file is sent. While `send` waits, it does not return.
pub data Processed : Type 0 where
  processed : Bool → Bytes → List Reply → Processed
  blocked : Bytes → Processed

module _ (fs : FileSystem) where
  unfoldable pub below_current : Bytes → Bytes
  below_current file_path =
      if find file_path fs.current_path == 0
      then drop (length fs.current_path) file_path
      else file_path

  unfoldable pub recv_file_path : Bytes → Option Bytes
  recv_file_path request_data =
      if is_empty request_data
      then none
      else some (
          fs.weakly_canonical
            (fs.current_path ++ (fs.separ ∷ below_current (fs.weakly_canonical request_data))))

  -- `Client::send_file`.
  pub send_file_at : Transceiver → Bytes → List Reply → Transceiver × Outcome
  send_file_at t path script =
      if not (fs.exists path && fs.is_regular_file path)
      then (t, returned false [] script)
      else send_file t (fs.contents path) script

  after_sending : Outcome → Processed
  after_sending (waiting wire) = blocked wire
  after_sending (returned sent wire later) = processed true wire later

  process_path : Transceiver → Option Bytes → List Reply → Processed
  process_path t none script = processed false [] script
  process_path t (some path) script = after_sending (send_file_at t path script).1

  pub process : Transceiver → Bytes → List Reply → Processed
  process t filename script = process_path t (recv_file_path filename) script
