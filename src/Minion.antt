-- ===== src/Minion.antt =====
-- The minion's side: concrete/src/MasterProxy.cpp, concrete/src/FileManager.cpp,
-- concrete/src/MinionArgs.cpp and concrete/src/MinionCommands.cpp. The stream of the file is the
-- standard library's, and a parameter.
pub mod Replies
pub mod FileInit
use io_tbased_raid.Prelude.{ℕ, ◌-◌, Bool, Option, none, some, List, [], ◌∷◌, ◌++◌, if◌then◌else◌}
use io_tbased_raid.Prelude.Words.{copy_out}
use io_tbased_raid.Prelude.Results.{Result, ok, throw, fault, runtime_error, ◌>>=◌}
use io_tbased_raid.Factory
use io_tbased_raid.Factory.{Factory}
use io_tbased_raid.Message.{
  AMessage, Buffer, read_send, write_send, read_receive, write_receive, read_send_type,
  write_send_type, byte_of_bool, get_uid, get_offset, get_length, get_data, to_buffer, copy_bytes,
}
use io_tbased_raid.Packet.{
  MessageFactory, Packet, short_packet, size_mismatch, parsed, bufsiz, receive_from, check_packet,
}

-- The operations of `std::fstream` that `FileManager` calls. `read` gives the bytes that it stored,
-- which may be fewer than those asked for.
pub record FileStream {ℓ} (S : Type ℓ) : Type ℓ where
  pub seekg : ℕ → S → S
  pub read : ℕ → S → S × List ℕ
  pub seekp : ℕ → S → S
  pub write : List ℕ → S → S
  pub flush : S → S
  pub good : S → Bool

-- `TaskArgs`
pub record TaskArgs : Type 0 where
  pub offset : ℕ
  pub length : ℕ
  pub buffer : Buffer

-- `MinionReadArgs` and `MinionWriteArgs`, with the uid first.
pub data MinionArgs : Type 0 where
  minion_read_args minion_write_args : ℕ → TaskArgs → MinionArgs

-- `GetKey`: the value of `FDMODE`, 0 for a write and 1 for a read.
abbrev pub get_key : MinionArgs → ℕ
get_key (minion_read_args uid a) = 1
get_key (minion_write_args uid a) = 0

abbrev pub ArgsFactory : Type 0
ArgsFactory = Factory (ℕ × TaskArgs) MinionArgs

-- `MasterProxy::Init`, on the two factories; the objects made are filled by `FromBuffer`.
unfoldable pub init : ArgsFactory → MessageFactory → ArgsFactory × MessageFactory
unfolding Factory.register
init args messages = (
  Factory.register write_send_type (λ (uid, a). minion_write_args uid a)
      (Factory.register read_send_type (λ (uid, a). minion_read_args uid a) args),
  Factory.register write_send_type (λ _. write_send 0 0 0 none)
      (Factory.register read_send_type (λ _. read_send 0 0 0) messages),
)

-- The arguments of a message; a packet that fails the checks is logged, and the result is null.
abbrev args_of_packet : ArgsFactory → Packet → Result (Option MinionArgs)
args_of_packet args short_packet = ok none
args_of_packet args size_mismatch = ok none
args_of_packet args (parsed message_type m) =
    Factory.create message_type
      (get_uid m, record { offset = get_offset m; length = get_length m; buffer = get_data m }) args
    >>= λ made. ok (some made)

-- `MasterProxy::GetTaskArgs`
unfoldable pub get_task_args :
    ArgsFactory → MessageFactory → Option (List ℕ) → Result (Option MinionArgs)
unfolding Factory.create
get_task_args args messages datagram =
    receive_from datagram (bufsiz - 1) >>= check_packet messages >>= args_of_packet args

module _ {ℓ} {S : Type ℓ} (stream : FileStream S) where
  open stream use {seekg, read, seekp, write, flush, good}

  -- `FileManager::ReadFromFile`: the stream, the bytes that it stored, and the result.
  unfoldable pub read_from_file : ℕ → ℕ → S → S × List ℕ × Bool
  read_from_file offset length s =
      let (s', bytes) = read length (seekg offset s) in (s', bytes, good s')

  -- `FileManager::WriteToFile`
  unfoldable pub write_to_file : (ℕ → ℕ) → ℕ → ℕ → Buffer → S → Result (S × Bool)
  unfolding copy_bytes
  write_to_file junk offset length buffer s = do
    bytes ← copy_bytes junk buffer length
    let s' : S = flush (write bytes (seekp offset s))
    ok (s', good s')

-- The minion's objects: the stream of `FileManager`, and the datagrams that the socket of
-- `MasterProxy` took, oldest first.
pub record Minion {ℓ} (S : Type ℓ) : Type ℓ where
  pub file : S
  pub sent : List (List ℕ)

-- The end of `SendReadResponse` and `SendWriteResponse`: the message is written, and sent.
unfoldable pub send_response {ℓ} :
    {S : Type ℓ} → (ℕ → ℕ) → (List ℕ → Bool) → AMessage → Minion S → Result (Minion S)
unfolding to_buffer
send_response junk takes message m = to_buffer junk message >>= λ datagram.
    if takes datagram
    then ok (record m { sent = m.sent ++ (datagram ∷ []) })
    else throw runtime_error

abbrev pub send_read_response {ℓ} :
    {S : Type ℓ} → (ℕ → ℕ) → (List ℕ → Bool) → ℕ → Bool → ℕ → Buffer → Minion S → Result (Minion S)
send_read_response junk takes uid result length data' =
    send_response junk takes (read_receive uid (byte_of_bool result) length data')

abbrev pub send_write_response {ℓ} :
    {S : Type ℓ} → (ℕ → ℕ) → (List ℕ → Bool) → ℕ → Bool → Minion S → Result (Minion S)
send_write_response junk takes uid result =
    send_response junk takes (write_receive uid (byte_of_bool result))

-- `catch(const std::exception&)`: what was thrown is logged, and the state stays as it was then.
abbrev caught {ℓ} : {S : Type ℓ} → Minion S → Result (Minion S) → Result (Minion S)
caught m (ok m') = ok m'
caught m (throw e) = ok m
caught m fault = fault

module _ {ℓ} {S : Type ℓ} (stream : FileStream S) (junk : ℕ → ℕ) (takes : List ℕ → Bool) where
  -- `MinionReadCommand::Run`. Arguments of another class are logged. The array that is read into is
  -- fresh, so bytes that the stream does not store are `junk`.
  unfoldable pub read_command : MinionArgs → Minion S → Result (Minion S)
  unfolding read_from_file copy_out
  read_command (minion_write_args uid a) m = ok m
  read_command (minion_read_args uid a) m =
      let (file', bytes, result) = read_from_file stream a.offset a.length m.file in
      let m' : Minion S = record m { file = file' } in
      caught m' (
        send_read_response junk takes uid result a.length (some (copy_out junk 0 bytes a.length))
          m')

  -- The rest of `MinionWriteCommand::Run`, once the file is written.
  abbrev reply_written : ℕ → Minion S → S × Bool → Result (Minion S)
  reply_written uid m (file', result) =
      let m' : Minion S = record m { file = file' } in
      caught m' (send_write_response junk takes uid result m')

  -- `MinionWriteCommand::Run`
  unfoldable pub write_command : MinionArgs → Minion S → Result (Minion S)
  unfolding write_to_file
  write_command (minion_read_args uid a) m = ok m
  write_command (minion_write_args uid a) m =
      write_to_file stream junk a.offset a.length a.buffer m.file >>= reply_written uid m
