-- ===== src/Protocol/Control/Channel/Server.antt =====
-- What the agent makes of the frames of a server.
use n_backup.Prelude.{ℕ, ◌<◌, ◌≡◌, refl, ◌∙◌, List, [], ◌∷◌, ◌++◌, length, append_assoc}
use n_backup.Protocol.Wire.{ok, err, put_be, bytes_eq, read_byte, invalid_magic}
use n_backup.Protocol.Wire.Laws.{read_full-append}
use n_backup.Protocol.Control.Frames.{
  magic_control_ping, magic_control_rotate, magic_control_assembly_progress, magic_control_admit,
  magic_control_defer, magic_control_abort,
}
use n_backup.Protocol.Control.Codec.{
  read_control_magic, write_control_pong, write_control_rotate, read_control_rotate_payload,
  write_control_assembly_progress, write_byte_frame, write_control_admit, write_control_defer,
  write_control_abort,
}
use n_backup.Protocol.Control.Laws.{
  IsPong, IsAssembly, pong_payload, assembly_payload, read_pong, read_assembly,
}
use n_backup.Protocol.Control.Channel.{
  ServerFrame, pong, rotate, assembly_progress, write_server_frame, read_server_payload,
  read_server_frame,
}

abbrev pub IsServerFrame : ServerFrame → Type 0
IsServerFrame (pong p) = IsPong p
IsServerFrame (rotate stream_index) = stream_index < 256
IsServerFrame (assembly_progress p) = IsAssembly p

read_frame :
    (magic payload rest : List ℕ)
    → length magic ≡ 4
    → read_server_frame ((magic ++ payload) ++ rest) ≡ read_server_payload magic (payload ++ rest)
unfolding read_server_frame read_control_magic
read_frame magic payload rest e =
    rw (append_assoc magic payload rest, read_full-append 4 _ magic (payload ++ rest) e)

-- Each frame that a server's writer sends is read back by the agent's dispatch; a pong, which has
-- the magic of a ping, is read as a pong.
pub read_server_frame-write_server_frame :
    (f : ServerFrame) (rest : List ℕ)
    → IsServerFrame f
    → read_server_frame (write_server_frame f ++ rest) ≡ ok (f, rest)
unfolding write_server_frame read_server_payload bytes_eq write_control_pong write_control_rotate
    write_control_assembly_progress write_byte_frame read_control_rotate_payload read_byte
read_server_frame-write_server_frame (pong p) rest h =
    read_frame magic_control_ping (pong_payload p) rest refl ∙ rw (read_pong p rest h)
read_server_frame-write_server_frame (rotate stream_index) rest h =
    read_frame magic_control_rotate (stream_index ∷ []) rest refl
read_server_frame-write_server_frame (assembly_progress p) rest h =
    read_frame magic_control_assembly_progress (assembly_payload p) rest refl
    ∙ rw (read_assembly p rest h)

-- The frames ControlAdmit, ControlDefer and ControlAbort, which have writers, end the agent's loop
-- as unknown ones, whatever they carry.
pub read_server_frame_unknown :
    (b : ℕ) (rest : List ℕ)
    → (read_server_frame (write_control_admit b ++ rest) ≡ err invalid_magic)
      × (read_server_frame (write_control_defer b ++ rest) ≡ err invalid_magic)
      × (read_server_frame (write_control_abort b ++ rest) ≡ err invalid_magic)
unfolding read_server_payload bytes_eq write_control_admit write_control_defer write_control_abort
    write_byte_frame
read_server_frame_unknown b rest = (
  read_frame magic_control_admit (b ∷ []) rest refl,
  read_frame magic_control_defer (put_be 4 b) rest refl,
  read_frame magic_control_abort (put_be 4 b) rest refl,
)
