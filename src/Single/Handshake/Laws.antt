-- ===== src/Single/Handshake/Laws.antt =====
-- What a client's handshake comes to.
use n_backup.Prelude.{ℕ, ◌≤◌, ◌≡◌, ◌⊎◌, List, [], length}
use n_backup.Protocol.Wire.{IsLine}
use n_backup.Protocol.Frames.{protocol_version, Handshake}
use n_backup.Sanitize.Laws.{IsComponent}
use n_backup.Storage.{Name}

abbrev pub client_handshake : List ℕ → List ℕ → List ℕ → List ℕ → Handshake
client_handshake agent storage name version = record {
  version = protocol_version;
  agent_name = agent;
  storage_name = storage;
  backup_name = name;
  client_version = version;
}

-- A line that fits a field of the handshake.
abbrev pub IsField : List ℕ → Type 0
IsField line = IsLine line × (length line ≤ 512)

-- What the server asks of a backup.
pub record IsAdmissible (cert_name agent storage name : Name) : Type 0 where
  pub agent_component : IsComponent agent
  pub storage_component : IsComponent storage
  pub name_component : IsComponent name
  pub certified : (cert_name ≡ []) ⊎ (cert_name ≡ agent)
