-- ===== src/Ipc/Globals.antt =====
-- Linux_Multi_Server_Ipc/globals.h, the lines of an info file, and which descriptors are open.
use operating_systems.Base.{ℕ, ◌==◌, if◌then◌else◌, Bool, true, false, Option, List, [], ◌∷◌}

-- struct live_server_info; `none` is -1.
pub record ServerInfo : Type 0 where
  pub server_fd : Option ℕ
  pub client_fd : Option ℕ
  pub shmid : Option ℕ
  pub info_file_path : List ℕ

-- The lines of an info file.
pub record InfoFile : Type 0 where
  pub ip_add : List ℕ
  pub port : ℕ
  pub shm_pathname : List ℕ
  pub shm_proj_id : ℕ

-- Which descriptors are open.
abbrev pub Open : Type 0
Open = ℕ → Bool

abbrev pub set_open : Open → ℕ → Bool → Open
set_open fds fd now j = if fd == j then now else fds j

abbrev pub same_bytes : List ℕ → List ℕ → Bool
same_bytes [] [] = true
same_bytes [] (b ∷ bs) = false
same_bytes (a ∷ rest_a) [] = false
same_bytes (a ∷ rest_a) (b ∷ bs) = let rest = same_bytes rest_a bs in if a == b then rest else false
