-- ===== src/Ipc/Client.antt =====
-- Linux_Multi_Server_Ipc/client.cpp: the servers that a directory of info files names, their
-- messages, and the summary. What the operating system answers is the record `Os`.
pub mod Sockets
pub mod Listing
pub mod Counting
use operating_systems.Base.{
  ℕ, zero, suc, ◌+◌, ◌==◌, if◌then◌else◌, Bool, true, false, not, ◌||◌, Option, none, some, List,
  [], ◌∷◌, ◌++◌, length,
}
pub use operating_systems.Ipc.Globals.{ServerInfo, InfoFile, Open, set_open, same_bytes}
use operating_systems.Ipc.Messages.{Segment, shared_memory_size, read_message, read_pieces}

-- The answers of the system calls; `select`, `connect`, `inet_pton`, `shmat` and `shmdt` succeed or
-- do not. `shmget` is asked with the key that `ftok` makes, `read` is all that a socket gives
-- until an end or an error, where there is one.
pub record Os : Type 0 where
  pub readdir : List ℕ → Option (List (List ℕ))
  pub open_file : List ℕ → Option InfoFile
  pub socket : Open → Option ℕ
  pub inet_pton : List ℕ → Bool
  pub select : ℕ → Bool
  pub connect : ℕ → List ℕ → ℕ → Bool
  pub shmget : List ℕ → ℕ → Option ℕ
  pub shmat : ℕ → Bool
  pub shmdt : ℕ → Bool
  pub memory : ℕ → Segment
  pub read : ℕ → Option (List (List ℕ))
  pub sort : List ServerInfo → List ServerInfo

-- A call returns, ends the process with a status, or goes on without end.
pub data Call (A : Type 0) : Type 0 where
  returns : A → Open → Call A
  exits : ℕ → Open → Call A
  hangs : Call A

abbrev pub after : {A B : Type 0} → Call A → (A → Open → Call B) → Call B
after (returns a fds) f = f a fds
after (exits status fds) f = exits status fds
after hangs f = hangs

-- What `print_server_infos` counts and prints.
pub record Summary : Type 0 where
  pub total_vm : ℕ
  pub total_host : ℕ
  pub total_container : ℕ
  pub messages : List (List ℕ)

-- "." and "..".
abbrev pub is_dots : List ℕ → Bool
is_dots name = same_bytes name (46 ∷ []) || same_bytes name (46 ∷ 46 ∷ [])

-- The directory, "/" and the name.
abbrev pub path_of : List ℕ → List ℕ → List ℕ
path_of directory name = directory ++ (47 ∷ name)

abbrev pub is_empty : List ℕ → Bool
is_empty [] = true
is_empty (b ∷ bs) = false

-- The client's socket is closed if there is one.
abbrev pub close_client : ServerInfo → Open → Open
close_client server fds = elim server.client_fd [ none ↦ fds | some fd ↦ set_open fds fd false ]

unfoldable pub disconnect : List ServerInfo → Open → Open
disconnect [] fds = fds
disconnect (server ∷ servers) fds = disconnect servers (close_client server fds)

module _ (os : Os) where
  -- The descriptor that the call leaves in `client_fd`, and what is open then.
  unfoldable pub socket_connection : List ℕ → ℕ → Open → Option ℕ × Open
  socket_connection ip_add port fds = elim (os.socket fds) [
    | none ↦ (none, fds)
    | some client_fd ↦
        let opened = set_open fds client_fd true in
        let closed = set_open opened client_fd false in
        if os.inet_pton ip_add
        then (if os.select client_fd
            then (if os.connect client_fd ip_add port
                then (some client_fd, opened)
                else (none, closed))
            else (none, closed))
        else (none, closed)
  ]

  -- The id that the call leaves in `shmid`.
  unfoldable pub shared_memo_at : List ℕ → ℕ → Option ℕ
  shared_memo_at shm_pathname shm_proj_id = elim (os.shmget shm_pathname shm_proj_id) [
    | none ↦ none
    | some shmid ↦ if os.shmat shmid then some shmid else none
  ]

  abbrev pub server_of : List ℕ → List ℕ → InfoFile → Option ℕ → ServerInfo
  server_of directory name file client_fd = record {
    server_fd = none;
    client_fd = client_fd;
    shmid = shared_memo_at file.shm_pathname file.shm_proj_id;
    info_file_path = path_of directory name;
  }

  -- The loop of `count_servers` over the entries of the directory.
  unfoldable pub read_entries :
      List ℕ → List (List ℕ) → List ServerInfo → Open → Call (List ServerInfo)
  read_entries directory [] servers fds = returns servers fds
  read_entries directory (name ∷ names) servers fds = elim (is_dots name) [
    | true ↦ read_entries directory names servers fds
    | false ↦ elim (os.open_file (path_of directory name)) [
      | none ↦ exits 1 fds
      | some file ↦
          let (client_fd, fds') = socket_connection file.ip_add file.port fds in
          read_entries directory names (servers ++ server_of directory name file client_fd ∷ [])
            fds'
    ]
  ]

  -- The servers and their number.
  unfoldable pub count_servers : List ℕ → Open → Call (List ServerInfo × ℕ)
  count_servers directory fds = elim (os.readdir directory) [
    | none ↦ exits 1 fds
    | some names ↦
        after (read_entries directory names [] fds)
          (λ servers fds'. returns (os.sort servers, length (os.sort servers)) fds')
  ]

  unfoldable pub get_message_from_shm : ServerInfo → ℕ → Open → Call (List ℕ)
  get_message_from_shm server shmid fds =
      if os.shmat shmid
      then (if os.shmdt shmid
          then returns (read_message shared_memory_size 0 (os.memory shmid)) fds
          else exits 1 (close_client server fds))
      else exits 1 (close_client server fds)

  -- The loop goes on as long as `read` gives bytes.
  unfoldable pub get_message_from_socket : ℕ → Open → Call (List ℕ)
  get_message_from_socket client_fd fds = elim (os.read client_fd) [
    | none ↦ hangs
    | some buffers ↦ returns (read_pieces buffers []) fds
  ]

  -- A message is kept if it is not empty.
  abbrev pub keep_message : List ℕ → List (List ℕ) → List (List ℕ)
  keep_message msg messages = if is_empty msg then messages else messages ++ msg ∷ []

  unfoldable pub shm_messages : ServerInfo → List (List ℕ) → Open → Call (List (List ℕ))
  shm_messages server messages fds = elim server.shmid [
    | none ↦ returns messages fds
    | some shmid ↦
        after (get_message_from_shm server shmid fds)
          (λ msg fds'. returns (keep_message msg messages) fds')
  ]

  unfoldable pub socket_messages : ServerInfo → List (List ℕ) → Open → Call (List (List ℕ))
  socket_messages server messages fds = elim server.client_fd [
    | none ↦ returns messages fds
    | some client_fd ↦
        after (get_message_from_socket client_fd fds)
          (λ msg fds'. returns (keep_message msg messages) fds')
  ]

  -- The category of a server, counted.
  unfoldable pub categorize : ServerInfo → Summary → Summary
  categorize server s = elim server.shmid [
    | some shmid ↦ elim server.client_fd [
      | some client_fd ↦ record s { total_host = suc s.total_host }
      | none ↦ record s { total_container = suc s.total_container }
    ]
    | none ↦ elim server.client_fd [
      | some client_fd ↦ s
      | none ↦ record s { total_vm = suc s.total_vm }
    ]
  ]

  -- The loop of `print_server_infos`.
  unfoldable pub summarize : List ServerInfo → Summary → Open → Call Summary
  summarize [] s fds = returns s fds
  summarize (server ∷ servers) s fds = after (shm_messages server s.messages fds) (λ from_shm fds'.
      after (socket_messages server from_shm fds') (λ messages fds''.
        summarize servers (categorize server (record s { messages = messages })) fds''))

  unfoldable pub print_server_infos : List ServerInfo → Open → Call (ℕ × Summary)
  print_server_infos servers fds =
      after
        (summarize servers
          (record { total_vm = 0; total_host = 0; total_container = 0; messages = [] }) fds)
        (λ s fds'. returns (length servers, s) fds')

  -- The number and the summary that are printed.
  unfoldable pub run : List ℕ → Open → Call (ℕ × Summary)
  run directory fds = after (count_servers directory fds) (λ counted fds'.
      after (print_server_infos counted.0 fds')
        (λ printed fds''. returns printed (disconnect counted.0 fds'')))
