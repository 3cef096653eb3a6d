-- ===== src/Ipc/Server.antt =====
-- Linux_Multi_Server_Ipc/server.cpp. What the operating system answers is the record `ServerOs`.
pub mod Releases
use operating_systems.Base.{
  ℕ, ◌==◌, if◌then◌else◌, Bool, true, false, Option, none, some, List, [], ◌∷◌, ◌++◌,
}
use operating_systems.Ipc.Globals.{ServerInfo, InfoFile, Open, set_open, same_bytes}
use operating_systems.Ipc.Messages.{Segment, write_message}

-- struct server_setup_information.
pub record Setup : Type 0 where
  pub port : ℕ
  pub shm_pathname : List ℕ
  pub shm_proj_id : ℕ
  pub info_file_name : List ℕ
  pub info_file_directory : List ℕ

-- What `select` answers.
pub data Selected : Type 0 where
  fails times_out is_ready : Selected

-- What `write` does to a socket: the bytes are written, or it gives -1, or the peer has closed its
-- end, when SIGPIPE ends the process.
pub data Written : Type 0 where
  is_written write_fails broken_pipe : Written

-- The answers of the system calls, each of which `run` makes at most once but those on the host's
-- name: `gethostname` and `gethostbyname` in `create_newServer`, and `own_name` and `own_address`,
-- the same calls in `getIP`. `open_out` gives the descriptor of
-- the stream.
pub record ServerOs : Type 0 where
  pub socket : Option ℕ
  pub gethostname : Bool
  pub gethostbyname : Bool
  pub bind : Bool
  pub listen : Bool
  pub shmget : Option ℕ
  pub shmat : ℕ → Bool
  pub shmctl : ℕ → Bool
  pub open_out : List ℕ → Option ℕ
  pub own_name : Bool
  pub own_address : Option (List ℕ)
  pub select : Selected
  pub accept : Option ℕ
  pub write : Written
  pub remove : List ℕ → Bool

-- The open descriptors, the segments that exist with their bytes, the files (`some none` is an
-- empty one), and what has been written to a socket.
pub record Machine : Type 0 where
  pub fds : Open
  pub segments : ℕ → Bool
  pub memory : ℕ → Segment
  pub files : List ℕ → Option (Option InfoFile)
  pub sent : List (Option ℕ × List ℕ)

-- A call returns, ends the process with a status, writes behind the shared memory, or a signal
-- ends the process.
pub data Run (A : Type 0) : Type 0 where
  returns : A → Machine → Run A
  exits : ℕ → Machine → Run A
  overflows : Run A
  killed : Machine → Run A

abbrev pub after : {A B : Type 0} → Run A → (A → Machine → Run B) → Run B
after (returns a m) f = f a m
after (exits status m) f = exits status m
after overflows f = overflows
after (killed m) f = killed m

abbrev pub close : Option ℕ → Machine → Machine
close none m = m
close (some fd) m = record m { fds = set_open m.fds fd false }

abbrev pub set_file : Machine → List ℕ → Option (Option InfoFile) → Machine
set_file m path content = record m { files = λ p. if same_bytes path p then content else m.files p }

abbrev pub set_memory : Machine → ℕ → Segment → Machine
set_memory m shmid bytes = record m { memory = λ j. if shmid == j then bytes else m.memory j }

-- `live_server_info server_info = {}`.
abbrev pub no_info : ServerInfo
no_info = record { server_fd = some 0; client_fd = some 0; shmid = some 0; info_file_path = [] }

-- The directory, "/" and the name.
abbrev pub file_path : Setup → List ℕ
file_path setup_info = setup_info.info_file_directory ++ (47 ∷ setup_info.info_file_name)

module _ (os : ServerOs) where
  -- `shmctl` with IPC_RMID, where there is an id.
  abbrev pub remove_segment : Option ℕ → Machine → Machine
  remove_segment none m = m
  remove_segment (some shmid) m =
      if os.shmctl shmid
      then record m { segments = λ j. if shmid == j then false else m.segments j }
      else m

  unfoldable pub create_new_server : Machine → Run ℕ
  create_new_server m = elim os.socket [
    | none ↦ exits 1 m
    | some server_fd ↦
        let opened = record m { fds = set_open m.fds server_fd true } in
        let closed = close (some server_fd) opened in
        if os.gethostname
        then (if os.gethostbyname
            then (if os.bind
                then (if os.listen then returns server_fd opened else exits 1 closed)
                else exits 1 closed)
            else exits 1 closed)
        else exits 1 closed
  ]

  unfoldable pub shared_memo_creation : ℕ → Machine → Option ℕ × Machine
  shared_memo_creation server_fd m = elim os.shmget [
    | none ↦ (none, close (some server_fd) m)
    | some shmid ↦
        (some shmid, record m { segments = λ j. if shmid == j then true else m.segments j })
  ]

  unfoldable pub start_communication : ServerInfo → Machine → Run ServerInfo
  start_communication server m = after (create_new_server m) (λ server_fd m'.
      let (shmid, m'') = shared_memo_creation server_fd m' in
      returns (record server { server_fd = some server_fd; shmid = shmid }) m'')

  unfoldable pub free_resources : ServerInfo → Machine → Machine
  free_resources server m =
      close server.client_fd (remove_segment server.shmid (close server.server_fd m))

  unfoldable pub get_ip : ServerInfo → Machine → Run (List ℕ)
  get_ip server m =
      if os.own_name
      then elim os.own_address [ none ↦ exits 1 (free_resources server m) | some ip ↦ returns ip m ]
      else exits 1 (free_resources server m)

  unfoldable pub create_info_file : Setup → ServerInfo → Machine → Run ServerInfo
  create_info_file setup_info server m =
      let path = file_path setup_info in
      elim (os.open_out path) [
        | none ↦ exits 1 (free_resources server m)
        | some get_info_file ↦
            let created = set_file m path (some none) in
            let opened = record created { fds = set_open m.fds get_info_file true } in
            after (get_ip server opened) (λ ip m'.
              let content : InfoFile = record {
                ip_add = ip;
                port = setup_info.port;
                shm_pathname = setup_info.shm_pathname;
                shm_proj_id = setup_info.shm_proj_id;
              } in
              returns (record server { info_file_path = path })
                (close (some get_info_file) (set_file m' path (some (some content)))))
      ]

  unfoldable pub get_connection : ServerInfo → Machine → Run ServerInfo
  get_connection server m = elim os.select [
    | fails ↦ exits 1 (free_resources server m)
    | times_out ↦ returns (record server { client_fd = none }) m
    | is_ready ↦ elim os.accept [
      | none ↦ exits 1 (free_resources server m)
      | some client_fd ↦
          returns (record server { client_fd = some client_fd })
            (record m { fds = set_open m.fds client_fd true })
    ]
  ]

  unfoldable pub write_to_socket : ServerInfo → List ℕ → Machine → Run Unit
  write_to_socket server msg m = elim os.write [
    | is_written ↦ returns tt (record m { sent = m.sent ++ (server.client_fd, msg) ∷ [] })
    | write_fails ↦ exits 1 (free_resources server m)
    | broken_pipe ↦ killed m
  ]

  -- No segment can be attached with the id -1.
  unfoldable pub write_to_shm : ServerInfo → List ℕ → Machine → Run Unit
  write_to_shm server msg m = elim server.shmid [
    | none ↦ exits 1 (free_resources server m)
    | some shmid ↦
        if os.shmat shmid
        then elim (write_message msg (m.memory shmid)) [
          | none ↦ overflows
          | some bytes ↦ returns tt (set_memory m shmid bytes)
        ]
        else exits 1 (free_resources server m)
  ]

  abbrev pub delete_file : List ℕ → Machine → Machine
  delete_file [] m = m
  delete_file (byte ∷ path) m = if os.remove (byte ∷ path) then set_file m (byte ∷ path) none else m

  unfoldable pub shutdown : ServerInfo → Machine → Machine
  shutdown server m =
      delete_file server.info_file_path
        (remove_segment server.shmid (close server.client_fd (close server.server_fd m)))

  -- The message goes to the socket of a client, if one has connected.
  unfoldable pub serve : ServerInfo → List ℕ → Machine → Run Unit
  serve server socket_msg m = elim server.client_fd [
    | none ↦ returns tt m
    | some client_fd ↦ write_to_socket server socket_msg m
  ]

  unfoldable pub run : Setup → List ℕ → List ℕ → Machine → Run Unit
  run setup_info shm_msg socket_msg m = after (start_communication no_info m) (λ s1 m1.
      after (create_info_file setup_info s1 m1) (λ s2 m2.
        after (write_to_shm s2 shm_msg m2) (λ u3 m3.
          after (get_connection s2 m3)
            (λ s4 m4. after (serve s4 socket_msg m4) (λ u5 m5. returns tt (shutdown s4 m5))))))
