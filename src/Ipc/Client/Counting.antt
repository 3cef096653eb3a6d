-- ===== src/Ipc/Client/Counting.antt =====
-- What `print_server_infos` of Linux_Multi_Server_Ipc/client.cpp counts and prints.
use operating_systems.Base.{
  ℕ, ◌+◌, ◌≡◌, refl, sym, ap, ◌∙◌, Option-cases, inl, inr, true, none, some, List, [], ◌∷◌, ◌++◌,
  length, weigh, flat, arith,
}
use mathlib.Core.List.{append_assoc, append-nil}
use operating_systems.Ipc.Messages.{shared_memory_size, read_message, read_pieces}
use operating_systems.Ipc.Client.{
  ServerInfo, Open, Os, returns, Summary, get_message_from_shm, get_message_from_socket,
  keep_message, shm_messages, socket_messages, categorize, summarize, print_server_infos,
}

-- 1 for a server with both shared memory and a socket, one of them, or none.
abbrev pub on_host : ServerInfo → ℕ
on_host server = elim server.shmid [
  | none ↦ 0
  | some s ↦ elim server.client_fd [ none ↦ 0 | some fd ↦ 1 ]
]

abbrev pub in_container : ServerInfo → ℕ
in_container server = elim server.shmid [
  | none ↦ 0
  | some s ↦ elim server.client_fd [ none ↦ 1 | some fd ↦ 0 ]
]

abbrev pub in_vm : ServerInfo → ℕ
in_vm server = elim server.shmid [
  | some s ↦ 0
  | none ↦ elim server.client_fd [ none ↦ 1 | some fd ↦ 0 ]
]

abbrev pub socket_only : ServerInfo → ℕ
socket_only server = elim server.shmid [
  | some s ↦ 0
  | none ↦ elim server.client_fd [ none ↦ 0 | some fd ↦ 1 ]
]

one_category :
    (servers : List ServerInfo)
    → weigh in_vm servers
        + weigh on_host servers
        + weigh in_container servers
        + weigh socket_only servers
      ≡ length servers
one_category [] = refl
one_category (server ∷ servers) = ground (arith, one_category servers)

module _ (os : Os) (reads : ℕ → List (List ℕ)) where
  abbrev shm_part : ServerInfo → List (List ℕ)
  shm_part server = elim server.shmid [
    | none ↦ []
    | some shmid ↦ keep_message os (read_message shared_memory_size 0 (os.memory shmid)) []
  ]

  abbrev socket_part : ServerInfo → List (List ℕ)
  socket_part server = elim server.client_fd [
    | none ↦ []
    | some client_fd ↦ keep_message os (read_pieces (reads client_fd) []) []
  ]

  -- The messages of a server: what is in its shared memory, then what its socket gives.
  abbrev pub messages_of : ServerInfo → List (List ℕ)
  messages_of server = shm_part server ++ socket_part server

  keep_message-append :
      (msg : List ℕ) (messages : List (List ℕ))
      → keep_message os msg messages ≡ messages ++ keep_message os msg []
  keep_message-append [] messages = sym (append-nil messages)
  keep_message-append (b ∷ bs) messages = refl

  categorize-eq :
      (server : ServerInfo) (s : Summary)
      → let t = categorize os server s in
        (t.total_host ≡ s.total_host + on_host server)
        × (t.total_container ≡ s.total_container + in_container server)
        × (t.total_vm ≡ s.total_vm + in_vm server)
        × (t.messages ≡ s.messages)
  unfolding categorize
  categorize-eq server s = ground arith

  module _ (works : (shmid : ℕ) → (os.shmat shmid ≡ true) × (os.shmdt shmid ≡ true))
      (ends : (fd : ℕ) → os.read fd ≡ some (reads fd)) where
    socket_messages-append :
        (server : ServerInfo) (messages : List (List ℕ)) (fds : Open)
        → socket_messages os server messages fds ≡ returns (messages ++ socket_part server) fds
    unfolding socket_messages get_message_from_socket
    socket_messages-append server messages fds = elim (Option-cases server.client_fd) [
      | inl e ↦ rw (e, socket_messages) (ap (λ m. returns m fds) (sym (append-nil messages)))
      | inr (fd, e) ↦
          rw (e, socket_messages, get_message_from_socket, ends fd)
            (ap (λ m. returns m fds) (keep_message-append (read_pieces (reads fd) []) messages))
    ]

    shm_messages-append :
        (server : ServerInfo) (messages : List (List ℕ)) (fds : Open)
        → shm_messages os server messages fds ≡ returns (messages ++ shm_part server) fds
    unfolding shm_messages get_message_from_shm
    shm_messages-append server messages fds = elim (Option-cases server.shmid) [
      | inl e ↦ rw (e, shm_messages) (ap (λ m. returns m fds) (sym (append-nil messages)))
      | inr (shmid, e) ↦
          let (a, d) = works shmid in
          rw (e, a, d, shm_messages)
            (ap (λ m. returns m fds)
              (keep_message-append (read_message shared_memory_size 0 (os.memory shmid)) messages))
    ]

    summarize-eq :
        (servers : List ServerInfo) (s : Summary) (fds : Open)
        → (t : Summary) × (summarize os servers s fds ≡ returns t fds)
          × (t.total_host ≡ s.total_host + weigh on_host servers)
          × (t.total_container ≡ s.total_container + weigh in_container servers)
          × (t.total_vm ≡ s.total_vm + weigh in_vm servers)
          × (t.messages ≡ s.messages ++ flat messages_of servers)
    unfolding summarize
    summarize-eq [] s fds =
        (s, refl, omega arith, omega arith, omega arith, sym (append-nil s.messages))
    summarize-eq (server ∷ servers) s fds =
        let e = shm_messages-append server s.messages fds in
        let kept = (s.messages ++ shm_part server) ++ socket_part server in
        let f = socket_messages-append server (s.messages ++ shm_part server) fds in
        let (t, r, a, b, c, m) =
          summarize-eq servers (categorize os server (record s { messages = kept })) fds in
        let (h, k, v, g) = categorize-eq server (record s { messages = kept }) in
        let all : t.messages ≡ s.messages ++ (messages_of server ++ flat messages_of servers) =
          m
          ∙ ap (λ x. x ++ flat messages_of servers)
              (g ∙ append_assoc s.messages (shm_part server) (socket_part server))
          ∙ append_assoc s.messages (messages_of server) (flat messages_of servers) in
        (t, rw (e, f, summarize) r, omega arith, omega arith, omega arith, all)

    -- When every segment can be attached and detached, and every socket comes to an end or an error:
    -- `print_server_infos` returns the number of the servers; how many have shared memory and a socket (host), shared memory only (container)
    -- and neither (VM), where these and the servers with a socket only are all servers; and the
    -- messages of all servers in their order. It leaves what is open.
    pub print_server_infos-eq :
        (servers : List ServerInfo) (fds : Open)
        → (t : Summary) × (print_server_infos os servers fds ≡ returns (length servers, t) fds)
          × (t.total_host ≡ weigh on_host servers)
          × (t.total_container ≡ weigh in_container servers)
          × (t.total_vm ≡ weigh in_vm servers)
          × (t.total_vm + t.total_host + t.total_container + weigh socket_only servers
              ≡ length servers)
          × (t.messages ≡ flat messages_of servers)
    unfolding print_server_infos
    print_server_infos-eq servers fds =
        let start : Summary = record {
          total_vm = 0;
          total_host = 0;
          total_container = 0;
          messages = [];
        } in
        let (t, r, a, b, c, m) = summarize-eq servers start fds in
        (
          t,
          rw (r, print_server_infos) refl,
          omega arith,
          omega arith,
          omega arith,
          omega (arith, one_category servers),
          m,
        )
