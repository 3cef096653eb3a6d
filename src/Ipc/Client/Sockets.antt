-- ===== src/Ipc/Client/Sockets.antt =====
-- The descriptors that client.cpp of Linux_Multi_Server_Ipc/ opens and closes.
use operating_systems.Base.{
  ℕ, ◌≡◌, refl, sym, ◌∙◌, subst, ◌⊎◌, ◌==◌, ==_iff, ltb, if◌then◌else◌, Bool-cases, Option-cases,
  inl, inr, Bool, true, false, ◌||◌, Option, none, some, List, [], ◌∷◌, ◌++◌, length, weigh,
  weigh-append, SameEntries, arith,
}
use operating_systems.Ipc.Messages.{shared_memory_size, read_message, read_pieces}
use operating_systems.Ipc.Client.{
  ServerInfo, Open, Os, Call, returns, exits, hangs, after, Summary, is_dots, path_of, close_client,
  socket_connection, server_of, read_entries, count_servers, get_message_from_shm, shm_messages,
  summarize, keep_message, print_server_infos, disconnect, run, categorize, socket_messages,
  get_message_from_socket,
}

abbrev is_fd : ℕ → Option ℕ → Bool
is_fd fd none = false
is_fd fd (some client_fd) = client_fd == fd

-- 1 for a server that has the descriptor.
abbrev holds : ℕ → ServerInfo → ℕ
holds fd server = if is_fd fd server.client_fd then 1 else 0

abbrev held : ℕ → List ServerInfo → Bool
held fd servers = ltb 0 (weigh (holds fd) servers)

-- `socket` gives a descriptor that is not open.
abbrev pub GivesClosed : Os → Type 0
GivesClosed os = (fds : Open) (fd : ℕ) → os.socket fds ≡ some fd → fds fd ≡ false

disconnect-eq :
    (servers : List ServerInfo) (fds : Open) (fd : ℕ)
    → disconnect servers fds fd ≡ (if held fd servers then false else fds fd)
unfolding disconnect
disconnect-eq [] fds fd = refl
disconnect-eq (server ∷ servers) fds fd =
    disconnect-eq servers (close_client server fds) fd ∙ closed server.client_fd refl
  where
    closed :
        (c : Option ℕ)
        → server.client_fd ≡ c
        → (if held fd servers then false else close_client server fds fd)
          ≡ (if held fd (server ∷ servers) then false else fds fd)
    closed none e = ground (arith, e)
    closed (some c) e = ground (arith, e)

-- A call that leaves what is open, or ends the process with status 1, or reads without end.
abbrev pub Leaves : {A : Type 0} → Os → Open → Call A → Type 0
Leaves os old (returns a fds) = (fd : ℕ) → fds fd ≡ old fd
Leaves os old (exits status fds) = status ≡ 1
Leaves os old hangs = (fd : ℕ) × (os.read fd ≡ none)

module _ (os : Os) (fresh : GivesClosed os) where
  -- What was open and what the servers hold.
  abbrev Holding : Open → List ServerInfo → Open → Type 0
  Holding old servers fds =
      (fd : ℕ) → (fds fd ≡ (old fd || held fd servers)) × (held fd servers ≡ true → old fd ≡ false)

  connected :
      (ip : List ℕ) (port : ℕ) (fds : Open) (fd : ℕ)
      → ((socket_connection os ip port fds).1 fd
          ≡ (fds fd || is_fd fd (socket_connection os ip port fds).0))
        × (is_fd fd (socket_connection os ip port fds).0 ≡ true → fds fd ≡ false)
  unfolding socket_connection
  connected ip port fds fd = elim (Option-cases (os.socket fds)) [
    | inl e ↦ ground (arith, e)
    | inr (c, e) ↦
        let closed = fresh fds c e in
        let same : c ≡ fd → fds fd ≡ false = (λ q. subst (λ k. fds k ≡ false) q closed) in
        ground (arith, e, same, ==_iff c fd)
  ]

  -- One more server.
  added :
      (old fds fds' : Open) (servers : List ServerInfo) (server : ServerInfo)
      → Holding old servers fds
      → ((fd : ℕ)
          → (fds' fd ≡ (fds fd || is_fd fd server.client_fd))
            × (is_fd fd server.client_fd ≡ true → fds fd ≡ false))
      → Holding old (servers ++ server ∷ []) fds'
  added old fds fds' servers server h c fd =
      let a = weigh-append (holds fd) servers (server ∷ []) in
      let b = h fd in let d = c fd in ground (arith, a, b, d)

  abbrev Opened : Open → Call (List ServerInfo) → Type 0
  Opened old (returns servers fds) = Holding old servers fds
  Opened old (exits status fds) = status ≡ 1
  Opened old hangs = ⊥

  read_entries-Opened :
      (directory : List ℕ) (names : List (List ℕ)) (servers : List ServerInfo) (old fds : Open)
      → Holding old servers fds
      → Opened old (read_entries os directory names servers fds)
  unfolding read_entries
  read_entries-Opened directory [] servers old fds h = h
  read_entries-Opened directory (name ∷ names) servers old fds h =
      elim (Bool-cases (is_dots name)) [
        | inl e ↦ rw (e, Opened) (read_entries-Opened directory names servers old fds h)
        | inr e ↦ elim (Option-cases (os.open_file (path_of directory name))) [
          | inl f ↦ rw (e, f, Opened) refl
          | inr (file, f) ↦
              let made = socket_connection os file.ip_add file.port fds in
              rw (e, f, Opened)
                (read_entries-Opened directory names
                  (servers ++ server_of os directory name file made.0 ∷ []) old made.1
                  (added old fds made.1 servers (server_of os directory name file made.0) h
                    (connected file.ip_add file.port fds)))
        ]
      ]

  shm_messages-cases :
      (server : ServerInfo) (messages : List (List ℕ)) (fds : Open)
      → ((m : List (List ℕ)) × (shm_messages os server messages fds ≡ returns m fds))
        ⊎ ((fds' : Open) × (shm_messages os server messages fds ≡ exits 1 fds'))
  unfolding shm_messages get_message_from_shm
  shm_messages-cases server messages fds = elim (Option-cases server.shmid) [
    | inl e ↦ inl (messages, rw e refl)
    | inr (shmid, e) ↦ elim (Bool-cases (os.shmat shmid)) [
      | inr a ↦ inr (close_client server fds, rw (e, a) refl)
      | inl a ↦ elim (Bool-cases (os.shmdt shmid)) [
        | inr d ↦ inr (close_client server fds, rw (e, a, d) refl)
        | inl d ↦ inl (
          keep_message os (read_message shared_memory_size 0 (os.memory shmid)) messages,
          rw (e, a, d) refl,
        )
      ]
    ]
  ]

  socket_messages-cases :
      (server : ServerInfo) (messages : List (List ℕ)) (fds : Open)
      → ((m : List (List ℕ)) × (socket_messages os server messages fds ≡ returns m fds))
        ⊎ ((socket_messages os server messages fds ≡ hangs) × ((fd : ℕ) × (os.read fd ≡ none)))
  unfolding socket_messages get_message_from_socket
  socket_messages-cases server messages fds = elim (Option-cases server.client_fd) [
    | inl e ↦ inl (messages, rw e refl)
    | inr (fd, e) ↦ elim (Option-cases (os.read fd)) [
      | inl r ↦ inr (rw (e, socket_messages, get_message_from_socket, r) refl, (fd, r))
      | inr (buffers, r) ↦ inl (
        keep_message os (read_pieces buffers []) messages,
        rw (e, socket_messages, get_message_from_socket, r) refl,
      )
    ]
  ]

  summarize-Leaves :
      (servers : List ServerInfo) (s : Summary) (fds : Open)
      → Leaves os fds (summarize os servers s fds)
  unfolding summarize
  summarize-Leaves [] s fds = λ fd. refl
  summarize-Leaves (server ∷ servers) s fds = elim (shm_messages-cases server s.messages fds) [
    | inr (fds', e) ↦ rw (e, Leaves) refl
    | inl (m, e) ↦ elim (socket_messages-cases server m fds) [
      | inl (m', f) ↦
          rw (e, f, Leaves)
            (summarize-Leaves servers (categorize os server (record s { messages = m' })) fds)
      | inr (f, unending) ↦ rw (e, f, Leaves) unending
    ]
  ]

  module _ (same : (servers : List ServerInfo) → SameEntries (os.sort servers) servers) where
    abbrev nothing : Summary
    nothing = record { total_vm = 0; total_host = 0; total_container = 0; messages = [] }

    -- The end of `run`.
    abbrev ended : List ServerInfo × ℕ → Call Summary → Call (ℕ × Summary)
    ended a c =
        after (after c (λ s fds. returns (length a.0, s) fds))
          (λ p fds. returns p (disconnect a.0 fds))

    -- The servers that are counted.
    abbrev Counted : Open → Call (List ServerInfo × ℕ) → Type 0
    Counted old (returns a fds) = Holding old a.0 fds
    Counted old (exits status fds) = status ≡ 1
    Counted old hangs = ⊥

    sorted-Holding :
        (old fds : Open) (servers : List ServerInfo)
        → Holding old servers fds
        → Holding old (os.sort servers) fds
    sorted-Holding old fds servers h fd =
        let a = same servers (holds fd) in
        subst (λ k. (fds fd ≡ (old fd || ltb 0 k)) × (ltb 0 k ≡ true → old fd ≡ false)) (sym a)
          (h fd)

    count_servers-Counted :
        (directory : List ℕ) (old : Open) → Counted old (count_servers os directory old)
    unfolding count_servers
    count_servers-Counted directory old = elim (Option-cases (os.readdir directory)) [
      | inl e ↦ rw (e, Counted) refl
      | inr (names, e) ↦
          rw (e, Counted)
            (counted (read_entries os directory names [] old)
              (read_entries-Opened directory names [] old old (λ fd. ground arith)))
    ]
      where
        counted :
            (c : Call (List ServerInfo))
            → Opened old c
            → Counted old
                (after c (λ servers fds'. returns (os.sort servers, length (os.sort servers)) fds'))
        counted (returns servers fds) h = sorted-Holding old fds servers h
        counted (exits status fds) h = h
        counted hangs h = elim h [ ]

    -- When `socket` gives only descriptors that are not open, and std::sort keeps its entries:
    -- whatever the calls answer, `run` returns with the same descriptors open as at the start, or
    -- it ends the process with status 1, or it reads from a socket without end; the last only if
    -- there is a socket that never gives an end or an error.
    pub run-Leaves : (directory : List ℕ) (old : Open) → Leaves os old (run os directory old)
    unfolding run print_server_infos
    run-Leaves directory old =
        counted (count_servers os directory old) (count_servers-Counted directory old)
      where
        printed :
            (a : List ServerInfo × ℕ) (fds : Open)
            → Holding old a.0 fds
            → (c : Call Summary) → Leaves os fds c
            → Leaves os old (ended a c)
        printed a fds h (returns s fds') l = λ fd.
            let d = disconnect-eq a.0 fds' fd in
            let k = l fd in let g = h fd in ground (arith, d, k, g)
        printed a fds h (exits status fds') l = l
        printed a fds h hangs l = l

        counted :
            (c : Call (List ServerInfo × ℕ))
            → Counted old c
            → Leaves os old (after c (λ a fds. ended a (summarize os a.0 nothing fds)))
        counted (returns a fds) h =
            printed a fds h (summarize os a.0 nothing fds) (summarize-Leaves a.0 nothing fds)
        counted (exits status fds) h = h
        counted hangs h = elim h [ ]
