-- ===== src/Ipc/Server/Releases/Calls.antt =====
-- The calls of server.cpp of Linux_Multi_Server_Ipc/ after `start_communication`.
use operating_systems.Base.{
  ℕ, ◌<◌, ◌≡◌, ◌≢◌, refl, sym, ◌∙◌, subst, ◌==◌, ==_iff, if◌then◌else◌, Bool-cases, Option-cases,
  inl, inr, Bool, true, false, Option, none, some, List, length, arith,
}
use operating_systems.Ipc.Globals.{ServerInfo, Open, set_open}
use operating_systems.Ipc.Messages.{shared_memory_size}
use operating_systems.Ipc.Messages.RoundTrip.{write_message-read_message}
use operating_systems.Ipc.Server.{
  Setup, Selected, fails, times_out, is_ready, Written, is_written, write_fails, broken_pipe,
  ServerOs, Machine, set_file, free_resources, get_ip, file_path, create_info_file, get_connection,
  write_to_socket, write_to_shm, serve,
}
use operating_systems.Ipc.Server.Releases.{
  Behaves, ReleasedBut, spared, closing, Owns, Leaves, free_resources-But, free_resources-Released,
}

-- A descriptor that is opened or closed besides.
unopened :
    (a b : Option ℕ) (c : ℕ) (x : Bool) (fds : Open) (fd : ℕ)
    → (c == fd) ≡ false
    → closing a (closing b (set_open fds c x)) fd ≡ closing a (closing b fds) fd
unopened none none c x fds fd z = rw z refl
unopened none (some d) c x fds fd z = rw z refl
unopened (some d) none c x fds fd z = rw z refl
unopened (some d) (some e) c x fds fd z = rw z refl

shut_stays :
    (a b : Option ℕ) (c : ℕ) (fds : Open) (fd : ℕ)
    → (c == fd) ≡ true
    → closing a (closing b (set_open fds c false)) fd ≡ false
shut_stays none none c fds fd z = rw z refl
shut_stays none (some d) c fds fd z = ground (arith, z)
shut_stays (some d) none c fds fd z = ground (arith, z)
shut_stays (some d) (some e) c fds fd z = ground (arith, z)

module _ (os : ServerOs) (old : Machine) (ok : Behaves os old) (setup : Setup) where
  pub create_info_file-Leaves :
      (server : ServerInfo) (m : Machine)
      → Owns os old ok setup server m
      → Leaves os old ok setup
          (λ (server' : ServerInfo) m'.
            (server' ≡ record server { info_file_path = file_path setup })
            × Owns os old ok setup server' m')
          (create_info_file os setup server m)
  unfolding create_info_file get_ip free_resources
  create_info_file-Leaves server m o = elim (Option-cases (os.open_out (file_path setup))) [
    | inl a ↦ rw (a, Leaves) (refl, free_resources-Released os old ok setup server m o)
    | inr (c, a) ↦
        let freed : spared os setup ≡ some c
            → ReleasedBut (spared os setup) old (free_resources os server (opened c)) =
          λ e.
            subst (λ x. ReleasedBut x old (free_resources os server (opened c))) (sym e)
              (free_resources-But os old ok setup server (opened c) (some c)
                (λ fd ne apart.
                  let z : (c == fd) ≡ false = ground (arith, apart) in
                  unopened server.client_fd server.server_fd c true m.fds fd z ∙ o.0 fd ne)
                o.1) in
        elim (Bool-cases os.own_name) [
          | inr b ↦ rw (a, b, Leaves) (refl, freed (rw (spared, b) a))
          | inl b ↦ elim (Option-cases os.own_address) [
            | inl d ↦ rw (a, b, d, Leaves) (refl, freed (rw (spared, b, d) a))
            | inr (ip, d) ↦
                rw (a, b, d, Leaves)
                  (refl, ((λ fd ne. file_shut c (ok.file_closed (file_path setup) c a) fd ne), o.1))
          ]
        ]
  ]
    where
      opened : ℕ → Machine
      opened c = record (set_file m (file_path setup) (some none)) { fds = set_open m.fds c true }

      file_shut :
          (c : ℕ)
          → old.fds c ≡ false
          → (fd : ℕ) → fd ≢ 0
          → closing server.client_fd
              (closing server.server_fd (set_open (set_open m.fds c true) c false))
              fd
            ≡ old.fds fd
      file_shut c fresh fd ne = elim (Bool-cases (c == fd)) [
        | inl z ↦
            shut_stays server.client_fd server.server_fd c (set_open m.fds c true) fd z
            ∙ sym (subst (λ k. old.fds k ≡ false) ((==_iff c fd).0 z) fresh)
        | inr z ↦
            unopened server.client_fd server.server_fd c false (set_open m.fds c true) fd z
            ∙ unopened server.client_fd server.server_fd c true m.fds fd z
            ∙ o.0 fd ne
      ]

  pub write_to_shm-Leaves :
      (server : ServerInfo) (msg : List ℕ) (m : Machine)
      → length msg < shared_memory_size
      → Owns os old ok setup server m
      → Leaves os old ok setup
          (λ (u : Unit) m'. Owns os old ok setup server m')
          (write_to_shm os server msg m)
  unfolding write_to_shm free_resources
  write_to_shm-Leaves server msg m h o = written server.shmid o
    where
      written :
          (c : Option ℕ)
          → Owns os old ok setup (record server { shmid = c }) m
          → Leaves os old ok setup
              (λ (u : Unit) m'. Owns os old ok setup (record server { shmid = c }) m')
              (write_to_shm os (record server { shmid = c }) msg m)
      written none o =
          (refl, free_resources-Released os old ok setup (record server { shmid = none }) m o)
      written (some shmid) o =
          let (bytes, w, _) = (write_message-read_message msg (m.memory shmid)).0 h in
          elim (Bool-cases (os.shmat shmid)) [
            | inr a ↦
                rw (a, Leaves)
                  (
                    refl,
                    free_resources-Released os old ok setup (record server { shmid = some shmid }) m
                        o,
                  )
            | inl a ↦ rw (a, w, Leaves) o
          ]

  pub get_connection-Leaves :
      (server : ServerInfo) (m : Machine)
      → server.client_fd ≡ some 0
      → Owns os old ok setup server m
      → Leaves os old ok setup
          (λ (server' : ServerInfo) m'.
            (server'.info_file_path ≡ server.info_file_path) × Owns os old ok setup server' m')
          (get_connection os server m)
  unfolding get_connection free_resources
  get_connection-Leaves server m e o = connect os.select refl
    where
      unclosed : (fd : ℕ) → fd ≢ 0 → closing server.server_fd m.fds fd ≡ old.fds fd
      unclosed fd ne =
          let z : (0 == fd) ≡ false = ground (arith, ne) in
          let b =
            subst (λ k. closing k (closing server.server_fd m.fds) fd ≡ old.fds fd) e (o.0 fd ne) in
          rw z at b

      unaccepted :
          (s : Option ℕ) (c fd : ℕ)
          → (c == fd) ≡ false
          → closing s (set_open m.fds c true) fd ≡ closing s m.fds fd
      unaccepted none c fd z = rw z refl
      unaccepted (some d) c fd z = rw z refl

      -- Whatever the descriptor is that `accept` gives.
      accepted :
          (c : ℕ)
          → old.fds c ≡ false
          → (fd : ℕ) → fd ≢ 0
          → closing (some c) (closing server.server_fd (set_open m.fds c true)) fd ≡ old.fds fd
      accepted c fresh fd ne = elim (Bool-cases (c == fd)) [
        | inl z ↦ rw z (sym (subst (λ k. old.fds k ≡ false) ((==_iff c fd).0 z) fresh))
        | inr z ↦
            let step = unaccepted server.server_fd c fd z ∙ unclosed fd ne in
            subst
              (λ (x : Bool).
                (if x then false else closing server.server_fd (set_open m.fds c true) fd)
                ≡ old.fds fd)
              (sym z) step
      ]

      connect :
          (x : Selected)
          → os.select ≡ x
          → Leaves os old ok setup
              (λ (server' : ServerInfo) m'.
                (server'.info_file_path ≡ server.info_file_path) × Owns os old ok setup server' m')
              (get_connection os server m)
      connect fails q = rw (q, Leaves) (refl, free_resources-Released os old ok setup server m o)
      connect times_out q = rw (q, Leaves) (refl, (unclosed, o.1))
      connect is_ready q = elim (Option-cases os.accept) [
        | inl a ↦ rw (q, a, Leaves) (refl, free_resources-Released os old ok setup server m o)
        | inr (c, a) ↦ rw (q, a, Leaves) (refl, (accepted c (ok.accept_closed c a), o.1))
      ]

  pub serve-Leaves :
      (server : ServerInfo) (msg : List ℕ) (m : Machine)
      → Owns os old ok setup server m
      → Leaves os old ok setup
          (λ (u : Unit) m'. Owns os old ok setup server m')
          (serve os server msg m)
  unfolding serve write_to_socket free_resources
  serve-Leaves server msg m o = served server.client_fd o
    where
      served :
          (c : Option ℕ)
          → Owns os old ok setup (record server { client_fd = c }) m
          → Leaves os old ok setup
              (λ (u : Unit) m'. Owns os old ok setup (record server { client_fd = c }) m')
              (serve os (record server { client_fd = c }) msg m)
      served none o = o
      served (some c) o = answered os.write refl
        where
          answered :
              (x : Written)
              → os.write ≡ x
              → Leaves os old ok setup
                  (λ (u : Unit) m'. Owns os old ok setup (record server { client_fd = some c }) m')
                  (serve os (record server { client_fd = some c }) msg m)
          answered is_written a = rw (a, Leaves) o
          answered write_fails a =
              rw (a, Leaves)
                (
                  refl,
                  free_resources-Released os old ok setup (record server { client_fd = some c }) m
                      o,
                )
          answered broken_pipe a = rw (a, Leaves) a
