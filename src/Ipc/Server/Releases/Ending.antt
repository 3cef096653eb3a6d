-- ===== src/Ipc/Server/Releases/Ending.antt =====
-- How `run` of server.cpp of Linux_Multi_Server_Ipc/ ends.
use operating_systems.Base.{
  ℕ, ◌<◌, ◌≡◌, ◌≢◌, refl, sym, ap, ◌∙◌, subst, Bool-cases, inl, inr, true, Option, none, some, List,
  [], ◌∷◌, ◌++◌, length, arith,
}
use operating_systems.Ipc.Globals.{ServerInfo, Open, same_bytes}
use operating_systems.Ipc.Messages.{shared_memory_size}
use operating_systems.Ipc.Server.{
  Setup, ServerOs, Machine, Run, returns, exits, overflows, killed, broken_pipe, after, close,
  no_info, remove_segment, start_communication, file_path, create_info_file, get_connection,
  write_to_shm, delete_file, shutdown, serve, run,
}
use operating_systems.Ipc.Server.Releases.{
  Behaves, Released, ReleasedBut, spared, closing, dropping, Owns, Leaves, remove_segment-eq,
  close-eq, after-Leaves, start_communication-Leaves,
}
use operating_systems.Ipc.Server.Releases.Calls.{
  create_info_file-Leaves, write_to_shm-Leaves, get_connection-Leaves, serve-Leaves,
}

same_bytes_refl : (xs : List ℕ) → same_bytes xs xs ≡ true
same_bytes_refl [] = refl
same_bytes_refl (x ∷ xs) = ground (arith, same_bytes_refl xs)

module _ (os : ServerOs) (old : Machine) (ok : Behaves os old) (setup : Setup) where
  swapped :
      (c s : Option ℕ) (fds : Open) (fd : ℕ)
      → closing s (closing c fds) fd ≡ closing c (closing s fds) fd
  swapped none s fds fd = refl
  swapped (some a) none fds fd = refl
  swapped (some a) (some b) fds fd = ground arith

  delete_file-gone :
      (path : List ℕ) (m : Machine)
      → path ≢ []
      → os.remove path ≡ true
      → (delete_file os path m).files path ≡ none
  delete_file-gone [] m ne r = absurd (ne refl)
  delete_file-gone (b ∷ path) m ne r = rw (r, same_bytes_refl (b ∷ path)) refl

  delete_file-Released :
      (path : List ℕ) (m : Machine) → Released old m → Released old (delete_file os path m)
  delete_file-Released [] m h = h
  delete_file-Released (b ∷ path) m h = elim (Bool-cases (os.remove (b ∷ path))) [
    | inl e ↦ rw e h
    | inr e ↦ rw e h
  ]

  shutdown-Released :
      (server : ServerInfo) (m : Machine)
      → Owns os old ok setup server m
      → Released old (shutdown os server m)
  unfolding shutdown
  shutdown-Released server m o =
      let whole : remove_segment os server.shmid (close server.client_fd (close server.server_fd m))
          ≡ record m {
            fds = closing server.client_fd (closing server.server_fd m.fds);
            segments = dropping server.shmid m.segments;
          } =
        ap (λ x. remove_segment os server.shmid (close server.client_fd x))
          (close-eq os old ok setup server.server_fd m)
        ∙ ap (remove_segment os server.shmid) (
            close-eq os old ok setup server.client_fd
              (record m { fds = closing server.server_fd m.fds }))
        ∙ remove_segment-eq os old ok setup server.shmid
            (record m { fds = closing server.client_fd (closing server.server_fd m.fds) }) in
      delete_file-Released server.info_file_path
        (remove_segment os server.shmid (close server.client_fd (close server.server_fd m)))
        (subst (Released old) (sym whole) o)

file_path-cons : (setup : Setup) → file_path setup ≢ []
file_path-cons setup = nonempty setup.info_file_directory
  where
    nonempty : (directory : List ℕ) → directory ++ (47 ∷ setup.info_file_name) ≢ []
    nonempty [] e = absurd cc
    nonempty (b ∷ directory) e = absurd cc

-- How `run` ends.
abbrev pub Ends : ServerOs → Machine → Setup → Run Unit → Type 0
Ends os old setup (returns u m) =
    Released old m × (os.remove (file_path setup) ≡ true → m.files (file_path setup) ≡ none)
Ends os old setup (exits status m) = (status ≡ 1) × ReleasedBut (spared os setup) old m
Ends os old setup overflows = ⊥
Ends os old setup (killed m) = os.write ≡ broken_pipe

module _ (os : ServerOs) (old : Machine) (ok : Behaves os old) (setup : Setup)
    (shm_msg socket_msg : List ℕ) (fits : length shm_msg < shared_memory_size) where
  abbrev Done : Unit {0} → Machine → Type 0
  Done u m = Ends os old setup (returns u m)

  to_Ends : (r : Run Unit) → Leaves os old ok setup Done r → Ends os old setup r
  to_Ends (returns u m) h = h
  to_Ends (exits status m) h = h
  to_Ends overflows h = h
  to_Ends (killed m) h = h

  -- The servers on the way.
  abbrev Started : ServerInfo → Machine → Type 0
  Started server m = (server.client_fd ≡ some 0) × Owns os old ok setup server m

  abbrev Named : ServerInfo → Machine → Type 0
  Named server m = (server.info_file_path ≡ file_path setup) × Owns os old ok setup server m

  shutdown-Done :
      (server : ServerInfo) (m : Machine) → Named server m → Done tt (shutdown os server m)
  unfolding shutdown
  shutdown-Done server m h =
      let rest =
        remove_segment os server.shmid (close server.client_fd (close server.server_fd m)) in
      (
        shutdown-Released os old ok setup server m h.1,
        (λ r.
            subst (λ p. (delete_file os p rest).files (file_path setup) ≡ none) (sym h.0)
              (delete_file-gone os old ok setup (file_path setup) rest (file_path-cons setup) r)),
      )

  connected-Done :
      (server : ServerInfo) (m : Machine)
      → server.client_fd ≡ some 0
      → Named server m
      → Leaves os old ok setup Done (
          after
            (get_connection os server m)
            (λ s4 m4. after (serve os s4 socket_msg m4) (λ u5 m5. returns tt (shutdown os s4 m5))))
  connected-Done server m c h =
      after-Leaves os old ok setup
        (λ (s4 : ServerInfo) m4.
          (s4.info_file_path ≡ server.info_file_path) × Owns os old ok setup s4 m4)
        Done (get_connection os server m) _ (get_connection-Leaves os old ok setup server m c h.1)
        (λ s4 m4 g.
          after-Leaves os old ok setup (λ (u : Unit) m5. Owns os old ok setup s4 m5) Done
            (serve os s4 socket_msg m4) _ (serve-Leaves os old ok setup s4 socket_msg m4 g.1)
            (λ u m5 o. shutdown-Done s4 m5 (g.0 ∙ h.0, o)))

  -- When `socket`, the opening of the info file and `accept` give only descriptors that are not
  -- open, IPC_RMID succeeds, and the message for the shared memory is shorter than it: whatever the
  -- other calls answer, `run` does not write behind the shared memory; it returns, ends the process
  -- with status 1, or is ended by SIGPIPE, and that only where `write` finds the peer closed. When
  -- it returns, the same descriptors are open as before, 0 aside, there is no new segment, and the
  -- info file is gone if it can be removed. When it exits, there is no new segment, and the same
  -- descriptors are open as before but for 0 and, where `getIP` fails, the info file's stream.
  pub run-Ends : Ends os old setup (run os setup shm_msg socket_msg old)
  unfolding run
  run-Ends = to_Ends (run os setup shm_msg socket_msg old) (
      after-Leaves os old ok setup Started Done (start_communication os no_info old) _
        (start_communication-Leaves os old ok setup)
        (λ s1 m1 (c, o).
          after-Leaves os old ok setup
            (λ (s2 : ServerInfo) m2.
              (s2 ≡ record s1 { info_file_path = file_path setup }) × Owns os old ok setup s2 m2)
            Done (create_info_file os setup s1 m1) _
            (create_info_file-Leaves os old ok setup s1 m1 o)
            (λ s2 m2 (e, o2).
              after-Leaves os old ok setup (λ (u : Unit) m3. Owns os old ok setup s2 m3) Done
                (write_to_shm os s2 shm_msg m2) _
                (write_to_shm-Leaves os old ok setup s2 shm_msg m2 fits o2)
                (λ u3 m3 o3.
                  connected-Done s2 m3 (ap (λ (s : ServerInfo). s.client_fd) e ∙ c)
                    (ap (λ (s : ServerInfo). s.info_file_path) e, o3)))))
