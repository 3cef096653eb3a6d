-- ===== src/Ipc/Server/Releases.antt =====
-- What server.cpp of Linux_Multi_Server_Ipc/ owns, and what is left when it has freed that.
pub mod Calls
pub mod Ending
use operating_systems.Base.{
  ℕ, suc, ◌<◌, ◌≡◌, ◌≢◌, refl, sym, ap, ◌∙◌, subst, ◌==◌, ==_iff, if◌then◌else◌, Bool-cases,
  Option-cases, inl, inr, Bool, true, false, Option, none, some, List, [], ◌∷◌, ◌++◌, length, arith,
}
use operating_systems.Ipc.Globals.{ServerInfo, InfoFile, Open, set_open, same_bytes}
use operating_systems.Ipc.Messages.{shared_memory_size, write_message}
use operating_systems.Ipc.Messages.RoundTrip.{write_message-read_message}
use operating_systems.Ipc.Server.{
  Setup, Selected, fails, times_out, is_ready, ServerOs, Machine, Run, returns, exits, overflows,
  killed, broken_pipe, after, close, set_file, set_memory, no_info, remove_segment,
  create_new_server, shared_memo_creation, start_communication, free_resources, get_ip, file_path,
  create_info_file, get_connection, write_to_socket, write_to_shm, delete_file, shutdown, serve,
  run,
}

-- The descriptors that `socket`, the opening of the info file and `accept` give are not open before,
-- and IPC_RMID succeeds.
pub record Behaves (os : ServerOs) (m : Machine) : Type 0 where
  pub socket_closed : (fd : ℕ) → os.socket ≡ some fd → m.fds fd ≡ false
  pub file_closed : (path : List ℕ) (fd : ℕ) → os.open_out path ≡ some fd → m.fds fd ≡ false
  pub accept_closed : (fd : ℕ) → os.accept ≡ some fd → m.fds fd ≡ false
  pub removes : (shmid : ℕ) → os.shmctl shmid ≡ true

-- The descriptors that are open are those of before, 0 aside, and no segment is new.
abbrev pub Released : Machine → Machine → Type 0
Released old m =
    ((fd : ℕ) → fd ≢ 0 → m.fds fd ≡ old.fds fd)
    × ((shmid : ℕ) → m.segments shmid ≡ true → old.segments shmid ≡ true)

-- The same, but for a descriptor that is spared.
abbrev pub ReleasedBut : Option ℕ → Machine → Machine → Type 0
ReleasedBut spare old m =
    ((fd : ℕ) → fd ≢ 0 → spare ≢ some fd → m.fds fd ≡ old.fds fd)
    × ((shmid : ℕ) → m.segments shmid ≡ true → old.segments shmid ≡ true)

-- The descriptor of the info file's stream, which stays open when `getIP` ends the process.
abbrev pub spared : ServerOs → Setup → Option ℕ
spared os setup =
    if os.own_name
    then elim os.own_address [ none ↦ os.open_out (file_path setup) | some ip ↦ none ]
    else os.open_out (file_path setup)

abbrev pub closing : Option ℕ → Open → Open
closing none fds fd = fds fd
closing (some c) fds fd = if c == fd then false else fds fd

abbrev pub dropping : Option ℕ → (ℕ → Bool) → ℕ → Bool
dropping none segments shmid = segments shmid
dropping (some s) segments shmid = if s == shmid then false else segments shmid

module _ (os : ServerOs) (old : Machine) (ok : Behaves os old) (setup : Setup) where
  -- To close the descriptors and to remove the segment now releases all.
  abbrev pub Owns : ServerInfo → Machine → Type 0
  Owns server m =
      ((fd : ℕ)
        → fd ≢ 0
        → closing server.client_fd (closing server.server_fd m.fds) fd ≡ old.fds fd)
      × ((shmid : ℕ) → dropping server.shmid m.segments shmid ≡ true → old.segments shmid ≡ true)

  pub remove_segment-eq :
      (s : Option ℕ) (m : Machine)
      → remove_segment os s m ≡ record m { segments = dropping s m.segments }
  remove_segment-eq none m = refl
  remove_segment-eq (some shmid) m = rw (ok.removes shmid) refl

  pub close-eq : (c : Option ℕ) (m : Machine) → close c m ≡ record m { fds = closing c m.fds }
  close-eq none m = refl
  close-eq (some fd) m = refl

  pub free_resources-But :
      (server : ServerInfo) (m : Machine) (spare : Option ℕ)
      → ((fd : ℕ)
          → fd ≢ 0
          → spare ≢ some fd
          → closing server.client_fd (closing server.server_fd m.fds) fd ≡ old.fds fd)
      → ((shmid : ℕ) → dropping server.shmid m.segments shmid ≡ true → old.segments shmid ≡ true)
      → ReleasedBut spare old (free_resources os server m)
  unfolding free_resources
  free_resources-But server m spare o o' =
      let whole : free_resources os server m ≡ record m {
        fds = closing server.client_fd (closing server.server_fd m.fds);
        segments = dropping server.shmid m.segments;
      } =
        ap (λ x. close server.client_fd (remove_segment os server.shmid x))
          (close-eq server.server_fd m)
        ∙ ap (close server.client_fd)
            (remove_segment-eq server.shmid (record m { fds = closing server.server_fd m.fds }))
        ∙ close-eq server.client_fd (record m {
          fds = closing server.server_fd m.fds;
          segments = dropping server.shmid m.segments;
        }) in
      subst (ReleasedBut spare old) (sym whole) (o, o')

  pub free_resources-Released :
      (server : ServerInfo) (m : Machine)
      → Owns server m
      → ReleasedBut (spared os setup) old (free_resources os server m)
  free_resources-Released server m o =
      free_resources-But server m (spared os setup) (λ fd ne apart. o.0 fd ne) o.1

  -- A call leaves what it owns, or ends with status 1 and all released, or by SIGPIPE.
  abbrev pub Leaves : {A : Type 0} → (A → Machine → Type 0) → Run A → Type 0
  Leaves P (returns a m) = P a m
  Leaves P (exits status m) = (status ≡ 1) × ReleasedBut (spared os setup) old m
  Leaves P overflows = ⊥
  Leaves P (killed m) = os.write ≡ broken_pipe

  pub after-Leaves :
      {A B : Type 0} (P : A → Machine → Type 0) (Q : B → Machine → Type 0) (r : Run A)
      (f : A → Machine → Run B)
      → Leaves P r
      → ((a : A) (m : Machine) → P a m → Leaves Q (f a m))
      → Leaves Q (after r f)
  after-Leaves P Q (returns a m) f p q = q a m p
  after-Leaves P Q (exits status m) f p q = p
  after-Leaves P Q overflows f p q = p
  after-Leaves P Q (killed m) f p q = p

  -- With only the new server's descriptor open besides those of before.
  abbrev Bound : ℕ → Machine → Type 0
  Bound server_fd m =
      ((fd : ℕ) → m.fds fd ≡ set_open old.fds server_fd true fd)
      × (old.fds server_fd ≡ false)
      × ((shmid : ℕ) → m.segments shmid ≡ true → old.segments shmid ≡ true)

  create_new_server-Leaves : Leaves Bound (create_new_server os old)
  unfolding create_new_server
  create_new_server-Leaves = elim (Option-cases os.socket) [
    | inl e ↦ rw (e, Leaves) (refl, ((λ fd h apart. refl), (λ shmid h. h)))
    | inr (c, e) ↦
        let fresh = ok.socket_closed c e in
        let closed : ReleasedBut (spared os setup) old
            (close (some c) (record old { fds = set_open old.fds c true })) =
          ((λ fd h apart. closed-same c fresh fd), (λ shmid h. h)) in
        elim (Bool-cases os.gethostname) [
          | inr a ↦ rw (e, a, Leaves) (refl, closed)
          | inl a ↦ elim (Bool-cases os.gethostbyname) [
            | inr b ↦ rw (e, a, b, Leaves) (refl, closed)
            | inl b ↦ elim (Bool-cases os.bind) [
              | inr d ↦ rw (e, a, b, d, Leaves) (refl, closed)
              | inl d ↦ elim (Bool-cases os.listen) [
                | inr g ↦ rw (e, a, b, d, g, Leaves) (refl, closed)
                | inl g ↦ rw (e, a, b, d, g, Leaves) ((λ fd. refl), fresh, (λ shmid h. h))
              ]
            ]
          ]
        ]
  ]
    where
      closed-same :
          (c : ℕ)
          → old.fds c ≡ false
          → (fd : ℕ) → set_open (set_open old.fds c true) c false fd ≡ old.fds fd
      closed-same c fresh fd = elim (Bool-cases (c == fd)) [
        | inl z ↦ rw z (sym (subst (λ k. old.fds k ≡ false) ((==_iff c fd).0 z) fresh))
        | inr z ↦ rw z refl
      ]

  pub start_communication-Leaves :
      Leaves
        (λ (server : ServerInfo) m. (server.client_fd ≡ some 0) × Owns server m)
        (start_communication os no_info old)
  unfolding start_communication shared_memo_creation
  start_communication-Leaves =
      after-Leaves Bound (λ (server : ServerInfo) m. (server.client_fd ≡ some 0) × Owns server m)
        (create_new_server os old) _ create_new_server-Leaves
        (λ c m b. elim (Option-cases os.shmget) [
          | inl e ↦
              rw e
                (refl, ((λ fd h. shut c m b fd (set_open m.fds c false fd) (ground arith) h), b.2))
          | inr (shmid, e) ↦ rw e (
            refl,
            (
              (λ fd h. shut c m b fd (m.fds fd) (λ z. refl) h),
              (λ j h. b.2 j (let g = h in ground arith)),
            ),
          )
        ])
    where
      shut :
          (c : ℕ) (m : Machine)
          → Bound c m
          → (fd : ℕ) (x : Bool) → ((c == fd) ≡ false → x ≡ m.fds fd)
          → fd ≢ 0
          → (if 0 == fd then false else (if c == fd then false else x)) ≡ old.fds fd
      shut c m b fd x same ne =
          let z : (0 == fd) ≡ false = ground (arith, ne) in
          elim (Bool-cases (c == fd)) [
            | inl e ↦ rw (z, e) (sym (subst (λ k. old.fds k ≡ false) ((==_iff c fd).0 e) b.1))
            | inr e ↦ rw (z, e) (same e ∙ b.0 fd ∙ rw e refl)
          ]
