-- ===== src/Ipc/Client/Listing.antt =====
-- The servers that `count_servers` of Linux_Multi_Server_Ipc/client.cpp finds.
use operating_systems.Base.{
  ℕ, ◌≡◌, refl, sym, ap, ◌∙◌, Bool-cases, Option-cases, if◌then◌else◌, inl, inr, Bool, true, false,
  none, some, List, [], ◌∷◌, ◌++◌, length, weigh, weigh_one, SameEntries, arith,
}
use mathlib.Core.List.{append_assoc, append-nil}
use operating_systems.Ipc.Client.{
  ServerInfo, Open, Os, returns, exits, is_dots, path_of, socket_connection, server_of,
  read_entries, count_servers,
}

-- The paths of the entries but "." and "..".
abbrev pub listed : List ℕ → List (List ℕ) → List (List ℕ)
listed directory [] = []
listed directory (name ∷ names) =
    let rest = listed directory names in
    if is_dots name then rest else path_of directory name ∷ rest

abbrev pub paths : List ServerInfo → List (List ℕ)
paths [] = []
paths (server ∷ servers) = server.info_file_path ∷ paths servers

paths-weigh :
    (w : List ℕ → ℕ) (servers : List ServerInfo)
    → weigh w (paths servers) ≡ weigh (λ (s : ServerInfo). w s.info_file_path) servers
paths-weigh w [] = refl
paths-weigh w (s ∷ servers) = omega (arith, paths-weigh w servers)

paths-append : (xs ys : List ServerInfo) → paths (xs ++ ys) ≡ paths xs ++ paths ys
paths-append [] ys = refl
paths-append (x ∷ xs) ys = ap (λ r. x.info_file_path ∷ r) (paths-append xs ys)

module _ (os : Os) where
  -- Whether all these files can be opened.
  abbrev pub all_open : List (List ℕ) → Bool
  all_open [] = true
  all_open (path ∷ rest) =
      let others = all_open rest in elim (os.open_file path) [ none ↦ false | some file ↦ others ]

  read_entries-cases :
      (directory : List ℕ) (names : List (List ℕ)) (servers : List ServerInfo) (fds : Open)
      → (all_open (listed directory names) ≡ true
          → (found : List ServerInfo) × (fds' : Open) × (read_entries os directory names servers fds
              ≡ returns found fds')
            × (paths found ≡ paths servers ++ listed directory names))
        × (all_open (listed directory names) ≡ false
            → (fds' : Open) × (read_entries os directory names servers fds ≡ exits 1 fds'))
  unfolding read_entries
  read_entries-cases directory [] servers fds =
      ((λ h. (servers, fds, refl, sym (append-nil (paths servers)))), (λ h. absurd cc))
  read_entries-cases directory (name ∷ names) servers fds = elim (Bool-cases (is_dots name)) [
    | inl e ↦ rw (e, read_entries) (read_entries-cases directory names servers fds)
    | inr e ↦ elim (Option-cases (os.open_file (path_of directory name))) [
      | inl f ↦ rw (e, f, read_entries) ((λ h. absurd cc), (λ h. (fds, refl)))
      | inr (file, f) ↦
          let made = socket_connection os file.ip_add file.port fds in
          let server = server_of os directory name file made.0 in
          let ih = read_entries-cases directory names (servers ++ server ∷ []) made.1 in
          let joined =
            ap (λ r. r ++ listed directory names) (paths-append servers (server ∷ []))
            ∙ append_assoc (paths servers) (path_of directory name ∷ []) (listed directory names) in
          rw (e, f, read_entries)
            ((λ h. let (found, fds', r, p) = ih.0 h in (found, fds', r, p ∙ joined)), ih.1)
    ]
  ]

  -- When the directory can be read, and std::sort keeps its entries: if every info file in it can
  -- be opened, `count_servers` returns a server for each of them, and their number; if one cannot
  -- be opened, it ends the process with status 1.
  pub count_servers-cases :
      ((servers : List ServerInfo) → SameEntries (os.sort servers) servers)
      → (directory : List ℕ) (names : List (List ℕ)) (fds : Open)
      → os.readdir directory ≡ some names
      → (all_open (listed directory names) ≡ true
          → (servers : List ServerInfo) × (fds' : Open) × (count_servers os directory fds
              ≡ returns (servers, length (listed directory names)) fds')
            × SameEntries (paths servers) (listed directory names))
        × (all_open (listed directory names) ≡ false
            → (fds' : Open) × (count_servers os directory fds ≡ exits 1 fds'))
  unfolding count_servers
  count_servers-cases same directory names fds e =
      let (good, bad) = read_entries-cases directory names [] fds in
      (
        (λ h.
            let (found, fds', r, p) = good h in
            let kept : (w : List ℕ → ℕ)
                → weigh w (paths (os.sort found)) ≡ weigh w (listed directory names) =
              λ w.
                paths-weigh w (os.sort found)
                ∙ same found (λ (s : ServerInfo). w s.info_file_path)
                ∙ sym (paths-weigh w found)
                ∙ ap (weigh w) p in
            let number : length (os.sort found) ≡ length (listed directory names) =
              sym (weigh_one (os.sort found))
              ∙ sym (paths-weigh (λ x. 1) (os.sort found))
              ∙ kept (λ x. 1)
              ∙ weigh_one (listed directory names) in
            (os.sort found, fds', rw (e, r, number, count_servers) refl, kept)),
        (λ h. let (fds', r) = bad h in (fds', rw (e, r, count_servers) refl)),
      )
