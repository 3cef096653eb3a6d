-- ===== src/Ipc/Witnesses.antt =====
-- The theorems on Linux_Multi_Server_Ipc/ at concrete answers of the operating system, and tests.
use operating_systems.Base.{
  ℕ, ◌+◌, ◌≤◌, ◌<◌, ◌≡◌, refl, ◌==◌, if◌then◌else◌, true, false, Option, none, some, List, [], ◌∷◌,
  ◌++◌, length, weigh, SameEntries, flat, arith,
}
use operating_systems.Ipc.Globals.{ServerInfo, InfoFile, Open}
use operating_systems.Ipc.Messages.{
  Segment, shared_memory_size, write_message, read_message, c_string, read_pieces,
}
use operating_systems.Ipc.Messages.RoundTrip.{write_message-read_message, read_pieces-flat}
use operating_systems.Ipc.Client.{
  Os, returns, exits, Summary, count_servers, print_server_infos, summarize, categorize,
  get_message_from_shm, get_message_from_socket, shm_messages, socket_messages, run,
}
use operating_systems.Ipc.Client.Sockets.{GivesClosed, Leaves, run-Leaves}
use operating_systems.Ipc.Client.Listing.{listed, paths, all_open, count_servers-cases}
use operating_systems.Ipc.Client.Counting.{
  on_host, in_container, in_vm, socket_only, messages_of, print_server_infos-eq,
}
use operating_systems.Ipc.Server
use operating_systems.Ipc.Server.{
  Setup, ServerOs, Machine, Run, is_ready, is_written, create_info_file, free_resources,
}
use operating_systems.Ipc.Server.Releases.{Behaves}
use operating_systems.Ipc.Server.Releases.Ending.{Ends, run-Ends}

-- Two info files; a server answers with "hi" in the shared memory and "ok" through the socket.
abbrev hi : List ℕ
hi = 104 ∷ 105 ∷ []

abbrev ok : List ℕ
ok = 111 ∷ 107 ∷ []

abbrev hi_segment : Segment
hi_segment i = if i == 0 then 104 else (if i == 1 then 105 else 0)

abbrev an_info : InfoFile
an_info = record { ip_add = 49 ∷ []; port = 80; shm_pathname = 47 ∷ []; shm_proj_id = 1 }

abbrev first_closed : Open → Option ℕ
first_closed fds = if fds 3 then (if fds 4 then none else some 4) else some 3

abbrev names : List (List ℕ)
names = (46 ∷ []) ∷ (46 ∷ 46 ∷ []) ∷ (97 ∷ []) ∷ (98 ∷ []) ∷ []

abbrev answers : Os
answers = record {
  readdir = λ directory. some names;
  open_file = λ path. some an_info;
  socket = first_closed;
  inet_pton = λ ip. true;
  select = λ fd. true;
  connect = λ fd ip port. true;
  shmget = λ path id. some 7;
  shmat = λ shmid. true;
  shmdt = λ shmid. true;
  memory = λ shmid. hi_segment;
  read = λ fd. some (ok ∷ []);
  sort = λ servers. servers;
}

abbrev standard : Open
standard fd = if fd == 0 then true else (if fd == 1 then true else fd == 2)

answers-GivesClosed : GivesClosed answers
answers-GivesClosed fds fd e = ground arith

run-Leaves_example : Leaves answers standard (run answers (100 ∷ []) standard)
run-Leaves_example = run-Leaves answers answers-GivesClosed (λ servers w. refl) (100 ∷ []) standard

count_servers-cases_example :
    (all_open answers (listed (100 ∷ []) names) ≡ true
      → (servers : List ServerInfo) × (fds' : Open) × (count_servers answers (100 ∷ []) standard
          ≡ returns (servers, length (listed (100 ∷ []) names)) fds')
        × SameEntries (paths servers) (listed (100 ∷ []) names))
    × (all_open answers (listed (100 ∷ []) names) ≡ false
        → (fds' : Open) × (count_servers answers (100 ∷ []) standard ≡ exits 1 fds'))
count_servers-cases_example =
    count_servers-cases answers (λ servers w. refl) (100 ∷ []) names standard refl

-- A server with both, and one with a socket only.
abbrev two_servers : List ServerInfo
two_servers =
    record { server_fd = none; client_fd = some 3; shmid = some 7; info_file_path = 97 ∷ [] }
    ∷ record { server_fd = none; client_fd = some 4; shmid = none; info_file_path = 98 ∷ [] }
    ∷ []

print_server_infos-eq_example :
    (t : Summary) × (print_server_infos answers two_servers standard
      ≡ returns (length two_servers, t) standard)
    × (t.total_host ≡ weigh on_host two_servers)
    × (t.total_container ≡ weigh in_container two_servers)
    × (t.total_vm ≡ weigh in_vm two_servers)
    × (t.total_vm + t.total_host + t.total_container + weigh socket_only two_servers
        ≡ length two_servers)
    × (t.messages ≡ flat (messages_of answers (λ fd. ok ∷ [])) two_servers)
print_server_infos-eq_example =
    print_server_infos-eq answers (λ fd. ok ∷ []) (λ shmid. (refl, refl)) (λ fd. refl) two_servers
      standard

-- The server with a socket only is in no category.
one_uncounted :
    print_server_infos answers two_servers standard
    ≡ returns
        (
          2,
          record {
            total_vm = 0;
            total_host = 1;
            total_container = 0;
            messages = hi ∷ ok ∷ ok ∷ [];
          },
        )
        standard
unfolding print_server_infos summarize categorize shm_messages get_message_from_shm socket_messages
    get_message_from_socket read_message read_pieces c_string
one_uncounted = refl

write_message-read_message_example :
    (length hi < shared_memory_size
      → (memory' : Segment) × (write_message hi hi_segment ≡ some memory')
        × (read_message shared_memory_size 0 memory' ≡ c_string hi))
    × (shared_memory_size ≤ length hi → write_message hi hi_segment ≡ none)
write_message-read_message_example = write_message-read_message hi hi_segment

read_pieces-flat_example :
    read_pieces (hi ∷ ok ∷ []) [] ≡ [] ++ flat (λ buffer. buffer) (hi ∷ ok ∷ [])
read_pieces-flat_example =
    read_pieces-flat (hi ∷ ok ∷ []) []
      (((λ e. absurd cc), ((λ e. absurd cc), tt)), (((λ e. absurd cc), ((λ e. absurd cc), tt)), tt))

abbrev server_answers : ServerOs
server_answers = record {
  socket = some 3;
  gethostname = true;
  gethostbyname = true;
  bind = true;
  listen = true;
  shmget = some 7;
  shmat = λ shmid. true;
  shmctl = λ shmid. true;
  open_out = λ path. some 5;
  own_name = true;
  own_address = some (49 ∷ []);
  select = is_ready;
  accept = some 4;
  write = is_written;
  remove = λ path. true;
}

abbrev machine : Machine
machine = record {
  fds = standard;
  segments = λ shmid. false;
  memory = λ shmid i. 0;
  files = λ path. none;
  sent = [];
}

abbrev setup : Setup
setup = record {
  port = 80;
  shm_pathname = 47 ∷ [];
  shm_proj_id = 1;
  info_file_name = 97 ∷ [];
  info_file_directory = 100 ∷ [];
}

server_answers-Behaves : Behaves server_answers machine
server_answers-Behaves = record {
  socket_closed = λ fd e. ground arith;
  file_closed = λ path fd e. ground arith;
  accept_closed = λ fd e. ground arith;
  removes = λ shmid. refl;
}

-- When the info file cannot be made, the descriptor 0 is closed, which the server has not opened.
input_closed :
    create_info_file
      (record server_answers { open_out = λ path. none })
      setup
      (record { server_fd = some 3; client_fd = some 0; shmid = some 7; info_file_path = [] })
      machine
    ≡ Run.exits 1 (
        free_resources server_answers
          (record { server_fd = some 3; client_fd = some 0; shmid = some 7; info_file_path = [] })
          machine)
unfolding create_info_file free_resources
input_closed = refl

standard_input_closed :
    (free_resources server_answers
        (record { server_fd = some 3; client_fd = some 0; shmid = some 7; info_file_path = [] })
        machine).fds
      0
    ≡ false
unfolding free_resources
standard_input_closed = refl

run-Ends_example : Ends server_answers machine setup (Server.run server_answers setup hi ok machine)
run-Ends_example = run-Ends server_answers machine server_answers-Behaves setup hi ok (omega arith)
