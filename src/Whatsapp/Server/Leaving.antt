-- ===== src/Whatsapp/Server/Leaving.antt =====
-- ex4/whatsappServer.cpp: what `clientExit` leaves behind.
use os.Common.{
  ℕ, ◌<◌, ◌≡◌, refl, ap, Bool, none, some, List, [], ◌∷◌, if◌then◌else◌, length, arith, inl, inr,
  Bool-cases,
}
use os.Whatsapp.Text.{Bytes, str_eq, codes, c_string, strtok, skip, break_at}
use os.Whatsapp.Names.{occurrences, remove_name, find, find-erase_key}
use os.Whatsapp.Server.State.{
  Server, leave_groups, keep_group, unregister, client_exit, handle_client_request, handle_parsed,
  handle_command,
}
use os.Whatsapp.Command.Parse.{parse_command, parse_words, exit, bare}
use os.Whatsapp.Server.Consistent.{without, find-leave_groups, occurrences-remove_name}

-- Each group keeps somebody when `n` leaves.
abbrev pub AllKeep : Bytes → List (Bytes × List Bytes) → Type 0
AllKeep n [] = Unit {0}
AllKeep n ((g, ns) ∷ m) = (0 < length (remove_name n ns)) × AllKeep n m

keep_group_kept :
    (g : Bytes) (ns : List Bytes) (rest : List (Bytes × List Bytes))
    → 0 < length ns
    → keep_group g ns (some rest) ≡ some ((g, ns) ∷ rest)
unfolding keep_group
keep_group_kept g [] rest h = elim h [ ]
keep_group_kept g (x ∷ xs) rest h = refl

leave_groups_total :
    (n : Bytes) (m : List (Bytes × List Bytes))
    → AllKeep n m
    → (m' : List (Bytes × List Bytes)) × (leave_groups n m ≡ some m')
unfolding leave_groups
leave_groups_total n [] h = ([], refl)
leave_groups_total n ((g, ns) ∷ m) h =
    let (rest, e) = leave_groups_total n m h.1 in
    ((g, remove_name n ns) ∷ rest, rw e (keep_group_kept g (remove_name n ns) rest h.0))

-- When each group keeps somebody, a client's exit succeeds: the name is gone from the clients, from
-- their list and from every group, and all else stays.
pub client_exit_lem :
    (s : Server) (n : Bytes) (fd : ℕ)
    → AllKeep n s.groups
    → (s' : Server) × (client_exit s (n, fd) ≡ some s')
      × ((j : Bytes)
          → (find j s'.clients ≡ (if str_eq n j then none else find j s.clients))
            × (find j s'.groups ≡ without n (find j s.groups))
            × (occurrences j s'.clients_list
                ≡ (if str_eq n j then 0 else occurrences j s.clients_list)))
unfolding client_exit unregister
client_exit_lem s n fd h =
    let (m', e) = leave_groups_total n s.groups h in
    (
      _,
      ap (unregister s (n, fd)) e,
      λ j. (
        find-erase_key n j s.clients,
        find-leave_groups n j s.groups m' e,
        occurrences-remove_name j n s.clients_list,
      ),
    )

keep_group-none : (g : Bytes) (ns : List Bytes) → keep_group g ns none ≡ none
unfolding keep_group
keep_group-none g [] = refl
keep_group-none g (x ∷ xs) = refl

leave_groups-none :
    (n g : Bytes) (ns : List Bytes) (m : List (Bytes × List Bytes))
    → find g m ≡ some ns
    → remove_name n ns ≡ []
    → leave_groups n m ≡ none
unfolding leave_groups find keep_group
leave_groups-none n g ns [] e h = cc
leave_groups-none n g ns ((j, ks) ∷ m) e h = elim (Bool-cases (str_eq j g)) [
  | inl same ↦ let f : ks ≡ ns = ground (arith, e, same) in rw f (rw h refl)
  | inr other ↦
      rw (leave_groups-none n g ns m (ground (arith, e, other)) h)
        (keep_group-none j (remove_name n ks))
]

pub parse_command_exit : parse_command (codes "exit") ≡ bare exit
unfolding parse_command parse_words c_string strtok skip break_at str_eq
parse_command_exit = refl

-- When a client is the last member of a group, its request to exit is undefined behaviour.
pub last_exit_undefined :
    (accepts : ℕ → Bytes → Bool) (s : Server) (n g : Bytes) (fd : ℕ) (ns : List Bytes)
    → find g s.groups ≡ some ns
    → remove_name n ns ≡ []
    → handle_client_request accepts s (n, fd) (some (codes "exit")) ≡ none
unfolding handle_client_request handle_parsed handle_command client_exit unregister
last_exit_undefined accepts s n g fd ns e h =
    rw (parse_command_exit) (rw (leave_groups-none n g ns s.groups e h) refl)
