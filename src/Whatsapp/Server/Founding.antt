-- ===== src/Whatsapp/Server/Founding.antt =====
-- ex4/whatsappServer.cpp: what `createGroup` answers and stores.
use os.Common.{
  ◌≤◌, ◌<◌, ◌≡◌, refl, true, false, some, List, ltb, if◌then◌else◌, length, is_some, arith, ◌↔◌,
  ◌⊎◌, inl, inr, Bool-cases,
}
use os.Whatsapp.Text.{Bytes, str_eq}
use os.Whatsapp.Names.{occurrences, sort, includes, find, assign, find-assign, occurrences-sort}
use os.Whatsapp.Server.State.{
  Server, is_taken, members, found_group, create_group_as, success_signal, failure_signal,
  name_exists_signal,
}
use os.Whatsapp.Server.Consistent.{Consistent, includes_sound, occurrences-members}

-- What a successful `createGroup` stores: at least two members, namely the named clients and the one
-- that asks, all of them connected; the name was free, and other groups are as before.
pub record Founded (s : Server) (creator name : Bytes) (group : List Bytes) (s' : Server)
    : Type 0 where
  pub free : is_taken s name ≡ false
  pub stored :
      (ns : List Bytes) × (2 ≤ length ns)
      × ((n : Bytes) → (0 < occurrences n ns) ↔ (0 < occurrences n group ⊎ (n ≡ creator)))
      × ((g : Bytes) → find g s'.groups ≡ (if str_eq name g then some ns else find g s.groups))
  pub connected :
      (n : Bytes) → 0 < occurrences n group ⊎ (n ≡ creator) → is_some (find n s.clients) ≡ true
  pub kept : s'.clients ≡ s.clients

-- `createGroup` answers in one of three ways: the name is taken and nothing changes; or it stores the
-- group; or it refuses, and the groups and the clients stay, since there are fewer than two members or
-- not all are listed.
pub create_group_as_lem :
    (s : Server) (creator name : Bytes) (group : List Bytes)
    → Consistent s
    → ((is_taken s name ≡ true) × (create_group_as s creator name group ≡ (s, name_exists_signal)))
      ⊎ ((s' : Server) × (create_group_as s creator name group ≡ (s', success_signal))
          × Founded s creator name group s')
      ⊎ ((s' : Server) × (create_group_as s creator name group ≡ (s', failure_signal))
          × (s'.groups ≡ s.groups)
          × (s'.clients ≡ s.clients)
          × (is_taken s name ≡ false)
          × ((length (members creator group) < 2)
              ⊎ (includes (sort s.clients_list) (members creator group) ≡ false)))
unfolding create_group_as found_group is_taken
create_group_as_lem s creator name group c = elim (Bool-cases (is_taken s name)) [
  | inl taken ↦ inl (taken, rw taken refl)
  | inr free ↦ inr (elim (Bool-cases (ltb (length (members creator group)) 2)) [
    | inl few ↦ inr (s, rw free (rw few refl), refl, refl, free, inl (ground (arith, few)))
    | inr enough ↦ elim (Bool-cases (includes (sort s.clients_list) (members creator group))) [
      | inl inc ↦ inl (
        record s {
          clients_list = sort s.clients_list;
          groups = assign name (members creator group) s.groups;
        },
        rw free (rw enough (rw inc refl)),
        record {
          free = free;
          stored = (
            members creator group,
            ground (arith, enough),
            λ n. occurrences-members n creator group,
            λ g. find-assign name g (members creator group) s.groups,
          );
          connected = λ n k. ground (
            arith,
            c.listed n,
            occurrences-sort n s.clients_list,
            includes_sound n _ _ inc ((occurrences-members n creator group).1 k),
          );
          kept = refl;
        },
      )
      | inr missing ↦ inr (
        record s { clients_list = sort s.clients_list },
        rw free (rw enough (rw missing refl)),
        refl,
        refl,
        free,
        inr missing,
      )
    ]
  ])
]
