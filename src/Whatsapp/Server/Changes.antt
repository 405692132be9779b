-- ===== src/Whatsapp/Server/Changes.antt =====
-- ex4/whatsappServer.cpp: each change of the server's tables keeps them consistent.

use os.Common.{
  ℕ, ◌≡◌, refl, ◌∙◌, Bool, true, false, some, List, [], ◌∷◌, ◌++◌, ltb, if◌then◌else◌, length,
  arith, inl, inr, Option-cases,
}
use os.Whatsapp.Text.{Bytes, str_eq_iff}
use os.Whatsapp.Names.{
  occurrences, sort, includes, remove_name, find, assign, erase_key, find-assign, find-erase_key,
  occurrences-sort,
}
use os.Whatsapp.Server.State.{Server, is_taken, members, leave_groups, found_group, create_group_as}
use os.Whatsapp.Server.Consistent.{
  Consistent, includes_sound, occurrences-append, occurrences-remove_name, find-leave_groups,
}

pub sorted-Consistent :
    (s : Server) → Consistent s → Consistent (record s { clients_list = sort s.clients_list })
sorted-Consistent s c = record {
  listed = λ n. occurrences-sort n s.clients_list ∙ c.listed n;
  connected = c.connected;
  apart = c.apart;
}

pub watching-Consistent :
    (s : Server) (fd : ℕ) → Consistent s → Consistent (record s { watched = fd ∷ s.watched })
watching-Consistent s fd c = record { listed = c.listed; connected = c.connected; apart = c.apart }

-- A new group whose members are all in the list of clients, and whose name nobody has.
pub group-Consistent :
    (s : Server) (name : Bytes) (ns : List Bytes)
    → Consistent s
    → is_taken s name ≡ false
    → includes s.clients_list ns ≡ true
    → Consistent (record s { groups = assign name ns s.groups })
unfolding is_taken
group-Consistent s name ns c free inc = record {
  listed = c.listed;
  connected = λ g n ms e k. ground (
    arith,
    find-assign name g ns s.groups,
    c.connected g n ms,
    includes_sound n s.clients_list ns inc,
    c.listed n,
  );
  apart = λ n h. ground (arith, find-assign name n ns s.groups, c.apart n, str_eq_iff name n);
}

-- Both ends of a test.
pub branches-Consistent :
    {A : Type 0} (b : Bool) (x y : Server × A)
    → (b ≡ true → Consistent x.0)
    → (b ≡ false → Consistent y.0)
    → Consistent (if b then x else y).0
branches-Consistent true x y h k = h refl
branches-Consistent false x y h k = k refl

pub create_group_as-Consistent :
    (s : Server) (creator name : Bytes) (group : List Bytes)
    → Consistent s
    → Consistent (create_group_as s creator name group).0
unfolding create_group_as found_group is_taken
create_group_as-Consistent s creator name group c =
    let ordered = sorted-Consistent s c in
    branches-Consistent (is_taken s name) _ _ (λ e. c)
      (λ free.
        branches-Consistent (ltb (length (members creator group)) 2) _ _ (λ e. c)
          (λ e.
            branches-Consistent (includes (sort s.clients_list) (members creator group)) _ _
              (λ inc. group-Consistent _ name (members creator group) ordered free inc)
              (λ e. ordered)))

pub connect-Consistent :
    (s : Server) (n : Bytes) (fd : ℕ)
    → Consistent s
    → is_taken s n ≡ false
    → Consistent (record s {
      watched = fd ∷ s.watched;
      clients = assign n fd s.clients;
      clients_list = s.clients_list ++ n ∷ [];
    })
unfolding is_taken occurrences
connect-Consistent s n fd c free = record {
  listed = λ j. ground (
    arith,
    occurrences-append j s.clients_list (n ∷ []),
    find-assign n j fd s.clients,
    c.listed j,
    str_eq_iff n j,
    str_eq_iff j n,
  );
  connected = λ g j ms e k. ground (arith, find-assign n j fd s.clients, c.connected g j ms e k);
  apart = λ j h. ground (arith, find-assign n j fd s.clients, c.apart j h, str_eq_iff n j);
}

pub exit-Consistent :
    (s : Server) (n : Bytes) (watched : List ℕ) (groups : List (Bytes × List Bytes))
    → Consistent s
    → leave_groups n s.groups ≡ some groups
    → Consistent (record {
      clients = erase_key n s.clients;
      groups = groups;
      clients_list = remove_name n s.clients_list;
      watched = watched;
    })
exit-Consistent s n watched groups c e = record {
  listed = λ j.
      ground (
        arith,
        occurrences-remove_name j n s.clients_list,
        find-erase_key n j s.clients,
        c.listed j,
      );
  connected = λ g j ms f k. elim (Option-cases (find g s.groups)) [
    | inl a ↦ ground (arith, find-leave_groups n g s.groups groups e, f, a)
    | inr (ns, a) ↦ ground (
      arith,
      find-leave_groups n g s.groups groups e,
      f,
      a,
      occurrences-remove_name j n ns,
      find-erase_key n j s.clients,
      c.connected g j ns a,
    )
  ];
  apart = λ j h.
      ground
        (arith, find-leave_groups n j s.groups groups e, find-erase_key n j s.clients, c.apart j);
}
