-- ===== src/Whatsapp/Server/Chat.antt =====
-- A chat server with three clients and a group, for the tests.
use os.Common.{[], ◌∷◌, arith}
use os.Whatsapp.Text.{Bytes, str_eq_iff, codes}
use os.Whatsapp.Names.{occurrences, find}
use os.Whatsapp.Server.State.{Server}
use os.Whatsapp.Server.Consistent.{Consistent}

abbrev pub dana : Bytes
dana = codes "dana"

abbrev pub ron : Bytes
ron = codes "ron"

abbrev pub tal : Bytes
tal = codes "tal"

abbrev pub team : Bytes
team = codes "team"

-- Three clients, and a group of two of them.
abbrev pub chat : Server
chat = record {
  clients = (dana, 4) ∷ (ron, 5) ∷ (tal, 6) ∷ [];
  groups = (team, dana ∷ ron ∷ []) ∷ [];
  clients_list = ron ∷ dana ∷ tal ∷ [];
  watched = 6 ∷ 5 ∷ 4 ∷ 3 ∷ 0 ∷ [];
}

pub chat-Consistent : Consistent chat
unfolding occurrences find
chat-Consistent = record {
  listed = λ n. ground (
    arith,
    str_eq_iff dana n,
    str_eq_iff n dana,
    str_eq_iff ron n,
    str_eq_iff n ron,
    str_eq_iff tal n,
    str_eq_iff n tal,
  );
  connected = λ g n ns e k. ground (
    arith,
    e,
    k,
    str_eq_iff team g,
    str_eq_iff dana n,
    str_eq_iff n dana,
    str_eq_iff ron n,
    str_eq_iff n ron,
  );
  apart = λ n h.
      ground (arith, h, str_eq_iff team n, str_eq_iff dana n, str_eq_iff ron n, str_eq_iff tal n);
}
