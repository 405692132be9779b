-- ===== src/Whatsapp/Server/Delivery.antt =====
-- ex4/whatsappServer.cpp: what `send` and `who` send when no message fails.

use mathlib.Core.List.{append_assoc}
use os.Common.{
  ℕ, suc, ◌<◌, ◌≡◌, refl, sym, ap, ◌∙◌, Bool, true, false, Option, none, some, List, [], ◌∷◌, ◌++◌,
  length, is_some, arith, inl, inr, Option-cases,
}
use os.Whatsapp.Text.{Bytes, str_eq_iff, codes}
use os.Whatsapp.Command.Parse.{comma}
use os.Whatsapp.Command.Created.{join}
use os.Whatsapp.Framing.Wire.{arriving}
use os.Whatsapp.Framing.Fits.{Framed, overflows-Framed, arriving-Framed}
use os.Whatsapp.Names.{
  str_lt, occurrences, contains, sort, insert_sorted, remove_name, find, occurrences-sort,
}
use os.Whatsapp.Server.State.{
  Server, Sent, lookup, send_members, deliver, server_send, send_found, server_who, send_who,
  pop_back, who_list, transmit, conclude, success_signal, send_que,
}
use os.Whatsapp.Server.Consistent.{Consistent}

-- No message fails.
abbrev pub all_accepted : ℕ → Bytes → Bool
all_accepted fd m = true

-- The notice and the text for each of the names that has a descriptor, in order.
abbrev pub to_one : Option ℕ → Bytes → Sent
to_one none m = []
to_one (some fd) m = (fd, send_que) ∷ (fd, m) ∷ []

abbrev pub to_all : List (Bytes × ℕ) → Bytes → List Bytes → Sent
to_all clients m [] = []
to_all clients m (n ∷ ns) = to_one (find n clients) m ++ to_all clients m ns

pub send_members_all :
    (s : Server) (sender m : Bytes) (ns : List Bytes)
    → ((n : Bytes) → 0 < occurrences n ns → is_some (find n s.clients) ≡ true)
    → send_members all_accepted s sender m ns
      ≡ (s, (true, to_all s.clients m (remove_name sender ns)))
unfolding send_members occurrences deliver lookup transmit remove_name
send_members_all s sender m [] h = refl
send_members_all s sender m (n ∷ ns) h =
    let ih = send_members_all s sender m ns (λ j k. h j (omega (arith, k))) in
    let known = h n (ground (arith, str_eq_iff n n)) in
    elim (Option-cases (find n s.clients)) [
      | inl e ↦ ground (arith, known, e)
      | inr (fd, e) ↦ ground (arith, e, ih)
    ]

-- A message to a group by one of its members reaches every other member, after the notice and with
-- the sender's name in front, and nobody else; the sender is told of the success, and the tables stay
-- as they were.
pub send_group_reaches :
    (s : Server) (sender to m : Bytes) (fd : ℕ) (ns : List Bytes)
    → Consistent s
    → find to s.groups ≡ some ns
    → contains ns sender ≡ true
    → server_send all_accepted s (sender, fd) to m ≡ (
      s,
      to_all s.clients (arriving (sender ++ codes ": " ++ m)) (remove_name sender ns)
          ++ (fd, success_signal) ∷ [],
    )
unfolding server_send send_found transmit
send_group_reaches s sender to m fd ns c e member = rw (c.apart to (ap is_some e)) (
    rw e (
      rw member (
        ap (conclude all_accepted fd) (
          send_members_all s sender (arriving (sender ++ codes ": " ++ m)) ns
            (λ n k. c.connected to n ns e k)))))

pop_back-append : (s : Bytes) (x : ℕ) → pop_back (s ++ x ∷ []) ≡ some s
unfolding pop_back
pop_back-append [] x = refl
pop_back-append (y ∷ []) x = refl
pop_back-append (y ∷ z ∷ s) x = rw (pop_back-append (z ∷ s) x) refl

who_list-join : (n : Bytes) (ns : List Bytes) → who_list (n ∷ ns) ≡ join (n ∷ ns) ++ comma ∷ []
unfolding who_list
who_list-join n [] = refl
who_list-join n (k ∷ ns) =
    ap (λ s. n ++ comma ∷ s) (who_list-join k ns)
    ∙ sym (append_assoc n (comma ∷ join (k ∷ ns)) (comma ∷ []))

pop_back-who_list : (ns : List Bytes) → 0 < length ns → pop_back (who_list ns) ≡ some (join ns)
pop_back-who_list [] h = elim h [ ]
pop_back-who_list (n ∷ ns) h =
    ap pop_back (who_list-join n ns) ∙ pop_back-append (join (n ∷ ns)) comma

-- No name is less than the name before it.
abbrev pub Ascending : List Bytes → Type 0
Ascending [] = Unit {0}
Ascending (x ∷ []) = Unit {0}
Ascending (x ∷ y ∷ xs) = (str_lt y x ≡ false) × Ascending (y ∷ xs)

str_lt_asym : (x y : Bytes) → str_lt x y ≡ true → str_lt y x ≡ false
unfolding str_lt
str_lt_asym [] [] h = refl
str_lt_asym [] (y ∷ ys) h = refl
str_lt_asym (x ∷ xs) [] h = cc
str_lt_asym (x ∷ xs) (y ∷ ys) h = ground (arith, str_lt_asym xs ys)

insert_sorted-Ascending :
    (a : Bytes) (xs : List Bytes) → Ascending xs → Ascending (insert_sorted a xs)
unfolding insert_sorted
insert_sorted-Ascending a [] h = record {}
insert_sorted-Ascending a (x ∷ []) h = ground (arith, str_lt_asym x a)
insert_sorted-Ascending a (x ∷ y ∷ xs) h =
    ground
      (arith, str_lt_asym x a, str_lt_asym y a, insert_sorted-Ascending a (y ∷ xs) h.1, h.0, h.1)

sort-Ascending : (xs : List Bytes) → Ascending (sort xs)
unfolding sort
sort-Ascending [] = record {}
sort-Ascending (x ∷ xs) = insert_sorted-Ascending x (sort xs) (sort-Ascending xs)

length-insert_sorted : (a : Bytes) (xs : List Bytes) → length (insert_sorted a xs) ≡ suc (length xs)
unfolding insert_sorted
length-insert_sorted a [] = refl
length-insert_sorted a (x ∷ xs) = ground (arith, length-insert_sorted a xs)

-- With anybody connected, and room in a frame for all names, `who` answers with the names of all clients, in order and with commas
-- between them, each as often as it is listed.
pub server_who_lem :
    (s : Server) (n : Bytes) (fd : ℕ)
    → 0 < length s.clients_list
    → Framed (join (sort s.clients_list))
    → (ns : List Bytes) × (server_who all_accepted s (n, fd)
        ≡ some (record s { clients_list = ns }, (fd, join ns) ∷ []))
      × Ascending ns
      × ((k : Bytes) → occurrences k ns ≡ occurrences k s.clients_list)
unfolding server_who send_who transmit
server_who_lem s n fd h room = (
  sort s.clients_list,
  rw (pop_back-who_list (sort s.clients_list) (sort_pos s.clients_list h))
      (rw (overflows-Framed _ room) (rw (arriving-Framed _ room) refl)),
  sort-Ascending s.clients_list,
  λ k. occurrences-sort k s.clients_list,
)
  where
    sort_pos : (xs : List Bytes) → 0 < length xs → 0 < length (sort xs)
    sort_pos [] h = elim h [ ]
    sort_pos (x ∷ xs) h = unfold sort in omega (arith, length-insert_sorted x (sort xs))
