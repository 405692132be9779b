-- ===== src/Whatsapp/Server/Consistent.antt =====
-- ex4/whatsappServer.cpp: what holds of the server's tables between requests, and the lemmas on the
-- tables and on the groups that requests need.
use os.Common.{
  ◌+◌, ◌<◌, ◌≡◌, refl, ap, ◌∙◌, true, false, Option, none, some, List, [], ◌∷◌, ◌++◌, if◌then◌else◌,
  is_some, arith, ◌↔◌, ◌⊎◌,
}
use os.Whatsapp.Text.{Bytes, str_eq, str_eq_iff}
use os.Whatsapp.Names.{
  str_lt, occurrences, sort, unique, unique_from, includes, remove_name, find, occurrences-sort,
}
use os.Whatsapp.Server.State.{Server, members, keep_group, leave_groups}

pub record Consistent (s : Server) : Type 0 where
  -- The list of clients has each connected client once, and nobody else.
  pub listed :
      (n : Bytes) → occurrences n s.clients_list ≡ (if is_some (find n s.clients) then 1 else 0)
  -- The members of a group are connected.
  pub connected :
      (g n : Bytes) (ns : List Bytes)
      → find g s.groups ≡ some ns
      → 0 < occurrences n ns
      → is_some (find n s.clients) ≡ true
  -- No group has the name of a client.
  pub apart : (n : Bytes) → is_some (find n s.groups) ≡ true → find n s.clients ≡ none

pub str_lt_connected : (x y : Bytes) → str_lt x y ≡ false → str_lt y x ≡ false → x ≡ y
unfolding str_lt
str_lt_connected [] [] h k = refl
str_lt_connected [] (y ∷ ys) h k = cc
str_lt_connected (x ∷ xs) [] h k = cc
str_lt_connected (x ∷ xs) (y ∷ ys) h k = ground (arith, str_lt_connected xs ys)

-- `std::includes` says yes only if every name of the second range is in the first.
pub includes_sound :
    (n : Bytes) (xs ys : List Bytes)
    → includes xs ys ≡ true
    → 0 < occurrences n ys
    → 0 < occurrences n xs
unfolding includes occurrences
includes_sound n xs [] h k = elim k [ ]
includes_sound n [] (y ∷ ys) h k = cc
includes_sound n (x ∷ xs) (y ∷ ys) h k = ground (
  arith,
  str_lt_connected x y,
  includes_sound n xs (y ∷ ys),
  includes_sound n xs ys,
  str_eq_iff n x,
  str_eq_iff n y,
)

pub occurrences-append :
    (n : Bytes) (xs ys : List Bytes)
    → occurrences n (xs ++ ys) ≡ occurrences n xs + occurrences n ys
unfolding occurrences
occurrences-append n [] ys = omega arith
occurrences-append n (x ∷ xs) ys = omega (arith, occurrences-append n xs ys)

pub occurrences-remove_name :
    (n a : Bytes) (xs : List Bytes)
    → occurrences n (remove_name a xs) ≡ (if str_eq a n then 0 else occurrences n xs)
unfolding occurrences remove_name
occurrences-remove_name n a [] = ground arith
occurrences-remove_name n a (x ∷ xs) =
    ground (arith, str_eq_iff a n, str_eq_iff x a, str_eq_iff n x, occurrences-remove_name n a xs)

-- What becomes of a group that `n` leaves.
abbrev pub without : Bytes → Option (List Bytes) → Option (List Bytes)
without n none = none
without n (some ns) = some (remove_name n ns)

keep_group-some :
    (g : Bytes) (ns : List Bytes) (r : Option (List (Bytes × List Bytes)))
    (m' : List (Bytes × List Bytes))
    → keep_group g ns r ≡ some m'
    → (rest : List (Bytes × List Bytes)) × (r ≡ some rest) × (m' ≡ (g, ns) ∷ rest)
unfolding keep_group
keep_group-some g [] r m' e = cc
keep_group-some g (x ∷ xs) none m' e = cc
keep_group-some g (x ∷ xs) (some rest) m' e = (rest, refl, cc)

pub find-leave_groups :
    (n g : Bytes) (m m' : List (Bytes × List Bytes))
    → leave_groups n m ≡ some m'
    → find g m' ≡ without n (find g m)
unfolding leave_groups find
find-leave_groups n g [] m' e = ground arith
find-leave_groups n g ((j, ns) ∷ m) m' e =
    let (rest, er, em) = keep_group-some j (remove_name n ns) (leave_groups n m) m' e in
    let ih = find-leave_groups n g m rest er in ap (find g) em ∙ ground (arith, ih)

-- Merging equal neighbours keeps which names occur.
pub occurrences-unique_from :
    (n a : Bytes) (xs : List Bytes)
    → (0 < occurrences n (unique_from a xs)) ↔ (0 < occurrences n (a ∷ xs))
unfolding occurrences unique_from
occurrences-unique_from n a [] = (λ h. h, λ h. h)
occurrences-unique_from n a (x ∷ xs) = ground (
  arith,
  str_eq_iff a x,
  str_eq_iff n a,
  str_eq_iff n x,
  occurrences-unique_from n a xs,
  occurrences-unique_from n x xs,
)

occurrences-unique :
    (n : Bytes) (xs : List Bytes) → (0 < occurrences n (unique xs)) ↔ (0 < occurrences n xs)
unfolding unique
occurrences-unique n [] = (λ h. h, λ h. h)
occurrences-unique n (x ∷ xs) = occurrences-unique_from n x xs

-- The members of a new group are the named ones and the client that asks.
pub occurrences-members :
    (n creator : Bytes) (group : List Bytes)
    → (0 < occurrences n (members creator group)) ↔ (0 < occurrences n group ⊎ (n ≡ creator))
unfolding members occurrences
occurrences-members n creator group = ground (
  arith,
  occurrences-unique n (sort (group ++ creator ∷ [])),
  occurrences-sort n (group ++ creator ∷ []),
  occurrences-append n group (creator ∷ []),
  str_eq_iff n creator,
)
