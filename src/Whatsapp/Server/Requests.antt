-- ===== src/Whatsapp/Server/Requests.antt =====
-- ex4/whatsappServer.cpp: every request keeps the server's tables consistent.
use mathlib.Core.Path.{subst}
use os.Common.{
  ℕ, ◌<◌, ◌≡◌, refl, sym, ap, ◌∙◌, Bool, true, false, Option, none, some, List, [], ◌∷◌, ◌++◌,
  if◌then◌else◌, is_some, arith, inl, inr, Option-cases,
}
use os.Whatsapp.Text.{Bytes, str_eq, str_eq_iff, codes}
use os.Whatsapp.Command.Parse.{
  CommandType, create_group, send, who, exit, invalid, Command, Parsed, parsed, throws, undefined,
  parse_command,
}
use os.Whatsapp.Framing.Wire.{arriving}
use os.Whatsapp.Names.{occurrences, contains, find}
use os.Whatsapp.Server.State.{
  Server, Client, Sent, is_taken, lookup, leave_groups, send_members, deliver, server_create_group,
  server_send, send_found, server_who, send_who, unregister, client_exit, connect_new_client,
  handle_command, unless, send_overflows, handle_parsed, handle_client_request, with_nothing,
}
use os.Whatsapp.Server.Consistent.{Consistent}
use os.Whatsapp.Server.Changes.{
  sorted-Consistent, watching-Consistent, branches-Consistent, create_group_as-Consistent,
  connect-Consistent, exit-Consistent,
}

lookup_known : (s : Server) (n : Bytes) → is_some (find n s.clients) ≡ true → (lookup s n).0 ≡ s
unfolding lookup
lookup_known s n h = elim (Option-cases (find n s.clients)) [
  | inl e ↦ ground (arith, h, e)
  | inr (fd, e) ↦ rw (e, lookup) refl
]

branches_same :
    {A : Type 0} (b : Bool) (s : Server) (x y : Server × A)
    → x.0 ≡ s
    → y.0 ≡ s
    → (if b then x else y).0 ≡ s
branches_same true s x y h k = h
branches_same false s x y h k = k

occurs_first : (n : Bytes) (ns : List Bytes) → 0 < occurrences n (n ∷ ns)
unfolding occurrences
occurs_first n ns = ground (arith, str_eq_iff n n)

-- With an entry for each member, the look-ups in the loop of `send` add none.
send_members_same :
    (accepts : ℕ → Bytes → Bool) (s : Server) (sender m : Bytes) (ns : List Bytes)
    → ((n : Bytes) → 0 < occurrences n ns → is_some (find n s.clients) ≡ true)
    → (send_members accepts s sender m ns).0 ≡ s
unfolding send_members occurrences
send_members_same accepts s sender m [] h = refl
send_members_same accepts s sender m (n ∷ ns) h =
    let ih = send_members_same accepts s sender m ns (λ j k. h j (omega (arith, k))) in
    let same = lookup_known s n (h n (occurs_first n ns)) in
    branches_same (str_eq n sender) s _ _ ih (
      branches_same (deliver accepts (lookup s n).1 m).0 s _ _
        (ap (λ t. (send_members accepts t sender m ns).0) same ∙ ih) same)

server_send_same :
    (accepts : ℕ → Bytes → Bool) (s : Server) (c : Client) (to m : Bytes)
    → Consistent s
    → (server_send accepts s c to m).0 ≡ s
unfolding server_send send_found
server_send_same accepts s (n, fd) to m h = elim (Option-cases (find to s.clients)) [
  | inr (t, e) ↦ rw e refl
  | inl e ↦ elim (Option-cases (find to s.groups)) [
    | inl f ↦ rw e (rw f refl)
    | inr (ns, f) ↦ rw e (
        rw f (
          branches_same (contains ns n) s _ _
            (send_members_same accepts s n (arriving (n ++ codes ": " ++ m)) ns
              (λ j k. h.connected to j ns f k))
            refl))
  ]
]

result-Consistent :
    (x : Server × Sent) (s' : Server) (out : Sent)
    → some x ≡ some (s', out)
    → Consistent x.0
    → Consistent s'
result-Consistent x s' out e h = let f : x ≡ (s', out) = cc in subst (λ y. Consistent y.0) f h

unless-Consistent :
    (b : Bool) (x : Server × Sent) (s' : Server) (out : Sent)
    → unless b x ≡ some (s', out)
    → Consistent x.0
    → Consistent s'
unless-Consistent true x s' out e h = cc
unless-Consistent false x s' out e h = result-Consistent x s' out e h

who-Consistent :
    (accepts : ℕ → Bytes → Bool) (s s' : Server) (fd : ℕ) (o : Option Bytes) (out : Sent)
    → Consistent s
    → send_who accepts s fd o ≡ some (s', out)
    → Consistent s'
unfolding send_who
who-Consistent accepts s s' fd none out h e = cc
who-Consistent accepts s s' fd (some text) out h e =
    result-Consistent _ s' out e (sorted-Consistent s h)

unregister-Consistent :
    (s s' : Server) (c : Client) (o : Option (List (Bytes × List Bytes))) (out : Sent)
    → Consistent s
    → leave_groups c.0 s.groups ≡ o
    → with_nothing (unregister s c o) ≡ some (s', out)
    → Consistent s'
unfolding unregister
unregister-Consistent s s' c none out h f e = cc
unregister-Consistent s s' (n, fd) (some groups) out h f e =
    result-Consistent _ s' out e (exit-Consistent s n _ groups h f)

handle_command-Consistent :
    (accepts : ℕ → Bytes → Bool) (s s' : Server) (c : Client) (t : CommandType) (d : Command)
    (out : Sent)
    → Consistent s
    → handle_command accepts s c t d ≡ some (s', out)
    → Consistent s'
unfolding handle_command server_create_group server_who client_exit
handle_command-Consistent accepts s s' (n, fd) create_group d out h e =
    result-Consistent _ s' out e (create_group_as-Consistent s n d.name d.clients h)
handle_command-Consistent accepts s s' (n, fd) send d out h e =
    unless-Consistent (send_overflows accepts s n d.name d.message) _ s' out e
      (subst Consistent (sym (server_send_same accepts s (n, fd) d.name d.message h)) h)
handle_command-Consistent accepts s s' (n, fd) who d out h e =
    who-Consistent accepts s s' fd _ out h e
handle_command-Consistent accepts s s' (n, fd) exit d out h e =
    unregister-Consistent s s' (n, fd) _ out h refl e
handle_command-Consistent accepts s s' c invalid d out h e = result-Consistent _ s' out e h

parsed-Consistent :
    (accepts : ℕ → Bytes → Bool) (s s' : Server) (c : Client) (p : Parsed) (out : Sent)
    → Consistent s
    → handle_parsed accepts s c p ≡ some (s', out)
    → Consistent s'
unfolding handle_parsed
parsed-Consistent accepts s s' c (parsed d) out h e =
    handle_command-Consistent accepts s s' c d.kind d out h e
parsed-Consistent accepts s s' c throws out h e = cc
parsed-Consistent accepts s s' c undefined out h e = cc

request-Consistent :
    (accepts : ℕ → Bytes → Bool) (s s' : Server) (c : Client) (line : Option Bytes) (out : Sent)
    → Consistent s
    → handle_client_request accepts s c line ≡ some (s', out)
    → Consistent s'
unfolding handle_client_request
request-Consistent accepts s s' (n, fd) none out h e = result-Consistent _ s' out e h
request-Consistent accepts s s' c (some line) out h e =
    parsed-Consistent accepts s s' c (parse_command line) out h e

new_client-Consistent :
    (accepts : ℕ → Bytes → Bool) (s : Server) (fd : ℕ) (name : Option Bytes)
    → Consistent s
    → Consistent (connect_new_client accepts s fd name).0
unfolding connect_new_client
new_client-Consistent accepts s fd none h = watching-Consistent s fd h
new_client-Consistent accepts s fd (some n) h =
    branches-Consistent (is_taken s n) _ _ (λ e. watching-Consistent s fd h)
      (λ free. connect-Consistent s n fd h free)

-- Whatever `read_data` reads from a client or from a new connection, and whichever messages fail,
-- consistent tables stay consistent, unless the request's behaviour is undefined: each connected client
-- is listed once, all members of groups are connected, and no group has a client's name.
pub requests-Consistent :
    (accepts : ℕ → Bytes → Bool) (s : Server)
    → Consistent s
    → ((c : Client) (line : Option Bytes) (s' : Server) (out : Sent)
        → handle_client_request accepts s c line ≡ some (s', out)
        → Consistent s')
      × ((fd : ℕ) (name : Option Bytes) → Consistent (connect_new_client accepts s fd name).0)
requests-Consistent accepts s h = (
  λ c line s' out e. request-Consistent accepts s s' c line out h e,
  λ fd name. new_client-Consistent accepts s fd name h,
)
