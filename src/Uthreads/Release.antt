-- ===== src/Uthreads/Release.antt =====
-- ex2/uthreads.cpp, `uthread_terminate`: the loop over `sync_dependencies`.
use os.Common.{
  ℕ, ◌+◌, ◌≤◌, ◌<◌, ◌≡◌, refl, Bool, false, ◌&&◌, not, Option, none, some, List, [], ◌∷◌, ltb,
  if◌then◌else◌, is_some, count, count-snoc, arith, inl, inr, ◌∙◌, Option-cases,
}
use os.Uthreads.Ids.{max_thread_num}
use os.Uthreads.Machine.{Thread, State}
use os.Uthreads.Calls.{release_one, release_all}
use os.Uthreads.Blocking.{with_thread_lem}

abbrev pub clear_sync : Option Thread → Option Thread
clear_sync none = none
clear_sync (some th) = some (record th { sync_blocked = false })

abbrev pub is_blocked : Option Thread → Bool
is_blocked none = false
is_blocked (some th) = th.blocked_directly

abbrev pub occurs : ℕ → List ℕ → Bool
occurs i l = ltb 0 (count i l)

-- Each member of `l` is released, and queued unless it is also blocked directly.
pub record Released (l : List ℕ) (s t : State) : Type 0 where
  pub freed : (i : ℕ) → t.threads i ≡ (if occurs i l then clear_sync (s.threads i) else s.threads i)
  pub queued :
      (i : ℕ)
      → count i t.ready
        ≡ count i s.ready + (if occurs i l && not (is_blocked (s.threads i)) then 1 else 0)
  pub same_env : (i : ℕ) → t.env i ≡ s.env i
  pub same_ids : t.unused_ids ≡ s.unused_ids
  pub same_current : t.current_thread ≡ s.current_thread
  pub same_total : t.total_quantums ≡ s.total_quantums

-- The members are live threads, each there once.
abbrev pub Releasable : List ℕ → State → Type 0
Releasable l s =
    (i : ℕ) → count i l ≤ (if is_some (s.threads i) && ltb i max_thread_num then 1 else 0)

release_one-Released :
    (s : State) (i : ℕ) (th : Thread)
    → s.threads i ≡ some th
    → Released (i ∷ []) s (release_one s i th)
unfolding release_one
release_one-Released s i th e = record {
  freed = λ j. ground arith;
  queued = λ j. ground (arith, count-snoc j i s.ready);
  same_env = λ j. refl;
  same_ids = refl;
  same_current = refl;
  same_total = refl;
}

Released-cons :
    (s t u : State) (i : ℕ) (l : List ℕ)
    → count i l ≡ 0
    → Released (i ∷ []) s t
    → Released l t u
    → Released (i ∷ l) s u
Released-cons s t u i l once a b = record {
  freed = λ j. ground (arith, a.freed j, b.freed j);
  queued = λ j. ground (arith, a.freed j, a.queued j, b.queued j);
  same_env = λ j. b.same_env j ∙ a.same_env j;
  same_ids = b.same_ids ∙ a.same_ids;
  same_current = b.same_current ∙ a.same_current;
  same_total = b.same_total ∙ a.same_total;
}

release_all-cons :
    (s : State) (i : ℕ) (l : List ℕ) (th : Thread)
    → i < max_thread_num
    → s.threads i ≡ some th
    → release_all (i ∷ l) s ≡ release_all l (release_one s i th)
unfolding release_all
release_all-cons s i l th h e = rw (with_thread_lem s i (release_one s i) h e, release_all)

-- The loop runs to its end and releases them all.
pub release_all_lem :
    (l : List ℕ) (s : State)
    → Releasable l s
    → (t : State) × (release_all l s ≡ some t) × Released l s t
unfolding release_all
release_all_lem [] s h = (
  s,
  refl,
  record {
    freed = λ i. refl;
    queued = λ i. ground arith;
    same_env = λ i. refl;
    same_ids = refl;
    same_current = refl;
    same_total = refl;
  },
)
release_all_lem (i ∷ l) s h = elim (Option-cases (s.threads i)) [
  | inl missing ↦ absurd (ground (arith, h i))
  | inr (th, e) ↦
      let (t, run, all) = release_all_lem l (release_one s i th) (later th e) in
      (
        t,
        release_all-cons s i l th (ground (arith, h i)) e ∙ run,
        Released-cons s (release_one s i th) t i l (ground (arith, h i))
            (release_one-Released s i th e) all,
      )
]
  where
    later : (th : Thread) → s.threads i ≡ some th → Releasable l (release_one s i th)
    later th e j = ground (arith, h j, (release_one-Released s i th e).freed j)
