-- ===== src/MapReduce/Mapping.antt =====
-- ex3/MapReduceFramework.cpp: the phases in which the threads map the inputs and sort their own pairs.
--
-- The client's `map` is an argument: the pairs that it hands to `emit2` for an input, in order. A
-- thread's `vector` is its entry of `intermediateVectors`, which no other thread touches in these phases;
-- the atomic index is shared, so a step of a thread is one increment of it, or one call of `map`.
use os.Common.{
  ℕ, zero, suc, ◌+◌, ◌*◌, ◌%◌, ◌^◌, ◌<◌, ◌≡◌, Bool, true, false, Option, none, some, List, [], ◌∷◌,
  ◌++◌, if◌then◌else◌, update, ◌≢◌,
}
use os.MapReduce.Shuffle.{Pair, Vec}
pub mod Emitted
pub mod Grouped

-- Where a thread stands in `mapPhase`.
pub data Place : Type 0 where
  fetching : Place
  mapping : Pair → Place
  finished : Place

pub record Worker : Type 0 where
  pub place : Place
  pub vector : Vec

-- `inputVectorIndex` and the threads.
pub record Mapping : Type 0 where
  pub index : ℕ
  pub worker : ℕ → Worker

-- `unsigned long`
abbrev pub ulong_mod : ℕ
ulong_mod = 18446744073709551616

abbrev pub get_elem? : List Pair → ℕ → Option Pair
get_elem? [] i = none
get_elem? (x ∷ xs) zero = some x
get_elem? (x ∷ xs) (suc i) = get_elem? xs i

-- `emit2`
unfoldable pub emit2 : Worker → Pair → Worker
emit2 w p = record w { vector = w.vector ++ p ∷ [] }

-- The calls of `emit2` in one call of the client's `map`.
unfoldable pub emit_all : Worker → Vec → Worker
emit_all w [] = w
emit_all w (p ∷ ps) = emit_all (emit2 w p) ps

-- The test of the index against the number of inputs: past the last input there is none.
abbrev pub fetched : Option Pair → Place
fetched none = finished
fetched (some x) = mapping x

-- One step of thread `i` in the loop of `mapPhase`.
unfoldable pub map_step : (Pair → Vec) → List Pair → Mapping → ℕ → Place → Mapping
map_step client_map inputs s i fetching = record s {
  index = (s.index + 1) % ulong_mod;
  worker = update s.worker i (record (s.worker i) { place = fetched (get_elem? inputs s.index) });
}
map_step client_map inputs s i (mapping x) = record s {
  worker = update s.worker i (record (emit_all (s.worker i) (client_map x)) { place = fetching });
}
map_step client_map inputs s i finished = s

-- Before `mapPhase`.
unfoldable pub map_init : Mapping
map_init = record { index = 0; worker = λ i. record { place = fetching; vector = [] } }

-- `n` threads after `k` steps in any order; a thread that has finished makes none.
pub data Reach (client_map : Pair → Vec) (inputs : List Pair) (n : ℕ) : ℕ → Mapping → Type 0 where
  start : Reach client_map inputs n 0 map_init
  later :
      {k : ℕ} {s : Mapping} {p : Place}
      → Reach client_map inputs n k s
      → (i : ℕ) → i < n
      → (s.worker i).place ≡ p
      → p ≢ finished
      → Reach client_map inputs n (suc k) (map_step client_map inputs s i p)

-- What one thread alone emits that maps the inputs from first to last.
unfoldable pub sequential : (Pair → Vec) → List Pair → Vec
sequential client_map [] = []
sequential client_map (x ∷ xs) = client_map x ++ sequential client_map xs

-- What `std::sort` asks of an order: its behaviour is undefined for any other.
pub record StrictWeak (less : ℕ → ℕ → Bool) : Type 0 where
  pub irreflexive : (a : ℕ) → less a a ≡ false
  pub transitive : (a b c : ℕ) → less a b ≡ true → less b c ≡ true → less a c ≡ true
  pub incomparable :
      (a b c : ℕ)
      → less a b ≡ false
      → less b a ≡ false
      → less b c ≡ false
      → less c b ≡ false
      → less a c ≡ false

-- `sort` by `intermediatePairComp` in `sortPhase`, by insertion; `less` is the order of the keys. It stands for
-- the code where `less` is a strict weak order; how `std::sort` orders equal keys is left open by the library.
unfoldable pub insert_pair : (ℕ → ℕ → Bool) → Pair → Vec → Vec
insert_pair less p [] = p ∷ []
insert_pair less p (q ∷ v) =
    let rest = insert_pair less p v in if less q.0 p.0 then q ∷ rest else p ∷ q ∷ v

unfoldable pub sort_phase : (ℕ → ℕ → Bool) → Vec → Vec
sort_phase less [] = []
sort_phase less (p ∷ v) = insert_pair less p (sort_phase less v)

-- `intermediateVectors` once each thread has sorted its own.
unfoldable pub sorted_vectors : (ℕ → ℕ → Bool) → (ℕ → Worker) → ℕ → List Vec
sorted_vectors less worker zero = []
sorted_vectors less worker (suc n) =
    sorted_vectors less worker n ++ sort_phase less (worker n).vector ∷ []
