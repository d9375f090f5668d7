-- ===== src/Roadmap/Import/Memory.antt =====
-- A tracker in memory, and two tasks, for the examples.
use release_ops.Common.{
  ◌+◌, ◌≤◌, String, ◌==◌, ◌≡◌, refl, eq_iff, subst, ◌≢◌, inl, inr, Bool, true, false, List, [], ◌∷◌,
  keep, length, Bool-cases, Option, none, some, arith, if◌then◌else◌,
}
use release_ops.Roadmap.{Task, epic_type, leaf_type, Link, Hit}
use release_ops.Roadmap.Tracker.{
  Tracker, IsLawful, Request, Reply, Board, Draft, adds, occurrences, marked_id, create_task,
  creates_task,
}
use release_ops.Roadmap.Planning.{Settings}
use release_ops.Roadmap.Import.{query_of}
use release_ops.Roadmap.Import.Calm.{occ}
use release_ops.Common.Text.{Lacks}
use release_ops.Roadmap.Import.Plain.{IsPlain}

pub record Memory : Type 0 where
  pub hits : List Hit
  pub status : String → Option String

abbrev new_hit : Draft → Hit
new_hit draft = record { id = draft.title; description = some draft.description; links = [] }

abbrev written : String → String → (String → Option String) → String → Option String
written id value status other = if id == other then some value else status other

abbrev issue : Link
issue = record { resource_type = "issue"; external_id = "7" }

abbrev fits : String → Option String → Bool
fits query none = false
fits query (some id) = query_of id == query

abbrev matching : String → Memory → List Hit
matching query m = keep (λ h. fits query (marked_id h)) m.hits

-- It names a task by its title, and its search goes by the markers.
abbrev answer : (r : Request) → Memory → Option (Reply r) × Memory
answer Request.instance_status m = (some tt, m)
answer Request.list_tasks m = (some (record { columns = []; archived = m.hits }), m)
answer (Request.search_tasks query) m = (some (matching query m), m)
answer (Request.get_task id) m =
    (some (record { id = id; description = none; links = issue ∷ [] }), m)
answer Request.list_labels m = (some [], m)
answer (Request.create_label name) m = (some name, m)
answer (Request.create_task draft) m =
    (some draft.title, record m { hits = new_hit draft ∷ m.hits })
answer (Request.add_label label id) m = (some tt, m)
answer (Request.relate source target kind) m = (some tt, m)
answer (Request.put_status id value) m = (some tt, record m { status = written id value m.status })

abbrev pub memory : Tracker
memory = record { State = Memory; api = answer }

abbrev pub memory_board : Memory → Board
memory_board m = record { columns = []; archived = m.hits }

pub answer-adds :
    (r : Request) (id : String) (m : Memory)
    → occurrences id (answer r m).1.hits ≡ occurrences id m.hits + adds r id
unfolding occurrences adds
answer-adds (Request.create_task draft) id m = ground arith
answer-adds _ id m = omega arith

pub answer_finds :
    (r : Request) (query : String) (m : Memory)
    → matching query m ≢ []
    → matching query (answer r m).1 ≢ []
answer_finds (Request.create_task draft) query m h =
    elim (Bool-cases (fits query (marked_id (new_hit draft)))) [
      | inl fit ↦ rw fit (λ e. cc)
      | inr other ↦ rw other h
    ]
answer_finds _ query m h = h

pub answer_same_number :
    (r : Request) (m : Memory) → creates_task r ≡ false → length (answer r m).1.hits ≡ length m.hits
answer_same_number (Request.create_task draft) m h = absurd (cc)
answer_same_number _ m h = refl

unfoldable pub memory-IsLawful : IsLawful memory
memory-IsLawful = record {
  board = memory_board;
  found = λ m query. matching query m;
  status = λ m id. m.status id;
  list = λ m. inr refl;
  search = λ query m. inr refl;
  unmoved = λ m. refl;
  adds_at_most = λ r id m. omega (arith, answer-adds r id m);
  same_number = answer_same_number;
  keeps = λ r id m. omega (arith, answer-adds r id m);
  creates = λ draft id m ok. omega (arith, answer-adds (create_task draft) id m);
  still_finds = answer_finds;
  puts = λ id value other m ok. refl;
}

abbrev seven : String → Option String
seven text = if text == "7" then some "7" else none

abbrev pub applying : Settings
applying = record {
  apply = true;
  has_api_key = true;
  user_id = some "u1";
  polls = 2;
  number = seven;
}

seven-plain : (b : Bool) (n : String) → (if b then some "7" else none) ≡ some n → Lacks b'*' n
seven-plain true n e = subst (Lacks b'*') (some_inj e) (refl, tt)
  where
    some_inj : {a b : String} → some a ≡ some b → a ≡ b
    some_inj e = cc
seven-plain false n e = absurd (cc)

pub applying-IsPlain : IsPlain applying
applying-IsPlain text n e = seven-plain (text == "7") n e

abbrev no_status : String → Option String
no_status id = none

abbrev pub empty : Memory
empty = record { hits = []; status = no_status }

pub empty_once : (id : String) → occ memory memory-IsLawful id empty ≤ 1
unfolding occurrences memory-IsLawful
empty_once id = omega arith

abbrev pub epic_task : Task
epic_task = record {
  id = "E01";
  type = epic_type;
  parent = none;
  title = "Repositories";
  domain = "backend";
  priority = "high";
  depends_on = [];
  doc_ref = [];
  description = "Watch them.\n\n---\n\n**Roadmap ID:** E01";
  acceptance_criteria = none;
  files = none;
  tests = none;
  lane = "S";
}

abbrev pub leaf_task : Task
leaf_task = record epic_task {
  id = "E01-01";
  type = leaf_type;
  parent = some "E01";
  title = "List";
  depends_on = "E01" ∷ [];
  description = "List them.\n\n---\n\n**Roadmap ID:** E01-01";
}

abbrev pub roadmap : List Task
roadmap = leaf_task ∷ epic_task ∷ []

pub ids_apart : leaf_task.id ≢ epic_task.id
ids_apart e = let h : false ≡ true = (eq_iff "E01-01" "E01").1 e in cc
