-- ===== src/Roadmap/Tracker.antt =====
-- The tracker that scripts/import-roadmap-phasical.mjs calls by `api`. A call that fails ends the run,
-- with the tracker as the call left it.
use release_ops.Common.{
  ℕ, ◌+◌, ◌≤◌, String, ◌==◌, ◌≡◌, ◌≢◌, ◌⊎◌, Bool, true, false, refl, length, List, [], ◌∷◌, ◌++◌,
  Option, none, some, ◌or_else◌, if◌then◌else◌,
}
use release_ops.Roadmap.{Hit}
use release_ops.Roadmap.Marked.{roadmap_id_of}

pub record Board : Type 0 where
  pub columns : List (List Hit)
  pub archived : List Hit

-- A label of the workspace; one that is tied to a task has `task_id`.
pub record Label : Type 0 where
  pub id : String
  pub name : String
  pub task_id : Option String

pub record Draft : Type 0 where
  pub title : String
  pub description : String
  pub priority : String
  pub status : String
  pub user_id : Option String

-- The requests of `api`, and what each returns.
pub data Request : Type 0 where
  instance_status : Request
  list_tasks : Request
  search_tasks : (query : String) → Request
  get_task : (task_id : String) → Request
  list_labels : Request
  create_label : (name : String) → Request
  create_task : Draft → Request
  add_label : (label_id task_id : String) → Request
  relate : (source target relation_type : String) → Request
  put_status : (task_id status : String) → Request

abbrev pub Reply : Request → Type 0
Reply instance_status = Unit
Reply list_tasks = Board
Reply (search_tasks query) = List Hit
Reply (get_task task_id) = Hit
Reply list_labels = List Label
Reply (create_label name) = String
Reply (create_task draft) = String
Reply (add_label label_id task_id) = Unit
Reply (relate source target relation_type) = Unit
Reply (put_status task_id status) = Unit

-- The tracker behind `api`. A request returns or throws (`none`), and may change the state.
pub record Tracker : Type 1 where
  pub State : Type 0
  pub api : (r : Request) → State → Option (Reply r) × State

abbrev pub concat : List (List Hit) → List Hit
concat [] = []
concat (column ∷ columns) = column ++ concat columns

-- `listAllTasks`, on the board that came.
abbrev pub all_tasks : Board → List Hit
all_tasks board = concat board.columns ++ board.archived

abbrev pub marked_id : Hit → Option String
marked_id hit = roadmap_id_of (hit.description or_else "")

abbrev pub names : Option String → String → Bool
names none id = false
names (some other) id = other == id

-- How many tasks have the marker of an identifier.
unfoldable pub occurrences : String → List Hit → ℕ
occurrences id [] = 0
occurrences id (hit ∷ hits) = (if names (marked_id hit) id then 1 else 0) + occurrences id hits

-- How many such tasks a request may add.
unfoldable pub adds : Request → String → ℕ
adds (create_task draft) id = if names (roadmap_id_of draft.description) id then 1 else 0
adds _ id = 0

abbrev pub creates_task : Request → Bool
creates_task (create_task draft) = true
creates_task _ = false

pub adds-creates_task : (r : Request) (id : String) → creates_task r ≡ false → adds r id ≡ 0
unfolding adds
adds-creates_task (create_task draft) id h = absurd (cc)
adds-creates_task _ id h = refl

-- What the import relies on: the listing and the search report the state, and the status of the
-- instance is only read; a request adds no task but
-- the one that it creates, takes none away, and hides nothing from a search that found something; a
-- status is what was put last.
pub record IsLawful (T : Tracker) : Type 0 where
  pub board : T.State → Board
  pub found : T.State → String → List Hit
  pub status : T.State → String → Option String
  pub list :
      (s : T.State) → ((T.api list_tasks s).0 ≡ none) ⊎ ((T.api list_tasks s).0 ≡ some (board s))
  pub search :
      (query : String) (s : T.State)
      → ((T.api (search_tasks query) s).0 ≡ none)
        ⊎ ((T.api (search_tasks query) s).0 ≡ some (found s query))
  pub unmoved : (s : T.State) → board (T.api instance_status s).1 ≡ board s
  pub adds_at_most :
      (r : Request) (id : String) (s : T.State)
      → occurrences id (all_tasks (board (T.api r s).1))
        ≤ occurrences id (all_tasks (board s)) + adds r id
  pub same_number :
      (r : Request) (s : T.State)
      → creates_task r ≡ false
      → length (all_tasks (board (T.api r s).1)) ≡ length (all_tasks (board s))
  pub keeps :
      (r : Request) (id : String) (s : T.State)
      → occurrences id (all_tasks (board s)) ≤ occurrences id (all_tasks (board (T.api r s).1))
  pub creates :
      (draft : Draft) (id : String) (s : T.State)
      → ((T.api (create_task draft) s).0 ≢ none)
      → occurrences id (all_tasks (board s)) + adds (create_task draft) id
        ≤ occurrences id (all_tasks (board (T.api (create_task draft) s).1))
  pub still_finds :
      (r : Request) (query : String) (s : T.State)
      → found s query ≢ []
      → found (T.api r s).1 query ≢ []
  pub puts :
      (task_id value other : String) (s : T.State)
      → ((T.api (put_status task_id value) s).0 ≢ none)
      → status (T.api (put_status task_id value) s).1 other
        ≡ (if task_id == other then some value else status s other)

-- A computation that calls the tracker: it returns, or fails with the state that it leaves.
abbrev pub M : Type 0 → Type 0 → Type 0
M S A = S → Option A × S

abbrev pub after_call : {S A B : Type 0} → (A → M S B) → Option A × S → Option B × S
after_call f (none, s) = (none, s)
after_call f (some a, s) = f a s

infixl 5 ◌>>=◌ ◌>>◌
abbrev pub ◌>>=◌ : {S A B : Type 0} → M S A → (A → M S B) → M S B
◌>>=◌ m f s = after_call f (m s)

abbrev pub ◌>>◌ : {S A B : Type 0} → M S A → M S B → M S B
m >> k = m >>= λ _. k

abbrev pub pure : {S A : Type 0} → A → M S A
pure a s = (some a, s)

-- What holds at the end: of the state after a failure, of the result and the state otherwise.
abbrev pub Ends : {S A : Type 0} → (S → Type 0) → (A → S → Type 0) → Option A × S → Type 0
Ends P Q (none, s) = P s
Ends P Q (some a, s) = Q a s

pub Ends-always : {S A : Type 0} (end : Option A × S) → Ends (λ _. Unit {0}) (λ _ _. Unit {0}) end
Ends-always (none, s) = tt
Ends-always (some a, s) = tt

module _ {S : Type 0} (P : S → Type 0) where
  pub Ends-bind :
      {A B : Type 0} (Q : A → S → Type 0) (R : B → S → Type 0) (f : A → M S B) (end : Option A × S)
      → Ends P Q end
      → ((a : A) (s : S) → Q a s → Ends P R (f a s))
      → Ends P R (after_call f end)
  Ends-bind Q R f (none, s) h k = h
  Ends-bind Q R f (some a, s) h k = k a s h

  -- What holds of the state either way.
  pub Ends-state :
      {A : Type 0} (Q : S → Type 0) (end : Option A × S) → P end.1 → Q end.1 → Ends P (λ _. Q) end
  Ends-state Q (none, s) p q = p
  Ends-state Q (some a, s) p q = q

  -- A fact of the result, with one of the state.
  pub Ends-both :
      {A : Type 0} (Q : A → S → Type 0) (R : S → Type 0) (end : Option A × S)
      → P end.1
      → R end.1
      → Ends (λ _. Unit {0}) Q end
      → Ends P (λ a s. Q a s × R s) end
  Ends-both Q R (none, s) p r h = p
  Ends-both Q R (some a, s) p r h = (h, r)

  pub Ends-then :
      {A : Type 0} (Q R : A → S → Type 0) (end : Option A × S)
      → Ends P Q end
      → ((a : A) (s : S) → Q a s → R a s)
      → Ends P R end
  Ends-then Q R (none, s) h k = h
  Ends-then Q R (some a, s) h k = k a s h

  pub Ends-crash :
      {A : Type 0} (P' : S → Type 0) (Q : A → S → Type 0) (end : Option A × S)
      → Ends P Q end
      → ((s : S) → P s → P' s)
      → Ends P' Q end
  Ends-crash P' Q (none, s) h k = k s h
  Ends-crash P' Q (some a, s) h k = h

-- What a call does to the state, and what it does if it returns.
pub Ends-success :
    {S A : Type 0} (R Q : S → Type 0) (end : Option A × S)
    → R end.1
    → (end.0 ≢ none → Q end.1)
    → Ends (λ _. Unit {0}) (λ _ t. R t × Q t) end
Ends-success R Q (none, t) r q = tt
Ends-success R Q (some a, t) r q = (r, q (λ e. cc))
