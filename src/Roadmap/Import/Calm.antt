-- ===== src/Roadmap/Import/Calm.antt =====
-- Which parts of the import add no task to the tracker.
use release_ops.Common.{
  ℕ, zero, suc, String, ◌≡◌, refl, ◌∙◌, ◌≢◌, ◌⊎◌, inl, inr, false, length, List, [], ◌∷◌, Option,
  none, some, arith,
}
use release_ops.Common.Json.{Entries, lookup, insert}
use release_ops.Roadmap.{Task, Link}
use release_ops.Roadmap.Tracker.{
  Tracker, IsLawful, Request, creates_task, adds-creates_task, occurrences, all_tasks, M, Ends,
  after_call, ◌>>=◌, pure, list_tasks, search_tasks, get_task, create_label, add_label, put_status,
}
use release_ops.Roadmap.Planning.{Settings, Progress, leaves, github_issue_from_task}
use release_ops.Roadmap.Import.{
  search, wait_for_github_issue, ensure_label, finish_create, relate_both, wire_blockers,
  wire_parent, wire, make_ready, finish, tracked,
}

module _ (T : Tracker) (L : IsLawful T) where
  abbrev pub occ : String → T.State → ℕ
  occ id s = occurrences id (all_tasks (L.board s))

  -- How many tasks there are, with a marker or without.
  abbrev pub count : T.State → ℕ
  count s = length (all_tasks (L.board s))

  -- The same tasks, and no search that found something finds nothing.
  pub record Calm (s s' : T.State) : Type 0 where
    pub same : (id : String) → occ id s' ≡ occ id s
    pub number : count s' ≡ count s
    pub finds : (query : String) → L.found s query ≢ [] → L.found s' query ≢ []

  pub Calm-refl : (s : T.State) → Calm s s
  Calm-refl s = record { same = λ id. refl; number = refl; finds = λ query h. h }

  pub Calm-trans : (s t u : T.State) → Calm s t → Calm t u → Calm s u
  Calm-trans s t u h k = record {
    same = λ id. k.same id ∙ h.same id;
    number = k.number ∙ h.number;
    finds = λ query found. k.finds query (h.finds query found);
  }

  pub Calm-api : (r : Request) (s : T.State) → creates_task r ≡ false → Calm s (T.api r s).1
  Calm-api r s h = record {
    same = λ id. omega (arith, adds-creates_task r id h, L.adds_at_most r id s, L.keeps r id s);
    number = L.same_number r s h;
    finds = λ query found. L.still_finds r query s found;
  }

  -- A computation that adds no task, whether it fails or not.
  abbrev pub Leads : {A : Type 0} → M T.State A → Type 0
  Leads m = (s : T.State) → Calm s (m s).1

  reply-Ends :
      {A : Type 0} (s : T.State) (reply : A) (end : Option A × T.State)
      → Calm s end.1
      → (end.0 ≡ none) ⊎ (end.0 ≡ some reply)
      → Ends (Calm s) (λ a t. Calm s t × (a ≡ reply)) end
  reply-Ends s reply (none, t) c h = c
  reply-Ends s reply (some a, t) c (inl e) = cc
  reply-Ends s reply (some a, t) c (inr e) = (c, cc)

  -- The listing is that of the state; a search finds what the state has.
  pub list-Ends :
      (s : T.State) → Ends (Calm s) (λ board t. Calm s t × (board ≡ L.board s)) (T.api list_tasks s)
  list-Ends s = reply-Ends s (L.board s) _ (Calm-api list_tasks s refl) (L.list s)

  pub found-Ends :
      (query : String) (s : T.State)
      → Ends (Calm s) (λ hits t. Calm s t × (hits ≡ L.found s query)) (T.api (search_tasks query) s)
  found-Ends query s =
      reply-Ends s (L.found s query) _ (Calm-api (search_tasks query) s refl) (L.search query s)

  after_call-Calm :
      {A B : Type 0} (s : T.State) (f : A → M T.State B) (end : Option A × T.State)
      → Calm s end.1
      → ((a : A) → Leads (f a))
      → Calm s (after_call f end).1
  after_call-Calm s f (none, t) h k = h
  after_call-Calm s f (some a, t) h k = Calm-trans s t (f a t).1 h (k a t)

  pub Leads-bind :
      {A B : Type 0} (m : M T.State A) (f : A → M T.State B)
      → Leads m
      → ((a : A) → Leads (f a))
      → Leads (m >>= f)
  Leads-bind m f h k s = after_call-Calm s f (m s) (h s) k

  Leads-api : (r : Request) → creates_task r ≡ false → Leads (T.api r)
  Leads-api r h s = Calm-api r s h

  pub search-Leads : (id : String) → Leads (search T id)
  unfolding search
  search-Leads id = Leads-bind (T.api _) _ (Leads-api _ refl) (λ results. Calm-refl)

  wait-Leads : (polls : ℕ) (id : String) → Leads (wait_for_github_issue T polls id)
  unfolding wait_for_github_issue
  wait-Leads zero id = Calm-refl
  wait-Leads (suc polls) id =
      Leads-bind (T.api (get_task id)) _ (Leads-api _ refl)
        (λ task. look (github_issue_from_task task) (wait-Leads polls id))
    where
      look :
          (found : Option Link)
          → Leads (wait_for_github_issue T polls id)
          → Leads (elim found [
            | some link ↦ pure (some link)
            | none ↦ wait_for_github_issue T polls id
          ])
      look none h = h
      look (some link) h = Calm-refl

  ensure_label-Leads : (name : String) (p : Progress) → Leads (ensure_label T name p)
  unfolding ensure_label
  ensure_label-Leads name p = known (lookup name p.label_by_name)
    where
      known :
          (found : Option String)
          → Leads {A = String × Progress} (elim found [
            | some id ↦ pure (id, p)
            | none ↦ T.api (create_label name) >>= λ id.
                pure (id, record p { label_by_name = insert name id p.label_by_name })
          ])
      known (some id) = Calm-refl
      known none = Leads-bind (T.api (create_label name)) _ (Leads-api _ refl) (λ id. Calm-refl)

  pub finish_create-Leads :
      (settings : Settings) (task : Task) (p : Progress) (id : String)
      → Leads (finish_create T settings task p id)
  unfolding finish_create
  finish_create-Leads settings task p id =
      Leads-bind (wait_for_github_issue T settings.polls id) _ (wait-Leads settings.polls id)
        λ link.
          Leads-bind (ensure_label T task.domain _) _ (ensure_label-Leads task.domain _)
            λ (label_id, p').
              Leads-bind (T.api (add_label label_id id)) _ (Leads-api _ refl) (λ _. Calm-refl)

  relate_both-Leads :
      (kind : String) (source target : Option String) → Leads (relate_both T kind source target)
  relate_both-Leads kind (some source) (some target) = Leads-api _ refl
  relate_both-Leads kind (some source) none = Calm-refl
  relate_both-Leads kind none target = Calm-refl

  wire_blockers-Leads :
      (known : Entries String) (id : String) (blockers : List String)
      → Leads (wire_blockers T known id blockers)
  unfolding wire_blockers
  wire_blockers-Leads known id [] = Calm-refl
  wire_blockers-Leads known id (blocker ∷ rest) =
      Leads-bind (relate_both T "blocks" _ _) _ (relate_both-Leads "blocks" _ _)
        (λ _. wire_blockers-Leads known id rest)

  wire-Leads : (known : Entries String) (leaves : List Task) → Leads (wire T known leaves)
  unfolding wire
  wire-Leads known [] = Calm-refl
  wire-Leads known (leaf ∷ rest) =
      Leads-bind (wire_parent T known leaf) _ (of_parent leaf.parent) λ _.
        Leads-bind (wire_blockers T known leaf.id leaf.depends_on) _
          (wire_blockers-Leads known leaf.id leaf.depends_on) (λ _. wire-Leads known rest)
    where
      of_parent :
          (parent : Option String)
          → Leads (elim parent [
            | none ↦ pure tt
            | some parent ↦
                relate_both T "subtask" (tracked T known parent) (tracked T known leaf.id)
          ])
      of_parent none = Calm-refl
      of_parent (some parent) = relate_both-Leads "subtask" _ _

  make_ready-Leads : (known : Entries String) (tasks : List Task) → Leads (make_ready T known tasks)
  unfolding make_ready
  make_ready-Leads known [] = Calm-refl
  make_ready-Leads known (task ∷ rest) =
      Leads-bind _ _ (put (tracked T known task.id)) (λ _. make_ready-Leads known rest)
    where
      put :
          (id : Option String)
          → Leads (elim id [ none ↦ pure tt | some id ↦ T.api (put_status id "ready") ])
      put none = Calm-refl
      put (some id) = Leads-api _ refl

  pub finish-Leads : (tasks : List Task) (p : Progress) → Leads (finish T tasks p)
  unfolding finish
  finish-Leads tasks p =
      Leads-bind (wire T p.phasical_by_roadmap_id (leaves tasks)) _ (wire-Leads _ _) λ _.
        Leads-bind (make_ready T p.phasical_by_roadmap_id tasks) _ (make_ready-Leads _ _)
          (λ _. Calm-refl)
