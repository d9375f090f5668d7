-- ===== src/Roadmap/Spec/Tests.antt =====
-- References and drift of a small roadmap.
use release_ops.Common.{◌≡◌, refl, true, [], ◌∷◌}
use release_ops.Roadmap.Import.Memory.{epic_task, leaf_task}
use release_ops.Roadmap.Spec.{
  Requirement, coverage, drift, api_ui_pairs, Entry, in_lists, in_description, broken_refs,
  broken_from,
}

abbrev epic_entry : Entry
epic_entry = record { task = epic_task; related_tasks = [] }

abbrev stale_entry : Entry
stale_entry = record {
  task = record leaf_task {
    description = "After P03-02 and P03-02, see E09-01.";
    depends_on = "E01" ∷ "E08" ∷ [];
  };
  related_tasks = [];
}

-- Both kinds of reference are found, each once; `E09-01` in a description is not looked at.
stale_refs :
    broken_refs (stale_entry ∷ epic_entry ∷ [])
    ≡ record { source = "E01-01"; ref = "E08"; place = in_lists }
      ∷ record { source = "E01-01"; ref = "P03-02"; place = in_description }
      ∷ []
unfolding broken_from
stale_refs = refl

abbrev needs_runs : Requirement
needs_runs = record {
  id = "API-POLL-RUNS";
  area = "api";
  requirement = "GET /api/v1/poll/runs";
  matches = λ t. true;
}

-- The endpoint has a task, and its page is not among the requirements.
runs_drift :
    drift (coverage (leaf_task ∷ []) (needs_runs ∷ [])) api_ui_pairs
    ≡ record {
      pair = record {
        api = "API-POLL-RUNS";
        ui = "POLL-RUNS-UI";
        note = "GET poll/runs needs dashboard/history UI";
      };
      api_tasks = "E01-01" ∷ [];
    }
      ∷ []
runs_drift = refl
