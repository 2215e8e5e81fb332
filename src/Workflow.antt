-- ===== src/Workflow.antt =====
-- The editorial state machine of a platform post: `PlatformPost.Status`, `VALID_TRANSITIONS` and
-- the status tests of apps/composer/models.py.
pub mod Aggregate
pub mod Lowest
pub mod Mixed
pub mod Runs
pub mod Examples
use osir_ai.Prelude.{ℕ, Bool, true, false, ◌||◌, List, [], ◌∷◌, ◌==◌}

-- `PlatformPost.Status`, with the aggregate-only `partially_published`.
pub data Status : Type 0 where
  draft pending_review pending_client approved changes_requested rejected : Status
  scheduled publishing published failed on_hold partially_published : Status

-- A number for each status, by which the strings are compared.
abbrev pub status_code : Status → ℕ
status_code draft = 0
status_code pending_review = 1
status_code pending_client = 2
status_code approved = 3
status_code changes_requested = 4
status_code rejected = 5
status_code scheduled = 6
status_code publishing = 7
status_code published = 8
status_code failed = 9
status_code on_hold = 10
status_code partially_published = 11

-- `s == t` on statuses
abbrev pub same : Status → Status → Bool
same s t = status_code s == status_code t

-- `s in ss`
abbrev pub status_in : Status → List Status → Bool
status_in s [] = false
status_in s (t ∷ ts) = same s t || status_in s ts

-- `VALID_TRANSITIONS.get(s, set())`
abbrev pub valid_transitions : Status → List Status
valid_transitions draft = pending_review ∷ scheduled ∷ publishing ∷ []
valid_transitions pending_review = approved ∷ changes_requested ∷ rejected ∷ []
valid_transitions approved =
    pending_client ∷ scheduled ∷ publishing ∷ draft ∷ on_hold ∷ pending_review ∷ []
valid_transitions pending_client = approved ∷ changes_requested ∷ rejected ∷ []
valid_transitions changes_requested = pending_review ∷ draft ∷ []
valid_transitions rejected = draft ∷ pending_review ∷ []
valid_transitions scheduled = publishing ∷ draft ∷ []
valid_transitions publishing = published ∷ failed ∷ scheduled ∷ []
valid_transitions failed = publishing ∷ draft ∷ scheduled ∷ []
valid_transitions on_hold = approved ∷ draft ∷ changes_requested ∷ []
valid_transitions published = []
valid_transitions partially_published = []

unfoldable pub can_transition_to : Status → Status → Bool
can_transition_to s t = status_in t (valid_transitions s)

abbrev pub protected_statuses : List Status
protected_statuses = published ∷ publishing ∷ []

abbrev pub reschedulable_statuses : List Status
reschedulable_statuses =
    draft ∷ approved ∷ scheduled ∷ failed ∷ pending_review ∷ pending_client ∷ []
