-- ===== src/Calendar/Reach.antt =====
-- Which platform posts a bulk action may change, said without the selection of
-- apps/calendar/services.py.
use osir_ai.Prelude.{
  ℕ, ◌≡◌, ◌∙◌, refl, ap, arith, Bool, true, false, ◌&&◌, ◌||◌, not, inl, inr, List, [], ◌∷◌, none,
  some, ◌==◌, if◌then◌else◌, find, member, Bool-cases, Option-cases,
}
use osir_ai.Workflow.{
  Status, draft, pending_review, pending_client, approved, changes_requested, rejected, scheduled,
  publishing, published, failed, on_hold, partially_published, status_in,
}
use osir_ai.Records.{Post, PlatformPost}
use osir_ai.Calendar.{protected_statuses}
use osir_ai.Calendar.Repair.{in_workspace}
use osir_ai.Calendar.Drag.{Caller, is_author}
use osir_ai.Calendar.Bulk.{is_selected}

-- Whether the post, the first of the table with its key, is in the workspace and is the caller's own
-- or of anyone, for a caller who may edit posts of others.
abbrev pub may_touch : Caller → ℕ → List Post → ℕ → Bool
may_touch caller workspace [] post = false
may_touch caller workspace (p ∷ rest) post =
    let later = may_touch caller workspace rest post in
    if p.id == post
    then p.workspace == workspace
      && (caller.edit_others_posts || elim p.author [ none ↦ false | some a ↦ a == caller.user ])
    else later

-- The statuses that no bulk action changes.
abbrev pub is_fixed : Status → Bool
is_fixed publishing = true
is_fixed published = true
is_fixed s = false

-- A row that a bulk action has to leave as it is.
abbrev pub is_out : Caller → ℕ → List ℕ → List Post → PlatformPost → Bool
is_out caller workspace ids posts r =
    not (member r.id ids && may_touch caller workspace posts r.post) || is_fixed r.status

pub fixed-protected : (s : Status) → is_fixed s ≡ status_in s protected_statuses
fixed-protected draft = refl
fixed-protected pending_review = refl
fixed-protected pending_client = refl
fixed-protected approved = refl
fixed-protected changes_requested = refl
fixed-protected rejected = refl
fixed-protected scheduled = refl
fixed-protected publishing = refl
fixed-protected published = refl
fixed-protected failed = refl
fixed-protected on_hold = refl
fixed-protected partially_published = refl

own_or_others :
    (user : ℕ) (p : Post) (others : Bool)
    → (others || elim p.author [ none ↦ false | some a ↦ a == user ])
      ≡ (is_author user (some p) || others)
own_or_others user p others = elim (Option-cases p.author) [
  | inl e ↦ rw e (ground arith)
  | inr (a, e) ↦ rw e (ground arith)
]

pub may_touch-selected :
    (caller : Caller) (workspace : ℕ) (posts : List Post) (post : ℕ)
    → (in_workspace (find (λ p. p.id == post) posts) workspace
        && (is_author caller.user (find (λ p. p.id == post) posts) || caller.edit_others_posts))
      ≡ may_touch caller workspace posts post
may_touch-selected caller workspace [] post = refl
may_touch-selected caller workspace (p ∷ rest) post = elim (Bool-cases (p.id == post)) [
  | inl e ↦ rw (e, own_or_others caller.user p caller.edit_others_posts) refl
  | inr e ↦ rw e (may_touch-selected caller workspace rest post)
]

and_assoc : (a b c : Bool) → (a && b && c) ≡ (a && (b && c))
and_assoc true b c = refl
and_assoc false b c = refl

-- The selection of the code.
pub selected-may_touch :
    (caller : Caller) (workspace : ℕ) (ids : List ℕ) (posts : List Post) (r : PlatformPost)
    → is_selected caller workspace ids posts r
      ≡ (member r.id ids && may_touch caller workspace posts r.post)
unfolding is_selected
selected-may_touch caller workspace ids posts r =
    and_assoc (member r.id ids) _ _
    ∙ ap (λ b. member r.id ids && b) (may_touch-selected caller workspace posts r.post)
