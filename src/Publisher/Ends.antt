-- ===== src/Publisher/Ends.antt =====
-- How one run of `_post_first_comment_task` of apps/publisher/engine.py ends, by what the platform
-- promises of its answers.
use osir_ai.Prelude.{
  ℕ, suc, ◌+◌, ◌≤◌, ◌≡◌, ◌⊎◌, sym, subst, ◌∙◌, arith, Bool, true, false, not, inl, inr, Option,
  none, some, ◌==◌, if◌then◌else◌, refl, Text, truthy, Bool-cases,
}
use osir_ai.Records.{PlatformPost}
use osir_ai.Publisher.{first_comment_text}
use osir_ai.Publisher.Tables.{World}
use osir_ai.Publisher.Comment.{
  Failure, Lookup, no_lookup, answered, broken, Answer, no_comments, commented, refused, Exchange,
  CommentMessages, Ending, skipped, failure, on_platform, is_posted, is_ambiguous, is_retryable,
  before_publish, after_publish, after_lookup, after_connection, ending,
}

-- A failure that leaves open what became of the call: no rate limit, and no status or a 5xx.
abbrev pub IsUnknown : Failure → Type 0
IsUnknown f =
    (f.is_rate_limit ≡ false)
    × ((f.status_code ≡ none) ⊎ ((s : ℕ) × (f.status_code ≡ some s) × (500 ≤ s)))

-- What the platform promises of the answer to `publish_comment`, by the number of comments that are
-- there before and after: a call that is refused leaves a comment only where its outcome is unknown,
-- or where the failure is marked as one that no further call can mend.
abbrev pub IsAnswered : Answer → ℕ → ℕ → Type 0
IsAnswered no_comments live live1 = live1 ≡ live
IsAnswered (commented id) live live1 = live1 ≡ suc live
IsAnswered (refused f) live live1 =
    (live1 ≡ live) ⊎ ((live1 ≡ suc live) × (IsUnknown f ⊎ (f.retryable ≡ false)))

-- A provider that can look for a comment does look; what it finds is not assumed to be right.
abbrev pub IsLooked : Bool → Lookup → Type 0
IsLooked reconciles no_lookup = reconciles ≡ false
IsLooked reconciles (answered id) = Unit {0}
IsLooked reconciles (broken f) = Unit {0}

-- One where a lookup answers that there is no comment, though there is one.
abbrev pub overlooked : Lookup → ℕ → ℕ
overlooked no_lookup live = 0
overlooked (broken f) live = 0
overlooked (answered id) live = if truthy id then 0 else if live == 0 then 0 else 1

unknown-is_ambiguous : (f : Failure) → IsUnknown f → is_ambiguous f ≡ true
unfolding is_ambiguous
unknown-is_ambiguous f (plain, inl e) = rw (plain, e) refl
unknown-is_ambiguous f (plain, inr (s, e, high)) = rw (plain, e) (ground arith)

final-is_retryable : (f : Failure) → f.retryable ≡ false → is_retryable f ≡ false
unfolding is_retryable
final-is_retryable f e = rw e refl

-- The comments on the platform after a run that ends early, or that publishes.
abbrev pub IsLeft : Option Ending → Answer → ℕ → ℕ → Type 0
IsLeft (some early) answer live live1 = live1 ≡ live
IsLeft none answer live live1 = IsAnswered answer live live1

abbrev pub IsRun : CommentMessages → World → Exchange → Option PlatformPost → ℕ → ℕ → Type 0
IsRun m w x none live live1 = live1 ≡ live
IsRun m w x (some pp) live live1 =
    IsLeft (before_publish m (first_comment_text w pp) pp x) x.answer live live1

module _ (reconciles : Bool) where
  -- No second comment is on its way.
  abbrev pub IsSafe : PlatformPost → ℕ → Type 0
  IsSafe pp live = (live ≡ 0) ⊎ ((1 ≤ pp.comment_retries) × (reconciles ≡ true))

  -- What an ending leaves: at most so many comments, and a retry is queued only where none is there
  -- or where the provider can look for it.
  abbrev pub IsGoodEnd : ℕ → Ending → ℕ → Type 0
  IsGoodEnd most skipped live = live ≤ most
  IsGoodEnd most (on_platform id) live = live ≤ most
  IsGoodEnd most (failure retry message delay) live =
      (live ≤ most) × (retry ≡ true → (live ≡ 0) ⊎ (reconciles ≡ true))

  safe_still : (pp : PlatformPost) {live : ℕ} → IsSafe pp live → (live ≡ 0) ⊎ (reconciles ≡ true)
  safe_still pp (inl h) = inl h
  safe_still pp (inr (_, h)) = inr h

  published-IsGoodEnd :
      (answer : Answer) (live live1 most : ℕ)
      → (live ≡ 0) ⊎ (reconciles ≡ true)
      → suc live ≤ most
      → IsAnswered answer live live1
      → IsGoodEnd most (after_publish reconciles answer) live1
  unfolding after_publish
  published-IsGoodEnd no_comments live live1 most safe bound h = omega (arith, h)
  published-IsGoodEnd (commented id) live live1 most safe bound h = omega (arith, h)
  published-IsGoodEnd (refused f) live live1 most safe bound (inl h) =
      (omega (arith, h), λ e. subst (λ n. (n ≡ 0) ⊎ (reconciles ≡ true)) (sym h) safe)
  published-IsGoodEnd (refused f) live live1 most safe bound (inr (h, inl unknown)) =
      let ambiguous = unknown-is_ambiguous f unknown in
      (omega (arith, h), λ e. inr (ground (arith, ambiguous)))
  published-IsGoodEnd (refused f) live live1 most safe bound (inr (h, inr final)) =
      let stops = final-is_retryable f final in
      (omega (arith, h), λ e. absurd (ground (arith, stops)))

  looked-IsGoodEnd :
      (answer : Answer) (found : Lookup) (live live1 missed : ℕ)
      → live ≤ suc missed
      → (live ≡ 0) ⊎ (reconciles ≡ true)
      → IsLooked reconciles found
      → IsLeft (after_lookup found) answer live live1
      → IsGoodEnd
          (suc (overlooked found live + missed))
          (ending (after_lookup found) reconciles answer)
          live1
  looked-IsGoodEnd answer no_lookup live live1 missed bound (inl none_live) k left =
      published-IsGoodEnd answer live live1 (suc (0 + missed)) (inl none_live)
        (omega (arith, none_live)) left
  looked-IsGoodEnd answer no_lookup live live1 missed bound (inr can) k left =
      absurd (let clash : true ≡ false = sym can ∙ k in cc)
  looked-IsGoodEnd answer (broken f) live live1 missed bound safe k left =
      rw left (omega (arith, bound), λ _. safe)
  looked-IsGoodEnd answer (answered id) live live1 missed bound safe k left =
      elim (Bool-cases (truthy id)) [
        | inl e ↦
            let same_live : live1 ≡ live =
              subst (λ b. IsLeft (if b then some (on_platform id) else none) answer live live1) e
                left in
            rw e (omega arith)
        | inr e ↦ elim (Bool-cases (live == 0)) [
          | inl z ↦
              rw (e, z)
                (published-IsGoodEnd answer live live1 (suc (0 + missed)) safe (ground arith) (
                  subst (λ b. IsLeft (if b then some (on_platform id) else none) answer live live1)
                    e left))
          | inr z ↦
              rw (e, z)
                (published-IsGoodEnd answer live live1 (suc (1 + missed)) safe (omega arith) (
                  subst (λ b. IsLeft (if b then some (on_platform id) else none) answer live live1)
                    e left))
        ]
      ]

  connected-IsGoodEnd :
      (pp : PlatformPost) (answer : Answer) (found : Lookup) (live live1 missed : ℕ)
      → live ≤ suc missed
      → IsSafe pp live
      → IsLooked reconciles found
      → IsLeft (after_connection none pp found) answer live live1
      → IsGoodEnd
          (suc (overlooked found live + missed))
          (ending (after_connection none pp found) reconciles answer)
          live1
  connected-IsGoodEnd pp answer found live live1 missed bound safe k left =
      elim (Bool-cases (pp.comment_retries == 0)) [
        | inl e ↦
            let none_live = first_run (ground arith) safe in
            rw e (
              published-IsGoodEnd answer live live1 (suc (overlooked found live + missed))
                (inl none_live) (omega (arith, none_live))
                (subst (λ b. IsLeft (if not b then after_lookup found else none) answer live live1)
                  e left))
        | inr e ↦ rw e (
            looked-IsGoodEnd answer found live live1 missed bound (safe_still pp safe) k (
              subst (λ b. IsLeft (if not b then after_lookup found else none) answer live live1) e
                left))
      ]
    where
      first_run : pp.comment_retries ≡ 0 → IsSafe pp live → live ≡ 0
      first_run none_made (inl h) = h
      first_run none_made (inr (h, _)) = omega (arith, none_made)

  -- The task of a row with no second comment on its way ends well.
  pub task-IsGoodEnd :
      (m : CommentMessages) (comment : Text) (pp : PlatformPost) (x : Exchange)
      (live live1 missed : ℕ)
      → live ≤ suc missed
      → IsSafe pp live
      → IsLooked reconciles x.lookup
      → IsLeft (before_publish m comment pp x) x.answer live live1
      → IsGoodEnd
          (suc (overlooked x.lookup live + missed))
          (ending (before_publish m comment pp x) reconciles x.answer)
          live1
  unfolding before_publish
  task-IsGoodEnd m comment pp x live live1 missed bound safe k left =
      early (is_posted pp.comment_status) (not (truthy comment)) (not (truthy pp.platform_post_id))
        x.unreachable left
    where
      weaker : live ≤ suc (overlooked x.lookup live + missed)
      weaker = omega (arith, bound)

      early :
          (a b c : Bool) (o : Option Failure)
          → IsLeft
              (if a
                then some skipped
                else if b
                then some skipped
                else if c
                then some (failure false m.no_id none)
                else after_connection o pp x.lookup)
              x.answer
              live
              live1
          → IsGoodEnd
              (suc (overlooked x.lookup live + missed))
              (ending
                (if a
                  then some skipped
                  else if b
                  then some skipped
                  else if c
                  then some (failure false m.no_id none)
                  else after_connection o pp x.lookup)
                reconciles
                x.answer)
              live1
      early true b c o h = rw h weaker
      early false true c o h = rw h weaker
      early false false true o h = rw h (weaker, λ e. absurd (let clash = e in cc))
      early false false false (some f) h = rw h (weaker, λ _. safe_still pp safe)
      early false false false none h =
          connected-IsGoodEnd pp x.answer x.lookup live live1 missed bound safe k h
