-- ===== src/Review/Merger.antt =====
-- Merging the reviews of the batches of one meeting
-- (backend/app/application/services/meeting_review_merger.py).
pub mod Deduplicated
pub mod Order
use ai_meeting_copilot.Prelude.{
  ℕ, suc, Bool, true, false, ◌&&◌, ◌||◌, Option, none, some, List, [], ◌∷◌, ◌++◌, map, arith, leb,
  ◌==◌, if◌then◌else◌, ◌>>=◌, ◌>>◌, raise_if, application_validation, Result, err, ok, Text,
  is_empty, ◌=ᵗ◌,
}
use ai_meeting_copilot.Review.Artifact.{
  ReviewActionItem, ReviewOpenQuestion, ReviewTechnicalTerm, ReviewInterviewQuestion,
  ReviewFeedback, MeetingReviewContent, feedback_post_init, content_post_init,
}

pub record BatchReviewResult : Type 0 where
  pub batch_index : ℕ
  pub content : MeetingReviewContent

-- `sorted(batches, key=…)`, which keeps equal keys in their order
abbrev pub insert_batch : BatchReviewResult → List BatchReviewResult → List BatchReviewResult
insert_batch b [] = b ∷ []
insert_batch b (x ∷ xs) =
    let rest = insert_batch b xs in if leb b.batch_index x.batch_index then b ∷ x ∷ xs else x ∷ rest

abbrev pub sort_batches : List BatchReviewResult → List BatchReviewResult
sort_batches [] = []
sort_batches (b ∷ bs) = insert_batch b (sort_batches bs)

-- `[…] == list(range(…))`, from the first index on
abbrev pub is_range : ℕ → List BatchReviewResult → Bool
is_range start [] = true
is_range start (b ∷ bs) = b.batch_index == start && is_range (suc start) bs

-- `_validate_and_order`
unfoldable pub validate_and_order : List BatchReviewResult → Result (List BatchReviewResult)
validate_and_order batches = do
  raise_if (is_empty batches) application_validation
  let ordered = sort_batches batches
  (if is_range 0 ordered then ok ordered else err application_validation)

module _ {A : Type 0} (same : A → A → Bool) where
  -- `item in retained`
  abbrev pub is_in : A → List A → Bool
  is_in item [] = false
  is_in item (x ∷ xs) = same item x || is_in item xs

  -- The loop of `_deduplicate`, from what is retained so far.
  unfoldable pub deduplicate_from : List A → List A → List A
  deduplicate_from retained [] = retained
  deduplicate_from retained (item ∷ items) =
      deduplicate_from (if is_in item retained then retained else retained ++ (item ∷ [])) items

  -- `_deduplicate`
  unfoldable pub deduplicate : List A → List A
  deduplicate items = deduplicate_from [] items

-- `==` of the values that are compared: of two optional texts, and of the records.
abbrev pub same_option : Option Text → Option Text → Bool
same_option none none = true
same_option (some s) (some t) = s =ᵗ t
same_option _ _ = false

abbrev pub same_action : ReviewActionItem → ReviewActionItem → Bool
same_action a b =
    a.text =ᵗ b.text && same_option a.owner b.owner && same_option a.due_date b.due_date

abbrev pub same_open_question : ReviewOpenQuestion → ReviewOpenQuestion → Bool
same_open_question a b = a.question =ᵗ b.question

abbrev pub same_term : ReviewTechnicalTerm → ReviewTechnicalTerm → Bool
same_term a b = a.term =ᵗ b.term && a.explanation =ᵗ b.explanation

abbrev pub same_question : ReviewInterviewQuestion → ReviewInterviewQuestion → Bool
same_question a b =
    a.question =ᵗ b.question
    && same_option a.answer_summary b.answer_summary
    && same_option a.evaluation b.evaluation
    && same_option a.improvement_suggestion b.improvement_suggestion

-- `item for content in contents for item in …`
abbrev pub gather : {A B : Type 0} → (A → List B) → List A → List B
gather f [] = []
gather f (x ∷ xs) = f x ++ gather f xs

-- `"\n\n".join(…)`
abbrev pub join_paragraphs : List Text → Text
join_paragraphs [] = []
join_paragraphs (s ∷ []) = s
join_paragraphs (s ∷ t ∷ ts) = s ++ (10 ∷ 10 ∷ join_paragraphs (t ∷ ts))

-- The feedback of the contents that have one.
abbrev feedbacks : List MeetingReviewContent → List ReviewFeedback
feedbacks [] = []
feedbacks (c ∷ cs) = elim c.feedback [ none ↦ feedbacks cs | some f ↦ f ∷ feedbacks cs ]

-- `_merge_feedback`
unfoldable pub merge_feedback : List MeetingReviewContent → Result (Option ReviewFeedback)
merge_feedback contents =
    let items = feedbacks contents in
    if is_empty items
    then ok none
    else feedback_post_init (record {
      strengths = deduplicate ◌=ᵗ◌ (gather (λ f. f.strengths) items);
      improvement_areas = deduplicate ◌=ᵗ◌ (gather (λ f. f.improvement_areas) items);
      overall_feedback = join_paragraphs (map (λ f. f.overall_feedback) items);
    })
      >>= λ f. ok (some f)

-- `merge`
unfoldable pub merge : List BatchReviewResult → Result MeetingReviewContent
merge batches = do
  ordered ← validate_and_order batches
  let contents = map (λ b. b.content) ordered
  feedback ← merge_feedback contents
  content_post_init (record {
    summary = join_paragraphs (map (λ c. c.summary) contents);
    key_decisions = deduplicate ◌=ᵗ◌ (gather (λ c. c.key_decisions) contents);
    action_items = deduplicate same_action (gather (λ c. c.action_items) contents);
    open_questions = deduplicate same_open_question (gather (λ c. c.open_questions) contents);
    technical_questions = deduplicate same_question (gather (λ c. c.technical_questions) contents);
    technical_terms = deduplicate same_term (gather (λ c. c.technical_terms) contents);
    feedback = feedback;
  })
