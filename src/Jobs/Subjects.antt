-- ===== src/Jobs/Subjects.antt =====
-- internal/nats/streams.go: the subject and the consumer of each job type. The switches take the
-- type as a string; `job_type_name` is the string of each constant of internal/jobs/types.go.
use qtest.Prelude.{
  ◌≡◌, ◌≢◌, refl, ◌⊎◌, inl, inr, String, Bool, true, false, Option, none, some, List, [], ◌∷◌, ap,
  sym, ◌∙◌, Bool-cases, str_eq, str_eq_iff, if◌then◌else◌,
}
use qtest.Jobs.Types.{
  JobType, ingestion, modeling, planning, generation, validation, mutation, integration, other,
}

abbrev pub job_type_name : JobType → String
job_type_name ingestion = "ingestion"
job_type_name modeling = "modeling"
job_type_name planning = "planning"
job_type_name generation = "generation"
job_type_name validation = "validation"
job_type_name mutation = "mutation"
job_type_name integration = "integration"
job_type_name (other s) = s

-- `SubjectForJobType`; the empty string for a type that is none of the seven.
unfoldable pub subject_for_job_type : String → String
subject_for_job_type t =
    if str_eq t "ingestion"
    then "jobs.ingestion"
    else if str_eq t "modeling"
    then "jobs.modeling"
    else if str_eq t "planning"
    then "jobs.planning"
    else if str_eq t "generation"
    then "jobs.generation"
    else if str_eq t "validation"
    then "jobs.validation"
    else if str_eq t "mutation"
    then "jobs.mutation"
    else if str_eq t "integration"
    then "jobs.integration"
    else ""

-- `ConsumerForJobType`
unfoldable pub consumer_for_job_type : String → String
consumer_for_job_type t =
    if str_eq t "ingestion"
    then "ingestion-worker"
    else if str_eq t "modeling"
    then "modeling-worker"
    else if str_eq t "planning"
    then "planning-worker"
    else if str_eq t "generation"
    then "generation-worker"
    else if str_eq t "validation"
    then "validation-worker"
    else if str_eq t "mutation"
    then "mutation-worker"
    else if str_eq t "integration"
    then "integration-worker"
    else ""

-- The table of consumers in `SetupStreams`, with the subject that each is given.
abbrev pub consumers : List (String × String)
consumers =
    ("ingestion-worker", "jobs.ingestion")
    ∷ ("modeling-worker", "jobs.modeling")
    ∷ ("planning-worker", "jobs.planning")
    ∷ ("generation-worker", "jobs.generation")
    ∷ ("validation-worker", "jobs.validation")
    ∷ ("mutation-worker", "jobs.mutation")
    ∷ ("integration-worker", "jobs.integration")
    ∷ []

-- The subject that the table gives to a consumer.
unfoldable pub subject_of_consumer : String → List (String × String) → Option String
subject_of_consumer c [] = none
subject_of_consumer c ((name, subject) ∷ rest) =
    if str_eq name c then some subject else subject_of_consumer c rest

abbrev pub is_constant : JobType → Bool
is_constant (other _) = false
is_constant _ = true

pub known :
    (t : String)
    → ((j : JobType) × (is_constant j ≡ true) × (t ≡ job_type_name j))
      ⊎ ((subject_for_job_type t ≡ "") × (consumer_for_job_type t ≡ ""))
unfolding subject_for_job_type consumer_for_job_type
known t = elim (Bool-cases (str_eq t "ingestion")) [
  | inl e ↦ inl (ingestion, refl, (str_eq_iff t _).0 e)
  | inr n1 ↦ elim (Bool-cases (str_eq t "modeling")) [
    | inl e ↦ inl (modeling, refl, (str_eq_iff t _).0 e)
    | inr n2 ↦ elim (Bool-cases (str_eq t "planning")) [
      | inl e ↦ inl (planning, refl, (str_eq_iff t _).0 e)
      | inr n3 ↦ elim (Bool-cases (str_eq t "generation")) [
        | inl e ↦ inl (generation, refl, (str_eq_iff t _).0 e)
        | inr n4 ↦ elim (Bool-cases (str_eq t "validation")) [
          | inl e ↦ inl (validation, refl, (str_eq_iff t _).0 e)
          | inr n5 ↦ elim (Bool-cases (str_eq t "mutation")) [
            | inl e ↦ inl (mutation, refl, (str_eq_iff t _).0 e)
            | inr n6 ↦ elim (Bool-cases (str_eq t "integration")) [
              | inl e ↦ inl (integration, refl, (str_eq_iff t _).0 e)
              | inr n7 ↦ inr (rw (n1, n2, n3, n4, n5, n6, n7), rw (n1, n2, n3, n4, n5, n6, n7))
            ]
          ]
        ]
      ]
    ]
  ]
]

subject_of_constant :
    (j : JobType)
    → is_constant j ≡ true
    → subject_of_consumer (consumer_for_job_type (job_type_name j)) consumers
      ≡ some (subject_for_job_type (job_type_name j))
unfolding subject_for_job_type consumer_for_job_type subject_of_consumer
subject_of_constant (other s) h = cc
subject_of_constant ingestion h = refl
subject_of_constant _ h = refl

-- The consumer that a worker of a type reads from is set up on the subject that jobs of the type
-- are published to, for every type that has a subject.
consumer-subject :
    (t : String)
    → subject_for_job_type t ≢ ""
    → subject_of_consumer (consumer_for_job_type t) consumers ≡ some (subject_for_job_type t)
consumer-subject t h = elim (known t) [
  | inl (j, c, e) ↦ rw e (subject_of_constant j c)
  | inr (none', _) ↦ absurd (h none')
]

-- The type that a subject is for.
type_of_subject : String → JobType
type_of_subject s =
    if str_eq s "jobs.ingestion"
    then ingestion
    else if str_eq s "jobs.modeling"
    then modeling
    else if str_eq s "jobs.planning"
    then planning
    else if str_eq s "jobs.generation"
    then generation
    else if str_eq s "jobs.validation"
    then validation
    else if str_eq s "jobs.mutation"
    then mutation
    else if str_eq s "jobs.integration"
    then integration
    else other ""

type_of_subject-subject :
    (j : JobType)
    → is_constant j ≡ true
    → type_of_subject (subject_for_job_type (job_type_name j)) ≡ j
unfolding subject_for_job_type type_of_subject
type_of_subject-subject (other s) h = cc
type_of_subject-subject ingestion h = refl
type_of_subject-subject _ h = refl

-- Two types with the same subject are the same, unless neither has one.
subject_injective :
    (s t : String)
    → subject_for_job_type s ≡ subject_for_job_type t
    → (s ≡ t) ⊎ (subject_for_job_type s ≡ "")
subject_injective s t h = elim (known s) [
  | inr (none', _) ↦ inr none'
  | inl (j, c, e) ↦ elim (known t) [
    | inr (none', _) ↦ inr (h ∙ none')
    | inl (i, d, f) ↦
        let same : j ≡ i =
          sym (type_of_subject-subject j c)
          ∙ ap type_of_subject (ap subject_for_job_type (sym e) ∙ h ∙ ap subject_for_job_type f)
          ∙ type_of_subject-subject i d in
        inl (e ∙ ap job_type_name same ∙ sym f)
  ]
]
